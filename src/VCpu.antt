-- ===== src/VCpu.antt =====
-- src/VCpu.cpp: a vCPU's descriptor and its mapped run structure.
pub mod Registers
use min_bp.Prelude.{none, Bool, not, ◌&&◌, List, length, u32, ℕ, ◌==◌, some, if◌then◌else◌}
use min_bp.Prelude.Result.{Result, ok, err, ErrorCode, error_code}
use min_bp.Kvm.{null, map_failed, CpuidEntry, Fd, Regs, Sregs, KvmRun, Machine, Kvm, set_kernel}

pub data ExitReason : Type 0 where
  unknown io hypercall debug hlt mmio irq_window_open shutdown fail_entry intr set_tpr : ExitReason
  tpr_access s390_sieic s390_reset dcr nmi internal_error osi papr_hcall : ExitReason
  system_event : ExitReason
  unnamed : ℕ → ExitReason

-- `static_cast<ExitReason>(exit_reason)`; a value that no enumerator has is `unnamed`.
unfoldable pub exit_reason : ℕ → ExitReason
exit_reason n =
    if n == 0
    then ExitReason.unknown
    else if n == 2
    then ExitReason.io
    else if n == 3
    then ExitReason.hypercall
    else if n == 4
    then ExitReason.debug
    else if n == 5
    then ExitReason.hlt
    else if n == 6
    then ExitReason.mmio
    else if n == 7
    then ExitReason.irq_window_open
    else if n == 8
    then ExitReason.shutdown
    else if n == 9
    then ExitReason.fail_entry
    else if n == 10
    then ExitReason.intr
    else if n == 11
    then ExitReason.set_tpr
    else if n == 12
    then ExitReason.tpr_access
    else if n == 13
    then ExitReason.s390_sieic
    else if n == 14
    then ExitReason.s390_reset
    else if n == 15
    then ExitReason.dcr
    else if n == 16
    then ExitReason.nmi
    else if n == 17
    then ExitReason.internal_error
    else if n == 18
    then ExitReason.osi
    else if n == 19
    then ExitReason.papr_hcall
    else if n == 24
    then ExitReason.system_event
    else ExitReason.unnamed n

abbrev pub eintr : ℕ
eintr = 4

pub record VCpu : Type 0 where
  pub fd : Fd
  pub id : ℕ
  pub run_page : ℕ
  pub mmap_size : ℕ

-- `kvmRun()`, read through the pointer.
abbrev pub kvm_run : {K : Type 0} → VCpu → Machine K → KvmRun
kvm_run v m = m.run_pages v.run_page

module _ {K : Type 0} (kvm : Kvm K) where
  -- `create`: the descriptor is closed again when its run structure cannot be mapped.
  unfoldable pub create : Fd → ℕ → ℕ → Machine K → Result VCpu × Machine K
  create vm_fd vcpu_id mmap_size m =
      let (made, k) = kvm.create_vcpu vm_fd vcpu_id m.kernel in
      let m1 = set_kernel k m in
      elim made [
        | err e ↦ (err e, m1)
        | ok fd ↦
            (let (mapped, m2) = kvm.mmap_run (some fd) mmap_size m1 in
              (
                elim mapped [
                  | err e ↦ err e
                  | ok page ↦ ok (record {
                    fd = some fd;
                    id = vcpu_id;
                    run_page = page;
                    mmap_size = mmap_size;
                  })
                ],
                elim mapped [ err _ ↦ set_kernel (kvm.close fd m2.kernel) m2 | ok _ ↦ m2 ],
              ))
      ]

  unfoldable pub run : VCpu → Machine K → Result ExitReason × Machine K
  run v m =
      let (r, m') = kvm.run v.fd m in
      (
        elim r [
          | ok _ ↦ ok (exit_reason (m'.run_pages v.run_page).exit_reason)
          | err e ↦ if e == eintr then ok ExitReason.intr else err e
        ],
        m',
      )

  unfoldable pub get_regs : VCpu → Machine K → Result Regs
  get_regs v m = kvm.get_regs v.fd m.kernel

  unfoldable pub set_regs : VCpu → Regs → Machine K → ErrorCode × Machine K
  set_regs v regs m = let (r, k) = kvm.set_regs v.fd regs m.kernel in (error_code r, set_kernel k m)

  unfoldable pub get_sregs : VCpu → Machine K → Result Sregs
  get_sregs v m = kvm.get_sregs v.fd m.kernel

  unfoldable pub set_sregs : VCpu → Sregs → Machine K → ErrorCode × Machine K
  set_sregs v sregs m =
      let (r, k) = kvm.set_sregs v.fd sregs m.kernel in (error_code r, set_kernel k m)

  -- `control` is KVM_GUESTDBG_ENABLE | KVM_GUESTDBG_SINGLESTEP, or 0.
  unfoldable pub set_single_step : VCpu → Bool → Machine K → ErrorCode × Machine K
  set_single_step v enable m =
      let control = if enable then 3 else 0 in
      let (r, k) = kvm.set_guest_debug v.fd control m.kernel in (error_code r, set_kernel k m)

  unfoldable pub install_cpuid : VCpu → List CpuidEntry → Machine K → ErrorCode × Machine K
  install_cpuid v entries m =
      let (r, k) = kvm.set_cpuid2 v.fd (u32 (length entries)) entries m.kernel in
      (error_code r, set_kernel k m)

  -- `m_runPage != nullptr && m_runPage != MAP_FAILED`
  unfoldable pub unmap : VCpu → K → K
  unmap v k =
      if not (v.run_page == null) && not (v.run_page == map_failed)
      then kvm.munmap v.run_page v.mmap_size k
      else k

  unfoldable pub close_fd : Fd → K → K
  close_fd none k = k
  close_fd (some fd) k = kvm.close fd k

  -- The destructor, and the first half of the move assignment.
  unfoldable pub release : VCpu → Machine K → Machine K
  unfolding unmap close_fd
  release v m = set_kernel (close_fd v.fd (unmap v m.kernel)) m

-- The move constructor: the new object, and what is left of the old one.
unfoldable pub move : VCpu → VCpu × VCpu
move other = (other, record other { fd = none; run_page = null })

-- The move assignment from another object: this one, the other one, and the machine.
unfoldable pub assign :
    {K : Type 0} (kvm : Kvm K) → VCpu → VCpu → Machine K → (VCpu × VCpu) × Machine K
unfolding move release
assign kvm self other m = (move other, release kvm self m)
