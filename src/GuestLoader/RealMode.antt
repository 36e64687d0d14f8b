-- ===== src/GuestLoader/RealMode.antt =====
-- The registers that src/GuestLoader.cpp gives a vCPU, for real mode and for 64-bit mode.
use min_bp.Prelude.{ℕ, ◌-◌, ◌/◌, ◌%◌, ◌^◌, ◌==◌, ◌≡◌, refl, ◌∙◌, inl, inr, arith, Bool-cases}
use min_bp.Prelude.Result.{ok, no_error}
use min_bp.Kvm.{Regs, Sregs, Machine, Kvm, zero_regs}
use min_bp.VCpu.{VCpu}
use min_bp.VCpu
use min_bp.VCpu.Registers.{
  RegistersHold, get_regs-set_regs, get_sregs-set_sregs, get_sregs-set_regs,
}
use min_bp.GuestLoader.{setup_vcpu, setup_real_mode_vcpu, setup_64bit_vcpu}
use min_bp.GuestLoader.Modes.{real_mode_sregs, real_mode_regs, long_mode_sregs, long_mode_regs}

module _ {K : Type 0} (kvm : Kvm K) where
  setup_vcpu_done :
      (laws : RegistersHold kvm) (change : Sregs → Sregs) (regs : Regs) (v : VCpu) (m : Machine K)
      (sregs : Sregs)
      → VCpu.get_sregs kvm v m ≡ ok sregs
      → (setup_vcpu kvm change regs v m).0 ≡ no_error
      → (VCpu.get_regs kvm v (setup_vcpu kvm change regs v m).1 ≡ ok regs)
        × (VCpu.get_sregs kvm v (setup_vcpu kvm change regs v m).1 ≡ ok (change sregs))
  unfolding setup_vcpu
  setup_vcpu_done laws change regs v m sregs read =
      let set = VCpu.set_sregs kvm v (change sregs) m in
      elim (Bool-cases (set.0 == no_error)) [
        | inl e ↦
            rw (read, setup_vcpu, e)
              λ h. (
                get_regs-set_regs kvm laws v regs set.1 h,
                get_sregs-set_regs kvm laws v regs set.1
                    ∙ get_sregs-set_sregs kvm laws v (change sregs) m (ground arith),
              )
        | inr e ↦ rw (read, setup_vcpu, e) λ h. absurd (ground arith)
      ]

  -- A vCPU that is set up for real mode starts at the entry with the stack at 0xFFF0 and only the
  -- reserved flag set; each segment starts at 0 and is 64 KiB long, and of CR0 the bit PE is clear and
  -- the other bits, as CR3, CR4 and EFER, are what they were.
  pub setup_real_mode_registers :
      (laws : RegistersHold kvm) (v : VCpu) (entry_ip : ℕ) (m : Machine K) (sregs : Sregs)
      → VCpu.get_sregs kvm v m ≡ ok sregs
      → (setup_real_mode_vcpu kvm v entry_ip m).0 ≡ no_error
      → let m' = (setup_real_mode_vcpu kvm v entry_ip m).1 in
        (VCpu.get_regs kvm v m'
          ≡ ok (record zero_regs { rip = entry_ip; rsp = 0xFFF0; rflags = 2 }))
        × ((now : Sregs) × (VCpu.get_sregs kvm v m' ≡ ok now)
            × (now.cs.base ≡ 0)
            × (now.ds.base ≡ 0)
            × (now.ss.base ≡ 0)
            × (now.cs.limit ≡ 2 ^ 16 - 1)
            × (now.ds.limit ≡ 2 ^ 16 - 1)
            × (now.ss.limit ≡ 2 ^ 16 - 1)
            × (now.cr0 % 2 ≡ 0)
            × (now.cr0 / 2 ≡ sregs.cr0 / 2)
            × (now.cr3 ≡ sregs.cr3)
            × (now.cr4 ≡ sregs.cr4)
            × (now.efer ≡ sregs.efer))
  unfolding setup_real_mode_vcpu
  setup_real_mode_registers laws v entry_ip m sregs read done =
      let r = setup_vcpu_done laws real_mode_sregs (real_mode_regs entry_ip) v m sregs read done in
      (
        r.0,
        (
          real_mode_sregs sregs,
          r.1,
          refl,
          refl,
          refl,
          refl,
          refl,
          refl,
          omega arith,
          omega arith,
          refl,
          refl,
          refl,
        ),
      )

  -- A vCPU that is set up for 64-bit mode starts at `rip` with the page tables at `cr3`: protection
  -- and paging are on (bits 0 and 31 of CR0), PAE is on (bit 5 of CR4), long mode is enabled and active
  -- (bits 8 and 10 of EFER), and the code segment is a 64-bit one.
  pub setup_64bit_registers :
      (laws : RegistersHold kvm) (v : VCpu) (rip cr3 : ℕ) (m : Machine K) (sregs : Sregs)
      → VCpu.get_sregs kvm v m ≡ ok sregs
      → (setup_64bit_vcpu kvm v rip cr3 m).0 ≡ no_error
      → let m' = (setup_64bit_vcpu kvm v rip cr3 m).1 in
        (VCpu.get_regs kvm v m' ≡ ok (record zero_regs { rip = rip; rsp = 0x200000; rflags = 2 }))
        × ((now : Sregs) × (VCpu.get_sregs kvm v m' ≡ ok now)
            × (now.cr0 % 2 ≡ 1)
            × ((now.cr0 / 2 ^ 31) % 2 ≡ 1)
            × ((now.cr4 / 2 ^ 5) % 2 ≡ 1)
            × ((now.efer / 2 ^ 8) % 2 ≡ 1)
            × ((now.efer / 2 ^ 10) % 2 ≡ 1)
            × (now.cr3 ≡ cr3)
            × (now.cs.l ≡ 1)
            × (now.cs.db ≡ 0))
  unfolding setup_64bit_vcpu
  setup_64bit_registers laws v rip cr3 m sregs read done =
      let r = setup_vcpu_done laws (long_mode_sregs cr3) (long_mode_regs rip) v m sregs read done in
      (r.0, (long_mode_sregs cr3 sregs, r.1, refl, refl, refl, refl, refl, refl, refl, refl))
