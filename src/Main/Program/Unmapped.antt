-- ===== src/Main/Program/Unmapped.antt =====
-- What memory `main` of src/main.cpp leaves mapped.
use Prim.Native.String.{String}
use min_bp.Prelude.{ℕ, ◌==◌, ◌≡◌, refl, ◌∙◌, subst, inl, inr, List, none, some, Bool-cases}
use min_bp.Prelude.Result.{Result, ok, err, Result-cases}
use min_bp.Kvm.{Machine, Kvm, set_kernel}
use min_bp.VirtualMachine.{VirtualMachine, cap_exit_on_emulation_failure, enable_emulation_exits}
use min_bp.VirtualMachine
use min_bp.KvmSystem.{
  KvmSystem, kvm_api_version, probe, probe_mmap_size, open_system, create_vm, check_extension,
}
use min_bp.KvmSystem
use min_bp.Main.Mappings.{Mappings, Mapped, SameMap, Mapped-SameMap, Mapped-release}
use min_bp.Main.Mappings.Kept.{mapped_account}
use min_bp.Main.Program.{Ended, trap_emulation, load_guest, leave, with_vm, with_system, main}
use min_bp.Main.Program.Running.{bind-some}
use min_bp.Main.Program.Parts.{load_guest-Fine}

module _ {K : Type 0} (kvm : Kvm K) (laws : Mappings kvm) where
  trap_emulation-SameMap :
      (sys : KvmSystem) (vm : VirtualMachine) (m : Machine K)
      → SameMap kvm laws m.kernel (trap_emulation kvm sys vm m).kernel
  unfolding trap_emulation enable_emulation_exits
  trap_emulation-SameMap sys vm m x =
      elim (Bool-cases (check_extension kvm sys cap_exit_on_emulation_failure m.kernel)) [
        | inl e ↦ rw e (laws.enabled vm.fd cap_exit_on_emulation_failure 1 m.kernel x)
        | inr e ↦ rw e refl
      ]

  release-SameMap : (sys : KvmSystem) (k : K) → SameMap kvm laws k (KvmSystem.release kvm sys k)
  unfolding KvmSystem.release
  release-SameMap sys k x = by_fd sys.fd
    where
      by_fd : (fd : _) → laws.is_mapped (KvmSystem.close_fd kvm fd k) x ≡ laws.is_mapped k x
      by_fd none = refl
      by_fd (some fd) = laws.closed fd k x

  probe_mmap_size-SameMap :
      (fd version : ℕ) (k : K) → SameMap kvm laws k (probe_mmap_size kvm fd version k).1
  unfolding probe_mmap_size
  probe_mmap_size-SameMap fd version k x =
      elim (Result-cases (kvm.get_vcpu_mmap_size (some fd) k)) [
        | inr (e, f) ↦ rw (f, probe_mmap_size) (laws.closed fd k x)
        | inl (size, f) ↦ rw (f, probe_mmap_size) refl
      ]

  probe-SameMap : (fd : ℕ) (k : K) → SameMap kvm laws k (probe kvm fd k).1
  unfolding probe
  probe-SameMap fd k x = elim (Result-cases (kvm.get_api_version (some fd) k)) [
    | inr (e, f) ↦ rw (f, probe) (laws.closed fd k x)
    | inl (version, f) ↦ elim (Bool-cases (version == kvm_api_version)) [
      | inl t ↦ rw (f, probe, t) (probe_mmap_size-SameMap fd version k x)
      | inr t ↦ rw (f, probe, t) (laws.closed fd k x)
    ]
  ]

  open_system-SameMap : (path : String) (k : K) → SameMap kvm laws k (open_system kvm path k).1
  unfolding open_system
  open_system-SameMap path k x = elim (Result-cases (kvm.open_path path k).0) [
    | inr (e, f) ↦ rw (f, open_system) (laws.opened path k x)
    | inl (fd, f) ↦
        rw (f, open_system) (probe-SameMap fd (kvm.open_path path k).1 x ∙ laws.opened path k x)
  ]

  -- The mapped bytes at the end are those of `k`.
  abbrev Unmapped : K → Ended K → Type 0
  Unmapped k e = SameMap kvm laws k e.machine.kernel

  with_vm-Unmapped :
      (fuel : ℕ) (guest : List ℕ) (sys : KvmSystem) (vm : VirtualMachine) (m : Machine K) (k : K)
      (e : Ended K)
      → Mapped kvm laws (laws.is_mapped k) vm m.kernel
      → with_vm kvm fuel guest sys vm m ≡ some e
      → Unmapped k e
  unfolding with_vm leave
  with_vm-Unmapped fuel guest sys vm m k e o h =
      let m' = trap_emulation kvm sys vm m in
      let (l, ran, e1) = bind-some (load_guest kvm fuel guest vm m') _ e h in
      let held =
        Mapped-SameMap kvm laws (laws.is_mapped k) vm m.kernel m'.kernel
          (trap_emulation-SameMap sys vm m) o in
      let fine =
        load_guest-Fine kvm (mapped_account kvm laws (laws.is_mapped k)) fuel guest vm m' l held
          ran in
      let given : leave kvm sys l ≡ e = cc in
      subst (Unmapped k) given (λ x.
        release-SameMap sys (VirtualMachine.release kvm l.vm l.machine).kernel x
        ∙ Mapped-release kvm laws (laws.is_mapped k) l.vm l.machine fine.0 x)

  with_system-Unmapped :
      (fuel : ℕ) (guest : List ℕ) (sys : KvmSystem) (m : Machine K) (e : Ended K)
      → with_system kvm fuel guest sys m ≡ some e
      → Unmapped m.kernel e
  unfolding with_system create_vm
  with_system-Unmapped fuel guest sys m e h = after (kvm.create_vm sys.fd m.kernel).0 h
    where
      k' : K
      k' = (kvm.create_vm sys.fd m.kernel).1

      after :
          (made : Result ℕ)
          → (elim (elim made as (λ q. Result VirtualMachine) [
            | err x ↦ err x
            | ok n ↦ ok (VirtualMachine.new (some n) sys.vcpu_mmap_size)
          ]) [
            | err _ ↦ some (record {
              status = 1;
              events_file = none;
              machine = set_kernel (KvmSystem.release kvm sys k') m;
            })
            | ok vm ↦ with_vm kvm fuel guest sys vm (set_kernel k' m)
          ])
            ≡ some e
          → Unmapped m.kernel e
      after (err x) q =
          let given : record {
            status = 1;
            events_file = none;
            machine = set_kernel (KvmSystem.release kvm sys k') m;
          }
              ≡ e =
            cc in
          subst (Unmapped m.kernel) given
            (λ y. release-SameMap sys k' y ∙ laws.vm_made sys.fd m.kernel y)
      after (ok n) q =
          with_vm-Unmapped fuel guest sys (VirtualMachine.new (some n) sys.vcpu_mmap_size)
            (set_kernel k' m) m.kernel e (laws.vm_made sys.fd m.kernel) q

  -- Whenever `main` returns, on whichever path, exactly the bytes of the process are mapped that were
  -- before it: the memory of the guest and the run structure of the vCPU are unmapped, once they
  -- were mapped, and nothing else is.
  pub main-Unmapped :
      (fuel : ℕ) (guest : List ℕ) (m : Machine K) (e : Ended K)
      → main kvm fuel guest m ≡ some e
      → (x : ℕ) → laws.is_mapped e.machine.kernel x ≡ laws.is_mapped m.kernel x
  unfolding main
  main-Unmapped fuel guest m e h x =
      let (opened, k) = open_system kvm "/dev/kvm" m.kernel in
      after opened k h x ∙ open_system-SameMap "/dev/kvm" m.kernel x
    where
      after :
          (r : Result KvmSystem) (k : K)
          → (elim r [
            | err _ ↦ some (record { status = 1; events_file = none; machine = set_kernel k m })
            | ok sys ↦ with_system kvm fuel guest sys (set_kernel k m)
          ])
            ≡ some e
          → Unmapped k e
      after (err x) k q =
          let given : record { status = 1; events_file = none; machine = set_kernel k m } ≡ e =
            cc in
          subst (Unmapped k) given (λ y. refl)
      after (ok sys) k q = with_system-Unmapped fuel guest sys (set_kernel k m) e q
