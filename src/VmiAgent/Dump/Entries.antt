-- ===== src/VmiAgent/Dump/Entries.antt =====
-- The entries that the agent of src/VmiAgent.cpp makes can be read back from its file.
use min_bp.Prelude.{
  ℕ, ◌^◌, ◌<◌, ◌≡◌, refl, false, List, [], ◌∷◌, ◌++◌, Option, none, some, arith, get_elem?,
  Option-cases, inl, inr,
}
use min_bp.Prelude.Result.{ok, Result-cases}
use min_bp.Event.{HvEvent}
use min_bp.Kvm.{Fd, Regs, Machine, Kvm}
use min_bp.VCpu.{VCpu}
use min_bp.VCpu
use min_bp.VirtualMachine.{VirtualMachine}
use min_bp.VmiAgent.{
  IntrospectionEvent, Watched, handle_hv_event, snapshot_registers, snapshot_vcpu, dump_of,
  or_zeros,
}
use min_bp.VmiAgent.Summary.{GuestSnapshot}
use min_bp.VmiAgent.Dump.Log.{IsEntry, AllEntries}

-- The clock and the instruction pointer have 64 bits.
pub record Widths {K : Type 0} (kvm : Kvm K) : Type 0 where
  pub now_fits : (k : K) → (kvm.now k).0 < 2 ^ 64
  pub rip_fits : (fd : Fd) (k : K) (regs : Regs) → kvm.get_regs fd k ≡ ok regs → regs.rip < 2 ^ 64

pub record SnapshotFits (snap : GuestSnapshot) : Type 0 where
  pub time : snap.timestamp < 2 ^ 64
  pub rip : snap.rip < 2 ^ 64

AllEntries-append :
    (log : List IntrospectionEvent) (ie : IntrospectionEvent)
    → AllEntries log
    → IsEntry ie
    → AllEntries (log ++ ie ∷ [])
AllEntries-append [] ie h e = (e, tt)
AllEntries-append (x ∷ log) ie h e = (h.0, AllEntries-append log ie h.1 e)

module _ {K : Type 0} (kvm : Kvm K) (widths : Widths kvm) where
  no_snapshot-SnapshotFits : SnapshotFits (or_zeros kvm none)
  no_snapshot-SnapshotFits = record { time = omega arith; rip = omega arith }

  snapshot_vcpu-SnapshotFits :
      (v : VCpu) (m : Machine K) → SnapshotFits (or_zeros kvm (snapshot_vcpu kvm v m).0)
  unfolding snapshot_vcpu VCpu.get_regs
  snapshot_vcpu-SnapshotFits v m = elim (Result-cases (VCpu.get_regs kvm v m)) [
    | inr (x, e) ↦ rw (e, snapshot_vcpu) no_snapshot-SnapshotFits
    | inl (regs, e) ↦ elim (Result-cases (VCpu.get_sregs kvm v m)) [
      | inr (x, f) ↦ rw (e, snapshot_vcpu, f) no_snapshot-SnapshotFits
      | inl (sregs, f) ↦
          rw (e, snapshot_vcpu, f)
            (record { time = widths.now_fits m.kernel; rip = widths.rip_fits v.fd m.kernel regs e })
    ]
  ]

  snapshot_registers-SnapshotFits :
      (o : Option VirtualMachine) (i : ℕ) (m : Machine K)
      → SnapshotFits (or_zeros kvm (snapshot_registers kvm o i m).0)
  unfolding snapshot_registers
  snapshot_registers-SnapshotFits none i m = no_snapshot-SnapshotFits
  snapshot_registers-SnapshotFits (some vm) i m = elim (Option-cases (get_elem? vm.vcpus i)) [
    | inl e ↦ rw (e, snapshot_registers) no_snapshot-SnapshotFits
    | inr (v, e) ↦ rw (e, snapshot_registers) (snapshot_vcpu-SnapshotFits v m)
  ]

  pub handle_hv_event-AllEntries :
      {C : Type 0} (ev : HvEvent) (w : Watched K C)
      → ev.vcpu_id < 2 ^ 64
      → w.agent.mem_dump_enabled ≡ false
      → AllEntries w.agent.event_log
      → AllEntries (handle_hv_event kvm ev w).agent.event_log
  unfolding handle_hv_event dump_of
  handle_hv_event-AllEntries ev w id off h =
      let fits = snapshot_registers-SnapshotFits w.vm ev.vcpu_id w.machine in
      AllEntries-append w.agent.event_log _ h (record {
        summary_built = refl;
        time_fits = fits.time;
        id_fits = id;
        rip_fits = fits.rip;
        bytes_fit = rw off tt;
      })
