-- ===== src/InstructionTrapper/Payloads.antt =====
-- What the events of src/InstructionTrapper.cpp say, against what the guest and the handlers see.
use min_bp.Prelude.{
  ℕ, ◌%◌, ◌^◌, ◌≤◌, ==_refl, ◌≡◌, refl, ap, true, false, some, find, length, min, arith,
}
use min_bp.Bytes.{load}
use min_bp.Event.{EventType, EventPayload, HvEvent}
use min_bp.Kvm.{World, Kvm, set_run_page}
use min_bp.VCpu.{ExitReason}
use min_bp.MmioHandler.{MmioHandler, ReadCallback, ReadContext}
use min_bp.MmioHandler
use min_bp.MmioHandler.Access.{InRange, handle_range, read_delivers}
use min_bp.EventDispatcher.{EventDispatcher}
use min_bp.EventDispatcher
use min_bp.InstructionTrapper.EventData.{mmio_payload}
use min_bp.InstructionTrapper.{
  RunResult, Session, kvm_run, publish_to, call_mmio, exit_mmio, dispatch_exit,
}

min_small : (n : ℕ) → n ≤ 8 → min n 8 ≡ n
min_small n h = omega arith

module _ {K U : Type 0} (kvm : Kvm K) where
  -- That a session comes from publishing the event `ev` to the dispatcher `d` in the world `w`.
  pub record Publishes (ev : HvEvent) (d : EventDispatcher (World K U)) (w : World K U)
      (t : Session K U) : Type 0 where
    pub world : t.world ≡ (EventDispatcher.publish ev d w).1
    pub dispatch : t.trapper.dispatch ≡ some (EventDispatcher.publish ev d w).0

  -- The session after the MMIO handler has done its work.
  abbrev served : MmioHandler U → Session K U → Session K U
  served h s =
      let r = MmioHandler.handle h (kvm_run s).mmio s.world.user in
      record {
        trapper = record s.trapper { mmio = some r.handler };
        world = record {
          machine =
              set_run_page s.trapper.vcpu.run_page (record (kvm_run s) { mmio = r.exit })
                s.world.machine;
          user = r.world;
        };
      }

  exit_mmio_done :
      (s : Session K U) (h : MmioHandler U)
      → s.trapper.mmio ≡ some h
      → (MmioHandler.handle h (kvm_run s).mmio s.world.user).done ≡ true
      → exit_mmio kvm s ≡ (
        RunResult.continue,
        publish_to kvm s.trapper.dispatch EventType.mem_access
            (EventPayload.mmio (mmio_payload (kvm_run (served h s))))
            true
            (served h s),
      )
  unfolding exit_mmio call_mmio
  exit_mmio_done s h e done = rw (e, done)

  kvm_run-served :
      (h : MmioHandler U) (s : Session K U)
      → kvm_run (served h s)
        ≡ record (kvm_run s) { mmio = (MmioHandler.handle h (kvm_run s).mmio s.world.user).exit }
  kvm_run-served h s = rw (==_refl s.trapper.vcpu.run_page)

  -- When the guest reads 1 to 8 bytes by MMIO from an address with a callback, the exit continues,
  -- and subscribers get one event, of the access, with the vCPU's number, the address, the size and
  -- the value that the callback returned, cut to the size; the world that they act on has the
  -- callback's user state, and there the guest loads that same value.
  pub mmio_read_event :
      (s : Session K U) (h : MmioHandler U) (d : EventDispatcher (World K U)) (cb : ReadCallback U)
      → s.trapper.mmio ≡ some h
      → s.trapper.dispatch ≡ some d
      → InRange (kvm_run s).mmio.len
      → (kvm_run s).mmio.is_write ≡ false
      → (kvm_run s).mmio.len ≤ length (kvm_run s).mmio.bytes
      → find (kvm_run s).mmio.phys_addr h.read_callbacks ≡ some cb
      → let run = (kvm_run s).mmio in
        let (value, user) = cb (record { addr = run.phys_addr; size = run.len }) s.world.user in
        let r = dispatch_exit kvm ExitReason.mmio s in
        (r.0 ≡ RunResult.continue)
        × ((ev : HvEvent) × (w : World K U) × Publishes ev d w r.1
            × (ev.type ≡ EventType.mem_access)
            × (ev.vcpu_id ≡ s.trapper.vcpu.id)
            × (ev.payload
                ≡ EventPayload.mmio (record {
                  guest_phys_addr = run.phys_addr;
                  size = run.len;
                  value = value % 256 ^ run.len;
                  is_write = false;
                }))
            × (w.user ≡ user)
            × (load run.len (w.machine.run_pages s.trapper.vcpu.run_page).mmio.bytes
                ≡ value % 256 ^ run.len))
  unfolding dispatch_exit publish_to
  mmio_read_event s h d cb em ed range read fits found =
      let run = (kvm_run s).mmio in
      let r = MmioHandler.handle h run s.world.user in
      let spec = read_delivers h run s.world.user range read fits in
      let done = (handle_range h run s.world.user).1 range in
      let own = ==_refl s.trapper.vcpu.run_page in
      let seen = (spec.0 cb found).0 in
      let payload : mmio_payload (record (kvm_run s) { mmio = r.exit }) ≡ record {
        guest_phys_addr = run.phys_addr;
        size = run.len;
        value =
            (cb (record { addr = run.phys_addr; size = run.len }) s.world.user).0 % 256 ^ run.len;
        is_write = false;
      } =
        ground (arith, spec.4, seen, min_small run.len range.1) in
      rw (exit_mmio_done s h em done, ed)
        (
          refl,
          (
            _,
            _,
            record { world = refl; dispatch = refl },
            refl,
            refl,
            rw own (ap EventPayload.mmio payload),
            (spec.0 cb found).1,
            rw own seen,
          ),
        )
