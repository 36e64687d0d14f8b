-- ===== src/MsrHandler/Access.antt =====
-- What `MsrHandler::handle` of src/MsrHandler.cpp gives the guest, on every branch.
use min_bp.Prelude.{
  ℕ, ◌+◌, ◌*◌, ◌/◌, ◌%◌, ◌^◌, ◌≡◌, ◌≢◌, refl, ap, ◌∙◌, ◌⊎◌, inl, inr, Option-cases, none, some,
  true, false, List, find, arith,
}
use min_bp.Prelude.Result.{ok, err, no_error}
use min_bp.Kvm.{Regs, MsrExit, World, Kvm}
use min_bp.VCpu.{VCpu}
use min_bp.VCpu
use min_bp.VCpu.Registers.{RegistersHold, get_regs-set_regs}
use min_bp.MsrHandler.{WriteCallback, MsrHandler, reason_valid_mask, run_read, handle_read, handle}

-- The two halves of a word are the word again.
halves : (n : ℕ) → n % 2 ^ 32 + 2 ^ 32 * ((n / 2 ^ 32) % 2 ^ 32) ≡ n % 2 ^ 64
halves n = omega arith

module _ {K U : Type 0} (kvm : Kvm K) where
  handle-read :
      (h : MsrHandler U) (v : VCpu) (exit : MsrExit) (w : World K U)
      → exit.reason ≢ reason_valid_mask
      → handle kvm h v exit w ≡ handle_read kvm h v exit w
  unfolding handle
  handle-read h v exit w n = ground arith

  handle_read-err :
      (h : MsrHandler U) (v : VCpu) (exit : MsrExit) (w : World K U) (e : ℕ)
      → VCpu.get_regs kvm v w.machine ≡ err e
      → handle_read kvm h v exit w ≡ record {
        done = false;
        handler = h;
        world = record w {
          user = (run_read kvm (find exit.index h.read_callbacks) exit.index w.user).1;
        };
      }
  unfolding handle_read
  handle_read-err h v exit w e failed = rw (failed, handle_read)

  -- What a read does with the value that it has got.
  read_done :
      (laws : RegistersHold kvm) (h : MsrHandler U) (v : VCpu) (exit : MsrExit) (w : World K U)
      (regs : Regs) (value : ℕ) (user : U)
      → VCpu.get_regs kvm v w.machine ≡ ok regs
      → run_read kvm (find exit.index h.read_callbacks) exit.index w.user ≡ (value, user)
      → let low = value % 2 ^ 32 in
        let high = (value / 2 ^ 32) % 2 ^ 32 in
        let written = (VCpu.set_regs kvm v (record regs { rax = low; rdx = high }) w.machine).0 in
        let r = handle_read kvm h v exit w in
        (r.world.user ≡ user)
        × (written ≢ no_error → (r.done ≡ false) × (r.handler ≡ h))
        × (written ≡ no_error
            → (r.done ≡ true)
              × (r.handler ≡ record h { read_count = (h.read_count + 1) % 2 ^ 64 })
              × (VCpu.get_regs kvm v r.world.machine ≡ ok (record regs { rax = low; rdx = high }))
              × (low + 2 ^ 32 * high ≡ value % 2 ^ 64))
  unfolding handle_read
  read_done laws h v exit w regs value user read got =
      rw (read, handle_read, got)
        (
          ground arith,
          λ f. ground arith,
          λ y. (
            ground arith,
            ground arith,
            ground (arith, get_regs-set_regs kvm laws v _ w.machine y),
            halves value,
          ),
        )

  -- A read exit whose registers can be read and written is done and counted, and the guest then
  -- finds in EDX:EAX the 64 bits that the callback of the register's index returned (0 if it has no
  -- callback), with every other register as it was. Where the write back fails, the exit is neither
  -- done nor counted.
  pub rdmsr_outcome :
      (laws : RegistersHold kvm) (h : MsrHandler U) (v : VCpu) (exit : MsrExit) (w : World K U)
      (regs : Regs)
      → exit.reason ≢ reason_valid_mask
      → VCpu.get_regs kvm v w.machine ≡ ok regs
      → let (value, user) : ℕ × U = elim (find exit.index h.read_callbacks) [
        | none ↦ (0, w.user)
        | some callback ↦ callback exit.index w.user
      ] in
        let low = value % 2 ^ 32 in
        let high = (value / 2 ^ 32) % 2 ^ 32 in
        let written = (VCpu.set_regs kvm v (record regs { rax = low; rdx = high }) w.machine).0 in
        let r = handle kvm h v exit w in
        (r.world.user ≡ user)
        × (written ≢ no_error → (r.done ≡ false) × (r.handler ≡ h))
        × (written ≡ no_error
            → (r.done ≡ true)
              × (r.handler ≡ record h { read_count = (h.read_count + 1) % 2 ^ 64 })
              × (VCpu.get_regs kvm v r.world.machine ≡ ok (record regs { rax = low; rdx = high }))
              × (low + 2 ^ 32 * high ≡ value % 2 ^ 64))
  rdmsr_outcome laws h v exit w regs n read =
      elim (Option-cases (find exit.index h.read_callbacks)) [
        | inl e ↦
            rw (e, handle-read h v exit w n)
              (read_done laws h v exit w regs 0 w.user read
                (ap (λ o. run_read kvm o exit.index w.user) e ∙ unfold run_read in refl))
        | inr (callback, e) ↦
            rw (e, handle-read h v exit w n)
              (read_done laws h v exit w regs _ _ read
                (ap (λ o. run_read kvm o exit.index w.user) e ∙ unfold run_read in refl))
      ]

  -- The three reasons that the kernel documents for an exit (invalid, unknown, filtered) are single
  -- bits. For each of them a WRMSR is taken for a RDMSR: no write is counted, and neither the
  -- written value nor any write callback has an effect on the outcome.
  pub wrmsr_as_rdmsr :
      (h : MsrHandler U) (v : VCpu) (exit : MsrExit) (w : World K U)
      → (exit.reason ≡ 1) ⊎ (exit.reason ≡ 2) ⊎ (exit.reason ≡ 4)
      → ((handle kvm h v exit w).handler.write_count ≡ h.write_count)
        × ((cbs : List (ℕ × WriteCallback U)) (value : ℕ)
            → let r = handle kvm h v exit w in
              let r' =
                handle kvm
                  (record h { write_callbacks = cbs })
                  v
                  (record exit { value = value })
                  w in
              (r'.world ≡ r.world) × (r'.done ≡ r.done))
  unfolding handle handle_read
  wrmsr_as_rdmsr h v exit w r = ground arith
