-- ===== src/Main/Runs.antt =====
-- src/main.cpp: the three runs of the guest, each from the snapshot and with another scancode.
pub mod Fresh
pub mod Series
use min_bp.Prelude.{
  ℕ, zero, suc, ◌+◌, ◌%◌, ◌==◌, List, [], ◌∷◌, Option, none, some, get_elem?, if◌then◌else◌,
}
use min_bp.Kvm.{Machine, World, Kvm}
use min_bp.Memory.{Memory, poke}
use min_bp.MemoryRegion.{MemoryRegion}
use min_bp.VirtualMachine.{VirtualMachine, VmSnapShot, restore_snapshot}
use min_bp.InstructionTrapper.{InstructionTrapper, RunResult, Session, after_run, run_loop}
use min_bp.Main.State.{ProgramState}

-- `fuzzInput`
abbrev pub fuzz_input : List ℕ
fuzz_input = 0x41 ∷ 0x42 ∷ 0x43 ∷ []

-- The number of runs.
abbrev pub max_iterations : ℕ
max_iterations = 3

-- `fuzzInput[i % fuzzInput.size()]`
unfoldable pub scancode : ℕ → ℕ
scancode i = elim (get_elem? fuzz_input (i % 3)) [ none ↦ 0 | some b ↦ b ]

-- `host[0x2000] = ...` in the first region; `none` is an empty vector.
unfoldable pub inject_scancode : List MemoryRegion → ℕ → Memory → Option Memory
inject_scancode [] b mem = none
inject_scancode (r ∷ rs) b mem = some (poke (r.host_addr + 0x2000) (b ∷ []) mem)

module _ {K : Type 0} (kvm : Kvm K) where
  -- The snapshot is restored before each run but the first.
  unfoldable pub restore_before : VirtualMachine → VmSnapShot → ℕ → Machine K → Option (Machine K)
  restore_before vm snap zero m = some m
  restore_before vm snap (suc i) m = restore_snapshot kvm vm snap m

  unfoldable pub start_run : VirtualMachine → VmSnapShot → ℕ → Machine K → Option (Machine K)
  unfolding restore_before inject_scancode scancode
  start_run vm snap i m = elim (restore_before vm snap i m) [
    | none ↦ none
    | some m' ↦ elim (inject_scancode vm.memory_regions (scancode i) m'.memory) [
      | none ↦ none
      | some mem ↦ some (record m' { memory = mem })
    ]
  ]

  -- Run number `i`, with fuel for its loop, which has no limit.
  unfoldable pub one_run :
      ℕ → VmSnapShot → ℕ → Session K ProgramState → Option (RunResult × Session K ProgramState)
  unfolding start_run
  one_run fuel snap i s = elim (start_run s.world.user.vm snap i s.world.machine) [
    | none ↦ none
    | some m ↦ run_loop kvm fuel 0 0 (after_run kvm s m)
  ]

  -- `n` runs from number `i` on, and the status of the program at their end.
  unfoldable pub runs :
      ℕ → VmSnapShot → ℕ → ℕ → Session K ProgramState → Option (ℕ × Session K ProgramState)
  unfolding one_run
  runs fuel snap zero i s = some (0, s)
  runs fuel snap (suc n) i s = elim (one_run fuel snap i s) [
    | none ↦ none
    | some r ↦ elim r.0 [ RunResult.error ↦ some (1, r.1) | _ ↦ runs fuel snap n (i + 1) r.1 ]
  ]
