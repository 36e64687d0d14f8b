-- ===== src/VmiAgent/Agents.antt =====
-- The agents of src/VmiAgent.cpp as objects at addresses: the closure that the constructor subscribes
-- holds the address of its agent, and include/hv/VmiAgent.h has the defaulted moves.
pub mod Bound
pub mod Delivery
pub mod Subscribed
pub mod Places
pub mod Steps
pub mod Lifetime
pub mod Series
pub mod Moved
pub mod Dangling
pub mod Overwritten
use min_bp.Prelude.{ℕ, ◌==◌, Bool, true, false, List, [], Option, none, some, if◌then◌else◌}
use min_bp.Event.{HvEvent}
use min_bp.Kvm.{Machine, Kvm}
use min_bp.VirtualMachine.{VirtualMachine}
use min_bp.EventDispatcher.{EventDispatcher}
use min_bp.VmiAgent.{IntrospectionEvent, VmiAgent, Watched, attach, detach, handle_hv_event}

-- One object: its VM, and whether its pointer to the dispatcher is set.
pub record Cell (C : Type 0) : Type 0 where
  pub agent : VmiAgent C
  pub vm : Option VirtualMachine
  pub dispatch : Bool

-- What the handlers of the dispatcher act on: the objects that are alive, the machine, the callbacks'
-- state, and whether an address was used that holds no object.
pub record Agents (K C : Type 0) : Type 0 where
  pub cells : ℕ → Option (Cell C)
  pub machine : Machine K
  pub client : C
  pub fault : Bool

abbrev pub place : {C : Type 0} → (ℕ → Option (Cell C)) → ℕ → Option (Cell C) → ℕ → Option (Cell C)
place cells a c p = if p == a then c else cells p

abbrev pub pointed : {A : Type 0} → Bool → A → Option A
pointed b d = if b then some d else none

abbrev pub or_kept : {A : Type 0} → A → Option A → A
or_kept d none = d
or_kept d (some d') = d'

-- What a move leaves behind: the pointers and numbers stay, and the vectors are as given.
abbrev pub left_behind :
    {C : Type 0} → List (IntrospectionEvent → C → C) → List IntrospectionEvent → Cell C → Cell C
left_behind callbacks log cell = record cell {
  agent = record cell.agent { callbacks = callbacks; event_log = log };
}

module _ {K C : Type 0} where
  unfoldable pub run_in : Kvm K → ℕ → HvEvent → Agents K C → Cell C → Agents K C
  run_in kvm a event w cell =
      let r =
        handle_hv_event kvm event
          (record { agent = cell.agent; vm = cell.vm; machine = w.machine; client = w.client }) in
      record w {
        cells = place w.cells a (some (record cell { agent = r.agent }));
        machine = r.machine;
        client = r.client;
      }

  -- The closure, which calls `handleHvEvent` on the object at `a`.
  unfoldable pub call : Kvm K → ℕ → HvEvent → Agents K C → Agents K C
  unfolding run_in
  call kvm a event w = elim (w.cells a) [
    | none ↦ record w { fault = true }
    | some cell ↦ run_in kvm a event w cell
  ]

  -- The constructor at the address `a`.
  unfoldable pub make :
      Kvm K
      → ℕ
      → Option VirtualMachine
      → Bool
      → EventDispatcher (Agents K C)
      → Agents K C
      → EventDispatcher (Agents K C) × Agents K C
  unfolding call
  make kvm a vm dispatch d w =
      let (agent, d') = attach (call kvm a) (pointed dispatch d) in
      (
        or_kept d d',
        record w {
          cells = place w.cells a (some (record { agent = agent; vm = vm; dispatch = dispatch }));
        },
      )

  -- The destructor.
  unfoldable pub destroy :
      ℕ → EventDispatcher (Agents K C) → Agents K C → EventDispatcher (Agents K C) × Agents K C
  destroy a d w = elim (w.cells a) [
    | none ↦ (d, record w { fault = true })
    | some cell ↦ (
      or_kept d (detach cell.agent (pointed cell.dispatch d)),
      record w { cells = place w.cells a none },
    )
  ]

  -- A call of a member function that changes the object alone.
  unfoldable pub change : ℕ → (VmiAgent C → VmiAgent C) → Agents K C → Agents K C
  change a f w = elim (w.cells a) [
    | none ↦ record w { fault = true }
    | some cell ↦ record w { cells = place w.cells a (some (record cell { agent = f cell.agent })) }
  ]

  -- The move constructor makes the object at `to` and leaves empty vectors.
  unfoldable pub move_construct : ℕ → ℕ → Agents K C → Agents K C
  move_construct to from w = elim (w.cells from) [
    | none ↦ record w { fault = true }
    | some cell ↦ record w {
      cells = place (place w.cells from (some (left_behind [] [] cell))) to (some cell);
    }
  ]

  -- The move assignment overwrites the object at `to`. What vectors it leaves is up to the library.
  unfoldable pub move_assign :
      ℕ → ℕ → List (IntrospectionEvent → C → C) → List IntrospectionEvent → Agents K C → Agents K C
  move_assign to from callbacks log w = elim (w.cells to) [
    | none ↦ record w { fault = true }
    | some old ↦ elim (w.cells from) [
      | none ↦ record w { fault = true }
      | some cell ↦ record w {
        cells = place (place w.cells from (some (left_behind callbacks log cell))) to (some cell);
      }
    ]
  ]
