-- ===== src/VmiAgent/Summary/Line.antt =====
-- The parts of the summary that `buildSummary` of src/VmiAgent.cpp puts together.
use Prim.Native.String.{String, ◌++◌}
use min_bp.Prelude.{ℕ, ◌≡◌, refl}
use min_bp.Event.{HvEvent}
use min_bp.VmiAgent.Summary.{GuestSnapshot, hex, describe, build_summary}

-- The number of a vCPU, the RIP, and a description.
abbrev pub line : ℕ → ℕ → String → String
line id rip what = "[VCPU" ++ hex id ++ "] RIP=0x" ++ hex rip ++ " | " ++ what

pub build_summary-line :
    (event : HvEvent) (snap : GuestSnapshot)
    → build_summary event snap ≡ line event.vcpu_id snap.rip (describe event.type event.payload)
unfolding build_summary
build_summary-line event snap = refl
