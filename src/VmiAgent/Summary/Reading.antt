-- ===== src/VmiAgent/Summary/Reading.antt =====
-- The summary that src/VmiAgent.cpp writes can be read back.
use Prim.Native.String.{◌++◌}
use min_bp.Prelude.{ℕ, ◌^◌, ◌<◌, ◌≡◌, refl, some}
use min_bp.Event.{HvEvent}
use min_bp.VmiAgent.Summary.{GuestSnapshot, hex, describe, build_summary}
use min_bp.VmiAgent.Reader.{
  Reader, pure, ◌>>=◌, ◌>>◌, number, expect, ends_number, read_by, bind, next, pure-Reads,
  expect-Reads, hex-Reads,
}

-- The vCPU and the RIP of a summary; the description is behind them.
unfoldable pub read_summary : Reader (ℕ × ℕ)
unfolding expect
read_summary = do
  expect "[VCPU"
  id ← number 16
  expect "] RIP=0x"
  rip ← number 16
  expect " | "
  pure (id, rip)

-- The summary of an event can be read back: from its text come the vCPU's number and the RIP, both
-- below 2 ^ 64, and behind them the description of the payload.
pub read_summary-build_summary :
    (event : HvEvent) (snap : GuestSnapshot)
    → event.vcpu_id < 2 ^ 64
    → snap.rip < 2 ^ 64
    → read_summary (build_summary event snap)
      ≡ some ((event.vcpu_id, snap.rip), describe event.type event.payload)
unfolding read_summary build_summary ends_number
read_summary-build_summary event snap id_fits rip_fits =
    let description = describe event.type event.payload in
    let from_rip = hex snap.rip ++ (" | " ++ description) in
    read_by (
      next (expect-Reads "[VCPU" (hex event.vcpu_id ++ ("] RIP=0x" ++ from_rip))) (
        bind _ (hex-Reads event.vcpu_id "] RIP=0x" from_rip id_fits refl) (
          next (expect-Reads "] RIP=0x" from_rip) (
            bind _ (hex-Reads snap.rip " | " description rip_fits refl) (
              next (expect-Reads " | " description)
                (pure-Reads (event.vcpu_id, snap.rip) description))))))
