-- ===== src/MmioHandler.antt =====
-- src/MmioHandler.cpp: KVM_EXIT_MMIO exits. `W` is the state that callbacks act on; a callback does
-- not register callbacks.
pub mod Access
use min_bp.Prelude.{
  ℕ, ◌+◌, ◌-◌, ◌^◌, ◌==◌, Bool, true, false, ◌||◌, List, [], ◌∷◌, Option, none, some, find, assign,
  ltb, u64, min, if◌then◌else◌,
}
use min_bp.Bytes.{load, store}

-- The `mmio` member of `kvm_run`: `data` is an array of 8 bytes.
pub record MmioExit : Type 0 where
  pub phys_addr : ℕ
  pub bytes : List ℕ
  pub len : ℕ
  pub is_write : Bool

pub record ReadContext : Type 0 where
  pub addr : ℕ
  pub size : ℕ

pub record WriteContext : Type 0 where
  pub addr : ℕ
  pub size : ℕ
  pub value : ℕ

module _ (W : Type 0) where
  abbrev pub ReadCallback : Type 0
  ReadCallback = ReadContext → W → ℕ × W

  abbrev pub WriteCallback : Type 0
  WriteCallback = WriteContext → W → W

pub record MmioHandler (W : Type 0) : Type 0 where
  pub read_callbacks : List (ℕ × ReadCallback W)
  pub write_callbacks : List (ℕ × WriteCallback W)
  pub read_count : ℕ
  pub write_count : ℕ

-- What `handle` returns, with the objects that it changed.
pub record Handled (W : Type 0) : Type 0 where
  pub done : Bool
  pub handler : MmioHandler W
  pub exit : MmioExit
  pub world : W

abbrev pub all_ones : ℕ
all_ones = 2 ^ 64 - 1

module _ {W : Type 0} where
  abbrev pub new : MmioHandler W
  new = record { read_callbacks = []; write_callbacks = []; read_count = 0; write_count = 0 }

  unfoldable pub register_read : ℕ → ReadCallback W → MmioHandler W → MmioHandler W
  register_read addr cb h = record h { read_callbacks = assign addr cb h.read_callbacks }

  unfoldable pub register_write : ℕ → WriteCallback W → MmioHandler W → MmioHandler W
  register_write addr cb h = record h { write_callbacks = assign addr cb h.write_callbacks }

  -- `if (it != end()) it->second(WriteContext{addr, size, value})`
  unfoldable pub run_write : Option (WriteCallback W) → WriteContext → W → W
  run_write none ctx w = w
  run_write (some cb) ctx w = cb ctx w

  unfoldable pub run_read : Option (ReadCallback W) → ReadContext → W → ℕ × W
  run_read none ctx w = (all_ones, w)
  run_read (some cb) ctx w = cb ctx w

  unfoldable pub handle_write : MmioHandler W → MmioExit → W → Handled W
  unfolding run_write
  handle_write h run w =
      let value = load (min run.len 8) run.bytes in
      let ctx : WriteContext = record { addr = run.phys_addr; size = run.len; value = value } in
      record {
        done = true;
        handler = record h { write_count = u64 (h.write_count + 1) };
        exit = run;
        world = run_write (find run.phys_addr h.write_callbacks) ctx w;
      }

  unfoldable pub handle_read : MmioHandler W → MmioExit → W → Handled W
  unfolding run_read
  handle_read h run w =
      let ctx : ReadContext = record { addr = run.phys_addr; size = run.len } in
      let (value, w') = run_read (find run.phys_addr h.read_callbacks) ctx w in
      record {
        done = true;
        handler = record h { read_count = u64 (h.read_count + 1) };
        exit = record run { bytes = store run.len value run.bytes };
        world = w';
      }

  unfoldable pub handle : MmioHandler W → MmioExit → W → Handled W
  unfolding handle_write handle_read
  handle h run w =
      if run.len == 0 || ltb 8 run.len
      then record { done = false; handler = h; exit = run; world = w }
      else if run.is_write
      then handle_write h run w
      else handle_read h run w
