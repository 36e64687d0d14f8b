-- ===== src/IoPortHandler.antt =====
-- src/IoPortHandler.cpp: KVM_EXIT_IO exits. `W` is the state that callbacks act on.
pub mod Access
use min_bp.Prelude.{
  ℕ, ◌+◌, ◌-◌, ◌^◌, ◌==◌, Bool, true, List, [], ◌∷◌, ◌++◌, Option, none, some, find, assign, take,
  drop, u64, min, if◌then◌else◌,
}
use min_bp.Bytes.{load, store}
use min_bp.Kvm.{KvmRun}

pub record InContext : Type 0 where
  pub port : ℕ
  pub size : ℕ
  pub count : ℕ

pub record OutContext : Type 0 where
  pub port : ℕ
  pub size : ℕ
  pub value : ℕ
  pub count : ℕ

module _ (W : Type 0) where
  abbrev pub InCallback : Type 0
  InCallback = InContext → W → ℕ × W

  abbrev pub OutCallback : Type 0
  OutCallback = OutContext → W → W

pub record IoPortHandler (W : Type 0) : Type 0 where
  pub in_callbacks : List (ℕ × InCallback W)
  pub out_callbacks : List (ℕ × OutCallback W)
  pub in_count : ℕ
  pub out_count : ℕ

-- What `handle` returns, with the objects that it changed.
pub record Handled (W : Type 0) : Type 0 where
  pub done : Bool
  pub handler : IoPortHandler W
  pub run : KvmRun
  pub world : W

-- KVM_EXIT_IO_OUT
abbrev pub io_out : ℕ
io_out = 1

abbrev pub all_ones : ℕ
all_ones = 2 ^ 32 - 1

module _ {W : Type 0} where
  abbrev pub new : IoPortHandler W
  new = record { in_callbacks = []; out_callbacks = []; in_count = 0; out_count = 0 }

  unfoldable pub register_in_port : ℕ → InCallback W → IoPortHandler W → IoPortHandler W
  register_in_port port cb h = record h { in_callbacks = assign port cb h.in_callbacks }

  unfoldable pub register_out_port : ℕ → OutCallback W → IoPortHandler W → IoPortHandler W
  register_out_port port cb h = record h { out_callbacks = assign port cb h.out_callbacks }

  unfoldable pub run_out : Option (OutCallback W) → OutContext → W → W
  run_out none ctx w = w
  run_out (some cb) ctx w = cb ctx w

  unfoldable pub run_in : Option (InCallback W) → InContext → W → ℕ × W
  run_in none ctx w = (all_ones, w)
  run_in (some cb) ctx w = cb ctx w

  unfoldable pub handle_out : IoPortHandler W → KvmRun → W → Handled W
  unfolding run_out
  handle_out h run w =
      let value = load (min run.io.size 4) (drop run.io.data_offset run.area) in
      let ctx : OutContext = record {
        port = run.io.port;
        size = run.io.size;
        value = value;
        count = run.io.count;
      } in
      record {
        done = true;
        handler = record h { out_count = u64 (h.out_count + 1) };
        run = run;
        world = run_out (find run.io.port h.out_callbacks) ctx w;
      }

  unfoldable pub handle_in : IoPortHandler W → KvmRun → W → Handled W
  unfolding run_in
  handle_in h run w =
      let ctx : InContext = record {
        port = run.io.port;
        size = run.io.size;
        count = run.io.count;
      } in
      let (value, w') = run_in (find run.io.port h.in_callbacks) ctx w in
      let before = take run.io.data_offset run.area in
      let behind = drop run.io.data_offset run.area in
      record {
        done = true;
        handler = record h { in_count = u64 (h.in_count + 1) };
        run = record run { area = before ++ store (min run.io.size 4) value behind };
        world = w';
      }

  unfoldable pub handle : IoPortHandler W → KvmRun → W → Handled W
  unfolding handle_out handle_in
  handle h run w = if run.io.direction == io_out then handle_out h run w else handle_in h run w
