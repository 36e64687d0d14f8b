-- ===== src/MsrHandler.antt =====
-- src/MsrHandler.cpp: RDMSR and WRMSR exits, and the filter that asks the kernel for them. `U` is the
-- state that callbacks act on.
pub mod Access
pub mod Filter
use min_bp.Prelude.{
  ℕ, ◌+◌, ◌/◌, ◌%◌, ◌^◌, ◌==◌, Bool, true, false, List, [], ◌∷◌, ◌++◌, Option, none, some, map, any,
  find, assign, keys, take, u64, if◌then◌else◌,
}
use min_bp.Prelude.Result.{Result, ok, err, ErrorCode, no_error, error_code}
use min_bp.Kvm.{Fd, Regs, MsrExit, MsrRange, MsrFilter, Machine, World, Kvm, set_kernel}
use min_bp.VCpu.{VCpu}
use min_bp.VCpu

module _ (U : Type 0) where
  abbrev pub ReadCallback : Type 0
  ReadCallback = ℕ → U → ℕ × U

  abbrev pub WriteCallback : Type 0
  WriteCallback = ℕ → ℕ → U → U

pub record MsrHandler (U : Type 0) : Type 0 where
  pub read_callbacks : List (ℕ × ReadCallback U)
  pub write_callbacks : List (ℕ × WriteCallback U)
  pub read_count : ℕ
  pub write_count : ℕ

-- What `handle` returns, with the objects that it changed.
pub record Handled (K U : Type 0) : Type 0 where
  pub done : Bool
  pub handler : MsrHandler U
  pub world : World K U

-- KVM_MSR_EXIT_REASON_VALID_MASK: the union of the bits INVAL, UNKNOWN and FILTER.
abbrev pub reason_valid_mask : ℕ
reason_valid_mask = 7

-- KVM_MSR_FILTER_READ | KVM_MSR_FILTER_WRITE, KVM_MSR_FILTER_DEFAULT_ALLOW,
-- KVM_MSR_FILTER_MAX_RANGES
abbrev pub filter_read_write : ℕ
filter_read_write = 3

abbrev pub default_allow : ℕ
default_allow = 0

abbrev pub max_ranges : ℕ
max_ranges = 16

-- `std::ranges::find(indices, idx) != indices.end()`
abbrev pub contains : List ℕ → ℕ → Bool
contains xs x = any (λ y. y == x) xs

-- The second loop of `installFilter`.
unfoldable pub push_new : List ℕ → List ℕ → List ℕ
push_new indices [] = indices
push_new indices (idx ∷ rest) =
    push_new (if contains indices idx then indices else indices ++ idx ∷ []) rest

abbrev pub range_of : ℕ → MsrRange
range_of idx = record { flags = filter_read_write; nmsrs = 1; base = idx; bitmap = 1 ∷ [] }

-- `result & 0xFFFF'FFFF` and `(result >> 32) & 0xFFFF'FFFF`.
abbrev pub inject : ℕ → Regs → Regs
inject result regs = record regs { rax = result % 2 ^ 32; rdx = (result / 2 ^ 32) % 2 ^ 32 }

module _ {U : Type 0} where
  abbrev pub new : MsrHandler U
  new = record { read_callbacks = []; write_callbacks = []; read_count = 0; write_count = 0 }

  unfoldable pub register_read : ℕ → ReadCallback U → MsrHandler U → MsrHandler U
  register_read idx cb h = record h { read_callbacks = assign idx cb h.read_callbacks }

  unfoldable pub register_write : ℕ → WriteCallback U → MsrHandler U → MsrHandler U
  register_write idx cb h = record h { write_callbacks = assign idx cb h.write_callbacks }

  unfoldable pub filter_indices : MsrHandler U → List ℕ
  unfolding push_new
  filter_indices h = push_new (keys h.read_callbacks) (keys h.write_callbacks)

  unfoldable pub filter_of : MsrHandler U → MsrFilter
  unfolding filter_indices
  filter_of h = record {
    flags = default_allow;
    ranges = take max_ranges (map range_of (filter_indices h));
  }

module _ {K : Type 0} (kvm : Kvm K) {U : Type 0} where
  unfoldable pub install_filter : Fd → MsrHandler U → Machine K → ErrorCode × Machine K
  unfolding filter_of
  install_filter vm_fd h m = elim (filter_indices h) [
    | [] ↦ (no_error, m)
    | _ ∷ _ ↦
        (let (r, k) = kvm.set_msr_filter vm_fd (filter_of h) m.kernel in
          (error_code r, set_kernel k m))
  ]

  unfoldable pub run_write : Option (WriteCallback U) → ℕ → ℕ → U → U
  run_write none idx value u = u
  run_write (some cb) idx value u = cb idx value u

  unfoldable pub run_read : Option (ReadCallback U) → ℕ → U → ℕ × U
  run_read none idx u = (0, u)
  run_read (some cb) idx u = cb idx u

  unfoldable pub handle_read : MsrHandler U → VCpu → MsrExit → World K U → Handled K U
  unfolding run_read
  handle_read h v exit w =
      let (result, user) = run_read (find exit.index h.read_callbacks) exit.index w.user in
      let called : World K U = record w { user = user } in
      elim (VCpu.get_regs kvm v w.machine) [
        | err e ↦ record { done = false; handler = h; world = called }
        | ok regs ↦
            (let (ec, machine) = VCpu.set_regs kvm v (inject result regs) w.machine in
              let w' : World K U = record { machine = machine; user = user } in
              if ec == no_error
              then record {
                done = true;
                handler = record h { read_count = u64 (h.read_count + 1) };
                world = w';
              }
              else record { done = false; handler = h; world = w' })
      ]

  unfoldable pub handle_write : MsrHandler U → MsrExit → World K U → Handled K U
  unfolding run_write
  handle_write h exit w = record {
    done = true;
    handler = record h { write_count = u64 (h.write_count + 1) };
    world = record w {
      user = run_write (find exit.index h.write_callbacks) exit.index exit.value w.user;
    };
  }

  unfoldable pub handle : MsrHandler U → VCpu → MsrExit → World K U → Handled K U
  handle h v exit w =
      if exit.reason == reason_valid_mask then handle_write h exit w else handle_read h v exit w
