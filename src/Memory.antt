-- ===== src/Memory.antt =====
-- The bytes of the process, by address, and the copies that the C++ library makes there.
pub mod Laws
use min_bp.Prelude.{ℕ, zero, suc, ◌+◌, ◌==◌, ◌&&◌, List, [], ◌∷◌, leb, ltb, if◌then◌else◌}
use min_bp.Bytes.{le_decode, le_encode}

abbrev pub Memory : Type 0
Memory = ℕ → ℕ

-- `std::copy` or `std::memcpy` to the address `a`.
unfoldable pub poke : ℕ → List ℕ → Memory → Memory
poke a [] mem = mem
poke a (b ∷ bs) mem = poke (a + 1) bs (λ x. if a == x then b else mem x)

-- `n` bytes copied from the address `a`.
unfoldable pub peek : ℕ → ℕ → Memory → List ℕ
peek a zero mem = []
peek a (suc n) mem = mem a ∷ peek (a + 1) n mem

-- `std::memset(a, b, n)`
unfoldable pub fill : ℕ → ℕ → ℕ → Memory → Memory
fill a b n mem = λ x. if leb a x && ltb x (a + n) then b else mem x

-- A `uint64_t` stored or loaded through a pointer.
unfoldable pub store_u64 : ℕ → ℕ → Memory → Memory
store_u64 a v mem = poke a (le_encode 8 v) mem

unfoldable pub load_u64 : ℕ → Memory → ℕ
load_u64 a mem = le_decode (peek a 8 mem)
