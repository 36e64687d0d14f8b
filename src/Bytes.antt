-- ===== src/Bytes.antt =====
-- Bytes of a word as `std::memcpy` copies them on x86-64, the only target: the least significant
-- byte first. A buffer is a list of bytes.
pub mod Laws
use min_bp.Prelude.{ℕ, zero, suc, ◌+◌, ◌*◌, ◌/◌, ◌%◌, List, [], ◌∷◌, ◌++◌, length, take, drop}

-- The value of `memcpy(&value, data, n)` into a zeroed word, for the first `n` bytes `bs`.
unfoldable pub le_decode : List ℕ → ℕ
le_decode [] = 0
le_decode (b ∷ bs) = b + 256 * le_decode bs

-- The first `n` bytes of a word.
unfoldable pub le_encode : ℕ → ℕ → List ℕ
le_encode zero v = []
le_encode (suc n) v = v % 256 ∷ le_encode n (v / 256)

-- `memcpy(&value, buf, n)` with `value` zero before.
unfoldable pub load : ℕ → List ℕ → ℕ
load n buf = le_decode (take n buf)

-- `memcpy(buf, &value, n)`: the bytes behind the first `n` stay.
unfoldable pub store : ℕ → ℕ → List ℕ → List ℕ
store n v buf = le_encode n v ++ drop n buf
