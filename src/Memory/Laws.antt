-- ===== src/Memory/Laws.antt =====
-- Laws of the copies of `Memory`.
use min_bp.Prelude.{
  ℕ, zero, suc, ◌+◌, ◌%◌, ◌^◌, ◌≤◌, ◌<◌, ◌≡◌, refl, ap, ap₂, ◌∙◌, subst, ◌⊎◌, inl, ◌&&◌, List, [],
  ◌∷◌, length, leb, ltb, if◌then◌else◌, arith,
}
use min_bp.Bytes.{le_decode, le_encode}
use min_bp.Bytes.Laws.{le_decode-le_encode, length-le_encode}
use min_bp.Memory.{Memory, poke, peek, fill, store_u64, load_u64}

-- `x` is none of the `n` addresses from `a`.
abbrev pub Apart : ℕ → ℕ → ℕ → Type 0
Apart a n x = (x < a) ⊎ (a + n ≤ x)

pub poke-Apart :
    (a : ℕ) (bs : List ℕ) (mem : Memory) (x : ℕ) → Apart a (length bs) x → poke a bs mem x ≡ mem x
unfolding poke
poke-Apart a [] mem x h = refl
poke-Apart a (b ∷ bs) mem x h = poke-Apart (a + 1) bs _ x (ground arith) ∙ ground arith

pub peek-congr :
    (a n : ℕ) (m m' : Memory)
    → ((x : ℕ) → a ≤ x → x < a + n → m x ≡ m' x)
    → peek a n m ≡ peek a n m'
unfolding peek
peek-congr a zero m m' h = refl
peek-congr a (suc n) m m' h =
    ap₂ ◌∷◌ (h a (omega arith) (omega arith))
      (peek-congr (a + 1) n m m' (λ x p q. h x (omega arith) (omega arith)))

pub peek-poke : (a : ℕ) (bs : List ℕ) (mem : Memory) → peek a (length bs) (poke a bs mem) ≡ bs
unfolding peek poke
peek-poke a [] mem = refl
peek-poke a (b ∷ bs) mem =
    ap₂ ◌∷◌ (poke-Apart (a + 1) bs _ a (inl (omega arith)) ∙ ground arith) (peek-poke (a + 1) bs _)

pub length-peek : (a n : ℕ) (mem : Memory) → length (peek a n mem) ≡ n
unfolding peek
length-peek a zero mem = refl
length-peek a (suc n) mem = ap suc (length-peek (a + 1) n mem)

-- Bytes copied out and back in at one place.
pub poke-peek :
    (a n : ℕ) (m m' : Memory) (x : ℕ)
    → poke a (peek a n m) m' x ≡ (if leb a x && ltb x (a + n) then m x else m' x)
unfolding poke peek
poke-peek a zero m m' x = ground arith
poke-peek a (suc n) m m' x = poke-peek (a + 1) n m _ x ∙ ground arith

pub load-store_u64 : (a v : ℕ) (mem : Memory) → load_u64 a (store_u64 a v mem) ≡ v % 2 ^ 64
unfolding load_u64 store_u64
load-store_u64 a v mem =
    ap le_decode (
      subst (λ n. peek a n (poke a (le_encode 8 v) mem) ≡ le_encode 8 v) (length-le_encode 8 v)
        (peek-poke a (le_encode 8 v) mem))
    ∙ le_decode-le_encode 8 v

pub store_u64-Apart : (a v : ℕ) (mem : Memory) (x : ℕ) → Apart a 8 x → store_u64 a v mem x ≡ mem x
unfolding store_u64
store_u64-Apart a v mem x h = poke-Apart a (le_encode 8 v) mem x (rw (length-le_encode 8 v) h)

pub load_u64-congr :
    (a : ℕ) (m m' : Memory)
    → ((x : ℕ) → a ≤ x → x < a + 8 → m x ≡ m' x)
    → load_u64 a m ≡ load_u64 a m'
unfolding load_u64
load_u64-congr a m m' h = ap le_decode (peek-congr a 8 m m' h)

pub fill_inside : (a b n : ℕ) (mem : Memory) (x : ℕ) → a ≤ x → x < a + n → fill a b n mem x ≡ b
unfolding fill
fill_inside a b n mem x p q = ground arith

pub fill-Apart : (a b n : ℕ) (mem : Memory) (x : ℕ) → Apart a n x → fill a b n mem x ≡ mem x
unfolding fill
fill-Apart a b n mem x h = ground arith
