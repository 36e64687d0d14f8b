-- ===== src/MsrHandler/Filter.antt =====
-- The filter that `installFilter` of src/MsrHandler.cpp builds.
use min_bp.Prelude.{
  ℕ, zero, suc, ◌+◌, ◌-◌, ◌/◌, ◌%◌, ◌^◌, ◌==◌, ◌≡◌, refl, Bool, true, false, ◌&&◌, ◌||◌, List, [],
  ◌∷◌, ◌++◌, map, keys, take, leb, ltb, if◌then◌else◌, arith, Bool-cases, inl, inr,
}
use native.Mathlib.Nat.{sub_self}
use min_bp.Kvm.{MsrRange, MsrFilter}
use min_bp.MsrHandler.{
  MsrHandler, contains, push_new, range_of, max_ranges, filter_indices, filter_of,
}

abbrev pub Distinct : List ℕ → Type 0
Distinct [] = Unit {0}
Distinct (x ∷ xs) = (contains xs x ≡ false) × Distinct xs

contains-last : (xs : List ℕ) (y x : ℕ) → contains (xs ++ y ∷ []) x ≡ (contains xs x || y == x)
contains-last [] y x = ground arith
contains-last (z ∷ xs) y x = ground (arith, contains-last xs y x)

Distinct-last :
    (xs : List ℕ) (y : ℕ) → contains xs y ≡ false → Distinct xs → Distinct (xs ++ y ∷ [])
Distinct-last [] y n d = (refl, tt)
Distinct-last (x ∷ xs) y n d =
    (ground (arith, contains-last xs y x), Distinct-last xs y (ground arith) d.1)

push_new-Distinct : (xs ys : List ℕ) → Distinct xs → Distinct (push_new xs ys)
unfolding push_new
push_new-Distinct xs [] d = d
push_new-Distinct xs (y ∷ ys) d = elim (Bool-cases (contains xs y)) [
  | inl e ↦ rw e (push_new-Distinct xs ys d)
  | inr e ↦ rw e (push_new-Distinct (xs ++ y ∷ []) ys (Distinct-last xs y e d))
]

contains-push_new :
    (xs ys : List ℕ) (x : ℕ) → contains (push_new xs ys) x ≡ (contains xs x || contains ys x)
unfolding push_new
contains-push_new xs [] x = ground arith
contains-push_new xs (y ∷ ys) x = elim (Bool-cases (contains xs y)) [
  | inl e ↦ rw e (ground (arith, contains-push_new xs ys x))
  | inr e ↦ rw e (ground (arith, contains-push_new (xs ++ y ∷ []) ys x, contains-last xs y x))
]

module _ {U : Type 0} where
  -- The indices of the filter are the keys of the read and of the write callbacks, each once.
  pub filter_indices_exact :
      (h : MsrHandler U)
      → Distinct (keys h.read_callbacks)
      → Distinct (filter_indices h)
        × ((x : ℕ)
            → contains (filter_indices h) x
              ≡ (contains (keys h.read_callbacks) x || contains (keys h.write_callbacks) x))
  unfolding filter_indices
  filter_indices_exact h d = (
    push_new-Distinct (keys h.read_callbacks) (keys h.write_callbacks) d,
    contains-push_new (keys h.read_callbacks) (keys h.write_callbacks),
  )

-- What the kernel documents of a filter: the first range that covers an index decides by its bit of
-- the bitmap, 1 for an access that is allowed in the kernel and 0 for one that is denied and exits;
-- where none covers it the default decides.
abbrev word_at : List ℕ → ℕ → ℕ
word_at [] i = 0
word_at (x ∷ xs) zero = x
word_at (x ∷ xs) (suc i) = word_at xs i

abbrev bit_at : List ℕ → ℕ → ℕ
bit_at bitmap i = (word_at bitmap (i / 64) / 2 ^ (i % 64)) % 2

abbrev covers : MsrRange → ℕ → Bool
covers r x = leb r.base x && ltb x (r.base + r.nmsrs)

abbrev pub allows : ℕ → List MsrRange → ℕ → Bool
allows flags [] x = flags == 0
allows flags (r ∷ rs) x =
    if covers r x then bit_at r.bitmap (x - r.base) == 1 else allows flags rs x

abbrev pub permits : MsrFilter → ℕ → Bool
permits f x = allows f.flags f.ranges x

range_of-permits : (idx x : ℕ) → covers (range_of idx) x ≡ true → x ≡ idx
range_of-permits idx x c = ground arith

allows-range_of : (n : ℕ) (xs : List ℕ) (x : ℕ) → allows 0 (take n (map range_of xs)) x ≡ true
allows-range_of zero xs x = refl
allows-range_of (suc n) [] x = refl
allows-range_of (suc n) (y ∷ ys) x = elim (Bool-cases (covers (range_of y) x)) [
  | inl c ↦ rw (c, range_of-permits y x c, sub_self y) refl
  | inr c ↦ rw c (allows-range_of n ys x)
]

module _ {U : Type 0} where
  -- Whatever callbacks are registered, the filter that is installed permits every access: its default
  -- is to allow, and each range sets the bit of its index to 1. So no registered register exits.
  pub permits-filter_of : (h : MsrHandler U) (x : ℕ) → permits (filter_of h) x ≡ true
  unfolding filter_of
  permits-filter_of h x = allows-range_of max_ranges (filter_indices h) x
