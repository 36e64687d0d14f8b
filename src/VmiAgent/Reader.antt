-- ===== src/VmiAgent/Reader.antt =====
-- A reader of the texts that src/VmiAgent.cpp prints.
use Prim.Native.String.{String, ◌++◌, ◌∷◌, [], char_at}
use Prim.Native.Char.{Char, code}
use text.Mathlib.TextLemmas.{append_assoc, cons-append, nil-append}
use native.Mathlib.Nat.{pow-suc}
use min_bp.Prelude.{
  ℕ, zero, suc, ◌+◌, ◌-◌, ◌*◌, ◌/◌, ◌%◌, ◌^◌, ◌<◌, ◌==◌, ==_iff, ==_refl, ◌≡◌, refl, ap, sym, ◌∙◌,
  Bool, true, false, not, ◌&&◌, Option, none, some, if◌then◌else◌, leb, all_below, all_below-apply,
  arith, Bool-cases, inl, inr,
}
use min_bp.VmiAgent.Summary.{upper_case, lower_case, digit, digits, hex, dec}

-- The value of a digit, in either case.
abbrev pub digit_value : Char → Option ℕ
digit_value c =
    if leb 48 (code c) && leb (code c) 57
    then some (code c - 48)
    else if leb 65 (code c) && leb (code c) 70
    then some (code c - 55)
    else if leb 97 (code c) && leb (code c) 102
    then some (code c - 87)
    else none

-- What reads a text gives a value and the text behind it.
abbrev pub Reader : Type 0 → Type 0
Reader A = String → Option (A × String)

unfoldable pub pure : {A : Type 0} → A → Reader A
pure a s = some (a, s)

module _ {A B : Type 0} where
  abbrev pub and_then : Option (A × String) → (A → Reader B) → Option (B × String)
  and_then none k = none
  and_then (some (a, s)) k = k a s

  infixl 5 ◌>>=◌ ◌>>◌
  unfoldable pub ◌>>=◌ : Reader A → (A → Reader B) → Reader B
  r >>= k = λ s. and_then (r s) k

  unfoldable pub ◌>>◌ : Reader A → Reader B → Reader B
  unfolding ◌>>=◌
  r >> q = r >>= λ _. q

-- A number, after the digits that made up `acc`.
unfoldable pub read_digits : ℕ → ℕ → String → ℕ × String
read_digits radix acc [] = (acc, [])
read_digits radix acc (c ∷ s) = elim (digit_value c) [
  | none ↦ (acc, c ∷ s)
  | some d ↦ read_digits radix (acc * radix + d) s
]

unfoldable pub number : ℕ → Reader ℕ
unfolding read_digits
number radix s = some (read_digits radix 0 s)

-- The text behind a given beginning.
unfoldable pub expect : String → Reader (Unit {0})
expect [] s = some (tt, s)
expect (c ∷ p) [] = none
expect (c ∷ p) (d ∷ s) = if code c == code d then expect p s else none

abbrev value_of : String → ℕ → Bool
value_of alphabet d = elim (digit_value (char_at alphabet d)) [ none ↦ false | some e ↦ e == d ]

abbrev pub IsAlphabet : String → Type 0
IsAlphabet alphabet = (d : ℕ) → d < 16 → digit_value (char_at alphabet d) ≡ some d

value_is : (o : Option ℕ) (d : ℕ) → (elim o [ none ↦ false | some e ↦ e == d ]) ≡ true → o ≡ some d
value_is none d h = cc
value_is (some e) d h = ap some ((==_iff e d).0 h)

upper_case_checks : all_below 16 (value_of upper_case) ≡ true
unfolding all_below
upper_case_checks = refl

lower_case_checks : all_below 16 (value_of lower_case) ≡ true
unfolding all_below
lower_case_checks = refl

pub upper_case-IsAlphabet : IsAlphabet upper_case
upper_case-IsAlphabet d h =
    value_is (digit_value (char_at upper_case d)) d (all_below-apply 16 _ d upper_case_checks h)

pub lower_case-IsAlphabet : IsAlphabet lower_case
lower_case-IsAlphabet d h =
    value_is (digit_value (char_at lower_case d)) d (all_below-apply 16 _ d lower_case_checks h)

pub expect-append : (p s : String) → expect p (p ++ s) ≡ some (tt, s)
unfolding expect
expect-append [] s = rw (nil-append s) refl
expect-append (c ∷ p) s = rw (cons-append c p s, ==_refl (code c)) (expect-append p s)

-- Whether two texts differ in their first character.
unfoldable pub differ : String → String → Bool
differ [] q = false
differ (c ∷ p) [] = false
differ (c ∷ p) (d ∷ q) = not (code c == code d)

pub expect_other : (p q s : String) → differ p q ≡ true → expect p (q ++ s) ≡ none
unfolding expect differ
expect_other [] q s h = cc h
expect_other (c ∷ p) [] s h = cc h
expect_other (c ∷ p) (d ∷ q) s h = elim (Bool-cases (code c == code d)) [
  | inl e ↦ cc (h, e)
  | inr e ↦ rw (cons-append d q s, e) refl
]

-- What division by the radix does to a number of so many digits.
record IsRadix (radix : ℕ) : Type 0 where
  empty : (n : ℕ) → n < radix ^ 0 → 0 ≡ n
  small : (n : ℕ) → n % radix < 16
  join : (n : ℕ) → (n / radix) * radix + n % radix ≡ n
  shrink : (fuel n : ℕ) → n < radix ^ suc fuel → n / radix < radix ^ fuel

ten-IsRadix : IsRadix 10
ten-IsRadix = record {
  empty = λ n h. omega arith;
  small = λ n. omega arith;
  join = λ n. omega arith;
  shrink = λ fuel n h. omega (arith, pow-suc 10 fuel);
}

sixteen-IsRadix : IsRadix 16
sixteen-IsRadix = record {
  empty = λ n h. omega arith;
  small = λ n. omega arith;
  join = λ n. omega arith;
  shrink = λ fuel n h. omega (arith, pow-suc 16 fuel);
}

module _ (radix : ℕ) (alphabet : String) (r : IsRadix radix) (a : IsAlphabet alphabet) where
  read_digits-cons :
      (acc : ℕ) (c : Char) (d : ℕ) (t : String)
      → digit_value c ≡ some d
      → read_digits radix acc (c ∷ t) ≡ read_digits radix (acc * radix + d) t
  unfolding read_digits
  read_digits-cons acc c d t e = rw (e, read_digits) refl

  read_digits-digit :
      (acc d : ℕ) (t : String)
      → d < 16
      → read_digits radix acc (digit alphabet d ++ t) ≡ read_digits radix (acc * radix + d) t
  unfolding read_digits
  read_digits-digit acc d t h =
      rw (cons-append (char_at alphabet d) [] t, nil-append t)
        (read_digits-cons acc (char_at alphabet d) d t (a d h))

  read_digits-digits :
      (fuel n : ℕ) (t : String)
      → n < radix ^ fuel
      → read_digits radix 0 (digits alphabet radix fuel n ++ t) ≡ read_digits radix n t
  unfolding digits
  read_digits-digits zero n t h = rw (nil-append t) (ap (λ k. read_digits radix k t) (r.empty n h))
  read_digits-digits (suc fuel) n t h = elim (Bool-cases (n / radix == 0)) [
    | inl e ↦ rw e (
        read_digits-digit 0 (n % radix) t (r.small n)
        ∙ ap (λ k. read_digits radix k t)
            (ap (λ q. q * radix + n % radix) (sym ((==_iff (n / radix) 0).0 e)) ∙ r.join n))
    | inr e ↦
        rw (e, append_assoc (digits alphabet radix fuel (n / radix)) (digit alphabet (n % radix)) t)
          (read_digits-digits fuel (n / radix) (digit alphabet (n % radix) ++ t) (r.shrink fuel n h)
            ∙ read_digits-digit (n / radix) (n % radix) t (r.small n)
            ∙ ap (λ k. read_digits radix k t) (r.join n))
  ]

-- Whether a text begins with something else than a digit.
unfoldable pub ends_number : String → Bool
ends_number [] = false
ends_number (c ∷ s) = elim (digit_value c) [ none ↦ true | some d ↦ false ]

is_none : (o : Option ℕ) → (elim o [ none ↦ true | some d ↦ false ]) ≡ true → o ≡ none
is_none none h = refl
is_none (some d) h = cc

read_digits-end :
    (radix n : ℕ) (p s : String) → ends_number p ≡ true → read_digits radix n (p ++ s) ≡ (n, p ++ s)
unfolding ends_number read_digits
read_digits-end radix n [] s e = cc
read_digits-end radix n (c ∷ p) s e =
    rw (cons-append c p s, is_none (digit_value c) e, read_digits) refl

-- A reader reads a value from a text, and leaves the rest.
pub data Reads {A : Type 0} (r : Reader A) (s : String) (a : A) (t : String) : Type 0 where
  reads : r s ≡ some (a, t) → Reads r s a t

pub read_by :
    {A : Type 0} {r : Reader A} {s : String} {a : A} {t : String}
    → Reads r s a t
    → r s ≡ some (a, t)
read_by (reads e) = e

-- A printed number is read back, as long as no digit follows.
module _ (n : ℕ) (p s : String) (h : n < 2 ^ 64) (e : ends_number p ≡ true) where
  pub hex-Reads : Reads (number 16) (hex n ++ (p ++ s)) n (p ++ s)
  unfolding number
  hex-Reads = reads (
      ap some (
        read_digits-digits 16 upper_case sixteen-IsRadix upper_case-IsAlphabet 20 n (p ++ s)
          (omega arith)
        ∙ read_digits-end 16 n p s e))

  pub low_hex-Reads : Reads (number 16) (digits lower_case 16 20 n ++ (p ++ s)) n (p ++ s)
  unfolding number
  low_hex-Reads = reads (
      ap some (
        read_digits-digits 16 lower_case sixteen-IsRadix lower_case-IsAlphabet 20 n (p ++ s)
          (omega arith)
        ∙ read_digits-end 16 n p s e))

  pub dec-Reads : Reads (number 10) (dec n ++ (p ++ s)) n (p ++ s)
  unfolding number
  dec-Reads = reads (
      ap some (
        read_digits-digits 10 upper_case ten-IsRadix upper_case-IsAlphabet 20 n (p ++ s)
          (omega arith)
        ∙ read_digits-end 10 n p s e))

pub pure-Reads : {A : Type 0} (a : A) (s : String) → Reads (pure a) s a s
unfolding pure
pure-Reads a s = reads refl

pub expect-Reads : (p s : String) → Reads (expect p) (p ++ s) tt s
expect-Reads p s = reads (expect-append p s)

module _ {A B : Type 0} where
  pub bind :
      (k : A → Reader B) {r : Reader A} {s t u : String} {a : A} {b : B}
      → Reads r s a t
      → Reads (k a) t b u
      → Reads (r >>= k) s b u
  unfolding ◌>>=◌
  bind k (reads e) (reads f) = reads (rw e f)

  pub next :
      {r : Reader A} {q : Reader B} {s t u : String} {a : A} {b : B}
      → Reads r s a t
      → Reads q t b u
      → Reads (r >> q) s b u
  unfolding ◌>>=◌ ◌>>◌
  next (reads e) (reads f) = reads (rw e f)
