-- ===== src/Prelude/Bits.antt =====
-- `|` of a number shifted left and one that fits below it.
use Prim.Native.Nat.{
  ℕ, zero, suc, ◌+◌, ◌*◌, ◌/◌, ◌^◌, ◌≤◌, ◌<◌, max, bit_or, digits, bit_or-bitwise,
}
use mathlib.Core.Path.{◌≡◌, refl, ap, ◌∙◌}
use native.Mathlib.Nat.{pow-suc}
use native.Mathlib.Omega.{arith}

abbrev or_digits : ℕ → ℕ → ℕ → ℕ
or_digits n a b = digits (λ d. d) max n a b

or_digits-zero : (n a : ℕ) → a ≤ n → or_digits n a 0 ≡ a
or_digits-zero zero zero h = refl
or_digits-zero zero (suc a) h = absurd (omega arith)
or_digits-zero (suc n) zero h = refl
or_digits-zero (suc n) (suc a) h = omega (arith, or_digits-zero n (suc a / 2) (omega arith))

double_pow : (q k : ℕ) → q * 2 ^ suc k ≡ q * 2 ^ k * 2
double_pow q k = omega (arith, ap (λ (t : ℕ). q * t) (pow-suc 2 k))

or_digits-disjoint : (n k a q r : ℕ) → a ≡ q * 2 ^ k → a ≤ n → r < 2 ^ k → or_digits n a r ≡ a + r
or_digits-disjoint n zero a q zero e h lt = omega (arith, or_digits-zero n a h)
or_digits-disjoint n zero a q (suc r) e h lt = absurd (omega arith)
or_digits-disjoint zero (suc k) zero q r e h lt = omega arith
or_digits-disjoint zero (suc k) (suc a) q r e h lt = absurd (omega arith)
or_digits-disjoint (suc n) (suc k) zero q r e h lt = omega arith
or_digits-disjoint (suc n) (suc k) (suc a) q r e h lt =
    let half : suc a / 2 ≡ q * 2 ^ k = omega (arith, e, double_pow q k) in
    omega (
      arith,
      e,
      double_pow q k,
      pow-suc 2 k,
      or_digits-disjoint n k (suc a / 2) q (r / 2) half (omega arith) (omega (arith, pow-suc 2 k)),
    )

pub bit_or-disjoint : (k q r : ℕ) → r < 2 ^ k → bit_or (q * 2 ^ k) r ≡ q * 2 ^ k + r
bit_or-disjoint k q r h =
    (λ i. bit_or-bitwise (q * 2 ^ k) r i)
    ∙ or_digits-disjoint (q * 2 ^ k) k (q * 2 ^ k) q r refl (omega arith) h
