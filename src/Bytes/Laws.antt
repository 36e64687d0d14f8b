-- ===== src/Bytes/Laws.antt =====
-- Laws of `Bytes`: a word stored is the word loaded, cut to the bytes that were copied.
use native.Mathlib.Nat.{div-div-eq-div-mul, pow-succ', div-add-mod}
use min_bp.Prelude.{
  ℕ, zero, suc, ◌+◌, ◌*◌, ◌/◌, ◌%◌, ◌^◌, ◌≤◌, ◌<◌, ◌≡◌, refl, ap, subst, List, [], ◌∷◌, ◌++◌,
  length, take, drop, arith, length-append, length-drop, take-append_exact, drop-append_exact,
}
use min_bp.Bytes.{le_decode, le_encode, load, store}

abbrev pub IsBytes : List ℕ → Type 0
IsBytes [] = Unit {0}
IsBytes (b ∷ bs) = (b < 256) × IsBytes bs

pub length-le_encode : (n v : ℕ) → length (le_encode n v) ≡ n
unfolding le_encode
length-le_encode zero v = refl
length-le_encode (suc n) v = ap suc (length-le_encode n (v / 256))

mod_256_mul : (v p : ℕ) → v % (256 * p) ≡ v % 256 + 256 * ((v / 256) % p)
mod_256_mul v p = omega (
  arith,
  div-add-mod v (256 * p),
  div-add-mod (v / 256) p,
  ap (λ (t : ℕ). 256 * p * t) (div-div-eq-div-mul v 256 p),
)

pub le_decode-le_encode : (n v : ℕ) → le_decode (le_encode n v) ≡ v % 256 ^ n
unfolding le_decode le_encode
le_decode-le_encode zero v = omega arith
le_decode-le_encode (suc n) v = omega (
  arith,
  le_decode-le_encode n (v / 256),
  mod_256_mul v (256 ^ n),
  ap (λ (t : ℕ). v % t) (pow-succ' 256 n),
)

pub le_decode-lt : (bs : List ℕ) → IsBytes bs → le_decode bs < 256 ^ length bs
unfolding le_decode
le_decode-lt [] h = omega arith
le_decode-lt (b ∷ bs) h = omega (arith, le_decode-lt bs h.1, pow-succ' 256 (length bs))

pub le_encode-le_decode : (bs : List ℕ) → IsBytes bs → le_encode (length bs) (le_decode bs) ≡ bs
unfolding le_decode le_encode
le_encode-le_decode [] h = refl
le_encode-le_decode (b ∷ bs) h =
    let low : (b + 256 * le_decode bs) % 256 ≡ b = omega (arith, h.0) in
    let high : (b + 256 * le_decode bs) / 256 ≡ le_decode bs = omega (arith, h.0) in
    rw (low, high) (ap (◌∷◌ b) (le_encode-le_decode bs h.1))

pub load-store : (n v : ℕ) (buf : List ℕ) → load n (store n v buf) ≡ v % 256 ^ n
unfolding load store
load-store n v buf =
    let cut = take-append_exact (le_encode n v) (drop n buf) in
    let head : take n (le_encode n v ++ drop n buf) ≡ le_encode n v =
      subst (λ k. take k (le_encode n v ++ drop n buf) ≡ le_encode n v) (length-le_encode n v)
        cut in
    rw head (le_decode-le_encode n v)

pub length-store : (n v : ℕ) (buf : List ℕ) → n ≤ length buf → length (store n v buf) ≡ length buf
unfolding store
length-store n v buf h =
    omega
      (arith, length-append (le_encode n v) (drop n buf), length-le_encode n v, length-drop n buf)

pub drop-store : (n v : ℕ) (buf : List ℕ) → drop n (store n v buf) ≡ drop n buf
unfolding store
drop-store n v buf =
    subst (λ k. drop k (le_encode n v ++ drop n buf) ≡ drop n buf) (length-le_encode n v)
      (drop-append_exact (le_encode n v) (drop n buf))
