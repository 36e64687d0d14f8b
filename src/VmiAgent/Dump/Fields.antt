-- ===== src/VmiAgent/Dump/Fields.antt =====
-- The texts, bytes and optional parts of a file of src/VmiAgent.cpp are read back.
use Prim.Native.String.{String, ◌++◌, ◌∷◌, [], char_at}
use Prim.Native.Char.{Char, code}
use text.Mathlib.TextLemmas.{append_assoc, cons-append, nil-append}
use min_bp.Prelude.{
  ℕ, ◌+◌, ◌*◌, ◌/◌, ◌%◌, ◌<◌, ◌==◌, ◌≡◌, refl, ap, ◌∙◌, Bool, false, ◌||◌, none, some, arith,
  Bool-cases, inl, inr, List,
}
use min_bp.VmiAgent.Summary.{lower_case}
use min_bp.VmiAgent.Dump.{dump_byte, dump_bytes}
use min_bp.VmiAgent.Dump.Reading.{on_value, until_quote, read_bytes, optional}
use min_bp.VmiAgent.Reader.{
  Reader, expect, digit_value, lower_case-IsAlphabet, Reads, reads, expect-append,
}

unfoldable pub has_quote : String → Bool
has_quote [] = false
has_quote (c ∷ s) = code c == b'"' || has_quote s

abbrev quote : Char
quote = char_at "\"" 0

quote_first : (s : String) → "\"" ++ s ≡ quote ∷ s
quote_first s = cons-append quote [] s ∙ ap (λ t. quote ∷ t) (nil-append s)

until_quote_lem :
    (p s : String) → has_quote p ≡ false → until_quote (p ++ (quote ∷ s)) ≡ some (p, quote ∷ s)
unfolding until_quote has_quote
until_quote_lem [] s h = rw (nil-append (quote ∷ s)) refl
until_quote_lem (c ∷ p) s h = elim (Bool-cases (code c == b'"')) [
  | inl e ↦ cc (h, e)
  | inr e ↦ rw (cons-append c p (quote ∷ s), e, until_quote_lem p s (ground arith)) refl
]

pub until_quote-Reads :
    (p s : String) → has_quote p ≡ false → Reads until_quote (p ++ ("\"" ++ s)) p ("\"" ++ s)
until_quote-Reads p s h = reads (rw (quote_first s) (until_quote_lem p s h))

abbrev pub AllBytes : List ℕ → Type 0
AllBytes List.[] = Unit {0}
AllBytes (List.◌∷◌ b bs) = (b < 256) × AllBytes bs

-- Two digits in front of a text.
dump_byte-append :
    (b : ℕ) (s : String)
    → dump_byte b ++ s ≡ char_at lower_case (b / 16) ∷ (char_at lower_case (b % 16) ∷ s)
dump_byte-append b s =
    let high = char_at lower_case (b / 16) in
    let low = char_at lower_case (b % 16) in
    append_assoc (high ∷ []) (low ∷ []) s
    ∙ cons-append high [] ((low ∷ []) ++ s)
    ∙ ap (λ t. high ∷ t)
        (nil-append ((low ∷ []) ++ s) ∙ cons-append low [] s ∙ ap (λ t. low ∷ t) (nil-append s))

read_bytes-quote : (s : String) → read_bytes (quote ∷ s) ≡ some (List.[], quote ∷ s)
unfolding read_bytes
read_bytes-quote [] = refl
read_bytes-quote (c ∷ s) = refl

read_bytes-cons :
    (c d : Char) (high low : ℕ) (s : String)
    → digit_value c ≡ some high
    → digit_value d ≡ some low
    → read_bytes (c ∷ d ∷ s) ≡ on_value (λ bs. List.◌∷◌ (high * 16 + low) bs) (read_bytes s)
unfolding read_bytes
read_bytes-cons c d high low s e f = rw (e, f, read_bytes) refl

read_bytes_lem :
    (bs : List ℕ) (s : String)
    → AllBytes bs
    → read_bytes (dump_bytes bs ++ (quote ∷ s)) ≡ some (bs, quote ∷ s)
unfolding read_bytes dump_bytes
read_bytes_lem List.[] s h = rw (nil-append (quote ∷ s)) (read_bytes-quote s)
read_bytes_lem (List.◌∷◌ b bs) s h =
    rw
      (
        append_assoc (dump_byte b) (dump_bytes bs) (quote ∷ s),
        dump_byte-append b (dump_bytes bs ++ (quote ∷ s)),
        read_bytes-cons (char_at lower_case (b / 16)) (char_at lower_case (b % 16)) (b / 16)
            (b % 16) (dump_bytes bs ++ (quote ∷ s))
            (lower_case-IsAlphabet (b / 16) (omega (arith, h.0)))
            (lower_case-IsAlphabet (b % 16) (omega arith)),
        read_bytes_lem bs s h.1,
      )
      (ap (λ c. some (List.◌∷◌ c bs, quote ∷ s)) (omega arith))

pub read_bytes-Reads :
    (bs : List ℕ) (s : String)
    → AllBytes bs
    → Reads read_bytes (dump_bytes bs ++ ("\"" ++ s)) bs ("\"" ++ s)
read_bytes-Reads bs s h = reads (rw (quote_first s) (read_bytes_lem bs s h))

module _ {A : Type 0} (p : String) (r : Reader A) where
  pub optional-Reads :
      (s t : String) (a : A) → Reads r s a t → Reads (optional p r) (p ++ s) (some a) t
  unfolding optional
  optional-Reads s t a (reads e) = reads (rw (expect-append p s, optional, e) refl)

  -- A text that begins otherwise.
  pub optional-Reads_none : (s : String) → expect p s ≡ none → Reads (optional p r) s none s
  unfolding optional
  optional-Reads_none s e = reads (rw (e, optional) refl)
