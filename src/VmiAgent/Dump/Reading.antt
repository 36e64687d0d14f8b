-- ===== src/VmiAgent/Dump/Reading.antt =====
-- A reader of the file that `dumpEventLog` of src/VmiAgent.cpp writes.
use Prim.Native.String.{String, ◌∷◌, []}
use Prim.Native.Char.{code}
use min_bp.Prelude.{ℕ, zero, suc, ◌+◌, ◌*◌, ◌==◌, Option, none, some, if◌then◌else◌, List}
use min_bp.VmiAgent.Reader.{Reader, pure, ◌>>=◌, ◌>>◌, number, expect, digit_value}

-- What the file says of an event.
pub record LogEntry : Type 0 where
  pub milliseconds : ℕ
  pub vcpu_id : ℕ
  pub rip : ℕ
  pub summary : String
  pub mem_dump : Option (List ℕ)

-- The value changed, if one was read.
abbrev pub on_value : {A B : Type 0} → (A → B) → Option (A × String) → Option (B × String)
on_value f none = none
on_value f (some (a, s)) = some (f a, s)

-- The text before the next quotation mark.
unfoldable pub until_quote : Reader String
until_quote [] = none
until_quote (c ∷ s) =
    let rest = until_quote s in
    if code c == b'"' then some ("", c ∷ s) else on_value (λ t. c ∷ t) rest

-- Bytes of two digits each.
unfoldable pub read_bytes : Reader (List ℕ)
read_bytes [] = some (List.[], [])
read_bytes (c ∷ []) = some (List.[], c ∷ [])
read_bytes (c ∷ d ∷ s) = elim (digit_value c) [
  | none ↦ some (List.[], c ∷ d ∷ s)
  | some high ↦ elim (digit_value d) [
    | none ↦ some (List.[], c ∷ d ∷ s)
    | some low ↦ on_value (λ bs. List.◌∷◌ (high * 16 + low) bs) (read_bytes s)
  ]
]

-- What `r` reads, if the text begins with `p`.
unfoldable pub optional : {A : Type 0} → String → Reader A → Reader (Option A)
unfolding expect
optional p r s = elim (expect p s) [ none ↦ some (none, s) | some (_, t) ↦ on_value some (r t) ]

unfoldable pub read_dump : Reader (List ℕ)
unfolding read_bytes expect
read_dump = do bytes ← read_bytes; expect "\""; pure bytes

unfoldable pub read_entry : Reader LogEntry
unfolding until_quote expect optional read_dump
read_entry = do
  expect "  {\n    \"timestamp\": "
  time ← number 10
  expect ",\n    \"vcpu_id\": "
  id ← number 10
  expect ",\n    \"rip\": \"0x"
  at ← number 16
  expect "\",\n    \"summary\": \""
  text ← until_quote
  expect "\""
  dump ← optional ",\n    \"mem_dump\": \"" read_dump
  expect "\n  }"
  pure (record { milliseconds = time; vcpu_id = id; rip = at; summary = text; mem_dump = dump })

-- The entries up to the end, `fuel` at most.
unfoldable pub read_entries : ℕ → Reader (List LogEntry)
unfolding read_entry optional expect
read_entries zero s = none
read_entries (suc fuel) s = elim (expect "]\n" s) [
  | some (_, t) ↦ some (List.[], t)
  | none ↦
      (do
        entry ← read_entry
        optional "," (pure tt)
        expect "\n"
        rest ← read_entries fuel
        pure (List.◌∷◌ entry rest))
        s
]

unfoldable pub read_log : ℕ → Reader (List LogEntry)
unfolding read_entries expect
read_log fuel = expect "[\n" >> read_entries fuel
