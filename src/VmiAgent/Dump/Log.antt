-- ===== src/VmiAgent/Dump/Log.antt =====
-- The file that `dumpEventLog` of src/VmiAgent.cpp writes, read back. Summaries have no quotation mark.
use Prim.Native.String.{String, ◌++◌, ◌∷◌, [], char_at}
use Prim.Native.Char.{code}
use text.Mathlib.TextLemmas.{cons-append, nil-append}
use min_bp.Prelude.{
  ℕ, zero, suc, ◌/◌, ◌%◌, ◌^◌, ◌<◌, ◌==◌, ◌≡◌, refl, ap, ◌∙◌, Bool, true, false, not, some, arith,
  List, map, length, all_below, all_below-apply, Bool-cases, inl, inr, if◌then◌else◌,
}
use min_bp.Event.{EventType, EventPayload, HvEvent}
use min_bp.VmiAgent.{IntrospectionEvent}
use min_bp.VmiAgent.Summary.{
  GuestSnapshot, upper_case, digit, digits, hex, dec, describe, build_summary,
}
use min_bp.VmiAgent.Dump.{dump_entries, dump_event_log}
use min_bp.VmiAgent.Dump.Reading.{read_log}
use min_bp.VmiAgent.Dump.Fields.{has_quote}
use min_bp.VmiAgent.Dump.Roundtrip.{
  DumpBytes, IsPrintable, AllPrintable, entry_of, read_entries-Reads,
}
use min_bp.VmiAgent.Reader.{next, read_by, expect-Reads}

-- A text without quotation marks.
data IsPlain (s : String) : Type 0 where
  plain : has_quote s ≡ false → IsPlain s

plain_by : {s : String} → IsPlain s → has_quote s ≡ false
plain_by (plain h) = h

has_quote-append :
    (s t : String) → has_quote s ≡ false → has_quote t ≡ false → has_quote (s ++ t) ≡ false
unfolding has_quote
has_quote-append [] t p q = rw (nil-append t) q
has_quote-append (c ∷ s) t p q =
    rw (cons-append c s t) (ground (arith, has_quote-append s t (ground arith) q))

append-IsPlain : {s t : String} → IsPlain s → IsPlain t → IsPlain (s ++ t)
append-IsPlain {s = s} {t = t} (plain p) (plain q) = plain (has_quote-append s t p q)

digit_checks : all_below 16 (λ d. not (code (char_at upper_case d) == b'"')) ≡ true
unfolding all_below
digit_checks = refl

digit-IsPlain : (d : ℕ) → d < 16 → IsPlain (digit upper_case d)
unfolding has_quote
digit-IsPlain d h = plain (
    ground (
      arith,
      all_below-apply 16 (λ (d : ℕ). not (code (char_at upper_case d) == b'"')) d digit_checks h,
    ))

digits-IsPlain :
    (radix fuel n : ℕ) → ((k : ℕ) → k % radix < 16) → IsPlain (digits upper_case radix fuel n)
unfolding digits has_quote
digits-IsPlain radix zero n small = plain refl
digits-IsPlain radix (suc fuel) n small = elim (Bool-cases (n / radix == 0)) [
  | inl e ↦ rw e (digit-IsPlain (n % radix) (small n))
  | inr e ↦ rw e (
      append-IsPlain (digits-IsPlain radix fuel (n / radix) small)
        (digit-IsPlain (n % radix) (small n)))
]

-- A fixed text and a number in front of a text.
hex_then :
    (p : String) (n : ℕ) {s : String}
    → has_quote p ≡ false
    → IsPlain s
    → IsPlain (p ++ (hex n ++ s))
hex_then p n h k =
    append-IsPlain (plain h) (append-IsPlain (digits-IsPlain 16 20 n (λ m. omega arith)) k)

last_hex : (p : String) (n : ℕ) → has_quote p ≡ false → IsPlain (p ++ hex n)
last_hex p n h = append-IsPlain (plain h) (digits-IsPlain 16 20 n (λ m. omega arith))

dec_then :
    (p : String) (n : ℕ) {s : String}
    → has_quote p ≡ false
    → IsPlain s
    → IsPlain (p ++ (dec n ++ s))
dec_then p n h k =
    append-IsPlain (plain h) (append-IsPlain (digits-IsPlain 10 20 n (λ m. omega arith)) k)

either_word :
    (b : Bool) (p q : String)
    → has_quote p ≡ false
    → has_quote q ≡ false
    → IsPlain (if b then p else q)
either_word true p q h k = plain h
either_word false p q h k = plain k

describe-IsPlain : (type : EventType) (payload : EventPayload) → IsPlain (describe type payload)
unfolding describe has_quote
describe-IsPlain type (EventPayload.cpuid p) = hex_then _ p.leaf refl (
    hex_then _ p.subleaf refl (
      hex_then _ p.eax refl
        (hex_then _ p.ebx refl (hex_then _ p.ecx refl (last_hex _ p.edx refl)))))
describe-IsPlain type (EventPayload.io p) =
    append-IsPlain (either_word p.is_write "OUT" "IN" refl refl)
      (hex_then _ p.port refl (dec_then _ p.size refl (last_hex _ p.value refl)))
describe-IsPlain type (EventPayload.msr p) =
    append-IsPlain (either_word p.is_write "WRMSR" "RDMSR" refl refl)
      (hex_then _ p.index refl (last_hex _ p.value refl))
describe-IsPlain type (EventPayload.mmio p) =
    append-IsPlain (either_word p.is_write "MMIO-WR" "MMIO-RD" refl refl)
      (hex_then _ p.guest_phys_addr refl (dec_then _ p.size refl (last_hex _ p.value refl)))
describe-IsPlain EventType.guest_halt EventPayload.monostate = plain refl
describe-IsPlain EventType.guest_shutdown EventPayload.monostate = plain refl
describe-IsPlain _ EventPayload.monostate = plain refl

build_summary-IsPlain :
    (event : HvEvent) (snap : GuestSnapshot) → IsPlain (build_summary event snap)
unfolding build_summary has_quote
build_summary-IsPlain event snap = hex_then _ event.vcpu_id refl (
    hex_then _ snap.rip refl
      (append-IsPlain (plain refl) (describe-IsPlain event.type event.payload)))

-- An entry as the agent makes it: its summary is built from it, and the numbers fit their types.
pub record IsEntry (ie : IntrospectionEvent) : Type 0 where
  pub summary_built : ie.summary ≡ build_summary ie.base ie.snapshot
  pub time_fits : ie.snapshot.timestamp < 2 ^ 64
  pub id_fits : ie.base.vcpu_id < 2 ^ 64
  pub rip_fits : ie.snapshot.rip < 2 ^ 64
  pub bytes_fit : DumpBytes ie.mem_dump

abbrev pub AllEntries : List IntrospectionEvent → Type 0
AllEntries List.[] = Unit {0}
AllEntries (List.◌∷◌ ie log) = IsEntry ie × AllEntries log

entry-IsPrintable : (ie : IntrospectionEvent) → IsEntry ie → IsPrintable ie
entry-IsPrintable ie h = record {
  time_fits = h.time_fits;
  id_fits = h.id_fits;
  rip_fits = h.rip_fits;
  bytes_fit = h.bytes_fit;
  no_quote = ap has_quote h.summary_built ∙ plain_by (build_summary-IsPlain ie.base ie.snapshot);
}

printable : (log : List IntrospectionEvent) → AllEntries log → AllPrintable log
printable List.[] h = tt
printable (List.◌∷◌ ie log) h = (entry-IsPrintable ie h.0, printable log h.1)

-- The file of a log whose entries are as the agent makes them is read back, with more fuel than
-- entries: of each event, in order, come the milliseconds, the vCPU's number, the RIP, the summary and
-- the bytes of the memory dump, or that there is none; so the file keeps the entries apart.
pub read_log-dump_event_log :
    (log : List IntrospectionEvent) (fuel : ℕ)
    → length log < fuel
    → AllEntries log
    → read_log fuel (dump_event_log log) ≡ some (map entry_of log, "")
unfolding read_log dump_event_log
read_log-dump_event_log log fuel enough h = read_by (
    next (expect-Reads "[\n" (dump_entries log ++ "]\n"))
      (read_entries-Reads log fuel "" enough (printable log h)))
