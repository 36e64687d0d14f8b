-- ===== src/VmiAgent/Dump/Roundtrip.antt =====
-- The file that `dumpEventLog` of src/VmiAgent.cpp writes keeps the entries apart.
use Prim.Native.String.{String, ◌++◌}
use text.Mathlib.TextLemmas.{append_assoc, nil-append}
use min_bp.Prelude.{
  ℕ, zero, suc, ◌/◌, ◌^◌, ◌<◌, ◌≡◌, refl, sym, false, Option, none, some, arith, List, map, length,
  subst,
}
use min_bp.VmiAgent.{IntrospectionEvent}
use min_bp.VmiAgent.Summary.{dec}
use min_bp.VmiAgent.Dump.{low_hex, dump_bytes, dump_memory, dump_entry, dump_entries}
use min_bp.VmiAgent.Dump.Reading.{LogEntry, read_dump, optional, read_entry, read_entries}
use min_bp.VmiAgent.Dump.Fields.{
  has_quote, AllBytes, until_quote-Reads, read_bytes-Reads, optional-Reads, optional-Reads_none,
}
use min_bp.VmiAgent.Reader.{
  expect-append, pure, differ, expect_other, expect, ends_number, Reads, reads, bind, next, read_by,
  pure-Reads, expect-Reads, low_hex-Reads, dec-Reads,
}

abbrev pub entry_of : IntrospectionEvent → LogEntry
entry_of ie = record {
  milliseconds = ie.snapshot.timestamp / 1_000_000;
  vcpu_id = ie.base.vcpu_id;
  rip = ie.snapshot.rip;
  summary = ie.summary;
  mem_dump = ie.mem_dump;
}

abbrev pub DumpBytes : Option (List ℕ) → Type 0
DumpBytes none = Unit {0}
DumpBytes (some bytes) = AllBytes bytes

-- What the members of an entry's types hold.
pub record IsPrintable (ie : IntrospectionEvent) : Type 0 where
  pub time_fits : ie.snapshot.timestamp < 2 ^ 64
  pub id_fits : ie.base.vcpu_id < 2 ^ 64
  pub rip_fits : ie.snapshot.rip < 2 ^ 64
  pub bytes_fit : DumpBytes ie.mem_dump
  pub no_quote : has_quote ie.summary ≡ false

read_dump-Reads :
    (bytes : List ℕ) (s : String)
    → AllBytes bytes
    → Reads read_dump (dump_bytes bytes ++ ("\"" ++ s)) bytes s
unfolding read_dump
read_dump-Reads bytes s h =
    bind _ (read_bytes-Reads bytes s h) (next (expect-Reads "\"" s) (pure-Reads bytes s))

-- The end of an entry is no memory dump.
no_dump : (s : String) → expect ",\n    \"mem_dump\": \"" ("\n  }" ++ s) ≡ none
unfolding expect differ
no_dump s = expect_other ",\n    \"mem_dump\": \"" "\n  }" s refl

memory-Reads :
    (dump : Option (List ℕ)) (s : String)
    → DumpBytes dump
    → Reads
        (optional ",\n    \"mem_dump\": \"" read_dump)
        (dump_memory dump ++ ("\n  }" ++ s))
        dump
        ("\n  }" ++ s)
unfolding dump_memory
memory-Reads none s h =
    rw (nil-append ("\n  }" ++ s)) (optional-Reads_none _ read_dump ("\n  }" ++ s) (no_dump s))
memory-Reads (some bytes) s h =
    rw
      (
        append_assoc ",\n    \"mem_dump\": \"" (dump_bytes bytes ++ "\"") ("\n  }" ++ s),
        append_assoc (dump_bytes bytes) "\"" ("\n  }" ++ s),
      )
      (optional-Reads ",\n    \"mem_dump\": \"" read_dump
        (dump_bytes bytes ++ ("\"" ++ ("\n  }" ++ s))) ("\n  }" ++ s) bytes
        (read_dump-Reads bytes ("\n  }" ++ s) h))

-- An entry with a text behind it, bracketed to the right.
entry_then : IntrospectionEvent → String → String
entry_then ie s =
    "  {\n    \"timestamp\": "
    ++ (dec (ie.snapshot.timestamp / 1_000_000)
        ++ (",\n    \"vcpu_id\": "
            ++ (dec ie.base.vcpu_id
                ++ (",\n    \"rip\": \"0x"
                    ++ (low_hex ie.snapshot.rip
                        ++ ("\",\n    \"summary\": \""
                            ++ (ie.summary
                                ++ ("\"" ++ (dump_memory ie.mem_dump ++ ("\n  }" ++ s))))))))))

dump_entry-append : (ie : IntrospectionEvent) (s : String) → dump_entry ie ++ s ≡ entry_then ie s
unfolding dump_entry entry_then
dump_entry-append ie s = simp append_assoc refl

read_entry-Reads :
    (ie : IntrospectionEvent) (s : String)
    → IsPrintable ie
    → Reads read_entry (entry_then ie s) (entry_of ie) s
unfolding read_entry entry_then ends_number
read_entry-Reads ie s h = next (expect-Reads _ _) (
    bind _
      (dec-Reads (ie.snapshot.timestamp / 1_000_000) ",\n    \"vcpu_id\": " _
        (omega (arith, h.time_fits)) refl)
      (next (expect-Reads _ _) (
        bind _ (dec-Reads ie.base.vcpu_id ",\n    \"rip\": \"0x" _ h.id_fits refl) (
          next (expect-Reads _ _) (
            bind _ (low_hex-Reads ie.snapshot.rip "\",\n    \"summary\": \"" _ h.rip_fits refl) (
              next (expect-Reads _ _) (
                bind _ (until_quote-Reads ie.summary _ h.no_quote) (
                  next (expect-Reads _ _) (
                    bind _ (memory-Reads ie.mem_dump s h.bytes_fit)
                      (next (expect-Reads "\n  }" s) (pure-Reads (entry_of ie) s)))))))))))

abbrev pub AllPrintable : List IntrospectionEvent → Type 0
AllPrintable List.[] = Unit {0}
AllPrintable (List.◌∷◌ ie log) = IsPrintable ie × AllPrintable log

not_the_end : (ie : IntrospectionEvent) (s : String) → expect "]\n" (entry_then ie s) ≡ none
unfolding entry_then differ
not_the_end ie s = expect_other "]\n" "  {\n    \"timestamp\": " _ refl

entries_more :
    (fuel : ℕ) (ie : IntrospectionEvent) (es : List LogEntry) (sep : Option (Unit {0}))
    (s t u : String)
    → IsPrintable ie
    → Reads (optional "," (pure tt)) s sep ("\n" ++ t)
    → Reads (read_entries fuel) t es u
    → Reads (read_entries (suc fuel)) (entry_then ie s) (List.◌∷◌ (entry_of ie) es) u
unfolding read_entries
entries_more fuel ie es sep s t u h at_sep more = reads (
    rw (not_the_end ie s, read_entries)
      (read_by (
        bind _ (read_entry-Reads ie s h) (
          next at_sep (
            next (expect-Reads "\n" t) (bind _ more (pure-Reads (List.◌∷◌ (entry_of ie) es) u)))))))

last_separator : (t : String) → Reads (optional "," (pure tt)) ("\n" ++ t) none ("\n" ++ t)
unfolding differ
last_separator t = optional-Reads_none "," (pure tt) ("\n" ++ t) (expect_other "," "\n" t refl)

separator : (t : String) → Reads (optional "," (pure tt)) (",\n" ++ t) (some tt) ("\n" ++ t)
separator t =
    subst (λ s. Reads (optional "," (pure tt)) s (some tt) ("\n" ++ t))
      (sym (append_assoc "," "\n" t))
      (optional-Reads "," (pure tt) ("\n" ++ t) ("\n" ++ t) tt (pure-Reads tt ("\n" ++ t)))

entries_end : (fuel : ℕ) (s : String) → Reads (read_entries (suc fuel)) ("]\n" ++ s) List.[] s
unfolding read_entries
entries_end fuel s = reads (rw (expect-append "]\n" s, read_entries) refl)

pub read_entries-Reads :
    (log : List IntrospectionEvent) (fuel : ℕ) (s : String)
    → length log < fuel
    → AllPrintable log
    → Reads (read_entries fuel) (dump_entries log ++ ("]\n" ++ s)) (map entry_of log) s
unfolding dump_entries
read_entries-Reads log zero s enough h = absurd (omega arith)
read_entries-Reads List.[] (suc fuel) s enough h = rw (nil-append ("]\n" ++ s)) (entries_end fuel s)
read_entries-Reads (List.◌∷◌ ie List.[]) (suc zero) s enough h = absurd (omega arith)
read_entries-Reads (List.◌∷◌ ie List.[]) (suc (suc fuel)) s enough h =
    rw (append_assoc (dump_entry ie) "\n" ("]\n" ++ s), dump_entry-append ie ("\n" ++ ("]\n" ++ s)))
      (entries_more (suc fuel) ie List.[] none _ ("]\n" ++ s) s h.0 (last_separator ("]\n" ++ s))
        (entries_end fuel s))
read_entries-Reads (List.◌∷◌ ie (List.◌∷◌ ie' log)) (suc fuel) s enough h =
    let rest = dump_entries (List.◌∷◌ ie' log) in
    let t = rest ++ ("]\n" ++ s) in
    rw
      (
        append_assoc (dump_entry ie) (",\n" ++ rest) ("]\n" ++ s),
        append_assoc ",\n" rest ("]\n" ++ s),
        dump_entry-append ie (",\n" ++ t),
      )
      (entries_more fuel ie (map entry_of (List.◌∷◌ ie' log)) (some tt) (",\n" ++ t) t s h.0
        (separator t) (read_entries-Reads (List.◌∷◌ ie' log) fuel s (omega arith) h.1))
