-- ===== src/VmiAgent/Dump.antt =====
-- `dumpEventLog` of src/VmiAgent.cpp: the text of the file.
pub mod Reading
pub mod Fields
pub mod Roundtrip
pub mod Log
pub mod Entries
use Prim.Native.String.{String, ◌++◌}
use min_bp.Prelude.{ℕ, ◌/◌, ◌%◌, Option, none, some, List, [], ◌∷◌}
use min_bp.VmiAgent.Summary.{digits, digit, dec, lower_case}
use min_bp.VmiAgent.{IntrospectionEvent}

-- `hex` without `uppercase`.
abbrev low_hex : ℕ → String
low_hex n = digits lower_case 16 20 n

-- A byte with `setw(2)` and `setfill('0')`.
abbrev dump_byte : ℕ → String
dump_byte b = digit lower_case (b / 16) ++ digit lower_case (b % 16)

unfoldable pub dump_bytes : List ℕ → String
dump_bytes [] = ""
dump_bytes (b ∷ bs) = dump_byte b ++ dump_bytes bs

unfoldable pub dump_memory : Option (List ℕ) → String
unfolding dump_bytes
dump_memory none = ""
dump_memory (some bytes) = ",\n    \"mem_dump\": \"" ++ dump_bytes bytes ++ "\""

-- The clock counts nanoseconds, and the file has milliseconds.
unfoldable pub dump_entry : IntrospectionEvent → String
unfolding digits dump_memory
dump_entry ie =
    "  {\n    \"timestamp\": "
    ++ dec (ie.snapshot.timestamp / 1_000_000)
    ++ ",\n    \"vcpu_id\": "
    ++ dec ie.base.vcpu_id
    ++ ",\n    \"rip\": \"0x"
    ++ low_hex ie.snapshot.rip
    ++ "\",\n    \"summary\": \""
    ++ ie.summary
    ++ "\""
    ++ dump_memory ie.mem_dump
    ++ "\n  }"

-- The entries, with a comma after each but the last.
unfoldable pub dump_entries : List IntrospectionEvent → String
unfolding dump_entry
dump_entries [] = ""
dump_entries (ie ∷ []) = dump_entry ie ++ "\n"
dump_entries (ie ∷ ie' ∷ rest) = dump_entry ie ++ ",\n" ++ dump_entries (ie' ∷ rest)

-- What a file that can be opened holds afterwards.
unfoldable pub dump_event_log : List IntrospectionEvent → String
unfolding dump_entries
dump_event_log log = "[\n" ++ dump_entries log ++ "]\n"
