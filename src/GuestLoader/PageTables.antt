-- ===== src/GuestLoader/PageTables.antt =====
-- The page tables that `buildIdentityPageTables` of src/GuestLoader.cpp writes, against the walk that
-- the processor makes of them.
pub mod Entries
pub mod Identity
pub mod Bounds
use min_bp.Prelude.{
  ℕ, zero, suc, ◌+◌, ◌-◌, ◌*◌, ◌/◌, ◌%◌, ◌^◌, ◌≤◌, ◌<◌, ◌==◌, ◌≡◌, refl, ap, ◌∙◌, inl, inr, Option,
  none, some, if◌then◌else◌, arith,
}
use min_bp.Memory.{Memory, load_u64}
use min_bp.GuestLoader.{write_tables, pgtable_base}

-- Guest-physical memory, for a region at guest address 0 and host address `host`.
abbrev pub guest : ℕ → Memory → Memory
guest host mem x = mem (host + x)

-- An entry of the table at `table`: its bit 0 says that it is present, and bits 12 to 51 hold an address.
abbrev pub entry : Memory → ℕ → ℕ → ℕ
entry phys table index = load_u64 (table + 8 * index) phys

abbrev pub address_of : ℕ → ℕ
address_of e = (e / 2 ^ 12) % 2 ^ 40 * 2 ^ 12

abbrev pub is_present : ℕ → ℕ
is_present e = e % 2

abbrev pub is_large : ℕ → ℕ
is_large e = (e / 2 ^ 7) % 2

-- The 4-level walk of the virtual address `v`, as far as a 2 MiB page; `none` is a fault (or a page of
-- another size).
abbrev pub large_page : ℕ → ℕ → Option ℕ
large_page e v =
    if is_present e == 1
    then (if is_large e == 1 then some ((e / 2 ^ 21) % 2 ^ 31 * 2 ^ 21 + v % 2 ^ 21) else none)
    else none

abbrev pub next_table : ℕ → (ℕ → Option ℕ) → Option ℕ
next_table e go = if is_present e == 1 then go (address_of e) else none

abbrev pub walk_pd : Memory → ℕ → ℕ → Option ℕ
walk_pd phys v pd = large_page (entry phys pd ((v / 2 ^ 21) % 512)) v

abbrev pub walk_pdpt : Memory → ℕ → ℕ → Option ℕ
walk_pdpt phys v pdpt = next_table (entry phys pdpt ((v / 2 ^ 30) % 512)) (walk_pd phys v)

unfoldable pub walk : Memory → ℕ → ℕ → Option ℕ
walk phys cr3 v = next_table (entry phys cr3 ((v / 2 ^ 39) % 512)) (walk_pdpt phys v)
