-- ===== src/GuestLoader/PageTables/Identity.antt =====
-- `buildIdentityPageTables` of src/GuestLoader.cpp: the walk of its tables.
use min_bp.Prelude.{
  ℕ, ◌+◌, ◌-◌, ◌*◌, ◌/◌, ◌%◌, ◌^◌, ◌≤◌, ◌<◌, ◌≡◌, refl, ap, ◌∙◌, true, List, ◌∷◌, Option, some,
  arith,
}
use min_bp.Memory.{Memory, load_u64, peek}
use min_bp.Bytes.{le_decode}
use min_bp.GuestLoader.{write_tables, pgtable_base, covers, build_identity_page_tables}
use min_bp.MemoryRegion.{MemoryRegion}
use min_bp.Kvm.{Machine}
use min_bp.Prelude.Result.{no_error}
use min_bp.GuestLoader.PageTables.{
  guest, walk, entry, large_page, next_table, walk_pd, walk_pdpt, address_of, is_present,
}
use min_bp.GuestLoader.PageTables.Entries.{tables_directory, tables_pdpt, tables_pml4, tables_zero}

peek-guest : (host a n : ℕ) (mem : Memory) → peek a n (guest host mem) ≡ peek (host + a) n mem
unfolding peek
peek-guest host a ℕ.zero mem = refl
peek-guest host a (ℕ.suc n) mem =
    ap (λ r. mem (host + a) ∷ r)
      (peek-guest host (a + 1) n mem ∙ ap (λ k. peek k n mem) (omega arith))

load-guest : (host a : ℕ) (mem : Memory) → load_u64 a (guest host mem) ≡ load_u64 (host + a) mem
unfolding load_u64
load-guest host a mem = ap le_decode (peek-guest host a 8 mem)

next_table-entry :
    (e e' : ℕ) (go : ℕ → Option ℕ)
    → e ≡ e'
    → is_present e' ≡ 1
    → next_table e go ≡ go (address_of e')
next_table-entry e e' go q present = rw (q, present) refl

large_page-entry :
    (e i v : ℕ) → e ≡ i * 2 ^ 21 + 0x83 → i < 512 → large_page e v ≡ some (i * 2 ^ 21 + v % 2 ^ 21)
large_page-entry e i v q lt = ground arith

module _ (host : ℕ) (mem : Memory) where
  abbrev paged : Memory
  paged = guest host (write_tables (host + pgtable_base) pgtable_base mem)

  pml4_entry : (i : ℕ) → i ≡ 0 → entry paged pgtable_base i ≡ 0x3003
  pml4_entry i z =
      ap (λ k. entry paged pgtable_base k) z
      ∙ load-guest host pgtable_base _
      ∙ tables_pml4 (host + pgtable_base) mem

  pdpt_entry : (i : ℕ) → i ≡ 0 → entry paged 0x3000 i ≡ 0x4003
  pdpt_entry i z =
      ap (λ k. entry paged 0x3000 k) z
      ∙ load-guest host 0x3000 _
      ∙ ap (λ a. load_u64 a (write_tables (host + pgtable_base) pgtable_base mem)) (omega arith)
      ∙ tables_pdpt (host + pgtable_base) mem

  pd_entry : (i : ℕ) → i < 512 → entry paged 0x4000 i ≡ i * 2 ^ 21 + 0x83
  pd_entry i lt =
      load-guest host (0x4000 + 8 * i) _
      ∙ ap (λ a. load_u64 a (write_tables (host + pgtable_base) pgtable_base mem)) (omega arith)
      ∙ tables_directory (host + pgtable_base) i mem lt

-- With the tables written at guest address 0x2000 of a region at guest address 0, the processor's walk
-- from 0x2000 takes every virtual address below 1 GiB to itself.
pub walk-write_tables :
    (host : ℕ) (mem : Memory) (v : ℕ)
    → v < 2 ^ 30
    → walk (guest host (write_tables (host + pgtable_base) pgtable_base mem)) pgtable_base v
      ≡ some v
unfolding walk
walk-write_tables host mem v h =
    next_table-entry _ 0x3003 (walk_pdpt (paged host mem) v)
      (pml4_entry host mem ((v / 2 ^ 39) % 512) (omega arith)) refl
    ∙ next_table-entry _ 0x4003 (walk_pd (paged host mem) v)
        (pdpt_entry host mem ((v / 2 ^ 30) % 512) (omega arith)) refl
    ∙ large_page-entry _ ((v / 2 ^ 21) % 512) v (pd_entry host mem _ (omega arith)) (omega arith)
    ∙ ap some (omega arith)

-- Whatever was loaded there, the guest bytes from 0x2008 to 0x3000 are 0 once the tables are written,
-- so an image that reaches beyond 0x2008 is damaged.
pub write_tables-clobbers :
    (host : ℕ) (mem : Memory) (a : ℕ)
    → 0x2008 ≤ a
    → a < 0x3000
    → guest host (write_tables (host + pgtable_base) pgtable_base mem) a ≡ 0
write_tables-clobbers host mem a p q =
    tables_zero (host + pgtable_base) mem _ (omega arith) (omega arith)

pub covers_base :
    (r : MemoryRegion)
    → r.guest_phys_addr ≡ 0
    → pgtable_base < r.size
    → r.size < 2 ^ 64
    → covers r pgtable_base ≡ true
covers_base r z low high = ground arith

-- When the first region of the VM is at guest address 0 and reaches beyond 0x2000,
-- `build_identity_page_tables` succeeds, and the processor's walk from 0x2000 takes every virtual
-- address below 1 GiB to itself.
pub build_identity_page_tables-walk :
    {K : Type 0} (r : MemoryRegion) (rs : List MemoryRegion) (m : Machine K) (v : ℕ)
    → r.guest_phys_addr ≡ 0
    → pgtable_base < r.size
    → r.size < 2 ^ 64
    → v < 2 ^ 30
    → ((build_identity_page_tables (r ∷ rs) pgtable_base m).0 ≡ no_error)
      × (walk
            (guest r.host_addr (build_identity_page_tables (r ∷ rs) pgtable_base m).1.memory)
            pgtable_base
            v
          ≡ some v)
unfolding build_identity_page_tables
build_identity_page_tables-walk r rs m v z low high h =
    let start : pgtable_base - r.guest_phys_addr ≡ pgtable_base = omega arith in
    rw (covers_base r z low high, start) (refl, walk-write_tables r.host_addr m.memory v h)
