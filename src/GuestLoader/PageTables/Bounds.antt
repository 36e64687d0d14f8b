-- ===== src/GuestLoader/PageTables/Bounds.antt =====
-- Which bytes `buildIdentityPageTables` of src/GuestLoader.cpp writes.
use min_bp.Prelude.{ℕ, ◌+◌, ◌-◌, ◌^◌, ◌≤◌, ◌<◌, ◌≡◌, refl, List, ◌∷◌, arith}
use min_bp.Prelude.Result.{no_error}
use min_bp.Kvm.{Machine}
use min_bp.Memory.Laws.{Apart}
use min_bp.MemoryRegion.{MemoryRegion}
use min_bp.GuestLoader.{write_tables, pgtable_base, build_identity_page_tables}
use min_bp.GuestLoader.PageTables.Entries.{tables_zero, tables-Apart}
use min_bp.GuestLoader.PageTables.Identity.{covers_base}

pub built_first :
    {K : Type 0} (r : MemoryRegion) (rs : List MemoryRegion) (m : Machine K)
    → r.guest_phys_addr ≡ 0
    → pgtable_base < r.size
    → r.size < 2 ^ 64
    → build_identity_page_tables (r ∷ rs) pgtable_base m ≡ (
      no_error,
      record m { memory = write_tables (r.host_addr + pgtable_base) pgtable_base m.memory },
    )
unfolding build_identity_page_tables
built_first r rs m z low high =
    let start : pgtable_base - r.guest_phys_addr ≡ pgtable_base = omega arith in
    rw (covers_base r z low high, start) refl

-- Let the first region be at guest address 0 and reach beyond 0x2000. The page tables change only bytes
-- from its offset 0x2000 to its offset 0x5000, so if the region has at least 0x5000 bytes nothing
-- outside it changes. But neither the region's size nor the image is asked for: the bytes from offset
-- 0x2008 to 0x3000 are 0 afterwards, whether they hold a part of the image or lie behind the region.
pub build_identity_page_tables_bounds :
    {K : Type 0} (r : MemoryRegion) (rs : List MemoryRegion) (m : Machine K)
    → r.guest_phys_addr ≡ 0
    → pgtable_base < r.size
    → r.size < 2 ^ 64
    → let mem = (build_identity_page_tables (r ∷ rs) pgtable_base m).1.memory in
      ((x : ℕ) → Apart (r.host_addr + 0x2000) 0x3000 x → mem x ≡ m.memory x)
      × (0x5000 ≤ r.size → (x : ℕ) → Apart r.host_addr r.size x → mem x ≡ m.memory x)
      × ((x : ℕ) → r.host_addr + 0x2008 ≤ x → x < r.host_addr + 0x3000 → mem x ≡ 0)
build_identity_page_tables_bounds r rs m z low high = rw (built_first r rs m z low high) (
  λ x h. tables-Apart (r.host_addr + pgtable_base) m.memory x h,
  λ big x h. tables-Apart (r.host_addr + pgtable_base) m.memory x (ground arith),
  λ x p q. tables_zero (r.host_addr + pgtable_base) m.memory x (omega arith) (omega arith),
)
