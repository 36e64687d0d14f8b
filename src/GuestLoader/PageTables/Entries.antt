-- ===== src/GuestLoader/PageTables/Entries.antt =====
-- The entries that `write_tables` leaves in memory, for the tables at guest address 0x2000.
use Prim.Native.Nat.{bit_or}
use min_bp.Prelude.{
  all_below, all_below-apply, ℕ, zero, suc, ◌+◌, ◌*◌, ◌%◌, ◌^◌, ◌≤◌, ◌<◌, ◌==◌, ==_iff, ◌≡◌, refl,
  ◌∙◌, subst, ◌⊎◌, inl, inr, true, arith,
}
use min_bp.Memory.{Memory, store_u64, load_u64}
use min_bp.Memory.Laws.{
  load-store_u64, store_u64-Apart, load_u64-congr, fill-Apart, fill_inside, Apart,
}
use min_bp.GuestLoader.{fill_directory, write_tables, pgtable_base}

-- The values of the entries, checked one by one.
directory_checks : all_below 512 (λ i. bit_or (i * 2 ^ 21) 0x83 == i * 2 ^ 21 + 0x83) ≡ true
unfolding all_below
directory_checks = refl

directory_entry : (i : ℕ) → i < 512 → bit_or (i * 2 ^ 21) 0x83 ≡ i * 2 ^ 21 + 0x83
directory_entry i h = (==_iff _ _).0 (all_below-apply 512 _ i directory_checks h)

store_elsewhere :
    (a b v : ℕ) (mem : Memory)
    → (a + 8 ≤ b) ⊎ (b + 8 ≤ a)
    → load_u64 a (store_u64 b v mem) ≡ load_u64 a mem
store_elsewhere a b v mem h =
    load_u64-congr a _ _ (λ x p q. store_u64-Apart b v mem x (ground arith))

-- The directory loop leaves the bytes outside its entries.
fill_directory-Apart :
    (pd i n : ℕ) (mem : Memory) (x : ℕ)
    → (x < pd + 8 * i) ⊎ (pd + 8 * (i + n) ≤ x)
    → fill_directory pd i n mem x ≡ mem x
unfolding fill_directory
fill_directory-Apart pd i zero mem x h = refl
fill_directory-Apart pd i (suc n) mem x h =
    fill_directory-Apart pd (i + 1) n _ x (ground arith)
    ∙ store_u64-Apart (pd + 8 * i) _ mem x (ground arith)

store_through :
    (pd i n : ℕ) (mem : Memory) (v : ℕ)
    → load_u64 (pd + 8 * i) (fill_directory pd (i + 1) n (store_u64 (pd + 8 * i) v mem))
      ≡ v % 2 ^ 64
store_through pd i n mem v =
    load_u64-congr (pd + 8 * i) _ _
      (λ x p q. fill_directory-Apart pd (i + 1) n _ x (inl (omega arith)))
    ∙ load-store_u64 (pd + 8 * i) v mem

le_cases : (i j : ℕ) → i ≤ j → (i ≡ j) ⊎ (i + 1 ≤ j)
le_cases i j p = omega arith

fill_directory_entry :
    (pd i n j : ℕ) (mem : Memory)
    → i ≤ j
    → j < i + n
    → load_u64 (pd + 8 * j) (fill_directory pd i n mem) ≡ bit_or (j * 2 ^ 21) 0x83 % 2 ^ 64
unfolding fill_directory
fill_directory_entry pd i zero j mem p q = absurd (omega arith)
fill_directory_entry pd i (suc n) j mem p q = elim (le_cases i j p) [
  | inl same ↦
      subst
        (λ k.
          load_u64 (pd + 8 * k)
            (fill_directory pd (i + 1) n (store_u64 (pd + 8 * i) (bit_or (i * 2 ^ 21) 0x83) mem))
          ≡ bit_or (k * 2 ^ 21) 0x83 % 2 ^ 64)
        same (store_through pd i n mem _)
  | inr less ↦ fill_directory_entry pd (i + 1) n j _ (omega arith) (omega arith)
]

-- The entries of `write_tables`.
pub tables_directory :
    (t j : ℕ) (mem : Memory)
    → j < 512
    → load_u64 (t + 8 * 1024 + 8 * j) (write_tables t pgtable_base mem) ≡ j * 2 ^ 21 + 0x83
unfolding write_tables
tables_directory t j mem h =
    fill_directory_entry (t + 8 * 1024) 0 512 j _ (omega arith) (omega arith)
    ∙ rw (directory_entry j h) (omega arith)

pub tables_pdpt :
    (t : ℕ) (mem : Memory) → load_u64 (t + 8 * 512) (write_tables t pgtable_base mem) ≡ 0x4003
unfolding write_tables
tables_pdpt t mem =
    load_u64-congr (t + 8 * 512) _ _
      (λ x p q. fill_directory-Apart (t + 8 * 1024) 0 512 _ x (inl (omega arith)))
    ∙ load-store_u64 (t + 8 * 512) _ _

pub tables_pml4 : (t : ℕ) (mem : Memory) → load_u64 t (write_tables t pgtable_base mem) ≡ 0x3003
unfolding write_tables
tables_pml4 t mem =
    load_u64-congr t _ _
      (λ x p q. fill_directory-Apart (t + 8 * 1024) 0 512 _ x (inl (omega arith)))
    ∙ store_elsewhere t (t + 8 * 512) _ _ (inl (omega arith))
    ∙ load-store_u64 t _ _

-- The rest of the three pages is zero.
pub tables_zero :
    (t : ℕ) (mem : Memory) (x : ℕ)
    → t + 8 ≤ x
    → x < t + 4096
    → write_tables t pgtable_base mem x ≡ 0
unfolding write_tables
tables_zero t mem x p q =
    fill_directory-Apart (t + 8 * 1024) 0 512 _ x (inl (omega arith))
    ∙ store_u64-Apart (t + 8 * 512) _ _ x (inl (omega arith))
    ∙ store_u64-Apart t _ _ x (inr (omega arith))
    ∙ fill-Apart (t + 8 * 1024) 0 4096 _ x (inl (omega arith))
    ∙ fill-Apart (t + 8 * 512) 0 4096 _ x (inl (omega arith))
    ∙ fill_inside t 0 4096 mem x (omega arith) (omega arith)

-- And the tables change nothing else.
pub tables-Apart :
    (t : ℕ) (mem : Memory) (x : ℕ) → Apart t 0x3000 x → write_tables t pgtable_base mem x ≡ mem x
unfolding write_tables
tables-Apart t mem x h =
    fill_directory-Apart (t + 8 * 1024) 0 512 _ x (ground arith)
    ∙ store_u64-Apart (t + 8 * 512) _ _ x (ground arith)
    ∙ store_u64-Apart t _ _ x (ground arith)
    ∙ fill-Apart (t + 8 * 1024) 0 4096 _ x (ground arith)
    ∙ fill-Apart (t + 8 * 512) 0 4096 _ x (ground arith)
    ∙ fill-Apart t 0 4096 mem x (ground arith)
