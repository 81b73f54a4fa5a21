-- ===== src/Lkm/PageTable.antt =====
-- The page tables of a process as the kernel's own functions and macros offer them: an argument of the
-- model, with what lkm/core/api.c relies on as laws. A table entry is named by its level and any
-- address that it covers, so that `pgd_offset(mm, addr)` is the entry of level pgd at `addr`.
pub mod Sample
use shadow_stack_llvm.Prelude.{
  ℕ, ◌+◌, ◌/◌, ◌%◌, ◌≤◌, ◌<◌, ◌≡◌, Bool, true, false, Option, some, ◌==◌, if◌then◌else◌,
}
use shadow_stack_llvm.Lkm.Layout.{page_size}

-- The levels of entries that lead to a table below them.
pub data Level : Type 0 where
  pgd p4d pud pmd : Level

pub record PageTables : Type 1 where
  -- struct mm_struct.
  pub Mm : Type 0
  -- pgd_none, p4d_none, pud_none and pmd_none of the entry that covers the address.
  pub is_none : Mm → Level → ℕ → Bool
  -- The page that is mapped at the address.
  pub pte : Mm → ℕ → Option ℕ
  -- pgd_addr_end, p4d_addr_end, pud_addr_end and pmd_addr_end.
  pub addr_end : Level → ℕ → ℕ → ℕ
  -- __p4d_alloc for an entry of level pgd, down to __pte_alloc for one of level pmd; true if they
  -- return 0.
  pub table_alloc : Level → ℕ → Mm → Bool × Mm
  -- set_pte_at with mk_pte of the page.
  pub set_pte_at : ℕ → ℕ → Mm → Mm
  -- flush_tlb_mm_range, for the range between the addresses.
  pub flush_tlb_mm_range : ℕ → ℕ → Mm → Mm
  pub addr_end-bounds : (l : Level) (a e : ℕ) → a < e → (a < addr_end l a e) × (addr_end l a e ≤ e)
  pub addr_end-aligned :
      (l : Level) (a e : ℕ) → a % page_size ≡ 0 → e % page_size ≡ 0 → addr_end l a e % page_size ≡ 0
  -- Up to the end that the macro gives, the addresses are covered by one entry.
  pub addr_end-entry :
      (l : Level) (a e b : ℕ) (mm : Mm)
      → a ≤ b
      → b < addr_end l a e
      → is_none mm l b ≡ is_none mm l a
  pub table_alloc-fills :
      (l : Level) (a : ℕ) (mm : Mm)
      → (table_alloc l a mm).0 ≡ true
      → is_none (table_alloc l a mm).1 l a ≡ false
  pub table_alloc-keeps :
      (l : Level) (a : ℕ) (mm : Mm) (k : Level) (b : ℕ)
      → is_none mm k b ≡ false
      → is_none (table_alloc l a mm).1 k b ≡ false
  pub pte-table_alloc :
      (l : Level) (a : ℕ) (mm : Mm) (b : ℕ) → pte (table_alloc l a mm).1 b ≡ pte mm b
  pub is_none-set_pte_at :
      (a p : ℕ) (mm : Mm) (k : Level) (b : ℕ) → is_none (set_pte_at a p mm) k b ≡ is_none mm k b
  -- An entry can be written where all the tables above it are there.
  pub pte-set_pte_at :
      (a p : ℕ) (mm : Mm) (b : ℕ)
      → is_none mm pgd a ≡ false
      → is_none mm p4d a ≡ false
      → is_none mm pud a ≡ false
      → is_none mm pmd a ≡ false
      → pte (set_pte_at a p mm) b ≡ (if b / page_size == a / page_size then some p else pte mm b)
  pub is_none-flush :
      (a e : ℕ) (mm : Mm) (k : Level) (b : ℕ)
      → is_none (flush_tlb_mm_range a e mm) k b ≡ is_none mm k b
  pub pte-flush : (a e : ℕ) (mm : Mm) (b : ℕ) → pte (flush_tlb_mm_range a e mm) b ≡ pte mm b
