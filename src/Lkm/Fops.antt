-- ===== src/Lkm/Fops.antt =====
-- lkm/core/chrdev_fops.c: opening and closing the device, and the walk over the page tables that takes
-- the shadow area out of a process. The page tables are an argument; the mmap lock is held by the
-- caller of the walk.
pub mod Remove
mod Sample
mod Tests
use shadow_stack_llvm.Prelude.{
  ℕ, zero, suc, ◌+◌, ◌-◌, ◌/◌, ◌%◌, ◌^◌, ◌≤◌, ◌<◌, ◌≡◌, Bool, true, false, Option, none, some, ltb,
  ◌==◌, if◌then◌else◌,
}
use shadow_stack_llvm.Lkm.Layout.{page_size, ss_start, ss_end}
use shadow_stack_llvm.Lkm.PageTable.{Level, pgd, p4d, pud, pmd}

-- The page tables of a process as they are taken down. An entry is named by its level and an address
-- that it covers, as in Lkm.PageTable.
pub record Teardown : Type 1 where
  pub Mm : Type 0
  -- pgd_present, p4d_present, pud_present and pmd_present.
  pub is_present : Mm → Level → ℕ → Bool
  -- The page of the last level's entry, if that entry is present.
  pub pte : Mm → ℕ → Option ℕ
  pub addr_end : Level → ℕ → ℕ → ℕ
  -- PTRS_PER_P4D for an entry of level pgd, down to PTRS_PER_PTE for one of level pmd: how many entries
  -- the table below it has; and whether one of them is none.
  pub ptrs_per : Level → ℕ
  pub entry_none : Mm → Level → ℕ → ℕ → Bool
  pub pte_clear : ℕ → Mm → Mm
  -- my_p4d_free of the table below an entry of level pgd, down to my_pte_free, with mm_dec_nr_puds and
  -- its kin; and pgd_clear down to pmd_clear.
  pub table_free : Level → ℕ → Mm → Mm
  pub entry_clear : Level → ℕ → Mm → Mm
  pub flush_tlb_mm_range : ℕ → ℕ → Mm → Mm
  pub addr_end-bounds : (l : Level) (a e : ℕ) → a < e → (a < addr_end l a e) × (addr_end l a e ≤ e)
  pub addr_end-aligned :
      (l : Level) (a e : ℕ) → a % page_size ≡ 0 → e % page_size ≡ 0 → addr_end l a e % page_size ≡ 0
  pub addr_end-entry :
      (l : Level) (a e b : ℕ) (mm : Mm)
      → a ≤ b
      → b < addr_end l a e
      → is_present mm l b ≡ is_present mm l a
  -- Nothing is mapped below an entry that is not present.
  pub pte-absent : (l : Level) (a : ℕ) (mm : Mm) → is_present mm l a ≡ false → pte mm a ≡ none
  pub pte-page : (a b : ℕ) (mm : Mm) → b / page_size ≡ a / page_size → pte mm b ≡ pte mm a
  pub pte-pte_clear :
      (a : ℕ) (mm : Mm) (b : ℕ)
      → pte (pte_clear a mm) b ≡ (if b / page_size == a / page_size then none else pte mm b)
  -- Nothing is mapped by a table without entries.
  pub pte-table_free :
      (l : Level) (a : ℕ) (mm : Mm) (b : ℕ)
      → ((i : ℕ) → i < ptrs_per l → entry_none mm l a i ≡ true)
      → pte (entry_clear l a (table_free l a mm)) b ≡ pte mm b
  pub pte-flush : (a e : ℕ) (mm : Mm) (b : ℕ) → pte (flush_tlb_mm_range a e mm) b ≡ pte mm b

-- shadow_open and shadow_release: what they did is commented out.
abbrev pub shadow_open : ℕ
shadow_open = 0

abbrev pub shadow_release : ℕ
shadow_release = 0

module _ (t : Teardown) where
  open t use {
    Mm, is_present, pte, addr_end, ptrs_per, entry_none, pte_clear, table_free, entry_clear,
    flush_tlb_mm_range,
  }

  -- Whether the loop over `n` entries from the i-th on comes to its end.
  abbrev pub all_none : Level → ℕ → Mm → (n i : ℕ) → Bool
  all_none l addr mm zero i = true
  all_none l addr mm (suc n) i =
      let rest = all_none l addr mm n (i + 1) in if entry_none mm l addr i then rest else false

  -- What sa_free_p4d, sa_free_pud, sa_free_pmd and sa_free_pte do with an entry of level pgd, p4d, pud
  -- and pmd.
  unfoldable pub free_table : Level → ℕ → Mm → Mm
  free_table l addr mm =
      if all_none l addr mm (ptrs_per l) 0 then entry_clear l addr (table_free l addr mm) else mm

  abbrev pub sa_free_pte : ℕ → Mm → Mm
  sa_free_pte = free_table pmd

  abbrev pub sa_free_pmd : ℕ → Mm → Mm
  sa_free_pmd = free_table pud

  abbrev pub sa_free_pud : ℕ → Mm → Mm
  sa_free_pud = free_table p4d

  abbrev pub sa_free_p4d : ℕ → Mm → Mm
  sa_free_p4d = free_table pgd

  -- The loop that the levels share: `body` for each part of the range, on as many rounds as the range
  -- has bytes.
  unfoldable pub walk : (ℕ → ℕ → ℕ) → (ℕ → ℕ → Mm → Mm) → (fuel addr end : ℕ) → Mm → Mm
  walk next body zero addr end mm = mm
  walk next body (suc fuel) addr end mm = elim (ltb addr end) [
    | false ↦ mm
    | true ↦ walk next body fuel (next addr end) end (body addr (next addr end) mm)
  ]

  -- (addr + PAGE_SIZE) & PAGE_MASK, up to the end.
  abbrev pub next_page : ℕ → ℕ → ℕ
  next_page addr end =
      let sum = (addr + page_size) % 2 ^ 64 in
      let next = sum - sum % page_size in if ltb end next then end else next

  abbrev pub clear_page : ℕ → ℕ → Mm → Mm
  clear_page addr next mm = elim (pte mm addr) [ none ↦ mm | some page ↦ pte_clear addr mm ]

  unfoldable pub sa_remove_pte : ℕ → ℕ → Mm → Mm
  unfolding walk
  sa_remove_pte addr end mm = walk next_page clear_page (end - addr) addr end mm

  -- `if (!present(*entry)) continue;` before what is done below the entry.
  abbrev pub if_present : Level → (ℕ → ℕ → Mm → Mm) → ℕ → ℕ → Mm → Mm
  if_present l below addr next mm = if is_present mm l addr then below addr next mm else mm

  unfoldable pub sa_remove_pmd : ℕ → ℕ → Mm → Mm
  unfolding walk sa_remove_pte
  sa_remove_pmd addr end mm =
      walk (addr_end pmd) (if_present pmd sa_remove_pte) (end - addr) addr end mm

  unfoldable pub sa_remove_pud : ℕ → ℕ → Mm → Mm
  unfolding walk sa_remove_pmd
  sa_remove_pud addr end mm =
      walk (addr_end pud) (if_present pud sa_remove_pmd) (end - addr) addr end mm

  unfoldable pub sa_remove_p4d : ℕ → ℕ → Mm → Mm
  unfolding walk sa_remove_pud
  sa_remove_p4d addr end mm =
      walk (addr_end p4d) (if_present p4d sa_remove_pud) (end - addr) addr end mm

  abbrev pub remove_entry : ℕ → ℕ → Mm → Mm
  remove_entry addr next mm = sa_free_p4d addr (sa_remove_p4d addr next mm)

  unfoldable pub sa_remove : ℕ → ℕ → Mm → Mm
  unfolding walk sa_remove_p4d
  sa_remove start end mm =
      walk (addr_end pgd) (if_present pgd remove_entry) (end - start) start end mm

  -- The number that it returns, and the page tables.
  unfoldable pub sa_tdown : Mm → ℕ × Mm
  unfolding sa_remove
  sa_tdown mm = (0, flush_tlb_mm_range 0 (2 ^ 64 - 1) (sa_remove ss_start ss_end mm))
