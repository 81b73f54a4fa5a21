-- ===== src/Lkm/PgdRange.antt =====
-- lkm/core/api.c, __free_pgd_range with the functions below it and alloc_destroy_callback: the page
-- tables of a process are freed with its allocator. The entries are named by their addresses, since the
-- walk goes from one to the next by adding to a pointer.
pub mod Batches
pub mod Same
pub mod Cleared
pub mod First
mod Tests
use shadow_stack_llvm.Prelude.{
  ℕ, zero, suc, ◌+◌, ◌-◌, ◌*◌, ◌/◌, ◌%◌, ◌^◌, ◌<◌, ◌≡◌, ◌≢◌, ◌⊎◌, Bool, true, false, ◌||◌, ◌&&◌,
  not, Option, none, some, ◌==◌, if◌then◌else◌, update, ltb,
}
use shadow_stack_llvm.Lkm.Layout.{page_size}
use shadow_stack_llvm.Lkm.PageTable.{Level, pgd, p4d, pud, pmd}

-- The kernel's functions and macros on the entries: an argument of the model.
pub record Entries : Type 1 where
  -- struct mm_struct, with the memory.
  pub Mm : Type 0
  -- What an entry covers: PGDIR_SIZE, P4D_SIZE, PUD_SIZE and PMD_SIZE.
  pub size : Level → ℕ
  -- pgd_offset of the mm; p4d_offset, pud_offset and pmd_offset of the entry above.
  pub pgd_offset : Mm → ℕ → ℕ
  pub offset : Level → (above : ℕ) → (addr : ℕ) → Mm → ℕ
  -- pgd_none to pmd_none, pgd_bad to pmd_bad, pgd_clear to pmd_clear.
  pub is_none : Mm → Level → ℕ → Bool
  pub is_bad : Mm → Level → ℕ → Bool
  pub clear : Level → ℕ → Mm → Mm
  pub addr_end : Level → ℕ → ℕ → ℕ
  -- pmd_pgtable of the entry.
  pub pmd_pgtable : Mm → ℕ → ℕ
  -- mm_dec_nr_ptes, mm_dec_nr_pmds and mm_dec_nr_puds, by the level of the entry above.
  pub mm_dec_nr : Level → Mm → Mm
  -- __get_free_page with GFP_NOWAIT: the address and what the page holds, or none for NULL.
  pub get_free_page : Mm → Option (ℕ × (ℕ → ℕ)) × Mm
  pub free_page : ℕ → Mm → Mm
  -- On x86-64, with pages of 4 KiB.
  pub size-pmd : size pmd ≡ 2 ^ 21
  pub size-pud : size pud ≡ 2 ^ 30
  pub addr_end_lem :
      (l : Level) (a e : ℕ)
      → a < e
      → e < 2 ^ 64
      → addr_end l a e
        ≡ (if ltb ((a / size l + 1) * size l) e then (a / size l + 1) * size l else e)
  pub is_none-clear_self : (l : Level) (p : ℕ) (mm : Mm) → is_none (clear l p mm) l p ≡ true
  pub is_none-clear :
      (l k : Level) (p q : ℕ) (mm : Mm)
      → (k ≢ l) ⊎ (q ≢ p)
      → is_none (clear l p mm) k q ≡ is_none mm k q
  pub is_bad-clear :
      (l : Level) (p q : ℕ) (mm : Mm) → q ≢ p → is_bad (clear l p mm) l q ≡ is_bad mm l q
  -- Counting tables, and taking and giving back a page, leave the entries as they are.
  pub is_none-mm_dec_nr :
      (l k : Level) (q : ℕ) (mm : Mm) → is_none (mm_dec_nr l mm) k q ≡ is_none mm k q
  pub is_bad-mm_dec_nr :
      (l k : Level) (q : ℕ) (mm : Mm) → is_bad (mm_dec_nr l mm) k q ≡ is_bad mm k q
  pub is_none-get_free_page :
      (k : Level) (q : ℕ) (mm : Mm) → is_none (get_free_page mm).1 k q ≡ is_none mm k q
  pub is_bad-get_free_page :
      (k : Level) (q : ℕ) (mm : Mm) → is_bad (get_free_page mm).1 k q ≡ is_bad mm k q
  pub is_none-free_page :
      (page : ℕ) (k : Level) (q : ℕ) (mm : Mm) → is_none (free_page page mm) k q ≡ is_none mm k q
  pub is_bad-free_page :
      (page : ℕ) (k : Level) (q : ℕ) (mm : Mm) → is_bad (free_page page mm) k q ≡ is_bad mm k q

-- What a page of 4096 bytes has room for behind the number.
abbrev pub max_batch_size : ℕ
max_batch_size = 511

-- struct sa_batch at its address. `tables` goes on behind the page.
pub record Batch : Type 0 where
  pub page : ℕ
  pub nr : ℕ
  pub tables : ℕ → ℕ

module _ (v : Entries) where
  open v use {
    Mm, size, pgd_offset, offset, is_none, is_bad, clear, addr_end, pmd_pgtable, mm_dec_nr,
    get_free_page, free_page,
  }

  -- struct sa_tlb, with the fields that are written.
  pub record Tlb : Type 0 where
    pub mm : Mm
    pub start : ℕ
    pub end : ℕ
    pub clear_pmds : Bool
    pub batch : Option Batch

  unfoldable pub free_tables : ℕ → (ℕ → ℕ) → Mm → Mm
  free_tables zero tables mm = mm
  free_tables (suc n) tables mm = free_page (tables n) (free_tables n tables mm)

  -- The part of sa_tlb_add behind the allocation of the batch.
  unfoldable pub put_table : ℕ → Batch → Tlb → Tlb
  put_table page b tlb =
      let nr = (b.nr + 1) % 2 ^ 32 in
      let tables = update b.tables b.nr page in
      record tlb {
        batch = some (record b { nr = nr; tables = tables });
        mm = if nr == max_batch_size then free_tables nr tables tlb.mm else tlb.mm;
      }

  unfoldable pub sa_tlb_add : ℕ → Tlb → Tlb
  unfolding put_table
  sa_tlb_add page tlb = elim tlb.batch [
    | some b ↦ put_table page b tlb
    | none ↦
        let (got, mm) = get_free_page tlb.mm in
        elim got [
          | none ↦ record tlb { mm = free_page page mm }
          | some (at, held) ↦
              put_table page (record { page = at; nr = 0; tables = held }) (record tlb { mm = mm })
        ]
  ]

  unfoldable pub tlb_adjust_range : (addr size : ℕ) → Tlb → Tlb
  tlb_adjust_range addr size tlb =
      let last = (addr + size) % 2 ^ 64 in
      record tlb {
        start = if ltb addr tlb.start then addr else tlb.start;
        end = if ltb tlb.end last then last else tlb.end;
      }

  unfoldable pub tlb_free_pte : (page addr : ℕ) → Tlb → Tlb
  unfolding sa_tlb_add tlb_adjust_range
  tlb_free_pte page addr tlb =
      sa_tlb_add page (record (tlb_adjust_range addr page_size tlb) { clear_pmds = true })

  unfoldable pub free_pte_range : (entry addr end : ℕ) → Tlb → Tlb
  unfolding tlb_free_pte
  free_pte_range entry addr end tlb =
      let page = pmd_pgtable tlb.mm entry in
      let tlb' = tlb_free_pte page addr (record tlb { mm = clear pmd entry tlb.mm }) in
      record tlb' { mm = mm_dec_nr pmd tlb'.mm }

  -- A round of the loops: an entry that is empty or bad is skipped.
  unfoldable pub visit : Level → (body : ℕ → ℕ → ℕ → Tlb → Tlb) → (entry addr next : ℕ) → Tlb → Tlb
  visit l body entry addr next tlb =
      if is_none tlb.mm l entry || is_bad tlb.mm l entry then tlb else body entry addr next tlb

  -- The do-while loop of free_pmd_range, free_p4d_range and __free_pgd_range.
  unfoldable pub each_entry :
      Level → (body : ℕ → ℕ → ℕ → Tlb → Tlb) → (rounds : ℕ) → (entry addr end : ℕ) → Tlb → Tlb
  unfolding visit
  each_entry l body zero entry addr end tlb = tlb
  each_entry l body (suc rounds) entry addr end tlb =
      let next = addr_end l addr end in
      let tlb' = visit l body entry addr next tlb in
      elim (next == end) [
        | true ↦ tlb'
        | false ↦ each_entry l body rounds ((entry + 8) % 2 ^ 64) next end tlb'
      ]

  -- `& PUD_MASK` and its like.
  unfoldable pub masked : Level → ℕ → ℕ
  masked l a = a - a % size l

  -- What is tested behind the loops: whether the entry above goes as well.
  unfoldable pub covers : (above : Level) → (start end floor ceiling : ℕ) → Bool
  unfolding masked
  covers above start end floor ceiling =
      let upper = if ceiling == 0 then 0 else masked above ceiling in
      not (ltb (masked above start) floor)
      && not (not (ceiling == 0) && (upper == 0))
      && not (ltb ((upper + 2 ^ 64 - 1) % 2 ^ 64) ((end + 2 ^ 64 - 1) % 2 ^ 64))

  unfoldable pub free_pmd_range : (rounds entry addr end floor ceiling : ℕ) → Tlb → Tlb
  unfolding each_entry free_pte_range covers
  free_pmd_range rounds entry addr end floor ceiling tlb =
      let tlb' = each_entry pmd free_pte_range rounds (offset pmd entry addr tlb.mm) addr end tlb in
      if covers pud addr end floor ceiling
      then record tlb' { mm = mm_dec_nr pud (clear pud entry tlb'.mm) }
      else tlb'

  -- The condition of this loop compares next with itself, so that there is one round.
  unfoldable pub free_pud_range : (rounds entry addr end floor ceiling : ℕ) → Tlb → Tlb
  unfolding free_pmd_range visit covers
  free_pud_range rounds entry addr end floor ceiling tlb =
      let next = addr_end pud addr end in
      let tlb' =
        visit pud (λ e a n. free_pmd_range rounds e a n floor ceiling)
          (offset pud entry addr tlb.mm) addr next tlb in
      if covers p4d addr end floor ceiling
      then record tlb' { mm = mm_dec_nr p4d (clear p4d entry tlb'.mm) }
      else tlb'

  unfoldable pub free_p4d_range : (rounds entry addr end floor ceiling : ℕ) → Tlb → Tlb
  unfolding each_entry free_pud_range covers
  free_p4d_range rounds entry addr end floor ceiling tlb =
      let tlb' =
        each_entry p4d (λ e a n. free_pud_range rounds e a n floor ceiling) rounds
          (offset p4d entry addr tlb.mm) addr end tlb in
      if covers pgd addr end floor ceiling
      then record tlb' { mm = clear pgd entry tlb'.mm }
      else tlb'

  unfoldable pub free_pgd_entries : (rounds addr end floor ceiling : ℕ) → Tlb → Tlb
  unfolding each_entry free_p4d_range
  free_pgd_entries rounds addr end floor ceiling tlb =
      if ltb ((end + 2 ^ 64 - 1) % 2 ^ 64) addr
      then tlb
      else each_entry pgd (λ e a n. free_p4d_range rounds e a n floor ceiling) rounds
          (pgd_offset tlb.mm addr) addr end tlb

  unfoldable pub free_pgd_range : (rounds addr end floor ceiling : ℕ) → Tlb → Tlb
  unfolding free_pgd_entries masked
  free_pgd_range rounds addr end floor ceiling tlb =
      let low = masked pmd addr in
      let first = if ltb low floor then (low + size pmd) % 2 ^ 64 else low in
      let upper = if ceiling == 0 then 0 else masked pmd ceiling in
      let last =
        if ltb ((upper + 2 ^ 64 - 1) % 2 ^ 64) ((end + 2 ^ 64 - 1) % 2 ^ 64)
        then (end + 2 ^ 64 - size pmd) % 2 ^ 64
        else end in
      if ltb low floor && (first == 0)
      then tlb
      else if not (ceiling == 0) && (upper == 0)
      then tlb
      else free_pgd_entries rounds first last floor upper tlb

  -- The mm of the allocator, `none` for NULL; mmdrop and kfree are not in the state.
  unfoldable pub alloc_destroy_callback : (rounds : ℕ) → Option Mm → Option Mm
  unfolding free_pgd_range
  alloc_destroy_callback rounds none = none
  alloc_destroy_callback rounds (some mm) =
      let tlb : Tlb = record { mm = mm; start = 0; end = 0; clear_pmds = false; batch = none } in
      some (free_pgd_range rounds 0 0 0 0 tlb).mm
