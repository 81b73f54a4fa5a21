-- ===== src/Lkm/Mapping.antt =====
-- lkm/core/api.c, map_range and the functions below it, with the allocation helpers of
-- lkm/core/pt_bindings.h: the pages of a stack are mapped at its addresses. The mmap lock is held by
-- the caller.
pub mod Walk
pub mod Levels
mod Tests
use shadow_stack_llvm.Prelude.{
  ℕ, zero, suc, ◌+◌, ◌-◌, ◌/◌, ◌%◌, ◌^◌, Bool, true, false, none, some, List, ◌==◌, if◌then◌else◌,
  get_elem?,
}
use shadow_stack_llvm.Lkm.Errno.{Ret, success, fail, enomem, failed}
use shadow_stack_llvm.Lkm.Layout.{sub64, page_shift, page_size}
use shadow_stack_llvm.Lkm.PageTable.{PageTables, Level, pgd, p4d, pud, pmd}

module _ (t : PageTables) where
  open t use {Mm, is_none, addr_end, table_alloc, set_pte_at, flush_tlb_mm_range}

  -- false for NULL, or for a result that is not 0.
  pub my_p4d_alloc : ℕ → Mm → Bool × Mm
  my_p4d_alloc addr mm = if is_none mm pgd addr then table_alloc pgd addr mm else (true, mm)

  pub my_pud_alloc : ℕ → Mm → Bool × Mm
  my_pud_alloc addr mm = if is_none mm p4d addr then table_alloc p4d addr mm else (true, mm)

  pub my_pmd_alloc : ℕ → Mm → Bool × Mm
  my_pmd_alloc addr mm = if is_none mm pud addr then table_alloc pud addr mm else (true, mm)

  pub my_pte_alloc : ℕ → Mm → Bool × Mm
  my_pte_alloc addr mm = if is_none mm pmd addr then table_alloc pmd addr mm else (true, mm)

  unfoldable pub unmap_range : ℕ → ℕ → Mm → Mm
  unmap_range addr end mm = flush_tlb_mm_range addr end mm

  -- The do-while loop that the levels share: `body` for each part of the range up to `end`, until one
  -- fails. The number is the last `next`. Each round moves on, so `end - addr` rounds are enough;
  -- Mapping.Levels shows that the whole range is done.
  pub do_range : (next : ℕ → ℕ → ℕ) (body : ℕ → ℕ → Mm → Ret × Mm) → ℕ → ℕ → ℕ → Mm → Ret × ℕ × Mm
  do_range next body zero addr end mm = (success, addr, mm)
  do_range next body (suc fuel) addr end mm =
      let n = next addr end in
      let (err, mm') = body addr n mm in
      elim err [
        | fail e ↦ (fail e, n, mm')
        | success ↦ elim (n == end) [
          | true ↦ (success, n, mm')
          | false ↦ do_range next body fuel n end mm'
        ]
      ]

  -- `if (callee(...)) return -ENOMEM;`
  abbrev pub enomem_if_failed : Ret × Mm → Ret × Mm
  enomem_if_failed (success, mm) = (success, mm)
  enomem_if_failed (fail e, mm) = (fail enomem, mm)

  module _ (start : ℕ) (pages : List ℕ) where
    -- A read outside the array of pages is not modelled: nothing is written then.
    pub set_page : ℕ → Mm → Mm
    set_page addr mm = elim (get_elem? pages (sub64 addr start / 2 ^ page_shift)) [
      | none ↦ mm
      | some page ↦ set_pte_at addr page mm
    ]

    pub set_ptes : ℕ → ℕ → ℕ → Mm → Mm
    unfolding set_page
    set_ptes zero addr end mm = mm
    set_ptes (suc fuel) addr end mm =
        let addr' = (addr + page_size) % 2 ^ 64 in
        let mm' = set_page addr mm in
        elim (addr' == end) [ true ↦ mm' | false ↦ set_ptes fuel addr' end mm' ]

    pub map_pte_range : ℕ → ℕ → Mm → Ret × Mm
    unfolding set_ptes my_pte_alloc
    map_pte_range addr end mm =
        let (got, mm') = my_pte_alloc addr mm in
        if got then (success, set_ptes (end - addr) addr end mm') else (fail enomem, mm')

    pub map_pmd_range : ℕ → ℕ → Mm → Ret × Mm
    unfolding map_pte_range my_pmd_alloc do_range
    map_pmd_range addr end mm =
        let (got, mm') = my_pmd_alloc addr mm in
        let (err, _, mm'') =
          do_range (addr_end pmd) (λ a n x. enomem_if_failed (map_pte_range a n x)) (end - addr)
            addr end mm' in
        if got then (err, mm'') else (fail enomem, mm')

    pub map_pud_range : ℕ → ℕ → Mm → Ret × Mm
    unfolding map_pmd_range my_pud_alloc do_range
    map_pud_range addr end mm =
        let (got, mm') = my_pud_alloc addr mm in
        let (err, _, mm'') =
          do_range (addr_end pud) (λ a n x. enomem_if_failed (map_pmd_range a n x)) (end - addr)
            addr end mm' in
        if got then (err, mm'') else (fail enomem, mm')

    pub map_p4d_range : ℕ → ℕ → Mm → Ret × Mm
    unfolding map_pud_range my_p4d_alloc do_range
    map_p4d_range addr end mm =
        let (got, mm') = my_p4d_alloc addr mm in
        let (err, _, mm'') =
          do_range (addr_end p4d) (λ a n x. enomem_if_failed (map_pud_range a n x)) (end - addr)
            addr end mm' in
        if got then (err, mm'') else (fail enomem, mm')

  unfoldable pub map_range : ℕ → ℕ → List ℕ → Mm → Ret × Mm
  unfolding map_p4d_range unmap_range do_range
  map_range addr end pages mm =
      let (err, next, mm') =
        do_range (addr_end pgd) (map_p4d_range addr pages) (end - addr) addr end mm in
      if failed err then (err, unmap_range addr next mm') else (err, mm')
