-- ===== src/Lkm/Pagelist.antt =====
-- lkm/core/api.c, struct sa_pagelist: the pages under one shadow stack. The array `pages` is the list
-- of its first nr_pages entries, so that filling the next entry appends to it.
pub mod Grant
pub mod Loops
pub mod Fuel
pub mod Alloc
mod Tests
use Prim.Native.Nat.{min}
use shadow_stack_llvm.Prelude.{
  ℕ, zero, suc, ◌+◌, ◌-◌, ◌^◌, Bool, true, false, ◌&&◌, not, Option, none, some, List, [], ◌∷◌,
  ◌++◌, ltb, ◌==◌, if◌then◌else◌, length,
}
use shadow_stack_llvm.Lkm.Errno.{Ret, success, fail, enomem}
use shadow_stack_llvm.Lkm.Layout.{sub64}
use shadow_stack_llvm.Lkm.Memory.{Memory, Gfp, block}

-- (gfp | __GFP_NOWARN) & ~__GFP_DIRECT_RECLAIM
abbrev pub no_reclaim : Gfp → Gfp
no_reclaim g = record g { nowarn = true; direct_reclaim = false }

module _ (m : Memory) where
  open m use {
    State, max_order, ilog2, alloc_pages, alloc_pages_bulk, free_page, kmalloc, kfree,
    fatal_signal_pending,
  }

  -- The loop counts nr_pages down, so the last page is freed first.
  pub free_pages : List ℕ → State → State
  free_pages [] s = s
  free_pages (p ∷ ps) s = free_page p (free_pages ps s)

  unfoldable pub sa_pagelist_free_pages : List ℕ → State → State
  sa_pagelist_free_pages pages s = kfree (free_pages pages s)

  unfoldable pub sa_pagelist_free : List ℕ → State → State
  sa_pagelist_free pages s = kfree (sa_pagelist_free_pages pages s)

  module _ (gfp : Gfp) (nr_pages : ℕ) where
    -- The three loops of sa_pagelist_alloc_pages take the pages got so far, and stop when the fuel
    -- is used up; Pagelist.Fuel shows that the fuel given to each is enough.
    pub high_order_loop : ℕ → (max_attempt_order large_order : ℕ) → List ℕ → State → List ℕ × State
    high_order_loop zero max_attempt_order large_order pages s = (pages, s)
    high_order_loop (suc fuel) max_attempt_order large_order pages s =
        elim (ltb 0 large_order && not (sub64 nr_pages (length pages) == 0)) [
          | false ↦ (pages, s)
          | true ↦
              let (page?, s') = alloc_pages (no_reclaim gfp) large_order s in
              elim page? [
                | none ↦ high_order_loop fuel (large_order - 1) (large_order - 1) pages s'
                | some page ↦
                    let pages' = pages ++ block page (2 ^ large_order) in
                    high_order_loop fuel max_attempt_order
                      (min max_attempt_order (ilog2 (sub64 nr_pages (length pages')))) pages' s'
              ]
        ]

    pub bulk_loop : ℕ → List ℕ → State → List ℕ × State
    bulk_loop zero pages s = (pages, s)
    bulk_loop (suc fuel) pages s = elim (ltb (length pages) nr_pages) [
      | false ↦ (pages, s)
      | true ↦
          let nr_pages_request = min 100 (sub64 nr_pages (length pages)) in
          let (got, s') = alloc_pages_bulk gfp nr_pages_request s in
          elim (length got == nr_pages_request) [
            | false ↦ (pages ++ got, s')
            | true ↦ bulk_loop fuel (pages ++ got) s'
          ]
    ]

    pub single_loop : ℕ → List ℕ → State → List ℕ × State
    single_loop zero pages s = (pages, s)
    single_loop (suc fuel) pages s = elim (ltb (length pages) nr_pages) [
      | false ↦ (pages, s)
      | true ↦ elim (fatal_signal_pending s) [
        | true ↦ (pages, s)
        | false ↦
            let (page?, s') = alloc_pages gfp 0 s in
            elim page? [ none ↦ (pages, s') | some page ↦ single_loop fuel (pages ++ page ∷ []) s' ]
      ]
    ]

    -- The three loops in a row, each with the given fuel.
    pub fill_pages_within : ℕ → State → List ℕ × State
    unfolding high_order_loop bulk_loop single_loop
    fill_pages_within fuel s =
        let large_order = min max_order (ilog2 nr_pages) in
        let (pages1, s1) = high_order_loop fuel max_order large_order [] s in
        let (pages2, s2) = bulk_loop fuel pages1 s1 in single_loop fuel pages2 s2

    pub fill_pages : State → List ℕ × State
    unfolding fill_pages_within
    fill_pages s = fill_pages_within (max_order + nr_pages + 1) s

    -- The page list is what is left in `pagelist` when the call succeeds.
    unfoldable pub sa_pagelist_alloc_pages : State → Ret × List ℕ × State
    unfolding fill_pages sa_pagelist_free_pages
    sa_pagelist_alloc_pages s =
        let (array, s1) = kmalloc s in
        let (pages, s2) = fill_pages s1 in
        if array
        then (if length pages == nr_pages
            then (success, pages, s2)
            else (fail enomem, [], sa_pagelist_free_pages pages s2))
        else (fail enomem, [], s1)
