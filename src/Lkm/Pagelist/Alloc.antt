-- ===== src/Lkm/Pagelist/Alloc.antt =====
-- sa_pagelist_alloc_pages of lkm/core/api.c: it gets all the pages that were asked for, or none.
use shadow_stack_llvm.Prelude.{
  ℕ, ◌^◌, ◌<◌, ◌≡◌, refl, ◌⊎◌, inl, inr, arith, ◌==◌, subst, length, Bool-cases,
}
use shadow_stack_llvm.Lkm.Errno.{success, fail, enomem}
use shadow_stack_llvm.Lkm.Memory.{Memory, Gfp, Grant}
use shadow_stack_llvm.Lkm.Pagelist.{fill_pages, sa_pagelist_free_pages, sa_pagelist_alloc_pages}
use shadow_stack_llvm.Lkm.Memory.Same.{Same, one_more, kmalloc-ok, kmalloc-failed, kfree-Same}
use shadow_stack_llvm.Lkm.Pagelist.Grant.{free_pages-Same}
use shadow_stack_llvm.Lkm.Pagelist.Loops.{fill_pages-Filled}

module _ (m : Memory) (gfp : Gfp) (nr_pages : ℕ) (small : nr_pages < 2 ^ 64) where
  open m use {State, view, kmalloc, kmalloc-view, kfree-view}

  -- sa_pagelist_alloc_pages either returns 0 with exactly the pages that were asked for, all of them
  -- new and distinct, zeroed if that was asked for, beside one more object (the array); or it returns
  -- -ENOMEM, and every page and the array are given back.
  pub sa_pagelist_alloc_pages_lem :
      (s : State)
      → let (ret, pages, s') = sa_pagelist_alloc_pages m gfp nr_pages s in
        ((ret ≡ success)
          × (length pages ≡ nr_pages)
          × Grant gfp.zeroed (one_more (view s)) pages (view s'))
        ⊎ ((ret ≡ fail enomem) × Same (view s) (view s'))
  unfolding sa_pagelist_alloc_pages sa_pagelist_free_pages
  sa_pagelist_alloc_pages_lem s =
      let f = fill_pages-Filled m gfp nr_pages small (kmalloc s).1 in
      let (pages, s2) = fill_pages m gfp nr_pages (kmalloc s).1 in
      elim (Bool-cases (kmalloc s).0) [
        | inr e ↦ rw (e, sa_pagelist_alloc_pages) (inr (refl, kmalloc-failed m s e))
        | inl e ↦
            let grant =
              subst (λ v. Grant gfp.zeroed v pages (view s2)) (kmalloc-ok m s e) f.grant in
            elim (Bool-cases (length pages == nr_pages)) [
              | inl all ↦ rw (e, all, sa_pagelist_alloc_pages) (inl (refl, ground arith, grant))
              | inr short ↦
                  rw (e, short, sa_pagelist_alloc_pages)
                    (inr (refl, kfree-Same m _ (free_pages-Same m s2 grant)))
            ]
      ]
