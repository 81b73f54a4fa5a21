-- ===== src/Lkm/Pagelist/Tests.antt =====
-- sa_pagelist_alloc_pages of lkm/core/api.c at concrete memories.
use shadow_stack_llvm.Prelude.{◌≡◌, refl, ◌⊎◌, false, [], ◌∷◌, arith, length}
use shadow_stack_llvm.Lkm.Errno.{success, fail, enomem}
use shadow_stack_llvm.Lkm.Memory.{gfp_kernel, Grant}
use shadow_stack_llvm.Lkm.Memory.Same.{Same, one_more}
use shadow_stack_llvm.Lkm.Memory.Sample.{
  seen, sample_alloc, sample_bulk, sample_ilog2, sample_memory, fresh_store,
}
use shadow_stack_llvm.Lkm.Pagelist.{fill_pages_within, fill_pages, sa_pagelist_alloc_pages}
use shadow_stack_llvm.Lkm.Pagelist.Alloc.{sa_pagelist_alloc_pages_lem}
use shadow_stack_llvm.Lkm.Pagelist.Fuel.{fill_pages-fuel}

sa_pagelist_alloc_pages_lem_example :
    let (ret, pages, s') = sa_pagelist_alloc_pages sample_memory gfp_kernel 3 (fresh_store 8) in
    ((ret ≡ success)
      × (length pages ≡ 3)
      × Grant false (one_more (seen (fresh_store 8))) pages (sample_memory.view s'))
    ⊎ ((ret ≡ fail enomem) × Same (seen (fresh_store 8)) (sample_memory.view s'))
sa_pagelist_alloc_pages_lem_example =
    sa_pagelist_alloc_pages_lem sample_memory gfp_kernel 3 (omega arith) (fresh_store 8)

fill_pages-fuel_example :
    fill_pages_within sample_memory gfp_kernel 3 100 (fresh_store 8)
    ≡ fill_pages sample_memory gfp_kernel 3 (fresh_store 8)
fill_pages-fuel_example =
    fill_pages-fuel sample_memory gfp_kernel 3 (omega arith) 100 (fresh_store 8) (omega arith)

three_pages : (fill_pages sample_memory gfp_kernel 3 (fresh_store 8)).0 ≡ 1 ∷ 2 ∷ 3 ∷ []
unfolding sample_alloc sample_bulk sample_ilog2 fill_pages
three_pages = refl

too_many_pages :
    (sa_pagelist_alloc_pages sample_memory gfp_kernel 9 (fresh_store 8)).0 ≡ fail enomem
unfolding sample_alloc sample_bulk sample_ilog2 sa_pagelist_alloc_pages
too_many_pages = refl
