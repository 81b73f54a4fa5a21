-- ===== src/Lkm/Fops/Tests.antt =====
-- The walk over sample page tables.
use shadow_stack_llvm.Prelude.{ℕ, ◌≡◌, refl, List, [], ◌∷◌, ◌/◌, arith}
use shadow_stack_llvm.Lkm.Layout.{page_size, ss_start}
use shadow_stack_llvm.Lkm.Fops.{sa_remove, free_table}
use shadow_stack_llvm.Lkm.PageTable.Sample.{sample_end}
use shadow_stack_llvm.Lkm.Fops.Sample.{sample_teardown}
use shadow_stack_llvm.Lkm.Fops.Remove.{Cleared, sa_remove-Cleared}

-- The first page of the shadow area and a page of the program.
abbrev two_pages : List ℕ
two_pages = ss_start / page_size ∷ 1024 ∷ []

sa_remove-Cleared_example :
    Cleared sample_teardown 0x400000 0x600000 two_pages
      (sa_remove sample_teardown 0x400000 0x600000 two_pages)
sa_remove-Cleared_example =
    sa_remove-Cleared sample_teardown 0x400000 0x600000 two_pages
      (omega arith, omega arith, omega arith) (omega arith)

-- The page of the program is unmapped, and the other one stays.
removed : sa_remove sample_teardown 0x400000 0x401000 two_pages ≡ ss_start / page_size ∷ []
unfolding sa_remove sample_end free_table
removed = refl
