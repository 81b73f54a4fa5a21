-- ===== src/Lkm/Mapping/Tests.antt =====
-- map_range of lkm/core/api.c on sample page tables.
use shadow_stack_llvm.Prelude.{◌+◌, ◌/◌, ◌≡◌, refl, some, [], ◌∷◌, arith}
use shadow_stack_llvm.Lkm.Errno.{fail, enomem}
use shadow_stack_llvm.Lkm.Layout.{ss_start}
use shadow_stack_llvm.Lkm.PageTable.Sample.{
  sample_tables, no_tables, sample_end, sample_none, sample_table_alloc,
}
use shadow_stack_llvm.Lkm.Mapping.{map_range}
use shadow_stack_llvm.Lkm.Mapping.Walk.{Outcome}
use shadow_stack_llvm.Lkm.Mapping.Levels.{map_range_lem}

map_range_lem_example :
    let (ret, mm') =
      map_range sample_tables ss_start (ss_start + 8192) (7 ∷ 9 ∷ []) (no_tables 4) in
    Outcome sample_tables ss_start (7 ∷ 9 ∷ []) ss_start (ss_start + 8192) (no_tables 4) ret mm'
map_range_lem_example =
    map_range_lem sample_tables ss_start (ss_start + 8192) (7 ∷ 9 ∷ []) (no_tables 4) (omega arith)
      (omega arith) (omega arith) (omega arith) (omega arith)

second_page :
    (map_range sample_tables ss_start (ss_start + 8192) (7 ∷ 9 ∷ []) (no_tables 4)).1.entry
      ((ss_start + 4096) / 4096)
    ≡ some 9
unfolding map_range sample_end sample_none sample_table_alloc
second_page = refl

no_memory :
    (map_range sample_tables ss_start (ss_start + 8192) (7 ∷ 9 ∷ []) (no_tables 3)).0 ≡ fail enomem
unfolding map_range sample_end sample_none sample_table_alloc
no_memory = refl
