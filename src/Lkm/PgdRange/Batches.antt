-- ===== src/Lkm/PgdRange/Batches.antt =====
-- sa_tlb_add of lkm/core/api.c, called for one table after the other.
use shadow_stack_llvm.Prelude.{ℕ, zero, suc, ◌<◌, ◌≡◌, some, if◌then◌else◌, ltb}
use shadow_stack_llvm.Lkm.PgdRange.{Entries, max_batch_size, Batch, Tlb, free_tables, sa_tlb_add}

module _ (v : Entries) where
  open v use {Mm, get_free_page, free_page}

  -- The calls for the tables 0 to n - 1.
  unfoldable pub add_first : (table : ℕ → ℕ) → ℕ → Tlb v → Tlb v
  add_first table zero tlb = tlb
  add_first table (suc n) tlb = sa_tlb_add v (table n) (add_first table n tlb)

  -- The batch after n tables.
  record Filled (table : ℕ → ℕ) (mm0 : Mm) (n : ℕ) (tlb : Tlb v) : Type 0 where
    b : Batch
    batch : tlb.batch ≡ some b
    nr : b.nr ≡ n
    tables : (i : ℕ) → i < n → b.tables i ≡ table i
    mm : tlb.mm ≡ (if ltb n max_batch_size then mm0 else free_tables v max_batch_size table mm0)
