-- ===== src/Runtime/MemPool/Tests.antt =====
-- Runs of the pool of runtime/allocator.c, and its theorems at concrete pools.
use shadow_stack_llvm.Prelude.{◌+◌, ◌<◌, ◌≤◌, ◌≡◌, refl, [], ◌∷◌, none, arith, All, here, there}
use shadow_stack_llvm.Runtime.MemPool.{
  Pool, null, mem_pool_init, init_chunk, mem_pool_alloc, mem_pool_release,
}
use shadow_stack_llvm.Runtime.MemPool.Invariant.{Spaced}
use shadow_stack_llvm.Runtime.MemPool.Runs.{
  Run, start, allocs, releases, fresh_pool, live_chunks_disjoint, alloc-release, alloc-fresh_iff,
}

abbrev zeroed_pool : Pool
zeroed_pool = record {
  mem_pool = 0;
  freelist = 0;
  chunk_size = 0;
  freearea_start = 0;
  freearea_end = 0;
  next = λ a. 0;
  top = λ a. 0;
}

-- A pool of 0x400 bytes at 0x1000, in chunks of 0x100.
abbrev small_pool : Pool
small_pool = fresh_pool 0x1000 0x100 0x400 zeroed_pool

-- Two allocations, a release of the first chunk, and one more allocation.
small-Run :
    Run small_pool 3
      (mem_pool_alloc (mem_pool_release 0x1000 (mem_pool_alloc (mem_pool_alloc small_pool).1).1)).1
      (0x1000 ∷ 0x1100 ∷ [])
unfolding mem_pool_init mem_pool_alloc mem_pool_release init_chunk
small-Run = allocs (releases (allocs (allocs start)) (there here))

live_chunks_disjoint_example :
    Spaced 0x100 (0x1000 ∷ 0x1100 ∷ [])
    × All (λ a. (0x1000 ≤ a) × (a + 0x100 < 0x1000 + 0x400)) (0x1000 ∷ 0x1100 ∷ [])
live_chunks_disjoint_example =
    live_chunks_disjoint 0x1000 0x100 0x400 zeroed_pool (omega arith) (omega arith) (omega arith)
      small-Run (omega arith)

alloc-release_example : (mem_pool_alloc (mem_pool_release 0x1000 small_pool)).0 ≡ 0x1000
alloc-release_example = (alloc-release small_pool 0x1000 (omega arith)).0

alloc-fresh_iff_example : (mem_pool_alloc small_pool).1.freearea_start ≡ 0x1100
unfolding mem_pool_init
alloc-fresh_iff_example = (alloc-fresh_iff small_pool refl (omega arith) (omega arith)).2

-- The fourth chunk would end exactly at the end of the pool, and is refused.
fourth_chunk :
    (mem_pool_alloc (mem_pool_alloc (mem_pool_alloc (mem_pool_alloc small_pool).1).1).1).0 ≡ null
unfolding mem_pool_init mem_pool_alloc
fourth_chunk = refl

failed_mmap : (mem_pool_init none 1 1 zeroed_pool).1.freelist ≡ null
unfolding mem_pool_init
failed_mmap = refl
