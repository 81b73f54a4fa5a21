-- ===== src/Runtime/MemPool/Runs.antt =====
-- Histories of calls of runtime/allocator.c, and single calls on every branch.
use shadow_stack_llvm.Prelude.{
  ℕ, zero, suc, ◌+◌, ◌*◌, ◌%◌, ◌^◌, ◌≤◌, ◌<◌, ◌≡◌, refl, ◌∙◌, ◌≢◌, ◌↔◌, ◌==◌, if◌then◌else◌, inl,
  inr, some, List, [], ◌∷◌, ◌++◌, subst, arith, leb, Bool-cases, All, All-map, All-append_right,
  Pairs-append_right, Pick,
}
use shadow_stack_llvm.Runtime.MemPool.{
  Pool, null, data_offset, mem_pool_init, init_chunk, mem_pool_alloc, mem_pool_release,
}
use shadow_stack_llvm.Runtime.MemPool.Invariant.{
  Beside, Spaced, Within, Inv, grown, alloc-Inv, release-Inv, alloc-exhausted, alloc-fresh,
  alloc-recycled,
}

-- `Run p n q live`: calls that lead from `p` to `q`, `n` of them allocations; `live` are the chunks
-- that were returned and not released since. Only a chunk that is handed out is released.
pub data Run (p : Pool) : ℕ → Pool → List ℕ → Type 0 where
  start : Run p zero p []
  allocs :
      {n : ℕ} {q : Pool} {live : List ℕ}
      → Run p n q live
      → Run p (suc n) (mem_pool_alloc q).1 (grown (mem_pool_alloc q).0 live)
  releases :
      {n : ℕ} {q : Pool} {live rest : List ℕ} {c : ℕ}
      → Run p n q live
      → Pick c live rest
      → Run p n (mem_pool_release c q) rest

-- The invariant, with the sizes that the pool was set up with.
record Sized (adr size total n : ℕ) (q : Pool) (live : List ℕ) : Type 0 where
  free : List ℕ
  inv : Inv q free live
  chunk_size : q.chunk_size ≡ size
  mem_pool : q.mem_pool ≡ adr
  freearea_end : q.freearea_end ≡ adr + total
  freearea_start : q.freearea_start ≤ adr + n * size

abbrev pub fresh_pool : ℕ → ℕ → ℕ → Pool → Pool
fresh_pool adr size total p = (mem_pool_init (some adr) size total p).1

module _ (adr size total : ℕ) (p : Pool) (real : adr ≢ null) (sized : 0 < size)
    (mapped : adr + total < 2 ^ 64) where
  init-Sized : Sized adr size total 0 (fresh_pool adr size total p) []
  unfolding mem_pool_init
  init-Sized = record {
    free = [];
    inv = record {
      sized = sized;
      ne_null = real;
      above = omega arith;
      chain = refl;
      spaced = tt;
      within = tt;
    };
    chunk_size = refl;
    mem_pool = refl;
    freearea_end = omega arith;
    freearea_start = omega arith;
  }

  Run-Sized :
      {n : ℕ} {q : Pool} {live : List ℕ}
      → Run (fresh_pool adr size total p) n q live
      → adr + n * size < 2 ^ 64
      → Sized adr size total n q live
  unfolding mem_pool_release
  Run-Sized start room = init-Sized
  Run-Sized (allocs {n} {q} {live} r) room =
      let s = Run-Sized r (omega arith) in
      let (free, inv, same) =
        alloc-Inv q s.free s.inv (omega (arith, s.freearea_start, s.chunk_size)) in
      record {
        free = free;
        inv = inv;
        chunk_size = same.0 ∙ s.chunk_size;
        mem_pool = same.1 ∙ s.mem_pool;
        freearea_end = same.2 ∙ s.freearea_end;
        freearea_start = omega (arith, same.3, s.freearea_start, s.chunk_size);
      }
  Run-Sized (releases {q} {c} r k) room =
      let s = Run-Sized r room in
      record {
        free = c ∷ s.free;
        inv = release-Inv q s.free k s.inv;
        chunk_size = s.chunk_size;
        mem_pool = s.mem_pool;
        freearea_end = s.freearea_end;
        freearea_start = s.freearea_start;
      }

  -- After any calls on a fresh pool, with at most `n` allocations and room for them below 2^64, no
  -- two chunks that are handed out share a byte, and each lies inside the mapped region.
  pub live_chunks_disjoint :
      {n : ℕ} {q : Pool} {live : List ℕ}
      → Run (fresh_pool adr size total p) n q live
      → adr + n * size < 2 ^ 64
      → Spaced size live × All (λ a. (adr ≤ a) × (a + size < adr + total)) live
  live_chunks_disjoint {q} {live} r room =
      let s = Run-Sized r room in
      let spaced : Spaced size (s.free ++ live) =
        subst (λ k. Spaced k (s.free ++ live)) s.chunk_size s.inv.spaced in
      (
        Pairs-append_right (Beside size) s.free live spaced,
        All-map (Within q)
            (λ a w.
              (omega (arith, w.0, s.mem_pool), omega (arith, w.2, s.chunk_size, s.freearea_end)))
            live (All-append_right (Within q) s.free live s.inv.within),
      )

-- A released chunk is the next one that is handed out: its `next` and `top` are set up anew, and
-- neither the free list below it, nor the free area, nor another chunk's header is touched.
pub alloc-release :
    (p : Pool) (c : ℕ)
    → c ≢ null
    → let (d, q) = mem_pool_alloc (mem_pool_release c p) in
      (d ≡ c)
      × (q.freelist ≡ p.freelist)
      × (q.freearea_start ≡ p.freearea_start)
      × ((j : ℕ)
          → (q.next j ≡ (if j == c then null else p.next j))
            × (q.top j ≡ (if j == c then (c + data_offset) % 2 ^ 64 else p.top j)))
unfolding mem_pool_release init_chunk
alloc-release p c real =
    rw (alloc-recycled (mem_pool_release c p) c refl real)
      (refl, ground arith, refl, λ j. (ground arith, ground arith))

-- With an empty free list and no wrap, an allocation returns the start of the free area exactly
-- when the chunk ends strictly before the end of the pool, and NULL otherwise; both ways the free
-- area has moved on by one chunk, so that a refused chunk is never offered again.
pub alloc-fresh_iff :
    (p : Pool)
    → p.freelist ≡ null
    → 0 < p.freearea_start
    → p.freearea_start + p.chunk_size < 2 ^ 64
    → (((mem_pool_alloc p).0 ≡ p.freearea_start)
        ↔ (p.freearea_start + p.chunk_size < p.freearea_end))
      × (((mem_pool_alloc p).0 ≡ null) ↔ (p.freearea_end ≤ p.freearea_start + p.chunk_size))
      × ((mem_pool_alloc p).1.freearea_start ≡ p.freearea_start + p.chunk_size)
unfolding init_chunk
alloc-fresh_iff p empty pos room =
    elim (Bool-cases (leb p.freearea_end (p.freearea_start + p.chunk_size))) [
      | inl full ↦ rw (alloc-exhausted p empty room (ground arith)) (
        (λ e. absurd (omega arith), λ h. absurd (ground arith)),
        (λ e. ground arith, λ h. refl),
        refl,
      )
      | inr space ↦ rw (alloc-fresh p empty room (ground arith)) (
        (λ e. ground arith, λ h. refl),
        (λ e. absurd (omega arith), λ h. absurd (ground arith)),
        refl,
      )
    ]
