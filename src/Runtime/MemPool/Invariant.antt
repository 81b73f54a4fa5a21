-- ===== src/Runtime/MemPool/Invariant.antt =====
-- The invariant of the pool of runtime/allocator.c: the free list is a chain of chunks, and the
-- chunks handed out and those on the free list lie side by side in the pool.
use shadow_stack_llvm.Prelude.{
  ℕ, ◌+◌, ◌%◌, ◌^◌, ◌≤◌, ◌<◌, ◌≡◌, refl, ◌≢◌, ◌⊎◌, inl, inr, true, false, List, [], ◌∷◌, ◌++◌,
  arith, update, leb, ◌==◌, if◌then◌else◌, Bool-cases, All, All-map, All-Pick, All-put,
  All-append_left, Pick, Pick-append, Pick-append_left, Pairs, Pairs-Pick, Pairs-put,
}
use shadow_stack_llvm.Runtime.MemPool.{Pool, null, init_chunk, mem_pool_alloc, mem_pool_release}

-- The chunks at `a` and `b`, `size` bytes each, share no byte.
abbrev pub Beside : ℕ → ℕ → ℕ → Type 0
Beside size a b = (a + size ≤ b) ⊎ (b + size ≤ a)

abbrev pub Spaced : ℕ → List ℕ → Type 0
Spaced size = Pairs (Beside size)

-- From `p` the `next` fields lead through the chunks of the list to NULL.
abbrev pub Chain : (ℕ → ℕ) → ℕ → List ℕ → Type 0
Chain next p [] = p ≡ null
Chain next p (x ∷ xs) = (p ≡ x) × (x ≢ null) × Chain next (next x) xs

-- The chunk at `a` lies between the start of the pool and the end of the part used so far.
abbrev pub Within : Pool → ℕ → Type 0
Within p a =
    (p.mem_pool ≤ a) × (a + p.chunk_size ≤ p.freearea_start) × (a + p.chunk_size < p.freearea_end)

-- `free` are the chunks on the free list, `live` those that are handed out.
pub record Inv (p : Pool) (free live : List ℕ) : Type 0 where
  pub sized : 0 < p.chunk_size
  pub ne_null : p.mem_pool ≢ null
  pub above : p.mem_pool ≤ p.freearea_start
  pub chain : Chain p.next p.freelist free
  pub spaced : Spaced p.chunk_size (free ++ live)
  pub within : All (Within p) (free ++ live)

Beside-symm : (size a b : ℕ) → Beside size a b → Beside size b a
Beside-symm size a b h = ground arith

-- Another chunk's header does not matter to a chain.
Chain-update :
    (next : ℕ → ℕ) (c v size q : ℕ) (xs : List ℕ)
    → 0 < size
    → All (Beside size c) xs
    → Chain next q xs
    → Chain (update next c v) q xs
Chain-update next c v size q [] h b k = k
Chain-update next c v size q (x ∷ xs) h b k =
    let other : (x == c) ≡ false = ground arith in
    (k.0, k.1, rw other (Chain-update next c v size (next x) xs h b.1 k.2))

-- A run of mem_pool_release: the released chunk goes in front of the free list.
pub release-Inv :
    (p : Pool) {c : ℕ} (free : List ℕ) {live rest : List ℕ}
    → Pick c live rest
    → Inv p free live
    → Inv (mem_pool_release c p) (c ∷ free) rest
unfolding mem_pool_release
release-Inv p {c} free {live} {rest} k v =
    let k' = Pick-append_left c free k in
    let s = Pairs-Pick (Beside p.chunk_size) (Beside-symm p.chunk_size) k' v.spaced in
    let w = All-Pick (Within p) k' v.within in
    let self : (c == c) ≡ true = ground arith in
    let outside = All-append_left (Beside p.chunk_size c) free rest s.0 in
    record {
      sized = v.sized;
      ne_null = v.ne_null;
      above = v.above;
      chain = (
        refl,
        (λ e. v.ne_null (omega (arith, w.0.0))),
        rw self
            (Chain-update p.next c p.freelist p.chunk_size p.freelist free v.sized outside v.chain),
      );
      spaced = s;
      within = w;
    }

-- The pool once the head `c` of its free list is taken.
abbrev pub taken : ℕ → Pool → Pool
taken c p = init_chunk c (record p { freelist = p.next c })

-- Taking the head of the free list hands it out.
taken-Inv :
    (p : Pool) {c : ℕ} (free : List ℕ) {live : List ℕ}
    → Inv p (c ∷ free) live
    → Inv (taken c p) free (c ∷ live)
unfolding init_chunk
taken-Inv p {c} free {live} v =
    let k = Pick-append c free live in
    let outside = All-append_left (Beside p.chunk_size c) free live v.spaced.0 in
    record {
      sized = v.sized;
      ne_null = v.ne_null;
      above = v.above;
      chain = Chain-update p.next c null p.chunk_size (p.next c) free v.sized outside v.chain.2;
      spaced = Pairs-put (Beside p.chunk_size) (Beside-symm p.chunk_size) k v.spaced.0 v.spaced.1;
      within = All-put (Within p) k v.within.0 v.within.1;
    }

-- The state after a bump that does not wrap.
abbrev pub bumped : Pool → Pool
bumped p = record p { freearea_start = p.freearea_start + p.chunk_size }

module _ (p : Pool) (empty : p.freelist ≡ null)
    (room : p.freearea_start + p.chunk_size < 2 ^ 64) where
  pub alloc-exhausted :
      p.freearea_end ≤ p.freearea_start + p.chunk_size → mem_pool_alloc p ≡ (null, bumped p)
  unfolding mem_pool_alloc
  alloc-exhausted full =
      let fits : (p.freearea_start + p.chunk_size) % 2 ^ 64 ≡ p.freearea_start + p.chunk_size =
        omega arith in
      let test : leb p.freearea_end (p.freearea_start + p.chunk_size) ≡ true = ground arith in
      let none_free : (p.freelist == null) ≡ true = ground arith in rw (none_free, fits, test)

  pub alloc-fresh :
      p.freearea_start + p.chunk_size < p.freearea_end
      → mem_pool_alloc p ≡ (p.freearea_start, init_chunk p.freearea_start (bumped p))
  unfolding mem_pool_alloc
  alloc-fresh space =
      let fits : (p.freearea_start + p.chunk_size) % 2 ^ 64 ≡ p.freearea_start + p.chunk_size =
        omega arith in
      let test : leb p.freearea_end (p.freearea_start + p.chunk_size) ≡ false = ground arith in
      let none_free : (p.freelist == null) ≡ true = ground arith in rw (none_free, fits, test)

pub alloc-recycled :
    (p : Pool) (c : ℕ) → p.freelist ≡ c → c ≢ null → mem_pool_alloc p ≡ (c, taken c p)
unfolding mem_pool_alloc
alloc-recycled p c e full =
    let some_free : (c == null) ≡ false = ground arith in rw (e, some_free, some_free)

-- A fresh chunk lies behind all the others.
fresh-Inv :
    (p : Pool) {live : List ℕ}
    → Inv p [] live
    → p.freearea_start + p.chunk_size < p.freearea_end
    → Inv (init_chunk p.freearea_start (bumped p)) [] (p.freearea_start ∷ live)
unfolding init_chunk
fresh-Inv p {live} v space = record {
  sized = v.sized;
  ne_null = v.ne_null;
  above = omega (arith, v.above);
  chain = v.chain;
  spaced = (All-map (Within p) (λ a w. inr w.1) live v.within, v.spaced);
  within = (
    (v.above, omega arith, space),
    All-map (Within p) (λ a w. (w.0, omega (arith, w.1), w.2)) live v.within,
  );
}

exhausted-Inv : (p : Pool) {live : List ℕ} → Inv p [] live → Inv (bumped p) [] live
exhausted-Inv p {live} v = record {
  sized = v.sized;
  ne_null = v.ne_null;
  above = omega (arith, v.above);
  chain = v.chain;
  spaced = v.spaced;
  within = All-map (Within p) (λ a w. (w.0, omega (arith, w.1), w.2)) live v.within;
}

-- `live` with the chunk that an allocation returned, unless it is NULL.
abbrev pub grown : ℕ → List ℕ → List ℕ
grown c live = if c == null then live else c ∷ live

-- The fields that no call changes, and how far an allocation moves the free area.
abbrev pub Stays : Pool → Pool → Type 0
Stays p q =
    (q.chunk_size ≡ p.chunk_size)
    × (q.mem_pool ≡ p.mem_pool)
    × (q.freearea_end ≡ p.freearea_end)
    × (q.freearea_start ≤ p.freearea_start + p.chunk_size)

-- Every allocation keeps the invariant.
pub alloc-Inv :
    (p : Pool) (free : List ℕ) {live : List ℕ}
    → Inv p free live
    → p.freearea_start + p.chunk_size < 2 ^ 64
    → let (c, q) = mem_pool_alloc p in (free' : List ℕ) × Inv q free' (grown c live) × Stays p q
unfolding init_chunk
alloc-Inv p [] {live} v room =
    elim (Bool-cases (leb p.freearea_end (p.freearea_start + p.chunk_size))) [
      | inl full ↦
          rw (alloc-exhausted p v.chain room (ground arith))
            ([], exhausted-Inv p v, (refl, refl, refl, omega arith))
      | inr space ↦
          let fits : p.freearea_start + p.chunk_size < p.freearea_end = ground arith in
          let real : (p.freearea_start == null) ≡ false = ground (arith, v.above, v.ne_null) in
          rw (alloc-fresh p v.chain room fits, real)
            ([], fresh-Inv p v fits, (refl, refl, refl, omega arith))
    ]
alloc-Inv p (c ∷ free) {live} v room =
    let real : (c == null) ≡ false = ground (arith, v.chain.1) in
    rw (alloc-recycled p c v.chain.0 v.chain.1, real)
      (free, taken-Inv p free v, (refl, refl, refl, omega arith))
