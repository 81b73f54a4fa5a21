-- ===== src/Lkm/System/Tests.antt =====
-- The module with sample processes.
use shadow_stack_llvm.Prelude.{
  ℕ, zero, suc, ◌+◌, ◌<◌, ◌≡◌, refl, sym, ap, ◌∙◌, ◌≤◌, Option, none, some, List, [], ◌∷◌, true,
  false, arith, All, here, there, Pick,
}
use shadow_stack_llvm.Lkm.Errno.{Ret, fail, einval}
use shadow_stack_llvm.Lkm.Layout.{threads_limit, ss_start, is_bad_addr}
use shadow_stack_llvm.Lkm.Memory.{block, is_mem}
use shadow_stack_llvm.Lkm.Memory.Members.{length-block, All-of_mem}
use shadow_stack_llvm.Lkm.Memory.Sample.{
  Store, seen, sample_memory, fresh_store, advance, Distinct-block, All-block, is_mem-block,
}
use shadow_stack_llvm.Lkm.PageTable.Sample.{sample_tables, no_tables}
use shadow_stack_llvm.Lkm.Xarray.{Slot, entry}
use shadow_stack_llvm.Lkm.Xarray.Sample.{sample_array, slot_at}
use shadow_stack_llvm.Lkm.FreeList.Invariant.{IsGl, Disjoint}
use shadow_stack_llvm.Lkm.Threads.{ThreadDesc}
use shadow_stack_llvm.Lkm.System.{
  Desc, System, alloc_find, alloc_create, alloc_destroy, alloc_put, process_alloc, process_free,
}
use shadow_stack_llvm.Lkm.System.Keys.{Stacks}
use shadow_stack_llvm.Lkm.System.Invariant.{none_held, points}
use shadow_stack_llvm.Lkm.System.View.{thread_map}
use shadow_stack_llvm.Lkm.System.Spec.{allocates, Spec}
use shadow_stack_llvm.Lkm.System.Calls.{Sound}
use shadow_stack_llvm.Lkm.System.Reach.{
  create, sa_alloc, Reach-Spec, Reach, stay, next, Fresh, Reach-references, Reach-alloc_find,
  Reach-stacks_apart,
}

abbrev TheDesc : Type 0
TheDesc = Desc sample_memory sample_tables sample_array sample_array

abbrev TheSystem : Type 0
TheSystem = System sample_memory sample_tables sample_array sample_array

abbrev TheReach : TheSystem → TheSystem → Type 0
TheReach = Reach sample_memory sample_tables sample_array sample_array

-- No process has an allocator.
abbrev no_allocators : TheSystem
no_allocators = record {
  sa_allocators = [];
  desc = λ p. none;
  gl = record { gl_size = 0; gl_sa = [] };
  mem = fresh_store 4096;
  mms = λ tgid. no_tables 8;
}

no_allocators-Fresh : Fresh sample_memory sample_tables sample_array sample_array no_allocators
no_allocators-Fresh = record {
  no_entries = λ tgid. refl;
  no_desc = λ p. refl;
  gl = record { counted = refl; bounded = omega arith; clean = tt; whole = tt; apart = tt };
}

-- Process 2 has an allocator at 3.
abbrev allocator : TheDesc
allocator = record { tgid = 2; threads = []; max_id = 0; kref = 1 }

abbrev one_allocator : TheSystem
one_allocator =
    (alloc_create sample_memory sample_tables sample_array sample_array (some 3) [] 2
      no_allocators).1

to_one : TheReach no_allocators one_allocator
to_one = next stay (create 2 3 [] no_allocators refl (λ j. refl) refl)

there_3 : one_allocator.desc 3 ≡ some allocator
unfolding alloc_create
there_3 = refl

found_3 : alloc_find sample_memory sample_tables sample_array sample_array 2 one_allocator ≡ some 3
unfolding alloc_create alloc_find
found_3 = refl

Reach-references_example : (1 ≡ points (slot_at one_allocator.sa_allocators 2) 3 + 0) × (0 < 1)
Reach-references_example =
    Reach-references sample_memory sample_tables sample_array sample_array 3 allocator
      no_allocators-Fresh to_one there_3

Reach-alloc_find_example :
    (d : TheDesc) × (one_allocator.desc 3 ≡ some d) × (d.tgid ≡ 2) × (0 < d.kref)
Reach-alloc_find_example =
    Reach-alloc_find sample_memory sample_tables sample_array sample_array 2 3 no_allocators-Fresh
      to_one found_3

-- The thread 7 of process 2 asks for a stack.
abbrev first_stack : Ret × ℕ × TheSystem
first_stack =
    process_alloc sample_memory sample_tables sample_array sample_array 2 7 0 one_allocator

Reach-Spec_example :
    let map = thread_map sample_memory sample_tables sample_array sample_array in
    ((q j : ℕ) → map no_allocators q j ≡ none)
    × Spec
        (allocates
          (alloc_find sample_memory sample_tables sample_array sample_array 2 one_allocator)
          7
          first_stack.0)
        (map one_allocator)
        (map first_stack.2)
Reach-Spec_example =
    Reach-Spec sample_memory sample_tables sample_array sample_array no_allocators-Fresh to_one
      (sa_alloc 2 7 0 one_allocator)

-- Two processes, with a thread each.
abbrev thread : List ℕ → ThreadDesc
thread stack = record { tid = 5; addr = ss_start; pagelist = stack }

abbrev holder : ℕ → List ℕ → TheDesc
holder tgid stack = record {
  tgid = tgid;
  threads = entry (thread stack) ∷ [];
  max_id = 0;
  kref = 2;
}

the_slot :
    (w : ThreadDesc) (i : ℕ) (v : ThreadDesc)
    → slot_at (entry w ∷ []) i ≡ entry v
    → (i ≡ 0) × (w ≡ v)
the_slot w zero v e = (refl, cc)
the_slot w (suc i) v e = cc

module _ (a b : List ℕ) where
  abbrev two_desc : ℕ → Option TheDesc
  two_desc zero = some (holder 0 a)
  two_desc (suc zero) = some (holder 1 b)
  two_desc (suc (suc n)) = none

  abbrev two_held : Stacks
  two_held = ((0, 0), a) ∷ ((1, 0), b) ∷ []

  abbrev two_table : List (Slot ℕ)
  two_table = entry 0 ∷ entry 1 ∷ []

  one_owned :
      (p : ℕ) (stack : List ℕ) (rest : Stacks) (d : TheDesc) (i : ℕ) (v : ThreadDesc)
      → Pick ((p, 0), stack) two_held rest
      → some (holder p stack) ≡ some d
      → slot_at d.threads i ≡ entry v
      → (i ≤ threads_limit) × ((rest : Stacks) × Pick ((p, i), v.pagelist) two_held rest)
  one_owned p stack rest d i v k e h =
      let eq : holder p stack ≡ d = cc in
      let (at_0, same) =
        the_slot (thread stack) i v (ap (λ (y : TheDesc). slot_at y.threads i) eq ∙ h) in
      rw (at_0, sym same) (omega arith, (rest, k))

  two_owned :
      (p : ℕ) (d : TheDesc) (i : ℕ) (v : ThreadDesc)
      → two_desc p ≡ some d
      → slot_at d.threads i ≡ entry v
      → (i ≤ threads_limit) × ((rest : Stacks) × Pick ((p, i), v.pagelist) two_held rest)
  two_owned zero d i v e h = one_owned 0 a _ d i v here e h
  two_owned (suc zero) d i v e h = one_owned 1 b _ d i v (there here) e h
  two_owned (suc (suc n)) d i v e h = cc

  two_listed :
      (tgid p : ℕ)
      → slot_at two_table tgid ≡ entry p
      → (d : TheDesc) × (two_desc p ≡ some d) × (d.tgid ≡ tgid)
  two_listed zero p e = let eq : 0 ≡ p = cc in rw (sym eq) (holder 0 a, refl, refl)
  two_listed (suc zero) p e = let eq : 1 ≡ p = cc in rw (sym eq) (holder 1 b, refl, refl)
  two_listed (suc (suc n)) p e = cc

  two_counted :
      (p : ℕ) (d : TheDesc)
      → two_desc p ≡ some d
      → (d.kref ≡ points (slot_at two_table d.tgid) p + sample_array.size d.threads + none_held p)
        × (0 < d.kref)
  two_counted zero d e = let eq : holder 0 a ≡ d = cc in rw (sym eq) (refl, omega arith)
  two_counted (suc zero) d e = let eq : holder 1 b ≡ d = cc in rw (sym eq) (refl, omega arith)
  two_counted (suc (suc n)) d e = cc

  abbrev two_processes : Store → TheSystem
  two_processes store = record {
    sa_allocators = two_table;
    desc = two_desc;
    gl = record { gl_size = 0; gl_sa = [] };
    mem = store;
    mms = λ tgid. no_tables 8;
  }

  two_processes-Sound :
      (store : Store)
      → IsGl (record { gl_size = 0; gl_sa = [] }) (a ∷ b ∷ []) (seen store)
      → Sound sample_memory sample_tables sample_array sample_array (two_processes store)
  two_processes-Sound store g = (
    two_held,
    record {
      table = two_listed;
      counted = λ p d e. (two_counted p d e).0;
      alive = λ p d e. (two_counted p d e).1;
      gl = g;
      owned = two_owned;
    },
  )

  -- Process 2 gets an allocator at 5.
  abbrev third : Store → TheSystem
  third store =
      (alloc_create sample_memory sample_tables sample_array sample_array (some 5) [] 2
        (two_processes store)).1

  to_third : (store : Store) → TheReach (two_processes store) (third store)
  to_third store = next stay (create 2 5 [] (two_processes store) refl (λ j. refl) refl)

  still_there :
      (store : Store)
      → ((third store).desc 0 ≡ some (holder 0 a)) × ((third store).desc 1 ≡ some (holder 1 b))
  unfolding alloc_create
  still_there store = (refl, refl)

block_live :
    (first n k : ℕ)
    → first + n ≤ k + 1
    → All (λ p. (seen (advance k (fresh_store 8192))).live p ≡ true) (block first n)
block_live first n k h =
    All-of_mem (λ p. (seen (advance k (fresh_store 8192))).live p ≡ true) (block first n)
      (λ q i. ground (arith, is_mem-block q first n))

blocks_apart : (c n e k : ℕ) → c + n ≤ e → Disjoint (block c n) (block e k)
blocks_apart c n e k h =
    All-block (λ q. is_mem q (block c n) ≡ false) e k (λ q l. ground (arith, is_mem-block q c n))

two_stacks-IsGl :
    IsGl
      (record { gl_size = 0; gl_sa = [] })
      (block 1 2048 ∷ block 2049 2048 ∷ [])
      (seen (advance 4096 (fresh_store 8192)))
two_stacks-IsGl = record {
  counted = refl;
  bounded = omega arith;
  clean = tt;
  whole = (
    (length-block 1 2048, Distinct-block 1 2048, block_live 1 2048 4096 (omega arith)),
    (
      (length-block 2049 2048, Distinct-block 2049 2048, block_live 2049 2048 4096 (omega arith)),
      tt,
    ),
  );
  apart = ((blocks_apart 1 2048 2049 2048 (omega arith), tt), (tt, tt));
}

Reach-stacks_apart_example : Disjoint (block 1 2048) (block 2049 2048)
Reach-stacks_apart_example =
    Reach-stacks_apart sample_memory sample_tables sample_array sample_array 0 1 0 0
      (holder 0 (block 1 2048)) (holder 1 (block 2049 2048)) (thread (block 1 2048))
      (thread (block 2049 2048))
      (two_processes-Sound (block 1 2048) (block 2049 2048) (advance 4096 (fresh_store 8192))
        two_stacks-IsGl)
      (to_third (block 1 2048) (block 2049 2048) (advance 4096 (fresh_store 8192)))
      (λ e. let clash : 0 ≡ 1 = ap (λ (k : ℕ × ℕ). k.0) e in cc)
      (still_there (block 1 2048) (block 2049 2048) (advance 4096 (fresh_store 8192))).0
      (still_there (block 1 2048) (block 2049 2048) (advance 4096 (fresh_store 8192))).1 refl refl

-- Process 0 loses its allocator while its thread has a stack: the descriptor stays with the reference
-- of the thread, and sa_free does not find it.
destroyed :
    (a b : List ℕ) (store : Store)
    → let s =
        alloc_destroy sample_memory sample_tables sample_array sample_array
          (some 0)
          (two_processes a b store) in
      let (ret, s') =
        process_free sample_memory sample_tables sample_array sample_array 0 ss_start s in
      (ret ≡ fail einval) × (s'.desc 0 ≡ some (record (holder 0 a) { kref = 1 }))
unfolding alloc_destroy alloc_put process_free alloc_find is_bad_addr
destroyed a b store = (refl, refl)
