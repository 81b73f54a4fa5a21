-- ===== src/Lkm/Threads/Tests.antt =====
-- sa_alloc, sa_fork and sa_free on sample processes.
use shadow_stack_llvm.Prelude.{
  true, ℕ, zero, suc, subst, Pick, ◌≤◌, ◌≡◌, refl, [], ◌∷◌, arith, here,
}
use shadow_stack_llvm.Lkm.Errno.{success}
use shadow_stack_llvm.Lkm.Layout.{id_to_addr, ss_start, threads_limit}
use shadow_stack_llvm.Lkm.Memory.{block}
use shadow_stack_llvm.Lkm.Memory.Members.{length-block}
use shadow_stack_llvm.Lkm.Memory.Sample.{
  seen, sample_memory, fresh_store, advance, advance-Live, Distinct-block,
}
use shadow_stack_llvm.Lkm.PageTable.Sample.{sample_tables, no_tables}
use shadow_stack_llvm.Lkm.Xarray.{entry}
use shadow_stack_llvm.Lkm.Xarray.Sample.{sample_array, slot_at}
use shadow_stack_llvm.Lkm.FreeList.Invariant.{IsGl}
use shadow_stack_llvm.Lkm.Threads.{ThreadDesc, Focus, sa_alloc_held, sa_fork_held, sa_free}
use shadow_stack_llvm.Lkm.Threads.Alloc.{AllocResult, sa_alloc_held_lem}
use shadow_stack_llvm.Lkm.Threads.Fork.{IsParent, ForkResult, sa_fork_held_lem}
use shadow_stack_llvm.Lkm.Threads.Free.{Freed, sa_free_lem}

abbrev no_threads : Focus sample_memory sample_tables sample_array
no_threads = record {
  threads = [];
  max_id = 0;
  gl = record { gl_size = 0; gl_sa = [] };
  mem = fresh_store 4096;
  mm = no_tables 8;
}

sa_alloc_held_lem_example :
    AllocResult sample_memory sample_tables sample_array 5 [] no_threads
      (sa_alloc_held sample_memory sample_tables sample_array 5 0 no_threads)
sa_alloc_held_lem_example =
    sa_alloc_held_lem sample_memory sample_tables sample_array 5 0 [] no_threads
      (record { counted = refl; bounded = omega arith; clean = tt; whole = tt; apart = tt })

-- One thread, whose stack is in use.
abbrev the_thread : ThreadDesc
the_thread = record { tid = 5; addr = ss_start; pagelist = block 1 2048 }

abbrev one_thread : Focus sample_memory sample_tables sample_array
one_thread = record {
  threads = entry the_thread ∷ [];
  max_id = 0;
  gl = record { gl_size = 0; gl_sa = [] };
  mem = advance 2048 (fresh_store 4096);
  mm = no_tables 8;
}

one_thread-IsGl :
    IsGl
      (record { gl_size = 0; gl_sa = [] })
      (block 1 2048 ∷ [])
      (seen (advance 2048 (fresh_store 4096)))
one_thread-IsGl = record {
  counted = refl;
  bounded = omega arith;
  clean = tt;
  whole = ((length-block 1 2048, Distinct-block 1 2048, advance-Live 2048 (fresh_store 4096)), tt);
  apart = (tt, tt);
}

sa_free_lem_example :
    let (ret, f') =
      sa_free sample_memory sample_tables sample_array true true (id_to_addr 0) one_thread in
    (ret ≡ success) × Freed sample_memory sample_tables sample_array 0 the_thread [] one_thread f'
sa_free_lem_example =
    sa_free_lem sample_memory sample_tables sample_array 0 one_thread the_thread (omega arith) refl
      here one_thread-IsGl

abbrev no_child : Focus sample_memory sample_tables sample_array
no_child = record {
  threads = [];
  max_id = 0;
  gl = record { gl_size = 0; gl_sa = [] };
  mem = advance 2048 (fresh_store 8192);
  mm = no_tables 8;
}

-- The only thread of the parent.
only :
    (id : ℕ) (d : ThreadDesc)
    → slot_at (entry the_thread ∷ []) id ≡ entry d
    → (id ≤ threads_limit) × (the_thread ≡ d)
only zero d e = (omega arith, cc)
only (suc id) d e = cc

parents :
    IsParent sample_memory sample_tables sample_array (entry the_thread ∷ []) (block 1 2048 ∷ [])
parents = record {
  within = λ id d e. (only id d e).0;
  in_use = λ id d e.
      ([], subst (λ (v : ThreadDesc). Pick v.pagelist (block 1 2048 ∷ []) []) (only id d e).1 here);
}

sa_fork_held_lem_example :
    ForkResult sample_memory sample_tables sample_array 9 5
      (entry the_thread ∷ [])
      (block 1 2048 ∷ [])
      no_child
      (sa_fork_held sample_memory sample_tables sample_array 9 5 (entry the_thread ∷ []) no_child)
sa_fork_held_lem_example =
    sa_fork_held_lem sample_memory sample_tables sample_array 9 5 (entry the_thread ∷ [])
      (block 1 2048 ∷ []) no_child parents
      (record {
        counted = refl;
        bounded = omega arith;
        clean = tt;
        whole = (
          (length-block 1 2048, Distinct-block 1 2048, advance-Live 2048 (fresh_store 8192)),
          tt,
        );
        apart = (tt, tt);
      })
