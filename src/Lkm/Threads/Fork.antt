-- ===== src/Lkm/Threads/Fork.antt =====
-- sa_fork of lkm/core/api.c: the child's thread gets a copy of its parent's stack, at the same address.
use shadow_stack_llvm.Prelude.{
  ℕ, ◌+◌, ◌≤◌, ◌≡◌, refl, sym, ◌∙◌, ◌⊎◌, inl, inr, true, List, ◌∷◌, arith, ◌==◌, if◌then◌else◌,
  here, Pick, Bool-cases,
}
use shadow_stack_llvm.Lkm.Errno.{Ret, success, failed, Ret-cases}
use shadow_stack_llvm.Lkm.Layout.{ss_size, threads_limit, id_to_addr}
use shadow_stack_llvm.Lkm.Memory.{Memory}
use shadow_stack_llvm.Lkm.Memory.Same.{one_more, kmalloc-ok, kmalloc-failed, kfree-Same}
use shadow_stack_llvm.Lkm.PageTable.{PageTables}
use shadow_stack_llvm.Lkm.Xarray.{Xarray, free, entry}
use shadow_stack_llvm.Lkm.FreeList.{Gl}
use shadow_stack_llvm.Lkm.FreeList.Invariant.{IsGl, IsGl-Keeps, Same-Keeps}
use shadow_stack_llvm.Lkm.FreeList.Take.{gl_alloc_stack_lem}
use shadow_stack_llvm.Lkm.FreeList.Release.{gl_free_lem}
use shadow_stack_llvm.Lkm.FreeList.Taken.{Taken, Taken-Off, gl_alloc_stack-Taken, gl_free-Intact}
use shadow_stack_llvm.Lkm.Mapping.Walk.{Mapped}
use shadow_stack_llvm.Lkm.Threads.{
  ThreadDesc, Focus, err_erase, err_thread, err_stack, map_stack, sa_fork_map, sa_fork_stack,
  sa_fork_held,
}
use shadow_stack_llvm.Lkm.Threads.Alloc.{Refused, kfree-IsGl, kmalloc-IsGl, map_stack-Outcome}
use shadow_stack_llvm.Lkm.Threads.Copy.{
  Copied, copy_pages-Off, copy_pages-IsGl, stack-Copied, find_thread-cases,
}

module _ (m : Memory) (t : PageTables) (x : Xarray ThreadDesc) where
  open m use {State, view, kmalloc}
  open x use {
    Array, slot, entries, entries-sound, xa_insert, xa_insert-ok, xa_insert-failed, xa_erase,
    xa_erase-slot,
  }

  -- The thread `pid` has the number that the thread `parent_pid` has among the parent's, and a stack
  -- of its own that holds what the parent's holds, mapped at the address of the number.
  pub record Forked (pid parent_pid : ℕ) (parent : Array) (held : List (List ℕ))
      (f f' : Focus m t x) : Type 0 where
    pub id : ℕ
    pub old : ThreadDesc
    pub stack : List ℕ
    pub found : slot parent id ≡ entry old
    pub of_parent : old.tid ≡ parent_pid
    pub unused : slot f.threads id ≡ free
    pub threads :
        (j : ℕ)
        → slot f'.threads j ≡ (
            if j == id
            then entry (record { tid = pid; addr = id_to_addr id; pagelist = stack })
            else slot f.threads j)
    pub gl : IsGl f'.gl (stack ∷ held) (view f'.mem)
    pub taken : Taken f.gl (one_more (view f.mem)) stack f'.gl (view f'.mem)
    pub copied : Copied (view f'.mem) (view f'.mem) stack old.pagelist
    pub mapped : Mapped t (id_to_addr id) stack (id_to_addr id) (id_to_addr id + ss_size) f.mm f'.mm

  abbrev pub ForkResult : ℕ → ℕ → Array → List (List ℕ) → Focus m t x → Ret × Focus m t x → Type 0
  ForkResult pid parent_pid parent held f r =
      ((r.0 ≡ success) × Forked pid parent_pid parent held f r.1)
      ⊎ ((failed r.0 ≡ true) × Refused m t x held f r.1)

  -- The parent's threads have numbers up to the limit, and their stacks are in use.
  pub record IsParent (parent : Array) (held : List (List ℕ)) : Type 0 where
    pub within : (id : ℕ) (d : ThreadDesc) → slot parent id ≡ entry d → id ≤ threads_limit
    pub in_use :
        (id : ℕ) (d : ThreadDesc)
        → slot parent id ≡ entry d
        → (rest : List (List ℕ)) × Pick d.pagelist held rest

  -- Erasing what was inserted restores the threads.
  erased :
      (id : ℕ) (v : ThreadDesc) (a b : Array)
      → slot a id ≡ free
      → ((j : ℕ) → slot b j ≡ (if j == id then entry v else slot a j))
      → (j : ℕ) → slot (xa_erase id b).1 j ≡ slot a j
  erased id v a b e h j = elim (Bool-cases (j == id)) [
    | inl hit ↦ let same : j ≡ id = ground arith in xa_erase-slot id b j ∙ rw (hit, same) (sym e)
    | inr miss ↦ xa_erase-slot id b j ∙ rw miss (h j ∙ rw miss)
  ]

  sa_fork_map_lem :
      (pid parent_pid : ℕ) (parent : Array) (id : ℕ) (old : ThreadDesc) (stack : List ℕ)
      (held : List (List ℕ)) (gl0 : Gl) (mem0 : State) (f : Focus m t x)
      → id ≤ threads_limit
      → slot parent id ≡ entry old
      → old.tid ≡ parent_pid
      → IsGl f.gl (stack ∷ held) (view f.mem)
      → Copied (view f.mem) (view f.mem) stack old.pagelist
      → IsGl gl0 held (view mem0)
      → Taken gl0 (one_more (view mem0)) stack f.gl (view f.mem)
      → ForkResult pid parent_pid parent held
          (record f { gl = gl0; mem = mem0 })
          (sa_fork_map m t x pid id stack f)
  unfolding sa_fork_map map_stack err_erase err_thread err_stack
  sa_fork_map_lem pid parent_pid parent id old stack held gl0 mem0 f h found tid g c g0 taken =
      let thread : ThreadDesc = record { tid = pid; addr = id_to_addr id; pagelist = stack } in
      let back = kfree-IsGl m t x _ (gl_free_lem m f.gl f.mem here g).0 in
      let intact = gl_free-Intact m gl0 f.gl f.mem g0 taken in
      elim (Ret-cases (xa_insert id thread f.threads).0) [
        | inr (e, bad) ↦ rw bad (
            inr (
              refl,
              record {
                threads = xa_insert-failed id thread f.threads (λ ok. cc);
                gl = back;
                intact = intact;
                max_id = refl;
              },
            ))
        | inl ok ↦
            let r = xa_insert-ok id thread f.threads ok in
            let f1 = record f { threads = (xa_insert id thread f.threads).1 } in
            elim (map_stack-Outcome m t x id stack f1 h g.whole.0.0) [
              | inl (done, all) ↦
                  rw (ok, done)
                    (inl (
                      refl,
                      record {
                        id = id;
                        old = old;
                        stack = stack;
                        found = found;
                        of_parent = tid;
                        unused = r.0;
                        threads = r.1;
                        gl = g;
                        taken = taken;
                        copied = c;
                        mapped = all;
                      },
                    ))
              | inr (bad, part) ↦
                  rw (ok, bad)
                    (inr (
                      refl,
                      record {
                        threads = erased id thread f.threads _ r.0 r.1;
                        gl = back;
                        intact = intact;
                        max_id = refl;
                      },
                    ))
            ]
      ]

  sa_fork_stack_lem :
      (pid parent_pid : ℕ) (parent : Array) (stack : List ℕ) (held : List (List ℕ)) (gl0 : Gl)
      (mem0 : State) (f : Focus m t x)
      → IsParent parent held
      → IsGl f.gl (stack ∷ held) (view f.mem)
      → IsGl gl0 held (view mem0)
      → Taken gl0 (one_more (view mem0)) stack f.gl (view f.mem)
      → ForkResult pid parent_pid parent held
          (record f { gl = gl0; mem = mem0 })
          (sa_fork_stack m t x pid parent_pid parent stack f)
  unfolding sa_fork_stack err_stack err_thread
  sa_fork_stack_lem pid parent_pid parent stack held gl0 mem0 f p g g0 taken =
      elim (find_thread-cases m t x _ parent_pid (entries parent) (entries-sound parent)) [
        | inl absent ↦
            rw (absent, sa_fork_stack)
              (inr (
                refl,
                record {
                  threads = λ j. refl;
                  gl = kfree-IsGl m t x _ (gl_free_lem m f.gl f.mem here g).0;
                  intact = gl_free-Intact m gl0 f.gl f.mem g0 taken;
                  max_id = refl;
                },
              ))
        | inr (e, hit, found, tid) ↦
            let k = (p.in_use e.0 e.1 found).1 in
            rw (hit, sa_fork_stack)
              (sa_fork_map_lem pid parent_pid parent e.0 e.1 stack held gl0 mem0 _
                (p.within e.0 e.1 found) found tid (copy_pages-IsGl m t x f.gl f.mem k g)
                (stack-Copied m t x f.gl f.mem k g) g0
                (Taken-Off taken (copy_pages-Off m t x stack e.1.pagelist f.mem)))
      ]

  -- sa_fork with the reference taken, for a parent whose threads have numbers up to the limit and
  -- stacks in use, either returns 0: the child's thread has the number of the parent's thread, which
  -- was free, and a stack of its own with the same content, mapped at the address of that number: the
  -- first stack of the free list, which has lost no other, or a new one where the list was empty. Or it
  -- fails, every thread keeps its slot and stack, and nothing is lost: the free list, the pages, their
  -- content and the number of objects are as before, or the list was empty, and the one stack that was
  -- newly allocated is on it, zeroed.
  pub sa_fork_held_lem :
      (pid parent_pid : ℕ) (parent : Array) (held : List (List ℕ)) (f : Focus m t x)
      → IsParent parent held
      → IsGl f.gl held (view f.mem)
      → ForkResult pid parent_pid parent held f (sa_fork_held m t x pid parent_pid parent f)
  unfolding sa_fork_held err_thread
  sa_fork_held_lem pid parent_pid parent held f p g =
      let g1 = kmalloc-IsGl m t x f.mem g in
      elim (Bool-cases (kmalloc f.mem).0) [
        | inr none_left ↦ rw none_left (
            inr (
              refl,
              record {
                threads = λ j. refl;
                gl = g1;
                intact = inl (refl, kmalloc-failed m f.mem none_left);
                max_id = refl;
              },
            ))
        | inl thread ↦ elim (gl_alloc_stack_lem m f.gl held (kmalloc f.mem).1 g1) [
          | inr (bad, same_gl, same) ↦
              rw (thread, bad)
                (inr (
                  refl,
                  record {
                    threads = λ j. refl;
                    gl = kfree-IsGl m t x _ (rw same_gl (IsGl-Keeps (Same-Keeps same) g1));
                    intact = inl (same_gl, kfree-Same m _ (rw (kmalloc-ok m f.mem thread) at same));
                    max_id = refl;
                  },
                ))
          | inl (ok, c, g2) ↦
              let taken = gl_alloc_stack-Taken m f.gl held (kmalloc f.mem).1 g1 ok in
              rw (thread, ok)
                (sa_fork_stack_lem pid parent_pid parent _ held f.gl f.mem _ p g2 g
                  (rw (kmalloc-ok m f.mem thread) at taken))
        ]
      ]
