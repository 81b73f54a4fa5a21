-- ===== src/Lkm/Threads/Alloc.antt =====
-- sa_alloc of lkm/core/api.c: a thread gets a number, a stack and the mapping of the stack.
use shadow_stack_llvm.Prelude.{
  ℕ, ◌+◌, ◌%◌, ◌^◌, ◌≤◌, ◌≡◌, refl, sym, ◌∙◌, ◌⊎◌, inl, inr, true, List, [], ◌∷◌, arith, ◌==◌,
  if◌then◌else◌, length, here, Bool-cases,
}
use shadow_stack_llvm.Lkm.Errno.{Ret, success, failed, Ret-cases}
use shadow_stack_llvm.Lkm.Layout.{ss_size, threads_limit, id_to_addr, id_to_addr-linear}
use shadow_stack_llvm.Lkm.Memory.{Memory, View}
use shadow_stack_llvm.Lkm.Memory.Same.{one_more, Same-refl, kmalloc-ok, kmalloc-failed, kfree-Same}
use shadow_stack_llvm.Lkm.PageTable.{PageTables}
use shadow_stack_llvm.Lkm.Xarray.{Xarray, Slot, free, reserved, entry}
use shadow_stack_llvm.Lkm.FreeList.{Gl, stack_pages}
use shadow_stack_llvm.Lkm.FreeList.Invariant.{Clean, IsGl, Keeps, IsGl-Keeps, Same-Keeps}
use shadow_stack_llvm.Lkm.FreeList.Take.{gl_alloc_stack_lem}
use shadow_stack_llvm.Lkm.FreeList.Release.{gl_free_lem}
use shadow_stack_llvm.Lkm.FreeList.Taken.{Taken, Intact, gl_alloc_stack-Taken, gl_free-Intact}
use shadow_stack_llvm.Lkm.Mapping.Walk.{Mapped, Outcome}
use shadow_stack_llvm.Lkm.Mapping.Levels.{map_range_lem, flush-Outcome}
use shadow_stack_llvm.Lkm.Threads.{
  ThreadDesc, Focus, my_flush_tlb_mm, err_erase, err_thread, err_stack, map_stack, sa_alloc_map,
  sa_alloc_stack, sa_alloc_held,
}

module _ (m : Memory) (t : PageTables) (x : Xarray ThreadDesc) where
  open m use {State, view, kmalloc, kfree, kfree-view}
  open t use {Mm}
  open x use {
    Array, slot, xa_alloc, xa_alloc-ok, xa_alloc-failed, xa_store-slot, xa_erase, xa_erase-slot,
  }

  -- The thread `pid` now has a number that was free, and the stack of that number: its pages are
  -- zeroed, under no other stack, and mapped from the stack's address on.
  pub record Allocated (pid : ℕ) (held : List (List ℕ)) (f : Focus m t x) (addr : ℕ)
      (f' : Focus m t x) : Type 0 where
    pub id : ℕ
    pub stack : List ℕ
    pub within : id ≤ threads_limit
    pub unused : slot f.threads id ≡ free
    pub address : addr ≡ id_to_addr id
    pub threads :
        (j : ℕ)
        → slot f'.threads j ≡ (
            if j == id
            then entry (record { tid = pid; addr = addr; pagelist = stack })
            else slot f.threads j)
    pub gl : IsGl f'.gl (stack ∷ held) (view f'.mem)
    pub clean : Clean (view f'.mem) stack
    pub taken : Taken f.gl (one_more (view f.mem)) stack f'.gl (view f'.mem)
    pub mapped : Mapped t addr stack addr (addr + ss_size) f.mm f'.mm

  -- The threads are as before, the free list is in order, with the same stacks in use, and nothing is
  -- lost.
  pub record Refused (held : List (List ℕ)) (f f' : Focus m t x) : Type 0 where
    pub threads : (j : ℕ) → slot f'.threads j ≡ slot f.threads j
    pub gl : IsGl f'.gl held (view f'.mem)
    pub intact : Intact f.gl (view f.mem) f'.gl (view f'.mem)
    pub max_id : f'.max_id ≡ f.max_id

  kfree-Keeps : {v : View} (s : State) → Keeps [] v (view s) → Keeps [] v (view (kfree s))
  kfree-Keeps s k = rw (kfree-view s) (record { kept = λ q o e. k.kept q o e })

  pub kfree-IsGl :
      {gl : Gl} {held : List (List ℕ)} (s : State)
      → IsGl gl held (view s)
      → IsGl gl held (view (kfree s))
  kfree-IsGl s g = IsGl-Keeps (kfree-Keeps s (record { kept = λ q o e. (e, refl) })) g

  pub kmalloc-IsGl :
      {gl : Gl} {held : List (List ℕ)} (s : State)
      → IsGl gl held (view s)
      → IsGl gl held (view (kmalloc s).1)
  kmalloc-IsGl s g = elim (Bool-cases (kmalloc s).0) [
    | inl e ↦ IsGl-Keeps (rw (kmalloc-ok m s e) (record { kept = λ q o k. (k, refl) })) g
    | inr e ↦ IsGl-Keeps (Same-Keeps (kmalloc-failed m s e)) g
  ]

  -- Erasing the number that was reserved restores the threads.
  erased :
      (id : ℕ) (a b : Array)
      → slot a id ≡ free
      → ((j : ℕ) → slot b j ≡ (if j == id then reserved else slot a j))
      → (j : ℕ) → slot (xa_erase id b).1 j ≡ slot a j
  erased id a b e h j = elim (Bool-cases (j == id)) [
    | inl hit ↦ let same : j ≡ id = ground arith in xa_erase-slot id b j ∙ rw (hit, same) (sym e)
    | inr miss ↦ xa_erase-slot id b j ∙ rw miss (h j ∙ rw miss)
  ]

  pub map_stack-Outcome :
      (id : ℕ) (stack : List ℕ) (f : Focus m t x)
      → id ≤ threads_limit
      → length stack ≡ stack_pages
      → let addr = id_to_addr id in
        let (ret, f') = map_stack m t x addr stack f in
        Outcome t addr stack addr (addr + ss_size) f.mm ret f'.mm
  unfolding map_stack my_flush_tlb_mm
  map_stack-Outcome id stack f h all =
      let lin = id_to_addr-linear id h in
      let fits : (id_to_addr id + ss_size) % 2 ^ 64 ≡ id_to_addr id + ss_size =
        omega (arith, lin) in
      rw fits (
        flush-Outcome t (id_to_addr id) stack (id_to_addr id) (id_to_addr id + ss_size) _ _ f.mm _ _
          (map_range_lem t (id_to_addr id) (id_to_addr id + ss_size) stack f.mm (omega (arith, lin))
            (omega (arith, lin)) (omega arith) (omega (arith, lin)) (omega (arith, all))))

  -- What sa_alloc comes to, from the threads `a` before a number was reserved.
  abbrev pub AllocResult : ℕ → List (List ℕ) → Focus m t x → Ret × ℕ × Focus m t x → Type 0
  AllocResult pid held f r =
      ((r.0 ≡ success) × Allocated pid held f r.1 r.2) ⊎ ((failed r.0 ≡ true) × Refused held f r.2)

  abbrev Reserved : ℕ → Array → Array → Type 0
  Reserved id a b =
      (slot a id ≡ free) × ((j : ℕ) → slot b j ≡ (if j == id then reserved else slot a j))

  sa_alloc_map_lem :
      (pid id : ℕ) (stack : List ℕ) (held : List (List ℕ)) (a : Array) (gl0 : Gl) (mem0 : State)
      (f : Focus m t x)
      → id ≤ threads_limit
      → Reserved id a f.threads
      → IsGl f.gl (stack ∷ held) (view f.mem)
      → Clean (view f.mem) stack
      → IsGl gl0 held (view mem0)
      → Taken gl0 (one_more (view mem0)) stack f.gl (view f.mem)
      → AllocResult pid held
          (record f { threads = a; gl = gl0; mem = mem0 })
          (sa_alloc_map m t x pid id stack f)
  unfolding sa_alloc_map map_stack err_erase err_thread err_stack
  sa_alloc_map_lem pid id stack held a gl0 mem0 f h r g c g0 taken =
      elim (map_stack-Outcome id stack f h c.0.0) [
        | inl (ok, f') ↦ rw ok (
            inl (
              refl,
              record {
                id = id;
                stack = stack;
                within = h;
                unused = r.0;
                address = refl;
                threads = λ j.
                    xa_store-slot id _ f.threads (r.1 id ∙ rw (self id)) j
                    ∙ stored id _ (slot f.threads j) (slot a j) j (r.1 j);
                gl = g;
                clean = c;
                taken = taken;
                mapped = f';
              },
            ))
        | inr (bad, part) ↦ rw bad (
            inr (
              refl,
              record {
                threads = erased id a f.threads r.0 r.1;
                gl = kfree-IsGl _ (gl_free_lem m f.gl f.mem here g).0;
                intact = gl_free-Intact m gl0 f.gl f.mem g0 taken;
                max_id = refl;
              },
            ))
      ]
    where
      self : (i : ℕ) → (i == i) ≡ true
      self i = ground arith

      stored :
          (i : ℕ) (v : ThreadDesc) (p q : Slot ThreadDesc) (j : ℕ)
          → p ≡ (if j == i then reserved else q)
          → (if j == i then entry v else p) ≡ (if j == i then entry v else q)
      stored i v p q j e = ground arith

  sa_alloc_stack_lem :
      (pid id addr : ℕ) (held : List (List ℕ)) (a : Array) (f : Focus m t x)
      → id ≤ threads_limit
      → Reserved id a f.threads
      → IsGl f.gl held (view f.mem)
      → AllocResult pid held (record f { threads = a }) (sa_alloc_stack m t x pid id addr f)
  unfolding sa_alloc_stack err_erase err_thread
  sa_alloc_stack_lem pid id addr held a f h r g =
      let g1 = kmalloc-IsGl f.mem g in
      elim (Bool-cases (kmalloc f.mem).0) [
        | inr none_left ↦ rw none_left (
            inr (
              refl,
              record {
                threads = erased id a f.threads r.0 r.1;
                gl = g1;
                intact = inl (refl, kmalloc-failed m f.mem none_left);
                max_id = refl;
              },
            ))
        | inl thread ↦ elim (gl_alloc_stack_lem m f.gl held (kmalloc f.mem).1 g1) [
          | inr (bad, same_gl, same) ↦
              rw (thread, bad)
                (inr (
                  refl,
                  record {
                    threads = erased id a f.threads r.0 r.1;
                    gl = kfree-IsGl _ (rw same_gl (IsGl-Keeps (Same-Keeps same) g1));
                    intact = inl (same_gl, kfree-Same m _ (rw (kmalloc-ok m f.mem thread) at same));
                    max_id = refl;
                  },
                ))
          | inl (ok, c, g2) ↦
              let taken = gl_alloc_stack-Taken m f.gl held (kmalloc f.mem).1 g1 ok in
              rw (thread, ok)
                (sa_alloc_map_lem pid id _ held a f.gl f.mem _ h r g2 c g
                  (rw (kmalloc-ok m f.mem thread) at taken))
        ]
      ]

  -- sa_alloc with the reference taken either returns 0, and the calling thread has a number that was
  -- free, the stack of that number mapped at the address it is told, and pages that are zeroed and
  -- under no other stack: the first stack of the free list, which has lost no other, or a new one where
  -- the list is empty. Or it fails, and every thread keeps its slot and stack, no number stays reserved,
  -- and nothing is lost: the free list, the pages, their content and the number of objects are as
  -- before, or the list was empty, and the one stack that was newly allocated is on it, zeroed.
  pub sa_alloc_held_lem :
      (pid addr : ℕ) (held : List (List ℕ)) (f : Focus m t x)
      → IsGl f.gl held (view f.mem)
      → AllocResult pid held f (sa_alloc_held m t x pid addr f)
  unfolding sa_alloc_held
  sa_alloc_held_lem pid addr held f g = elim (Ret-cases (xa_alloc 0 threads_limit f.threads).0) [
    | inr (e, bad) ↦ rw bad (
        inr (
          refl,
          record {
            threads = xa_alloc-failed 0 threads_limit f.threads (λ ok. cc);
            gl = g;
            intact = inl (refl, Same-refl _);
            max_id = refl;
          },
        ))
    | inl ok ↦
        let r = xa_alloc-ok 0 threads_limit f.threads ok in
        rw ok (sa_alloc_stack_lem pid _ addr held f.threads _ r.2 (r.0, r.3) g)
  ]
