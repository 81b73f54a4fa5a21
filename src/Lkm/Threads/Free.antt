-- ===== src/Lkm/Threads/Free.antt =====
-- sa_free of lkm/core/api.c: the stack of a thread goes back, and its number is free again.
use shadow_stack_llvm.Prelude.{
  ℕ, ◌+◌, ◌*◌, ◌<◌, ◌≡◌, refl, subst, ◌∙◌, true, false, arith, none, some, List, ◌==◌,
  if◌then◌else◌, Pick,
}
use shadow_stack_llvm.Lkm.Errno.{success, fail, einval}
use shadow_stack_llvm.Lkm.Layout.{
  ss_start, ss_size, threads_limit, addr_to_id, id_to_addr, is_bad_addr, id_to_addr-linear,
  id_to_addr-layout, is_bad_addr_iff,
}
use shadow_stack_llvm.Lkm.Memory.{Memory}
use shadow_stack_llvm.Lkm.PageTable.{PageTables}
use shadow_stack_llvm.Lkm.Xarray.{Xarray, free, entry, loaded}
use shadow_stack_llvm.Lkm.FreeList.Invariant.{IsGl}
use shadow_stack_llvm.Lkm.FreeList.Release.{gl_free_lem}
use shadow_stack_llvm.Lkm.FreeList.Taken.{GivenBack, gl_free-GivenBack}
use shadow_stack_llvm.Lkm.Mapping.{unmap_range}
use shadow_stack_llvm.Lkm.Threads.{ThreadDesc, Focus, sa_free_held, sa_free}
use shadow_stack_llvm.Lkm.Threads.Alloc.{kfree-IsGl}

module _ (m : Memory) (t : PageTables) (x : Xarray ThreadDesc) where
  open m use {view}
  open t use {pte, pte-flush}
  open x use {slot, xa_erase, xa_erase-loaded, xa_erase-slot}

  -- The thread `id`, which was `d`, is gone and its stack went back; the page table entries are as before.
  pub record Freed (id : ℕ) (d : ThreadDesc) (rest : List (List ℕ)) (f f' : Focus m t x)
      : Type 0 where
    pub threads : (j : ℕ) → slot f'.threads j ≡ (if j == id then free else slot f.threads j)
    pub gl : IsGl f'.gl rest (view f'.mem)
    pub returned : GivenBack d.pagelist f.gl (view f.mem) f'.gl (view f'.mem)
    pub max_id : f'.max_id ≡ f.max_id
    pub still_mapped : (b : ℕ) → pte f'.mm b ≡ pte f.mm b

  -- sa_free behind its guards, of the address of a thread whose stack is in use, returns 0. The number
  -- of the thread is free then and the other threads are as before. The stack has gone to the free
  -- list, its pages zeroed, or, where the list is full, its pages and its two objects are freed; the
  -- object of the thread is freed too. No page table entry has changed.
  pub sa_free_held_lem :
      (addr : ℕ) {held rest : List (List ℕ)} (f : Focus m t x) (d : ThreadDesc)
      → slot f.threads (addr_to_id addr) ≡ entry d
      → Pick d.pagelist held rest
      → IsGl f.gl held (view f.mem)
      → let (ret, f') = sa_free_held m t x addr f in
        (ret ≡ success) × Freed (addr_to_id addr) d rest f f'
  unfolding sa_free_held unmap_range
  sa_free_held_lem addr f d e k g =
      let there : (xa_erase (addr_to_id addr) f.threads).0 ≡ some d =
        xa_erase-loaded (addr_to_id addr) f.threads ∙ rw e in
      rw (there, sa_free_held)
        (
          refl,
          record {
            threads = xa_erase-slot (addr_to_id addr) f.threads;
            gl = kfree-IsGl m t x _ (gl_free_lem m f.gl f.mem k g).0;
            returned = gl_free-GivenBack m f.gl f.mem k g;
            max_id = refl;
            still_mapped = pte-flush _ _ f.mm;
          },
        )

  -- Where no thread has the address, sa_free returns -EINVAL behind its guards, and it touches neither
  -- the free list nor the memory nor the page tables; the number is free afterwards.
  pub sa_free_held-einval :
      (addr : ℕ) (f : Focus m t x)
      → loaded (slot f.threads (addr_to_id addr)) ≡ none
      → let (ret, f') = sa_free_held m t x addr f in
        (ret ≡ fail einval)
        × (f' ≡ record f { threads = f'.threads })
        × ((j : ℕ) → slot f'.threads j ≡ (if j == addr_to_id addr then free else slot f.threads j))
  unfolding sa_free_held
  sa_free_held-einval addr f e =
      let absent : (xa_erase (addr_to_id addr) f.threads).0 ≡ none =
        xa_erase-loaded (addr_to_id addr) f.threads ∙ e in
      rw (absent, sa_free_held) (refl, refl, xa_erase-slot (addr_to_id addr) f.threads)

  -- sa_free of the address of a thread number below the limit, in a process that has an allocator, for
  -- a thread whose stack is in use: it returns 0, and the number is free and the other threads are as
  -- before. The stack is not in use any more: where the free list holds fewer than GL_SA_CAPACITY
  -- stacks it is on top of the list, its pages zeroed; where the list is full, the list stays, and the
  -- pages and the two objects of the stack are freed. The object of the thread is freed too, and the
  -- free list and the other stacks are in order. No page table entry has changed: the stack stays
  -- mapped.
  pub sa_free_lem :
      (id : ℕ) {held rest : List (List ℕ)} (f : Focus m t x) (d : ThreadDesc)
      → id < threads_limit
      → slot f.threads id ≡ entry d
      → Pick d.pagelist held rest
      → IsGl f.gl held (view f.mem)
      → let (ret, f') = sa_free m t x true true (id_to_addr id) f in
        (ret ≡ success) × Freed id d rest f f'
  unfolding sa_free
  sa_free_lem id {rest} f d below e k g =
      let back : addr_to_id (id_to_addr id) ≡ id = (id_to_addr-layout id id below below).2 in
      let lin : id_to_addr id ≡ ss_start + id * ss_size = id_to_addr-linear id (omega arith) in
      let good : is_bad_addr (id_to_addr id) ≡ false =
        (is_bad_addr_iff (id_to_addr id) (omega (arith, lin))).1 (rw back (below, refl)) in
      let r = sa_free_held_lem (id_to_addr id) f d (rw back e) k g in
      rw good (r.0, subst (λ i. Freed i d rest f (sa_free_held m t x (id_to_addr id) f).1) back r.1)
