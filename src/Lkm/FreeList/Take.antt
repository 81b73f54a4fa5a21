-- ===== src/Lkm/FreeList/Take.antt =====
-- gl_alloc_stack of lkm/core/api.c: a stack from the free list, or a new one.
use shadow_stack_llvm.Prelude.{
  ℕ, ◌≡◌, refl, ◌⊎◌, inl, inr, true, List, [], ◌∷◌, arith, length, Bool-cases, Pick-append,
  Pairs-put,
}
use shadow_stack_llvm.Lkm.Errno.{success, fail, enomem}
use shadow_stack_llvm.Lkm.Memory.{Memory, View, Grant}
use shadow_stack_llvm.Lkm.Memory.Same.{Same, one_more, kmalloc-ok, kmalloc-failed, kfree-Same}
use shadow_stack_llvm.Lkm.Pagelist.Alloc.{sa_pagelist_alloc_pages_lem}
use shadow_stack_llvm.Lkm.FreeList.{
  Gl, gfp_zero, stack_pages, new_stack, take_stack, gl_alloc_stack,
}
use shadow_stack_llvm.Lkm.FreeList.Invariant.{
  Clean, Disjoint, Disjoint-symm, IsGl, Whole, Whole-Keeps, All-Keeps, Disjoint-nil, Grant-Keeps,
  Grant-Clean, Grant-Disjoint,
}

abbrev pub two_more : View → View
two_more v = one_more (one_more v)

module _ (m : Memory) where
  open m use {State, view, kmalloc}

  pub new_stack-Grant :
      (s : State)
      → let (ret, stack, s') = new_stack m s in
        ((ret ≡ success)
          × (length stack ≡ stack_pages)
          × Grant true (two_more (view s)) stack (view s'))
        ⊎ ((ret ≡ fail enomem) × Same (view s) (view s'))
  unfolding new_stack
  new_stack-Grant s = elim (Bool-cases (kmalloc s).0) [
    | inr e ↦ rw (e, new_stack) (inr (refl, kmalloc-failed m s e))
    | inl e ↦
        elim (sa_pagelist_alloc_pages_lem m gfp_zero stack_pages (omega arith) (kmalloc s).1) [
          | inl (ok, all, grant) ↦
              rw (e, ok, new_stack) (inl (refl, all, rw (kmalloc-ok m s e) at grant))
          | inr (no_memory, same) ↦
              rw (e, no_memory, new_stack)
                (inr (refl, kfree-Same m _ (rw (kmalloc-ok m s e) at same)))
        ]
  ]

  take_stack_lem :
      (stacks held : List (List ℕ)) (size : ℕ) (s : State)
      → IsGl (record { gl_size = size; gl_sa = stacks }) held (view s)
      → let (ret, stack, gl', s') = take_stack m stacks size s in
        ((ret ≡ success) × Clean (view s') stack × IsGl gl' (stack ∷ held) (view s'))
        ⊎ ((ret ≡ fail enomem)
            × (gl' ≡ record { gl_size = size; gl_sa = stacks })
            × Same (view s) (view s'))
  unfolding take_stack
  take_stack_lem (stack ∷ rest) held size s g = inl (
    refl,
    g.clean.0,
    record {
      counted = omega (arith, g.counted);
      bounded = omega (arith, g.bounded);
      clean = g.clean.1;
      whole = (g.clean.0.0, g.whole);
      apart = Pairs-put Disjoint Disjoint-symm (Pick-append stack rest held) g.apart.0 g.apart.1;
    },
  )
  take_stack_lem [] held size s g = elim (new_stack-Grant s) [
    | inl (ok, all, grant) ↦ rw ok (
        inl (
          refl,
          Grant-Clean grant all,
          record {
            counted = g.counted;
            bounded = g.bounded;
            clean = tt;
            whole = (
              (Grant-Clean grant all).0,
              All-Keeps Whole [] (two_more (view s)) (view (new_stack m s).2) held
                  (λ st d. Whole-Keeps st (Grant-Keeps grant) d) (Disjoint-nil held) g.whole,
            );
            apart = (Grant-Disjoint held grant g.whole, g.apart);
          },
        ))
    | inr (no_memory, same) ↦ rw no_memory (inr (refl, refl, same))
  ]

  -- gl_alloc_stack returns 0 with a stack of SS_SIZE bytes whose pages are allocated, distinct,
  -- zeroed and under no other stack, whether it is recycled or new, and the free list stays in order;
  -- or it returns -ENOMEM, and the list, the pages and the number of objects are as before.
  pub gl_alloc_stack_lem :
      (gl : Gl) (held : List (List ℕ)) (s : State)
      → IsGl gl held (view s)
      → let (ret, stack, gl', s') = gl_alloc_stack m gl s in
        ((ret ≡ success) × Clean (view s') stack × IsGl gl' (stack ∷ held) (view s'))
        ⊎ ((ret ≡ fail enomem) × (gl' ≡ gl) × Same (view s) (view s'))
  unfolding gl_alloc_stack
  gl_alloc_stack_lem gl held s g = take_stack_lem gl.gl_sa held gl.gl_size s g
