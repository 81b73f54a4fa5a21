-- ===== src/Lkm/FreeList/Release.antt =====
-- gl_free and vma_free of lkm/core/api.c: stacks go back to the free list, or to the kernel.
use shadow_stack_llvm.Prelude.{
  ℕ, ◌+◌, ◌-◌, ◌<◌, ◌≡◌, refl, ◌∙◌, ◌⊎◌, inl, inr, true, false, List, [], ◌∷◌, ◌++◌, arith, leb,
  if◌then◌else◌, All, All-map, All-append_left, All-append_right, All-Pick, Bool-cases, Pick,
  Pick-append_left, Pairs, Pairs-Pick,
}
use shadow_stack_llvm.Lkm.Errno.{success}
use shadow_stack_llvm.Lkm.Memory.{Memory, View, is_mem}
use shadow_stack_llvm.Lkm.Pagelist.{free_pages, sa_pagelist_free_pages, sa_pagelist_free}
use shadow_stack_llvm.Lkm.Memory.Members.{All-of_mem}
use shadow_stack_llvm.Lkm.Pagelist.Grant.{live-free_pages, content-free_pages}
use shadow_stack_llvm.Lkm.FreeList.{
  Gl, gl_sa_capacity, clear_pages, gl_alloc_stack, gl_free, take_stack,
}
use shadow_stack_llvm.Lkm.FreeList.Invariant.{
  Whole, Clean, Disjoint, Disjoint-symm, IsGl, Keeps, Whole-Keeps, Clean-Keeps, All-Keeps,
}

module _ (m : Memory) where
  open m use {State, view, clear_highpage, clear_highpage-view, kfree, kfree-view}

  pub live-clear_pages :
      (ps : List ℕ) (s : State) (q : ℕ) → (view (clear_pages m ps s)).live q ≡ (view s).live q
  unfolding clear_pages
  live-clear_pages [] s q = refl
  live-clear_pages (p ∷ ps) s q =
      live-clear_pages ps (clear_highpage p s) q ∙ rw (clear_highpage-view p s)

  pub content-clear_pages :
      (ps : List ℕ) (s : State) (q : ℕ)
      → (view (clear_pages m ps s)).content q ≡ (if is_mem q ps then 0 else (view s).content q)
  unfolding clear_pages
  content-clear_pages [] s q = refl
  content-clear_pages (p ∷ ps) s q =
      content-clear_pages ps (clear_highpage p s) q ∙ rw (clear_highpage-view p s) (ground arith)

  clear_pages-Keeps : (ps : List ℕ) (s : State) → Keeps ps (view s) (view (clear_pages m ps s))
  clear_pages-Keeps ps s = record {
    kept = λ q o e. (live-clear_pages ps s q ∙ e, content-clear_pages ps s q ∙ rw o);
  }

  pub live-sa_pagelist_free :
      (ps : List ℕ) (s : State) (q : ℕ)
      → (view (sa_pagelist_free m ps s)).live q ≡ (if is_mem q ps then false else (view s).live q)
  unfolding sa_pagelist_free sa_pagelist_free_pages
  live-sa_pagelist_free ps s q =
      rw (kfree-view (kfree (free_pages m ps s)), kfree-view (free_pages m ps s))
        (live-free_pages m ps s q)

  pub sa_pagelist_free-Keeps :
      (ps : List ℕ) (s : State) → Keeps ps (view s) (view (sa_pagelist_free m ps s))
  unfolding sa_pagelist_free sa_pagelist_free_pages
  sa_pagelist_free-Keeps ps s = record {
    kept = λ q o e. (
      live-sa_pagelist_free ps s q ∙ rw (o, e),
      rw (kfree-view (kfree (free_pages m ps s)), kfree-view (free_pages m ps s))
          (content-free_pages m ps s q o),
    );
  }

  module _ {stack : List ℕ} (gl : Gl) {held rest : List (List ℕ)} (s : State)
      (k : Pick stack held rest) (g : IsGl gl held (view s)) where
    pub others : All (Disjoint stack) (gl.gl_sa ++ rest) × Pairs Disjoint (gl.gl_sa ++ rest)
    others = Pairs-Pick Disjoint Disjoint-symm (Pick-append_left stack gl.gl_sa k) g.apart

    pub after-Keeps : {w : View} → Keeps stack (view s) w → IsGl gl rest w
    after-Keeps {w} h = record {
      counted = g.counted;
      bounded = g.bounded;
      clean =
          All-Keeps Clean stack (view s) w gl.gl_sa (λ st d. Clean-Keeps st h d)
            (All-append_left (Disjoint stack) gl.gl_sa rest others.0) g.clean;
      whole =
          All-Keeps Whole stack (view s) w rest (λ st d. Whole-Keeps st h d)
            (All-append_right (Disjoint stack) gl.gl_sa rest others.0)
            (All-Pick (Whole (view s)) k g.whole).1;
      apart = others.1;
    }

    cleared-Clean : Clean (view (clear_pages m stack s)) stack
    cleared-Clean =
        let w = (All-Pick (Whole (view s)) k g.whole).0 in
        (
          (
            w.0,
            w.1,
            All-map (λ p. (view s).live p ≡ true) (λ q e. live-clear_pages stack s q ∙ e) stack w.2,
          ),
          All-of_mem (λ p. (view (clear_pages m stack s)).content p ≡ 0) stack
              (λ q i. content-clear_pages stack s q ∙ rw i),
        )

    -- gl_free of a stack in use. Below the capacity the stack is put on the free list with all its
    -- pages zeroed; at the capacity the list stays and the pages are freed. Either way the free list
    -- never holds more than GL_SA_CAPACITY stacks, and the other stacks are untouched.
    pub gl_free_lem :
        let (gl', s') = gl_free m stack gl s in
        IsGl gl' rest (view s')
        × ((gl.gl_size < gl_sa_capacity) × (gl'.gl_sa ≡ stack ∷ gl.gl_sa) × Clean (view s') stack
            ⊎ (gl.gl_size ≡ gl_sa_capacity)
              × (gl' ≡ gl)
              × All (λ p. (view s').live p ≡ false) stack)
    unfolding gl_free
    gl_free_lem = elim (Bool-cases (leb gl_sa_capacity gl.gl_size)) [
      | inl full ↦ rw full (
        after-Keeps (sa_pagelist_free-Keeps stack s),
        inr (
          ground (arith, g.bounded),
          refl,
          All-of_mem (λ p. (view (sa_pagelist_free m stack s)).live p ≡ false) stack
              (λ q i. live-sa_pagelist_free stack s q ∙ rw i),
        ),
      )
      | inr room ↦
          let r = after-Keeps (clear_pages-Keeps stack s) in
          rw room (
            record {
              counted = omega (arith, g.counted);
              bounded = ground arith;
              clean = (cleared-Clean, r.clean);
              whole = r.whole;
              apart = others;
            },
            inl (ground arith, refl, cleared-Clean),
          )
    ]

  -- A stack that went to the free list is the next one to be handed out, and the list is as before.
  gl_alloc_stack-gl_free :
      (stack : List ℕ) (gl : Gl) (s : State)
      → gl.gl_size < gl_sa_capacity
      → let (gl', s') = gl_free m stack gl s in gl_alloc_stack m gl' s' ≡ (success, stack, gl, s')
  unfolding gl_free gl_alloc_stack take_stack
  gl_alloc_stack-gl_free stack gl s room =
      let below : leb gl_sa_capacity gl.gl_size ≡ false = ground arith in
      let back : gl.gl_size + 1 - 1 ≡ gl.gl_size = omega arith in rw (below, gl_free) (rw back)
