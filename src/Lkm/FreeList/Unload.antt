-- ===== src/Lkm/FreeList/Unload.antt =====
-- vma_free of lkm/core/api.c: the module gives the free list back when it is unloaded.
use shadow_stack_llvm.Prelude.{
  ℕ, ◌≡◌, refl, ◌∙◌, Bool, false, ◌||◌, List, [], ◌∷◌, ◌++◌, arith, if◌then◌else◌, All,
  All-append_right, Pairs, Pairs-append_right,
}
use shadow_stack_llvm.Lkm.Memory.{Memory, is_mem}
use shadow_stack_llvm.Lkm.Pagelist.{sa_pagelist_free}
use shadow_stack_llvm.Lkm.FreeList.{Gl, free_stacks, vma_free}
use shadow_stack_llvm.Lkm.FreeList.Invariant.{Whole, Disjoint, IsGl, Whole-Keeps, All-Keeps}
use shadow_stack_llvm.Lkm.FreeList.Release.{live-sa_pagelist_free, sa_pagelist_free-Keeps}

-- The page is in one of the stacks.
abbrev pub is_under : ℕ → List (List ℕ) → Bool
is_under q [] = false
is_under q (stack ∷ rest) = is_mem q stack || is_under q rest

module _ (m : Memory) where
  open m use {State, view}

  live-free_stacks :
      (stacks : List (List ℕ)) (s : State) (q : ℕ)
      → (view (free_stacks m stacks s)).live q
        ≡ (if is_under q stacks then false else (view s).live q)
  unfolding free_stacks
  live-free_stacks [] s q = refl
  live-free_stacks (stack ∷ rest) s q =
      live-free_stacks rest (sa_pagelist_free m stack s) q
      ∙ ground (arith, live-sa_pagelist_free m stack s q)

  free_stacks-Whole :
      (stacks held : List (List ℕ)) (s : State)
      → Pairs Disjoint (stacks ++ held)
      → All (Whole (view s)) held
      → All (Whole (view (free_stacks m stacks s))) held
  unfolding free_stacks
  free_stacks-Whole [] held s d h = h
  free_stacks-Whole (stack ∷ rest) held s d h =
      free_stacks-Whole rest held (sa_pagelist_free m stack s) d.1 (
        All-Keeps Whole stack (view s) (view (sa_pagelist_free m stack s)) held
          (λ st e. Whole-Keeps st (sa_pagelist_free-Keeps m stack s) e)
          (All-append_right (Disjoint stack) rest held d.0) h)

  -- vma_free leaves an empty free list, frees exactly the pages of the stacks that were on it, and
  -- keeps the stacks that are still in use whole.
  pub vma_free_lem :
      (gl : Gl) (held : List (List ℕ)) (s : State)
      → IsGl gl held (view s)
      → let (gl', s') = vma_free m gl s in
        (gl'.gl_sa ≡ [])
        × IsGl gl' held (view s')
        × ((q : ℕ) → (view s').live q ≡ (if is_under q gl.gl_sa then false else (view s).live q))
  unfolding vma_free
  vma_free_lem gl held s g = (
    refl,
    record {
      counted = refl;
      bounded = omega arith;
      clean = tt;
      whole = free_stacks-Whole gl.gl_sa held s g.apart g.whole;
      apart = Pairs-append_right Disjoint gl.gl_sa held g.apart;
    },
    live-free_stacks gl.gl_sa s,
  )
