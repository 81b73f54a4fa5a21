-- ===== src/Lkm/FreeList/Tests.antt =====
-- The free list of lkm/core/api.c at concrete memories.
use shadow_stack_llvm.Prelude.{
  ℕ, ◌≡◌, ◌<◌, refl, false, if◌then◌else◌, List, ◌⊎◌, ◌∷◌, [], arith, All, here,
}
use shadow_stack_llvm.Lkm.Errno.{success, fail, enomem}
use shadow_stack_llvm.Lkm.Memory.{block}
use shadow_stack_llvm.Lkm.Memory.Members.{length-block}
use shadow_stack_llvm.Lkm.Memory.Same.{Same}
use shadow_stack_llvm.Lkm.Memory.Sample.{
  Store, seen, sample_memory, fresh_store, advance, advance-Live, Distinct-block,
}
use shadow_stack_llvm.Lkm.FreeList.{Gl, gl_sa_capacity, gl_alloc_stack, gl_free, vma_free}
use shadow_stack_llvm.Lkm.FreeList.Invariant.{Clean, IsGl}
use shadow_stack_llvm.Lkm.FreeList.Take.{gl_alloc_stack_lem}
use shadow_stack_llvm.Lkm.FreeList.Release.{gl_free_lem}
use shadow_stack_llvm.Lkm.FreeList.Unload.{is_under, vma_free_lem}

abbrev empty_gl : Gl
empty_gl = record { gl_size = 0; gl_sa = [] }

empty_gl-IsGl : IsGl empty_gl [] (seen (fresh_store 4096))
empty_gl-IsGl = record { counted = refl; bounded = omega arith; clean = tt; whole = tt; apart = tt }

gl_alloc_stack_lem_example :
    let (ret, stack, gl', s') = gl_alloc_stack sample_memory empty_gl (fresh_store 4096) in
    ((ret ≡ success)
      × Clean (sample_memory.view s') stack
      × IsGl gl' (stack ∷ []) (sample_memory.view s'))
    ⊎ ((ret ≡ fail enomem)
        × (gl' ≡ empty_gl)
        × Same (seen (fresh_store 4096)) (sample_memory.view s'))
gl_alloc_stack_lem_example =
    gl_alloc_stack_lem sample_memory empty_gl [] (fresh_store 4096) empty_gl-IsGl

-- One stack is in use, and the free list is empty.
abbrev one_stack : List ℕ
one_stack = block 1 2048

abbrev busy_store : Store
busy_store = advance 2048 (fresh_store 4096)

stack_in_use : IsGl empty_gl (one_stack ∷ []) (seen busy_store)
stack_in_use = record {
  counted = refl;
  bounded = omega arith;
  clean = tt;
  whole = ((length-block 1 2048, Distinct-block 1 2048, advance-Live 2048 (fresh_store 4096)), tt);
  apart = (tt, tt);
}

gl_free_lem_example :
    let (gl', s') = gl_free sample_memory one_stack empty_gl busy_store in
    IsGl gl' [] (seen s')
    × ((0 < gl_sa_capacity) × (gl'.gl_sa ≡ one_stack ∷ []) × Clean (seen s') one_stack
        ⊎ (0 ≡ gl_sa_capacity) × (gl' ≡ empty_gl) × All (λ p. (seen s').live p ≡ false) one_stack)
gl_free_lem_example = gl_free_lem sample_memory empty_gl busy_store here stack_in_use

vma_free_lem_example :
    let (gl', s') = vma_free sample_memory empty_gl busy_store in
    (gl'.gl_sa ≡ [])
    × IsGl gl' (one_stack ∷ []) (seen s')
    × ((q : ℕ) → (seen s').live q ≡ (if is_under q [] then false else (seen busy_store).live q))
vma_free_lem_example = vma_free_lem sample_memory empty_gl (one_stack ∷ []) busy_store stack_in_use
