-- ===== src/Lkm/FreeList.antt =====
-- lkm/core/api.c, gl_sa and gl_size: the global list of stacks that are free to be used again. The
-- sections under gl_lock are single steps here.
pub mod Invariant
pub mod Take
pub mod Release
pub mod Taken
pub mod Unload
pub mod Race
mod Tests
use shadow_stack_llvm.Prelude.{ℕ, ◌+◌, ◌-◌, ◌/◌, ◌^◌, true, List, [], ◌∷◌, leb, if◌then◌else◌}
use shadow_stack_llvm.Lkm.Errno.{Ret, success, fail, enomem}
use shadow_stack_llvm.Lkm.Layout.{ss_size, page_shift}
use shadow_stack_llvm.Lkm.Memory.{Memory, Gfp, gfp_kernel}
use shadow_stack_llvm.Lkm.Pagelist.{sa_pagelist_alloc_pages, sa_pagelist_free}

abbrev pub gl_sa_capacity : ℕ
gl_sa_capacity = 128

-- SS_SIZE >> PAGE_SHIFT
abbrev pub stack_pages : ℕ
stack_pages = ss_size / 2 ^ page_shift

-- A stack on the list is its pages.
pub record Gl : Type 0 where
  pub gl_size : ℕ
  pub gl_sa : List (List ℕ)

-- GFP_KERNEL | __GFP_ZERO
abbrev pub gfp_zero : Gfp
gfp_zero = record gfp_kernel { zeroed = true }

module _ (m : Memory) where
  open m use {State, kmalloc, kfree, clear_highpage}

  -- A new stack, for an empty list.
  pub new_stack : State → Ret × List ℕ × State
  unfolding sa_pagelist_alloc_pages
  new_stack s =
      let (pagelist, s1) = kmalloc s in
      let (err, pages, s2) = sa_pagelist_alloc_pages m gfp_zero stack_pages s1 in
      if pagelist
      then elim err [ success ↦ (success, pages, s2) | fail e ↦ (fail e, [], kfree s2) ]
      else (fail enomem, [], s1)

  -- The pages are what is left in `*p`. gl_size goes down only where the list had a stack.
  take_stack : List (List ℕ) → ℕ → State → Ret × List ℕ × Gl × State
  unfolding new_stack
  take_stack [] gl_size s =
      let (err, pages, s') = new_stack s in
      (err, pages, record { gl_size = gl_size; gl_sa = [] }, s')
  take_stack (stack ∷ rest) gl_size s =
      (success, stack, record { gl_size = gl_size - 1; gl_sa = rest }, s)

  unfoldable pub gl_alloc_stack : Gl → State → Ret × List ℕ × Gl × State
  unfolding take_stack
  gl_alloc_stack gl s = take_stack gl.gl_sa gl.gl_size s

  pub clear_pages : List ℕ → State → State
  clear_pages [] s = s
  clear_pages (p ∷ ps) s = clear_pages ps (clear_highpage p s)

  unfoldable pub gl_free : List ℕ → Gl → State → Gl × State
  unfolding clear_pages sa_pagelist_free
  gl_free stack gl s =
      if leb gl_sa_capacity gl.gl_size
      then (gl, sa_pagelist_free m stack s)
      else (record { gl_size = gl.gl_size + 1; gl_sa = stack ∷ gl.gl_sa }, clear_pages stack s)

  pub free_stacks : List (List ℕ) → State → State
  unfolding sa_pagelist_free
  free_stacks [] s = s
  free_stacks (stack ∷ rest) s = free_stacks rest (sa_pagelist_free m stack s)

  unfoldable pub vma_free : Gl → State → Gl × State
  unfolding free_stacks
  vma_free gl s = (record { gl_size = 0; gl_sa = [] }, free_stacks gl.gl_sa s)
