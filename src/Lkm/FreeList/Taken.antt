-- ===== src/Lkm/FreeList/Taken.antt =====
-- Where a stack is between gl_alloc_stack and gl_free of lkm/core/api.c: what the callers of the two,
-- and their error paths, make of the free list, the pages and the objects.
use shadow_stack_llvm.Prelude.{
  ℕ, ◌+◌, ◌-◌, ◌<◌, ◌≡◌, refl, sym, ap, ◌∙◌, ◌⊎◌, inl, inr, true, false, List, [], ◌∷◌, arith,
  if◌then◌else◌, length, leb, All, Bool-cases, Pick,
}
use shadow_stack_llvm.Lkm.Errno.{success}
use shadow_stack_llvm.Lkm.Memory.{Memory, View, Grant, is_mem}
use shadow_stack_llvm.Lkm.Memory.Members.{All-mem, All-of_mem}
use shadow_stack_llvm.Lkm.Memory.Same.{Same, one_more}
use shadow_stack_llvm.Lkm.Pagelist.{free_pages, sa_pagelist_free, sa_pagelist_free_pages}
use shadow_stack_llvm.Lkm.Pagelist.Grant.{objects-free_pages, old-not-mem}
use shadow_stack_llvm.Lkm.FreeList.{
  Gl, gl_sa_capacity, take_stack, gl_alloc_stack, gl_free, clear_pages,
}
use shadow_stack_llvm.Lkm.FreeList.Invariant.{Clean, IsGl}
use shadow_stack_llvm.Lkm.FreeList.Take.{two_more, new_stack-Grant}
use shadow_stack_llvm.Lkm.FreeList.Release.{live-clear_pages, content-clear_pages, gl_free_lem}

-- Nothing has changed but what the pages of the stack hold.
pub record Off (stack : List ℕ) (v w : View) : Type 0 where
  pub live : (q : ℕ) → w.live q ≡ v.live q
  pub kept : (q : ℕ) → is_mem q stack ≡ false → w.content q ≡ v.content q
  pub objects : w.objects ≡ v.objects

pub Off-refl : (stack : List ℕ) (v : View) → Off stack v v
Off-refl stack v = record { live = λ q. refl; kept = λ q o. refl; objects = refl }

pub Off-trans : {stack : List ℕ} {u v w : View} → Off stack u v → Off stack v w → Off stack u w
Off-trans a b = record {
  live = λ q. b.live q ∙ a.live q;
  kept = λ q o. b.kept q o ∙ a.kept q o;
  objects = b.objects ∙ a.objects;
}

-- The stack was taken from the free list, which has lost it and no other, with nothing but zero bytes
-- in it; or the list was empty and stays so, and the stack is new: a grant of pages, and two objects.
-- Since then only its own pages may have been written.
abbrev pub Taken : Gl → View → List ℕ → Gl → View → Type 0
Taken gl v stack gl' w =
    ((gl ≡ record { gl_size = gl'.gl_size + 1; gl_sa = stack ∷ gl'.gl_sa })
      × All (λ p. v.content p ≡ 0) stack
      × Off stack v w)
    ⊎ ((gl.gl_sa ≡ [])
        × (gl' ≡ gl)
        × ((u : View) × Grant true (two_more v) stack u × Off stack u w))

pub Taken-Off :
    {gl gl' : Gl} {v w x : View} {stack : List ℕ}
    → Taken gl v stack gl' w
    → Off stack w x
    → Taken gl v stack gl' x
Taken-Off t o = elim t [
  | inl (e, z, a) ↦ inl (e, z, Off-trans a o)
  | inr (e, k, (u, g, a)) ↦ inr (e, k, (u, g, Off-trans a o))
]

-- Nothing is lost: the list, the pages, what they hold and the number of objects are as before; or the
-- list was empty, and one new stack is on it, its pages zeroed, with two objects more and no other
-- page or object.
abbrev pub Intact : Gl → View → Gl → View → Type 0
Intact gl v gl' w =
    ((gl' ≡ gl) × Same v w)
    ⊎ ((gl.gl_sa ≡ [])
        × ((stack : List ℕ) × (gl' ≡ record { gl_size = 1; gl_sa = stack ∷ [] })
            × Grant true (two_more v) stack w))

-- The stack went to the list, its pages zeroed; or the list was full and stays as it is, and the pages
-- are not allocated any more, nor are the two objects of the stack. One other object is free, the thread's.
abbrev pub GivenBack : List ℕ → Gl → View → Gl → View → Type 0
GivenBack stack gl v gl' w =
    ((gl.gl_size < gl_sa_capacity)
      × (gl'.gl_sa ≡ stack ∷ gl.gl_sa)
      × Clean w stack
      × (w.objects ≡ v.objects - 1))
    ⊎ ((gl.gl_size ≡ gl_sa_capacity)
        × (gl' ≡ gl)
        × All (λ p. w.live p ≡ false) stack
        × (w.objects ≡ v.objects - 3))

module _ (m : Memory) where
  open m use {State, view, clear_highpage, clear_highpage-view, kfree, kfree-view}

  objects-clear_pages :
      (ps : List ℕ) (s : State) → (view (clear_pages m ps s)).objects ≡ (view s).objects
  unfolding clear_pages
  objects-clear_pages [] s = refl
  objects-clear_pages (p ∷ ps) s =
      objects-clear_pages ps (clear_highpage p s) ∙ rw (clear_highpage-view p s)

  clear_pages-Off : (ps : List ℕ) (s : State) → Off ps (view s) (view (clear_pages m ps s))
  clear_pages-Off ps s = record {
    live = live-clear_pages m ps s;
    kept = λ q o. content-clear_pages m ps s q ∙ rw o;
    objects = objects-clear_pages ps s;
  }

  take_stack-Taken :
      (stacks held : List (List ℕ)) (size : ℕ) (s : State)
      → IsGl (record { gl_size = size; gl_sa = stacks }) held (view s)
      → let (ret, stack, gl', s') = take_stack m stacks size s in
        ret ≡ success
        → Taken (record { gl_size = size; gl_sa = stacks }) (view s) stack gl' (view s')
  unfolding take_stack
  take_stack-Taken (stack ∷ rest) held size s g ok =
      let one_less : size ≡ size - 1 + 1 = omega (arith, g.counted) in
      inl (
        ap (λ n. record { gl_size = n; gl_sa = stack ∷ rest }) one_less,
        g.clean.0.1,
        Off-refl stack (view s),
      )
  take_stack-Taken [] held size s g ok = elim (new_stack-Grant m s) [
    | inl (done, all, grant) ↦ inr (refl, refl, (_, grant, Off-refl _ _))
    | inr (bad, same) ↦ absurd cc
  ]

  -- A stack that gl_alloc_stack gives.
  pub gl_alloc_stack-Taken :
      (gl : Gl) (held : List (List ℕ)) (s : State)
      → IsGl gl held (view s)
      → let (ret, stack, gl', s') = gl_alloc_stack m gl s in
        ret ≡ success → Taken gl (view s) stack gl' (view s')
  unfolding gl_alloc_stack
  gl_alloc_stack-Taken gl held s g ok = take_stack-Taken gl.gl_sa held gl.gl_size s g ok

  -- gl_free of a stack that was taken, and kfree of the thread's object, leave nothing behind.
  pub gl_free-Intact :
      (gl0 : Gl) {held : List (List ℕ)} {v : View} {stack : List ℕ} (gl : Gl) (s : State)
      → IsGl gl0 held v
      → Taken gl0 (one_more v) stack gl (view s)
      → let (gl', s') = gl_free m stack gl s in Intact gl0 v gl' (view (kfree s'))
  unfolding gl_free
  gl_free-Intact gl0 {v} {stack} gl s g t = elim t [
    | inl (e, z, a) ↦
        let size : gl0.gl_size ≡ gl.gl_size + 1 = ap (λ (h : Gl). h.gl_size) e in
        let room : leb gl_sa_capacity gl.gl_size ≡ false = ground (arith, g.bounded, size) in
        let c = Off-trans a (clear_pages-Off stack s) in
        rw (room, kfree-view (clear_pages m stack s))
          (inl (
            sym e,
            record {
              live = c.live;
              kept = λ q k. elim (Bool-cases (is_mem q stack)) [
                | inl i ↦
                    content-clear_pages m stack s q
                    ∙ rw i (sym (All-mem (λ p. v.content p ≡ 0) stack q z i))
                | inr o ↦ c.kept q o
              ];
              objects = omega (arith, c.objects);
            },
          ))
    | inr (e, same, (u, grant, a)) ↦
        let size : gl.gl_size ≡ 0 = ap (λ (h : Gl). h.gl_size) same ∙ g.counted ∙ ap length e in
        let none_left : gl.gl_sa ≡ [] = ap (λ (h : Gl). h.gl_sa) same ∙ e in
        let room : leb gl_sa_capacity gl.gl_size ≡ false = ground (arith, size) in
        let c = Off-trans a (clear_pages-Off stack s) in
        rw (room, kfree-view (clear_pages m stack s))
          (inr (
            e,
            (
              stack,
              rw (size, none_left) refl,
              record {
                fresh = grant.fresh;
                distinct = grant.distinct;
                live = λ q. c.live q ∙ grant.live q;
                zeroes = λ z.
                    All-of_mem (λ p. (view (clear_pages m stack s)).content p ≡ 0) stack
                      (λ q i. content-clear_pages m stack s q ∙ rw i);
                kept = λ q k. c.kept q (old-not-mem grant q k) ∙ grant.kept q k;
                objects = omega (arith, c.objects, grant.objects);
              },
            ),
          ))
  ]

  objects-gl_free :
      (stack : List ℕ) (gl : Gl) (s : State)
      → let (gl', s') = gl_free m stack gl s in
        (view s').objects
        ≡ (if leb gl_sa_capacity gl.gl_size then (view s).objects - 2 else (view s).objects)
  unfolding gl_free sa_pagelist_free sa_pagelist_free_pages
  objects-gl_free stack gl s = elim (Bool-cases (leb gl_sa_capacity gl.gl_size)) [
    | inl full ↦
        rw (full, kfree-view (kfree (free_pages m stack s)), kfree-view (free_pages m stack s))
          (omega (arith, objects-free_pages m stack s))
    | inr room ↦ rw room (objects-clear_pages stack s)
  ]

  -- gl_free of a stack in use, and kfree of its thread.
  pub gl_free-GivenBack :
      {stack : List ℕ} (gl : Gl) {held rest : List (List ℕ)} (s : State)
      → Pick stack held rest
      → IsGl gl held (view s)
      → let (gl', s') = gl_free m stack gl s in GivenBack stack gl (view s) gl' (view (kfree s'))
  gl_free-GivenBack {stack} gl s k g =
      let objects = objects-gl_free stack gl s in
      let (gl', s') = gl_free m stack gl s in
      elim (gl_free_lem m gl s k g).1 [
        | inl (room, e, c) ↦ rw (kfree-view s') (inl (room, e, c, ground (arith, room, objects)))
        | inr (full, e, gone) ↦
            rw (kfree-view s') (inr (full, e, gone, ground (arith, full, objects)))
      ]
