-- ===== src/Lkm/Pagelist/Fuel.antt =====
-- The fuel of the loops of sa_pagelist_alloc_pages, lkm/core/api.c, is enough: the loops end by their
-- own tests.
use Prim.Native.Nat.{min}
use shadow_stack_llvm.Prelude.{
  ℕ, zero, suc, ◌+◌, ◌-◌, ◌^◌, ◌≤◌, ◌<◌, ◌≡◌, inl, inr, ◌&&◌, not, List, [], ◌∷◌, ◌++◌, arith, ltb,
  ◌==◌, length, length-append, Bool-cases, Option-cases,
}
use shadow_stack_llvm.Lkm.Layout.{sub64}
use shadow_stack_llvm.Lkm.Memory.{Memory, Gfp, block}
use shadow_stack_llvm.Lkm.Memory.Members.{length-block}
use shadow_stack_llvm.Lkm.Pagelist.{
  no_reclaim, high_order_loop, bulk_loop, single_loop, fill_pages_within, fill_pages,
}
use shadow_stack_llvm.Lkm.Pagelist.Loops.{
  pow_mono, remaining, Fits, next-Fits, open-test, first-Fits,
}

module _ (m : Memory) (gfp : Gfp) (nr_pages : ℕ) (small : nr_pages < 2 ^ 64) where
  open m use {State, view, max_order, ilog2, alloc_pages, alloc_pages_bulk, fatal_signal_pending}

  high_order_loop-fuel :
      (f g max_attempt large : ℕ) (pages : List ℕ) (s : State)
      → large ≤ max_attempt
      → length pages ≤ nr_pages
      → Fits m gfp nr_pages small large pages
      → max_attempt + (nr_pages - length pages) < f
      → max_attempt + (nr_pages - length pages) < g
      → high_order_loop m gfp nr_pages f max_attempt large pages s
        ≡ high_order_loop m gfp nr_pages g max_attempt large pages s
  unfolding high_order_loop
  high_order_loop-fuel zero g max_attempt large pages s le h k p q = absurd (omega arith)
  high_order_loop-fuel (suc f) zero max_attempt large pages s le h k p q = absurd (omega arith)
  high_order_loop-fuel (suc f) (suc g) max_attempt large pages s le h k p q =
      elim (Bool-cases (ltb 0 large && not (sub64 nr_pages (length pages) == 0))) [
        | inr done ↦ rw (done, high_order_loop)
        | inl more ↦
            let (pos, left) = open-test m gfp nr_pages small large pages h more in
            elim (Option-cases (alloc_pages (no_reclaim gfp) large s).0) [
              | inl e ↦
                  rw (more, e, high_order_loop)
                    (high_order_loop-fuel f g (large - 1) (large - 1) pages _ (omega arith) h
                      (λ _ _. omega (arith, k pos left, pow_mono (large - 1) large (omega arith)))
                      (omega arith) (omega arith))
              | inr (b, e) ↦
                  let pages' = pages ++ block b (2 ^ large) in
                  let longer : length pages' ≡ length pages + 2 ^ large = omega (
                    arith,
                    length-append pages (block b (2 ^ large)),
                    length-block b (2 ^ large),
                  ) in
                  let fits : length pages' ≤ nr_pages = omega (arith, longer, k pos left) in
                  rw (more, e, high_order_loop)
                    (high_order_loop-fuel f g max_attempt _ pages' _ (omega arith) fits
                      (next-Fits m gfp nr_pages small max_attempt pages' fits)
                      (omega (arith, longer, pow_mono 0 large (omega arith)))
                      (omega (arith, longer, pow_mono 0 large (omega arith))))
            ]
      ]

  single_loop-fuel :
      (f g : ℕ) (pages : List ℕ) (s : State)
      → nr_pages - length pages < f
      → nr_pages - length pages < g
      → single_loop m gfp nr_pages f pages s ≡ single_loop m gfp nr_pages g pages s
  unfolding single_loop
  single_loop-fuel zero g pages s p q = absurd (omega arith)
  single_loop-fuel (suc f) zero pages s p q = absurd (omega arith)
  single_loop-fuel (suc f) (suc g) pages s p q = elim (Bool-cases (ltb (length pages) nr_pages)) [
    | inr done ↦ rw (done, single_loop)
    | inl more ↦
        let left : length pages < nr_pages = ground arith in
        elim (Bool-cases (fatal_signal_pending s)) [
          | inl killed ↦ rw (more, killed, single_loop)
          | inr alive ↦ elim (Option-cases (alloc_pages gfp 0 s).0) [
            | inl e ↦ rw (more, alive, e, single_loop)
            | inr (b, e) ↦
                rw (more, alive, e, single_loop)
                  (single_loop-fuel f g _ _ (omega (arith, length-append pages (b ∷ [])))
                    (omega (arith, length-append pages (b ∷ []))))
          ]
        ]
  ]

  bulk_loop-fuel :
      (f g : ℕ) (pages : List ℕ) (s : State)
      → nr_pages - length pages < f
      → nr_pages - length pages < g
      → bulk_loop m gfp nr_pages f pages s ≡ bulk_loop m gfp nr_pages g pages s
  unfolding bulk_loop
  bulk_loop-fuel zero g pages s p q = absurd (omega arith)
  bulk_loop-fuel (suc f) zero pages s p q = absurd (omega arith)
  bulk_loop-fuel (suc f) (suc g) pages s p q = elim (Bool-cases (ltb (length pages) nr_pages)) [
    | inr done ↦ rw (done, bulk_loop)
    | inl more ↦
        let left : length pages < nr_pages = ground arith in
        let request = min 100 (sub64 nr_pages (length pages)) in
        let got = (alloc_pages_bulk gfp request s).0 in
        elim (Bool-cases (length got == request)) [
          | inr short ↦ rw (more, short, bulk_loop)
          | inl full ↦
              let all : length got ≡ request = ground arith in
              let longer : length pages < length (pages ++ got) = omega (
                arith,
                length-append pages got,
                all,
                remaining m gfp nr_pages small pages (omega arith),
              ) in
              rw (more, full, bulk_loop)
                (bulk_loop-fuel f g _ _ (omega (arith, longer)) (omega (arith, longer)))
        ]
  ]

  -- More fuel than max_order + nr_pages changes nothing: the loops end by their own tests, whatever
  -- the allocator answers.
  pub fill_pages-fuel :
      (fuel : ℕ) (s : State)
      → max_order + nr_pages < fuel
      → fill_pages_within m gfp nr_pages fuel s ≡ fill_pages m gfp nr_pages s
  unfolding fill_pages fill_pages_within
  fill_pages-fuel fuel s h =
      let enough = max_order + nr_pages + 1 in
      let order = min max_order (ilog2 nr_pages) in
      let (ps, s1) = high_order_loop m gfp nr_pages enough max_order order [] s in
      let (qs, s2) = bulk_loop m gfp nr_pages enough ps s1 in
      rw
        (
          high_order_loop-fuel fuel enough max_order order [] s (omega arith) (omega arith)
              (first-Fits m gfp nr_pages small) (omega arith) (omega arith),
          bulk_loop-fuel fuel enough ps s1 (omega arith) (omega arith),
        )
        (single_loop-fuel fuel enough qs s2 (omega arith) (omega arith))
