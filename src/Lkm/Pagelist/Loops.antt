-- ===== src/Lkm/Pagelist/Loops.antt =====
-- The three loops of sa_pagelist_alloc_pages, lkm/core/api.c: what they have got at each moment.
use Prim.Native.Nat.{min}
use shadow_stack_llvm.Prelude.{
  ℕ, zero, suc, ◌+◌, ◌-◌, ◌^◌, ◌≤◌, ◌<◌, ◌≡◌, refl, inl, inr, true, ◌&&◌, not, subst, none, some,
  List, [], ◌++◌, arith, ltb, ◌==◌, length, length-append, Bool-cases, Option-cases,
}
use native.Mathlib.Nat.{pow-suc}
use native.Mathlib.Decide.{dec_le}
use shadow_stack_llvm.Lkm.Layout.{sub64}
use shadow_stack_llvm.Lkm.Memory.{Memory, Gfp, View, Grant, block}
use shadow_stack_llvm.Lkm.Memory.Members.{length-block}
use shadow_stack_llvm.Lkm.Pagelist.{
  no_reclaim, high_order_loop, bulk_loop, single_loop, fill_pages_within, fill_pages,
}
use shadow_stack_llvm.Lkm.Pagelist.Grant.{
  Grant-none, Grant-append, Grant-keep, alloc_pages-none, alloc_pages-some,
}

pub pow_mono : (a b : ℕ) → a ≤ b → 2 ^ a ≤ 2 ^ b
pow_mono a zero h = let e : a ≡ zero = omega arith in rw e (omega arith)
pow_mono a (suc b) h = elim (dec_le a b) [
  | yes k ↦ omega (arith, pow_mono a b k, pow-suc 2 b)
  | no k ↦ let e : a ≡ suc b = omega arith in rw e (omega arith)
]

pow-min-le : (a b n : ℕ) → 2 ^ b ≤ n → 2 ^ min a b ≤ n
pow-min-le a b n h = omega (arith, pow_mono (min a b) b (omega arith))

module _ (m : Memory) (gfp : Gfp) (nr_pages : ℕ) (small : nr_pages < 2 ^ 64) where
  open m use {
    State, view, max_order, ilog2, alloc_pages, alloc_pages_bulk, pow-ilog2-le, alloc_pages-Grant,
    alloc_pages_bulk-Grant, length-alloc_pages_bulk, fatal_signal_pending, kmalloc, kmalloc-view,
    kfree-view,
  }

  -- What the loops keep: the pages so far are granted since `v`, and fit into the array.
  pub record Filled (v : View) (pages : List ℕ) (s : State) : Type 0 where
    pub grant : Grant gfp.zeroed v pages (view s)
    pub fits : length pages ≤ nr_pages

  pub remaining :
      (pages : List ℕ)
      → length pages ≤ nr_pages
      → sub64 nr_pages (length pages) ≡ nr_pages - length pages
  remaining pages h = omega arith

  -- The order asked for is small enough for what is left of the array.
  abbrev pub Fits : ℕ → List ℕ → Type 0
  Fits large pages = (0 < large) → (length pages < nr_pages) → length pages + 2 ^ large ≤ nr_pages

  pub next-Fits :
      (max_attempt : ℕ) (pages : List ℕ)
      → length pages ≤ nr_pages
      → Fits (min max_attempt (ilog2 (sub64 nr_pages (length pages)))) pages
  next-Fits max_attempt pages h pos left = rw (remaining pages h) (
      omega (
        arith,
        pow-min-le max_attempt (ilog2 (nr_pages - length pages)) (nr_pages - length pages)
            (pow-ilog2-le _ (omega arith)),
      ))

  pub open-test :
      (large : ℕ) (pages : List ℕ)
      → length pages ≤ nr_pages
      → (ltb 0 large && not (sub64 nr_pages (length pages) == 0)) ≡ true
      → (0 < large) × (length pages < nr_pages)
  open-test large pages h e =
      let e' : (ltb 0 large && not (nr_pages - length pages == 0)) ≡ true =
        rw (remaining pages h) at e in
      (ground arith, ground arith)

  next-Filled :
      {v : View} (pages : List ℕ) (s : State) (g : Gfp) (order : ℕ) {p : ℕ}
      → g.zeroed ≡ gfp.zeroed
      → Filled v pages s
      → length pages + 2 ^ order ≤ nr_pages
      → (alloc_pages g order s).0 ≡ some p
      → Filled v (pages ++ block p (2 ^ order)) (alloc_pages g order s).1
  next-Filled {v} pages s g order {p} z f room e = record {
    grant = Grant-append f.grant (
        subst (λ b. Grant b (view s) (block p (2 ^ order)) (view (alloc_pages g order s).1)) z
          (alloc_pages-some m g order s e));
    fits = omega (arith, length-append pages (block p (2 ^ order)), length-block p (2 ^ order));
  }

  same-Filled :
      {v : View} (pages : List ℕ) (s : State) (g : Gfp) (order : ℕ)
      → g.zeroed ≡ gfp.zeroed
      → Filled v pages s
      → (alloc_pages g order s).0 ≡ none
      → Filled v pages (alloc_pages g order s).1
  same-Filled pages s g order z f e = record {
    grant = Grant-keep f.grant (
        subst (λ b. Grant b (view s) [] (view (alloc_pages g order s).1)) z
          (alloc_pages-none m g order s e));
    fits = f.fits;
  }

  high_order_loop-Filled :
      (fuel max_attempt large : ℕ) {v : View} (pages : List ℕ) (s : State)
      → Fits large pages
      → Filled v pages s
      → let (ps, s') = high_order_loop m gfp nr_pages fuel max_attempt large pages s in
        Filled v ps s'
  unfolding high_order_loop
  high_order_loop-Filled zero max_attempt large pages s k f = f
  high_order_loop-Filled (suc fuel) max_attempt large {v} pages s k f =
      elim (Bool-cases (ltb 0 large && not (sub64 nr_pages (length pages) == 0))) [
        | inr done ↦ rw (done, high_order_loop) f
        | inl more ↦
            let (pos, left) = open-test large pages f.fits more in
            elim (Option-cases (alloc_pages (no_reclaim gfp) large s).0) [
              | inl e ↦
                  rw (more, e, high_order_loop)
                    (high_order_loop-Filled fuel (large - 1) (large - 1) pages _
                      (λ _ _. omega (arith, k pos left, pow_mono (large - 1) large (omega arith)))
                      (same-Filled pages s (no_reclaim gfp) large refl f e))
              | inr (p, e) ↦
                  let f' = next-Filled pages s (no_reclaim gfp) large refl f (k pos left) e in
                  rw (more, e, high_order_loop)
                    (high_order_loop-Filled fuel max_attempt _ (pages ++ block p (2 ^ large)) _
                      (next-Fits max_attempt _ f'.fits) f')
            ]
      ]

  bulk_loop-Filled :
      (fuel : ℕ) {v : View} (pages : List ℕ) (s : State)
      → Filled v pages s
      → let (ps, s') = bulk_loop m gfp nr_pages fuel pages s in Filled v ps s'
  unfolding bulk_loop
  bulk_loop-Filled zero pages s f = f
  bulk_loop-Filled (suc fuel) {v} pages s f = elim (Bool-cases (ltb (length pages) nr_pages)) [
    | inr done ↦ rw (done, bulk_loop) f
    | inl more ↦
        elim (Bool-cases (length (alloc_pages_bulk gfp (request pages) s).0 == request pages)) [
          | inr short ↦ rw (more, short, bulk_loop) (got pages s f more)
          | inl full ↦ rw (more, full, bulk_loop) (bulk_loop-Filled fuel _ _ (got pages s f more))
        ]
  ]
    where
      request : List ℕ → ℕ
      request pages = min 100 (sub64 nr_pages (length pages))

      got :
          (pages : List ℕ) (s : State)
          → Filled v pages s
          → ltb (length pages) nr_pages ≡ true
          → Filled v
              (pages ++ (alloc_pages_bulk gfp (request pages) s).0)
              (alloc_pages_bulk gfp (request pages) s).1
      got pages s f more = record {
        grant = Grant-append f.grant (alloc_pages_bulk-Grant gfp _ s);
        fits = omega (
          arith,
          length-append pages (alloc_pages_bulk gfp (request pages) s).0,
          length-alloc_pages_bulk gfp (request pages) s,
          remaining pages f.fits,
        );
      }

  single_loop-Filled :
      (fuel : ℕ) {v : View} (pages : List ℕ) (s : State)
      → Filled v pages s
      → let (ps, s') = single_loop m gfp nr_pages fuel pages s in Filled v ps s'
  unfolding single_loop
  single_loop-Filled zero pages s f = f
  single_loop-Filled (suc fuel) {v} pages s f = elim (Bool-cases (ltb (length pages) nr_pages)) [
    | inr done ↦ rw (done, single_loop) f
    | inl more ↦ elim (Bool-cases (fatal_signal_pending s)) [
      | inl killed ↦ rw (more, killed, single_loop) f
      | inr alive ↦ elim (Option-cases (alloc_pages gfp 0 s).0) [
        | inl e ↦ rw (more, alive, e, single_loop) (same-Filled pages s gfp 0 refl f e)
        | inr (p, e) ↦
            rw (more, alive, e, single_loop)
              (single_loop-Filled fuel _ _ (next-Filled pages s gfp 0 refl f (ground arith) e))
      ]
    ]
  ]

  pub first-Fits : Fits (min max_order (ilog2 nr_pages)) []
  first-Fits pos left =
      omega (arith, pow-min-le max_order (ilog2 nr_pages) nr_pages (pow-ilog2-le _ left))

  -- However the allocations went, the pages got are new, distinct, at most as many as the array
  -- holds, and zeroed if that was asked for.
  pub fill_pages-Filled :
      (s : State) → let (pages, s') = fill_pages m gfp nr_pages s in Filled (view s) pages s'
  unfolding fill_pages fill_pages_within
  fill_pages-Filled s = single_loop-Filled _ _ _ (
      bulk_loop-Filled _ _ _ (
        high_order_loop-Filled _ _ _ [] s first-Fits
          (record { grant = Grant-none _ _; fits = omega arith })))
