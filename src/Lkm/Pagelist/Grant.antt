-- ===== src/Lkm/Pagelist/Grant.antt =====
-- How grants of pages add up, and how freeing the pages takes a grant back.
use mathlib.Core.List.{append-nil}
use shadow_stack_llvm.Prelude.{
  ℕ, ◌≡◌, refl, subst, ◌∙◌, inl, inr, Bool, true, false, none, some, List, [], ◌∷◌, ◌++◌, arith,
  if◌then◌else◌, All, All-map, All-append, Bool-cases, ◌^◌,
}
use shadow_stack_llvm.Lkm.Memory.Members.{is_mem-append, All-mem, All-of_mem}
use shadow_stack_llvm.Lkm.Memory.Same.{Same}
use shadow_stack_llvm.Lkm.Pagelist.{free_pages}
use shadow_stack_llvm.Lkm.Memory.{Memory, View, Gfp, Grant, block, is_mem, Distinct}

not-mem-Distinct :
    (x : ℕ) (xs zs : List ℕ) → All (λ q. is_mem q (x ∷ xs) ≡ false) zs → is_mem x zs ≡ false
not-mem-Distinct x xs [] a = refl
not-mem-Distinct x xs (z ∷ zs) a = ground (arith, a.0, not-mem-Distinct x xs zs a.1)

Distinct-append :
    (xs ys : List ℕ)
    → Distinct xs
    → Distinct ys
    → All (λ q. is_mem q xs ≡ false) ys
    → Distinct (xs ++ ys)
Distinct-append [] ys h k apart = k
Distinct-append (x ∷ xs) ys h k apart = (
  ground (arith, is_mem-append x xs ys, not-mem-Distinct x xs ys apart, h.0),
  Distinct-append xs ys h.1 k
      (All-map (λ q. is_mem q (x ∷ xs) ≡ false) (λ q e. ground arith) ys apart),
)

pub Grant-none : (z : Bool) (v : View) → Grant z v [] v
Grant-none z v = record {
  fresh = tt;
  distinct = tt;
  live = λ q. refl;
  zeroes = λ e. tt;
  kept = λ q e. refl;
  objects = refl;
}

pub Grant-append :
    {z : Bool} {u v w : View} {xs ys : List ℕ}
    → Grant z u xs v
    → Grant z v ys w
    → Grant z u (xs ++ ys) w
Grant-append {z} {u} {v} {w} {xs} {ys} g h = record {
  fresh = All-append _ xs ys g.fresh (All-map _ (λ q e. ground (arith, g.live q)) ys h.fresh);
  distinct =
      Distinct-append xs ys g.distinct h.distinct
        (All-map _ (λ q e. ground (arith, g.live q)) ys h.fresh);
  live = λ q. ground (arith, g.live q, h.live q, is_mem-append q xs ys);
  zeroes = λ e.
      All-append _ xs ys
        (All-of_mem _ xs λ q i. h.kept q (ground (arith, g.live q)) ∙ All-mem _ xs q (g.zeroes e) i)
        (h.zeroes e);
  kept = λ q e. h.kept q (ground (arith, g.live q)) ∙ g.kept q e;
  objects = h.objects ∙ g.objects;
}

pub Grant-keep :
    {z : Bool} {u v w : View} {xs : List ℕ} → Grant z u xs v → Grant z v [] w → Grant z u xs w
Grant-keep {z} {u} {v} {w} {xs} g h =
    subst (λ ys. Grant z u ys w) (append-nil xs) (Grant-append g h)

pub old-not-mem :
    {z : Bool} {v w : View} {pages : List ℕ}
    → Grant z v pages w
    → (q : ℕ) → v.live q ≡ true
    → is_mem q pages ≡ false
old-not-mem {v} {pages} g q e = elim (Bool-cases (is_mem q pages)) [
  | inl i ↦ ground (arith, All-mem (λ p. v.live p ≡ false) pages q g.fresh i)
  | inr o ↦ o
]

module _ (m : Memory) where
  open m use {
    State, view, free_page, live-free_page, content-free_page, objects-free_page, alloc_pages,
    alloc_pages-Grant,
  }

  pub live-free_pages :
      (ps : List ℕ) (s : State) (q : ℕ)
      → (view (free_pages m ps s)).live q ≡ (if is_mem q ps then false else (view s).live q)
  unfolding free_pages
  live-free_pages [] s q = refl
  live-free_pages (p ∷ ps) s q =
      ground (arith, live-free_page p (free_pages m ps s) q, live-free_pages ps s q)

  pub content-free_pages :
      (ps : List ℕ) (s : State) (q : ℕ)
      → is_mem q ps ≡ false
      → (view (free_pages m ps s)).content q ≡ (view s).content q
  unfolding free_pages
  content-free_pages [] s q e = refl
  content-free_pages (p ∷ ps) s q e =
      content-free_page p (free_pages m ps s) q (ground arith)
      ∙ content-free_pages ps s q (ground arith)

  pub objects-free_pages :
      (ps : List ℕ) (s : State) → (view (free_pages m ps s)).objects ≡ (view s).objects
  unfolding free_pages
  objects-free_pages [] s = refl
  objects-free_pages (p ∷ ps) s = objects-free_page p (free_pages m ps s) ∙ objects-free_pages ps s

  -- What was granted and is freed again is as if it had never been allocated.
  pub free_pages-Same :
      {z : Bool} {v : View} {pages : List ℕ} (s : State)
      → Grant z v pages (view s)
      → Same v (view (free_pages m pages s))
  free_pages-Same {z} {v} {pages} s g = record {
    live = λ q. elim (Bool-cases (is_mem q pages)) [
      | inl i ↦
          ground
            (arith, live-free_pages pages s q, All-mem (λ p. v.live p ≡ false) pages q g.fresh i)
      | inr o ↦ ground (arith, live-free_pages pages s q, g.live q)
    ];
    kept = λ q e. content-free_pages pages s q (old-not-mem g q e) ∙ g.kept q e;
    objects = objects-free_pages pages s ∙ g.objects;
  }

  pub alloc_pages-none :
      (g : Gfp) (order : ℕ) (s : State)
      → (alloc_pages g order s).0 ≡ none
      → Grant g.zeroed (view s) [] (view (alloc_pages g order s).1)
  alloc_pages-none g order s e = rw e at (alloc_pages-Grant g order s)

  pub alloc_pages-some :
      (g : Gfp) (order : ℕ) (s : State) {p : ℕ}
      → (alloc_pages g order s).0 ≡ some p
      → Grant g.zeroed (view s) (block p (2 ^ order)) (view (alloc_pages g order s).1)
  alloc_pages-some g order s e = rw e at (alloc_pages-Grant g order s)
