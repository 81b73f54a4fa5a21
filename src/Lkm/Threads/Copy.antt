-- ===== src/Lkm/Threads/Copy.antt =====
-- The part of sa_fork in lkm/core/api.c that copies the parent's stack to the child's.
use shadow_stack_llvm.Prelude.{
  ℕ, ◌≡◌, refl, sym, ◌∙◌, ◌⊎◌, inl, inr, true, false, none, some, List, [], ◌∷◌, arith, ◌==◌,
  length, All, All-map, All-append_right, All-Pick, here, Pick, Bool-cases,
}
use shadow_stack_llvm.Lkm.Memory.{Memory, View, is_mem, Distinct}
use shadow_stack_llvm.Lkm.PageTable.{PageTables}
use shadow_stack_llvm.Lkm.Xarray.{Xarray}
use shadow_stack_llvm.Lkm.FreeList.{Gl}
use shadow_stack_llvm.Lkm.FreeList.Invariant.{Whole, Disjoint, IsGl}
use shadow_stack_llvm.Lkm.FreeList.Release.{others, after-Keeps}
use shadow_stack_llvm.Lkm.FreeList.Taken.{Off}
use shadow_stack_llvm.Lkm.Threads.{ThreadDesc, copy_pages, find_thread}

-- Page by page, the first stack holds what the second one held in `v`.
abbrev pub Copied : View → View → List ℕ → List ℕ → Type 0
Copied v w (p ∷ ps) (q ∷ qs) = (w.content p ≡ v.content q) × Copied v w ps qs
Copied v w [] qs = Unit
Copied v w (p ∷ ps) [] = ⊥

Copied-before :
    (v v' w : View) (ps qs : List ℕ)
    → All (λ r. v'.content r ≡ v.content r) qs
    → Copied v' w ps qs
    → Copied v w ps qs
Copied-before v v' w [] qs h c = tt
Copied-before v v' w (p ∷ ps) [] h c = c
Copied-before v v' w (p ∷ ps) (q ∷ qs) h c = (c.0 ∙ h.0, Copied-before v v' w ps qs h.1 c.1)

module _ (m : Memory) (t : PageTables) (x : Xarray ThreadDesc) where
  open m use {State, view, copy_highpage, copy_highpage-view}

  live-copy_pages :
      (ps qs : List ℕ) (s : State) (r : ℕ)
      → (view (copy_pages m t x ps qs s)).live r ≡ (view s).live r
  unfolding copy_pages
  live-copy_pages (p ∷ ps) (q ∷ qs) s r =
      live-copy_pages ps qs (copy_highpage p q s) r ∙ rw (copy_highpage-view p q s)
  live-copy_pages [] qs s r = refl
  live-copy_pages (p ∷ ps) [] s r = refl

  content-copy_pages :
      (ps qs : List ℕ) (s : State) (r : ℕ)
      → is_mem r ps ≡ false
      → (view (copy_pages m t x ps qs s)).content r ≡ (view s).content r
  unfolding copy_pages
  content-copy_pages (p ∷ ps) (q ∷ qs) s r h =
      content-copy_pages ps qs (copy_highpage p q s) r (ground arith)
      ∙ rw (copy_highpage-view p q s) (ground (arith, h))
  content-copy_pages [] qs s r h = refl
  content-copy_pages (p ∷ ps) [] s r h = refl

  objects-copy_pages :
      (ps qs : List ℕ) (s : State) → (view (copy_pages m t x ps qs s)).objects ≡ (view s).objects
  unfolding copy_pages
  objects-copy_pages (p ∷ ps) (q ∷ qs) s =
      objects-copy_pages ps qs (copy_highpage p q s) ∙ rw (copy_highpage-view p q s)
  objects-copy_pages [] qs s = refl
  objects-copy_pages (p ∷ ps) [] s = refl

  pub copy_pages-Off :
      (ps qs : List ℕ) (s : State) → Off ps (view s) (view (copy_pages m t x ps qs s))
  copy_pages-Off ps qs s = record {
    live = live-copy_pages ps qs s;
    kept = content-copy_pages ps qs s;
    objects = objects-copy_pages ps qs s;
  }

  pub copy_pages-Copied :
      (ps qs : List ℕ) (s : State)
      → length ps ≡ length qs
      → Distinct ps
      → All (λ q. is_mem q ps ≡ false) qs
      → Copied (view s) (view (copy_pages m t x ps qs s)) ps qs
  unfolding copy_pages
  copy_pages-Copied [] qs s e d o = tt
  copy_pages-Copied (p ∷ ps) [] s e d o = omega (arith, e)
  copy_pages-Copied (p ∷ ps) (q ∷ qs) s e d o = (
    content-copy_pages ps qs (copy_highpage p q s) p d.0
        ∙ rw (copy_highpage-view p q s) (ground arith),
    Copied-before (view s) (view (copy_highpage p q s))
        (view (copy_pages m t x ps qs (copy_highpage p q s))) ps qs
        (All-map (λ r. is_mem r (p ∷ ps) ≡ false)
          (λ r h. rw (copy_highpage-view p q s) (ground (arith, h))) qs o.1)
        (copy_pages-Copied ps qs (copy_highpage p q s) (omega (arith, e)) d.1
          (All-map (λ r. is_mem r (p ∷ ps) ≡ false) (λ r h. ground (arith, h)) qs o.1)),
  )

  -- The stack that is copied to is in use, and so is the other one.
  module _ {stack : List ℕ} (gl : Gl) {held rest : List (List ℕ)} (s : State) {old : List ℕ}
      (k : Pick old held rest) (g : IsGl gl (stack ∷ held) (view s)) where
    apart : Disjoint stack old
    apart =
        (All-Pick (Disjoint stack) k
          (All-append_right (Disjoint stack) gl.gl_sa held (others m gl s here g).0)).0

    pub copy_pages-IsGl : IsGl gl (stack ∷ held) (view (copy_pages m t x stack old s))
    copy_pages-IsGl =
        let r = after-Keeps m gl s here g {w = view (copy_pages m t x stack old s)} (record {
          kept = λ q o e. (live-copy_pages stack old s q ∙ e, content-copy_pages stack old s q o);
        }) in
        record {
          counted = g.counted;
          bounded = g.bounded;
          clean = r.clean;
          whole = (
            (
              g.whole.0.0,
              g.whole.0.1,
              All-map (λ p. (view s).live p ≡ true) (λ q e. live-copy_pages stack old s q ∙ e) stack
                  g.whole.0.2,
            ),
            r.whole,
          );
          apart = g.apart;
        }

    -- Afterwards the two stacks hold the same.
    pub stack-Copied : let w = view (copy_pages m t x stack old s) in Copied w w stack old
    stack-Copied =
        let w = view (copy_pages m t x stack old s) in
        Copied-before w (view s) w stack old
          (All-map (λ q. is_mem q stack ≡ false) (λ q o. sym (content-copy_pages stack old s q o))
            old apart)
          (copy_pages-Copied stack old s
            (g.whole.0.0 ∙ sym (All-Pick (Whole (view s)) k g.whole.1).0.0) g.whole.0.1 apart)

-- A thread that is found is one of those that were visited.
pub find_thread-cases :
    (m : Memory) (t : PageTables) (x : Xarray ThreadDesc) (P : ℕ × ThreadDesc → Type 0) (pid : ℕ)
    (es : List (ℕ × ThreadDesc))
    → All P es
    → (find_thread m t x pid es ≡ none)
      ⊎ ((e : ℕ × ThreadDesc) × (find_thread m t x pid es ≡ some e) × P e × (e.1.tid ≡ pid))
unfolding find_thread
find_thread-cases m t x P pid [] h = inl refl
find_thread-cases m t x P pid ((i, d) ∷ es) h = elim (Bool-cases (d.tid == pid)) [
  | inl hit ↦ let same : d.tid ≡ pid = ground (arith, hit) in inr ((i, d), rw hit refl, h.0, same)
  | inr miss ↦ rw miss (find_thread-cases m t x P pid es h.1)
]
