-- ===== src/Lkm/Memory/Same.antt =====
-- Views of the memory that agree, and the effect of kmalloc and kfree on a view.
use shadow_stack_llvm.Prelude.{ℕ, ◌+◌, ◌≡◌, refl, ◌∙◌, true, false, arith}
use shadow_stack_llvm.Lkm.Memory.{Memory, View}

-- The same pages are allocated and hold the same, and there are as many objects.
pub record Same (v w : View) : Type 0 where
  pub live : (q : ℕ) → w.live q ≡ v.live q
  pub kept : (q : ℕ) → v.live q ≡ true → w.content q ≡ v.content q
  pub objects : w.objects ≡ v.objects

pub Same-refl : (v : View) → Same v v
Same-refl v = record { live = λ q. refl; kept = λ q e. refl; objects = refl }

pub Same-trans : {u v w : View} → Same u v → Same v w → Same u w
Same-trans a b = record {
  live = λ q. b.live q ∙ a.live q;
  kept = λ q e. b.kept q (a.live q ∙ e) ∙ a.kept q e;
  objects = b.objects ∙ a.objects;
}

-- One more kmalloc object than in `v`.
abbrev pub one_more : View → View
one_more v = record v { objects = v.objects + 1 }

module _ (m : Memory) where
  open m use {State, view, kmalloc, kfree, kmalloc-view, kfree-view}

  pub kmalloc-ok : (s : State) → (kmalloc s).0 ≡ true → view (kmalloc s).1 ≡ one_more (view s)
  kmalloc-ok s e = rw e at (kmalloc-view s)

  pub kmalloc-failed : (s : State) → (kmalloc s).0 ≡ false → Same (view s) (view (kmalloc s).1)
  kmalloc-failed s e =
      let seen : view (kmalloc s).1 ≡ record (view s) { objects = (view s).objects + 0 } =
        rw e at (kmalloc-view s) in
      rw seen (record { live = λ q. refl; kept = λ q k. refl; objects = omega arith })

  -- An object is freed again after what left no other trace.
  pub kfree-Same : {v : View} (s : State) → Same (one_more v) (view s) → Same v (view (kfree s))
  kfree-Same s a =
      rw (kfree-view s)
        (record { live = a.live; kept = a.kept; objects = omega (arith, a.objects) })
