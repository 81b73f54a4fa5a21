-- ===== src/Lkm/Mapping/Levels.antt =====
-- map_range of lkm/core/api.c: through all the levels, the pages come to lie at their addresses.
use shadow_stack_llvm.Prelude.{
  ℕ, ◌+◌, ◌-◌, ◌*◌, ◌^◌, ◌≤◌, ◌<◌, ◌≡◌, refl, ◌∙◌, inl, inr, Bool, true, List, [], ◌∷◌, arith,
  if◌then◌else◌, length, All, All-map, Bool-cases,
}
use shadow_stack_llvm.Lkm.Errno.{Ret, success, fail, enomem}
use shadow_stack_llvm.Lkm.Layout.{page_size}
use shadow_stack_llvm.Lkm.PageTable.{PageTables, Level, pgd, p4d, pud, pmd}
use shadow_stack_llvm.Lkm.Mapping.{
  my_p4d_alloc, my_pud_alloc, my_pmd_alloc, my_pte_alloc, do_range, enomem_if_failed, map_pte_range,
  map_pmd_range, map_pud_range, map_p4d_range, map_range, unmap_range,
}
use shadow_stack_llvm.Lkm.Mapping.Walk.{
  Aligned, Present, Grows, OneEntry, Mapped, Outcome, Covers, Mapped-trans, Outcome-trans,
  set_ptes-Mapped, do_range-Outcome,
}

module _ (t : PageTables) where
  open t use {
    Mm, is_none, pte, addr_end, table_alloc, table_alloc-fills, table_alloc-keeps, pte-table_alloc,
    flush_tlb_mm_range, is_none-flush, pte-flush,
  }

  -- An entry of the level that is empty gets a table.
  abbrev alloc_at : Level → ℕ → Mm → Bool × Mm
  alloc_at l a mm = if is_none mm l a then table_alloc l a mm else (true, mm)

  record Allocs (l : Level) (lo hi : ℕ) (mm : Mm) (r : Bool × Mm) : Type 0 where
    same : (b : ℕ) → pte r.1 b ≡ pte mm b
    grown : Grows t mm r.1
    fills : r.0 ≡ true → Present t r.1 lo hi l

  alloc_at-Allocs :
      (l : Level) (lo hi : ℕ) (mm : Mm) → OneEntry t l lo hi → Allocs l lo hi mm (alloc_at l lo mm)
  alloc_at-Allocs l lo hi mm one = elim (Bool-cases (is_none mm l lo)) [
    | inl empty ↦ rw empty (record {
      same = pte-table_alloc l lo mm;
      grown = record { grows = table_alloc-keeps l lo mm };
      fills = λ e b p q. one _ b p q ∙ table_alloc-fills l lo mm e;
    })
    | inr full ↦ rw full (record {
      same = λ b. refl;
      grown = record { grows = λ k b e. e };
      fills = λ e b p q. one mm b p q ∙ full;
    })
  ]

  module _ (start : ℕ) (pages : List ℕ) (base : Aligned start) where
    abbrev Fn : Type 0
    Fn = ℕ → ℕ → Mm → Ret × Mm

    -- The function maps any range under one entry of the level, given the tables of those above it.
    abbrev Does : Level → List Level → Fn → Type 0
    Does l ups f =
        (a n : ℕ) (x : Mm)
        → start ≤ a
        → a < n
        → Aligned a
        → Aligned n
        → n < 2 ^ 64
        → Covers t start pages n
        → OneEntry t l a n
        → All (Present t x a n) ups
        → Outcome t start pages a n x (f a n x).0 (f a n x).1

    enomem-Outcome :
        (a n : ℕ) (x : Mm) (r : Ret × Mm)
        → Outcome t start pages a n x r.0 r.1
        → Outcome t start pages a n x (enomem_if_failed t r).0 (enomem_if_failed t r).1
    enomem-Outcome a n x (success, y) o = o
    enomem-Outcome a n x (fail e, y) (inl (ok, f)) = cc
    enomem-Outcome a n x (fail e, y) (inr (_, part)) = inr (refl, part)

    Allocs-Mapped :
        (l : Level) (a n : ℕ) (x : Mm) (r : Bool × Mm)
        → Allocs l a n x r
        → Mapped t start pages a a x r.1
    Allocs-Mapped l a n x r g = record { mapped = λ b. ground (arith, g.same b); grown = g.grown }

    Present-part :
        (lo hi lo' hi' : ℕ) (x y : Mm) (ups : List Level)
        → lo ≤ lo'
        → hi' ≤ hi
        → Grows t x y
        → All (Present t x lo hi) ups
        → All (Present t y lo' hi') ups
    Present-part lo hi lo' hi' x y ups p q g h =
        All-map (Present t x lo hi) (λ l k b u v. g.grows l b (k b (omega arith) (omega arith))) ups
          h

    -- One level: a table for the entry, and then the loop over the entries of that table.
    abbrev descend : Level → Level → Fn → Fn
    descend l below callee a n x =
        let (got, x') = alloc_at l a x in
        let (err, _, y) =
          do_range t (addr_end below) (λ b e z. enomem_if_failed t (callee b e z)) (n - a) a n x' in
        if got then (err, y) else (fail enomem, x')

    descend-Does :
        (l below : Level) (ups : List Level) (callee : Fn)
        → Does below (l ∷ ups) callee
        → Does l ups (descend l below callee)
    descend-Does l below ups callee d a n x h k al an small c one present =
        let g = alloc_at-Allocs l a n x one in
        let y = (alloc_at l a x).1 in
        let f = Allocs-Mapped l a n x (alloc_at l a x) g in
        elim (Bool-cases (alloc_at l a x).0) [
          | inr failed ↦ rw failed (inr (refl, (a, omega arith, omega arith, f)))
          | inl got ↦ rw got (
              Outcome-trans t start pages a a n _ (omega arith) (omega arith) f (
                do_range-Outcome t start pages below _ a n y
                  (λ b e z p q r bl el oe gz. enomem-Outcome b e z (callee b e z) (
                    d b e z (omega arith) q bl el (omega arith) (omega arith) oe (
                      (λ v s u. gz.grows l v (g.fills got v (omega arith) (omega arith))),
                      Present-part a n b e x z ups p r
                          (record { grows = λ m v w. gz.grows m v (g.grown.grows m v w) }) present,
                    )))
                  (n - a) a y (omega arith) k al an (omega arith) (record { grows = λ m v w. w })))
        ]

    map_pte_range-Does : Does pmd (pud ∷ p4d ∷ pgd ∷ []) (map_pte_range t start pages)
    unfolding map_pte_range my_pte_alloc
    map_pte_range-Does a n x h k al an small c one present =
        let g = alloc_at-Allocs pmd a n x one in
        let y = (alloc_at pmd a x).1 in
        let f = Allocs-Mapped pmd a n x (alloc_at pmd a x) g in
        elim (Bool-cases (alloc_at pmd a x).0) [
          | inr failed ↦ rw failed (inr (refl, (a, omega arith, omega arith, f)))
          | inl got ↦ rw got (
              inl (
                refl,
                Mapped-trans t start pages a a n (omega arith) (omega arith) f (
                    set_ptes-Mapped t start pages (n - a) a n y al an base h k small (omega arith) c
                      (
                        g.fills got,
                        Present-part a n a n x y (pud ∷ p4d ∷ pgd ∷ []) (omega arith) (omega arith)
                            g.grown present,
                      )),
              ))
        ]

    map_pmd_range-Does : Does pud (p4d ∷ pgd ∷ []) (map_pmd_range t start pages)
    unfolding map_pmd_range my_pmd_alloc
    map_pmd_range-Does =
        descend-Does pud pmd (p4d ∷ pgd ∷ []) (map_pte_range t start pages) map_pte_range-Does

    map_pud_range-Does : Does p4d (pgd ∷ []) (map_pud_range t start pages)
    unfolding map_pud_range my_pud_alloc
    map_pud_range-Does =
        descend-Does p4d pud (pgd ∷ []) (map_pmd_range t start pages) map_pmd_range-Does

    map_p4d_range-Does : Does pgd [] (map_p4d_range t start pages)
    unfolding map_p4d_range my_p4d_alloc
    map_p4d_range-Does = descend-Does pgd p4d [] (map_pud_range t start pages) map_pud_range-Does

  flush-Mapped :
      (start : ℕ) (pages : List ℕ) (lo hi a e : ℕ) (x y : Mm)
      → Mapped t start pages lo hi x y
      → Mapped t start pages lo hi x (flush_tlb_mm_range a e y)
  flush-Mapped start pages lo hi a e x y f = record {
    mapped = λ b. pte-flush a e y b ∙ f.mapped b;
    grown = record { grows = λ l b k. is_none-flush a e y l b ∙ f.grown.grows l b k };
  }

  pub flush-Outcome :
      (start : ℕ) (pages : List ℕ) (lo hi a e : ℕ) (x y : Mm) (ret : Ret)
      → Outcome t start pages lo hi x ret y
      → Outcome t start pages lo hi x ret (flush_tlb_mm_range a e y)
  flush-Outcome start pages lo hi a e x y ret (inl (ok, f)) =
      inl (ok, flush-Mapped start pages lo hi a e x y f)
  flush-Outcome start pages lo hi a e x y ret (inr (bad, (mid, p, q, f))) =
      inr (bad, (mid, p, q, flush-Mapped start pages lo mid a e x y f))

  -- map_range over a page-aligned range that the pages cover. It returns 0 and maps page number i of
  -- the list at the i-th page of the range, every other address keeping what it had; or it returns
  -- -ENOMEM, and then the entries below some address of the range are still mapped to their pages:
  -- the call of unmap_range only flushes the TLB. No page table that was there goes away.
  pub map_range_lem :
      (addr end : ℕ) (pages : List ℕ) (mm : Mm)
      → Aligned addr
      → Aligned end
      → addr < end
      → end < 2 ^ 64
      → end ≤ addr + length pages * page_size
      → let (ret, mm') = map_range t addr end pages mm in Outcome t addr pages addr end mm ret mm'
  unfolding map_range unmap_range
  map_range_lem addr end pages mm al ae lt small c =
      elim (do_range-Outcome t addr pages pgd (map_p4d_range t addr pages) addr end mm
        (λ a n x p q r al' an one g.
          map_p4d_range-Does addr pages al a n x p q al' an (omega arith) (omega arith) one tt)
        (end - addr) addr mm (omega arith) lt al ae (omega arith) (record { grows = λ l b e. e })) [
          | inl (ok, f) ↦ rw ok (inl (refl, f))
          | inr (e, (mid, p, q, f)) ↦
              rw e (inr (refl, (mid, p, q, flush-Mapped addr pages addr mid _ _ mm _ f)))
        ]
