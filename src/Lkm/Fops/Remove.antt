-- ===== src/Lkm/Fops/Remove.antt =====
-- The walk of lkm/core/chrdev_fops.c takes exactly the pages of its range out of the page tables.
use shadow_stack_llvm.Prelude.{
  ℕ, zero, suc, ◌+◌, ◌-◌, ◌/◌, ◌%◌, ◌^◌, ◌≤◌, ◌<◌, ◌≡◌, refl, ◌∙◌, inl, inr, true, false, ◌&&◌,
  none, arith, ltb, leb, ◌==◌, if◌then◌else◌, Bool-cases, Option-cases,
}
use shadow_stack_llvm.Lkm.Layout.{page_size, ss_start, ss_end}
use shadow_stack_llvm.Lkm.PageTable.{Level, pgd, p4d, pud, pmd}
use shadow_stack_llvm.Lkm.Fops.{
  Teardown, all_none, free_table, walk, next_page, clear_page, if_present, remove_entry,
  sa_remove_pte, sa_remove_pmd, sa_remove_pud, sa_remove_p4d, sa_remove, sa_tdown,
}

abbrev Aligned : ℕ → Type 0
Aligned a = a % page_size ≡ 0

-- Where the walk goes: a range of whole pages that ends before the last page of the address space.
abbrev pub IsRange : ℕ → ℕ → Type 0
IsRange a e = Aligned a × Aligned e × (e + page_size ≤ 2 ^ 64)

module _ (t : Teardown) where
  open t use {
    Mm, is_present, pte, addr_end, ptrs_per, entry_none, pte_clear, table_free, entry_clear,
    addr_end-bounds, addr_end-aligned, addr_end-entry, pte-absent, pte-page, pte-pte_clear,
    pte-table_free, pte-flush,
  }

  -- Nothing is mapped from `lo` up to `hi`, and elsewhere what was.
  abbrev pub Cleared : ℕ → ℕ → Mm → Mm → Type 0
  Cleared lo hi mm mm' = (b : ℕ) → pte mm' b ≡ (if leb lo b && ltb b hi then none else pte mm b)

  Cleared-trans :
      (lo mid hi : ℕ) (m0 m1 m2 : Mm)
      → lo ≤ mid
      → mid ≤ hi
      → Cleared lo mid m0 m1
      → Cleared mid hi m1 m2
      → Cleared lo hi m0 m2
  Cleared-trans lo mid hi m0 m1 m2 p q f g b = ground (arith, f b, g b)

  -- What the body of a loop does with a part of the range.
  abbrev Clears : ℕ → (ℕ → ℕ → ℕ) → (ℕ → ℕ → Mm → Mm) → Type 0
  Clears end next body =
      (a : ℕ) (mm : Mm)
      → Aligned a
      → a < end
      → (a < next a end)
        × (next a end ≤ end)
        × Aligned (next a end)
        × Cleared a (next a end) mm (body a (next a end) mm)

  walk-Cleared :
      (next : ℕ → ℕ → ℕ) (body : ℕ → ℕ → Mm → Mm) (end : ℕ)
      → Clears end next body
      → (fuel a : ℕ) (mm : Mm) → Aligned a
      → a ≤ end
      → end - a ≤ fuel
      → Cleared a end mm (walk t next body fuel a end mm)
  unfolding walk
  walk-Cleared next body end c zero a mm al le enough = λ b. ground arith
  walk-Cleared next body end c (suc fuel) a mm al le enough = elim (Bool-cases (ltb a end)) [
    | inr stop ↦ rw (stop, walk) (λ b. ground (arith, stop))
    | inl go ↦
        let lt : a < end = ground (arith, go) in
        let (up, small, al', done) = c a mm al lt in
        rw (go, walk)
          (Cleared-trans a (next a end) end mm _ _ (omega (arith, up)) small done (
            walk-Cleared next body end c fuel (next a end) (body a (next a end) mm) al' small
              (omega (arith, up, enough))))
  ]

  all_none-entries :
      (l : Level) (a : ℕ) (mm : Mm) (n i : ℕ)
      → all_none t l a mm n i ≡ true
      → (j : ℕ) → i ≤ j
      → j < i + n
      → entry_none mm l a j ≡ true
  all_none-entries l a mm zero i e j le lt = ground arith
  all_none-entries l a mm (suc n) i e j le lt = elim (Bool-cases (entry_none mm l a i)) [
    | inr full ↦ let clash : false ≡ true = rw full at e in cc
    | inl empty ↦
        let others : all_none t l a mm n (i + 1) ≡ true = rw empty at e in
        elim (Bool-cases (j == i)) [
          | inl hit ↦ let same : j ≡ i = ground (arith, hit) in rw same empty
          | inr miss ↦
              all_none-entries l a mm n (i + 1) others j (ground (arith, miss)) (omega arith)
        ]
  ]

  free_table-pte : (l : Level) (a : ℕ) (mm : Mm) (b : ℕ) → pte (free_table t l a mm) b ≡ pte mm b
  unfolding free_table
  free_table-pte l a mm b = elim (Bool-cases (all_none t l a mm (ptrs_per l) 0)) [
    | inr full ↦ rw (full, free_table) refl
    | inl empty ↦
        rw (empty, free_table)
          (pte-table_free l a mm b
            (λ i h. all_none-entries l a mm (ptrs_per l) 0 empty i (omega arith) (omega arith)))
  ]

  next_page_lem :
      (a end : ℕ)
      → Aligned a
      → Aligned end
      → a < end
      → end + page_size ≤ 2 ^ 64
      → next_page t a end ≡ a + page_size
  next_page_lem a end al al_end lt small =
      let fits : (a + page_size) % 2 ^ 64 ≡ a + page_size = omega arith in
      let whole : (a + page_size) % page_size ≡ 0 = omega arith in
      let within : ltb end (a + page_size) ≡ false = ground arith in
      rw (fits, whole) (ground (arith, within))

  in_page :
      (a b : ℕ) → Aligned a → (b / page_size == a / page_size) ≡ (leb a b && ltb b (a + page_size))
  in_page a b al = ground arith

  clear_page-Cleared :
      (a n : ℕ) (mm : Mm) → Aligned a → Cleared a (a + page_size) mm (clear_page t a n mm)
  clear_page-Cleared a n mm al b = elim (Option-cases (pte mm a)) [
    | inr (page, e) ↦ rw (e, clear_page) (pte-pte_clear a mm b ∙ rw (in_page a b al) refl)
    | inl e ↦ elim (Bool-cases (leb a b && ltb b (a + page_size))) [
      | inl inside ↦
          let same : b / page_size ≡ a / page_size = ground (arith, in_page a b al, inside) in
          rw (e, inside, clear_page) (pte-page a b mm same ∙ e)
      | inr outside ↦ rw (e, outside, clear_page) refl
    ]
  ]

  clear_page-Clears :
      (end : ℕ) → Aligned end → end + page_size ≤ 2 ^ 64 → Clears end (next_page t) (clear_page t)
  clear_page-Clears end al_end small a mm al lt =
      let n = next_page_lem a end al al_end lt small in
      rw n (omega arith, omega arith, omega arith, clear_page-Cleared a (a + page_size) mm al)

  -- Below an entry, or nothing where the entry is not present.
  level-Clears :
      (l : Level) (below : ℕ → ℕ → Mm → Mm) (end : ℕ)
      → Aligned end
      → ((a n : ℕ) (mm : Mm)
          → Aligned a
          → Aligned n
          → a ≤ n
          → n ≤ end
          → Cleared a n mm (below a n mm))
      → Clears end (addr_end l) (if_present t l below)
  level-Clears l below end al_end done a mm al lt =
      let (up, small) = addr_end-bounds l a end lt in
      let al' = addr_end-aligned l a end al al_end in
      (
        up,
        small,
        al',
        elim (Bool-cases (is_present mm l a)) [
          | inl there ↦ rw there (done a (addr_end l a end) mm al al' (omega (arith, up)) small)
          | inr absent ↦ rw absent (λ b. elim (Bool-cases (leb a b && ltb b (addr_end l a end))) [
            | inl inside ↦
                let same =
                  addr_end-entry l a end b mm (ground (arith, inside)) (ground (arith, inside)) in
                rw inside (pte-absent l b mm (same ∙ absent))
            | inr outside ↦ rw outside refl
          ])
        ],
      )

  sa_remove_pte-Cleared :
      (a e : ℕ) (mm : Mm)
      → Aligned a
      → Aligned e
      → a ≤ e
      → e + page_size ≤ 2 ^ 64
      → Cleared a e mm (sa_remove_pte t a e mm)
  unfolding sa_remove_pte
  sa_remove_pte-Cleared a e mm al al_e le small =
      walk-Cleared (next_page t) (clear_page t) e (clear_page-Clears e al_e small) (e - a) a mm al
        le (omega arith)

  sa_remove_pmd-Cleared :
      (a e : ℕ) (mm : Mm)
      → Aligned a
      → Aligned e
      → a ≤ e
      → e + page_size ≤ 2 ^ 64
      → Cleared a e mm (sa_remove_pmd t a e mm)
  unfolding sa_remove_pmd
  sa_remove_pmd-Cleared a e mm al al_e le small =
      walk-Cleared (addr_end pmd) (if_present t pmd (sa_remove_pte t)) e
        (level-Clears pmd (sa_remove_pte t) e al_e
          (λ c n m ac an cn ne. sa_remove_pte-Cleared c n m ac an cn (omega arith)))
        (e - a) a mm al le (omega arith)

  sa_remove_pud-Cleared :
      (a e : ℕ) (mm : Mm)
      → Aligned a
      → Aligned e
      → a ≤ e
      → e + page_size ≤ 2 ^ 64
      → Cleared a e mm (sa_remove_pud t a e mm)
  unfolding sa_remove_pud
  sa_remove_pud-Cleared a e mm al al_e le small =
      walk-Cleared (addr_end pud) (if_present t pud (sa_remove_pmd t)) e
        (level-Clears pud (sa_remove_pmd t) e al_e
          (λ c n m ac an cn ne. sa_remove_pmd-Cleared c n m ac an cn (omega arith)))
        (e - a) a mm al le (omega arith)

  sa_remove_p4d-Cleared :
      (a e : ℕ) (mm : Mm)
      → Aligned a
      → Aligned e
      → a ≤ e
      → e + page_size ≤ 2 ^ 64
      → Cleared a e mm (sa_remove_p4d t a e mm)
  unfolding sa_remove_p4d
  sa_remove_p4d-Cleared a e mm al al_e le small =
      walk-Cleared (addr_end p4d) (if_present t p4d (sa_remove_pud t)) e
        (level-Clears p4d (sa_remove_pud t) e al_e
          (λ c n m ac an cn ne. sa_remove_pud-Cleared c n m ac an cn (omega arith)))
        (e - a) a mm al le (omega arith)

  -- sa_remove of a range of whole pages that ends before the last page of the address space: every page
  -- of the range is unmapped, and every other one stays mapped as it was, whichever tables are freed
  -- on the way.
  pub sa_remove-Cleared :
      (start end : ℕ) (mm : Mm)
      → IsRange start end
      → start ≤ end
      → Cleared start end mm (sa_remove t start end mm)
  unfolding sa_remove
  sa_remove-Cleared start end mm r le =
      walk-Cleared (addr_end pgd) (if_present t pgd (remove_entry t)) end
        (level-Clears pgd (remove_entry t) end r.1 (λ c n m ac an cn ne b.
          free_table-pte pgd c (sa_remove_p4d t c n m) b
          ∙ sa_remove_p4d-Cleared c n m ac an cn (omega (arith, r.2)) b))
        (end - start) start mm r.0 le (omega arith)

  -- sa_tdown returns 0 and leaves no page of the shadow area mapped, and every other page as it was.
  sa_tdown_lem :
      (mm : Mm) → let (ret, mm') = sa_tdown t mm in (ret ≡ 0) × Cleared ss_start ss_end mm mm'
  unfolding sa_tdown
  sa_tdown_lem mm = (
    refl,
    λ b.
        pte-flush 0 (2 ^ 64 - 1) (sa_remove t ss_start ss_end mm) b
        ∙ sa_remove-Cleared ss_start ss_end mm (omega arith, omega arith, omega arith) (omega arith)
            b,
  )
