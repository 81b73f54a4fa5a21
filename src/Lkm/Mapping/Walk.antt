-- ===== src/Lkm/Mapping/Walk.antt =====
-- The loops of lkm/core/api.c that walk over a range of addresses while mapping pages.
use shadow_stack_llvm.Prelude.{
  ℕ, zero, suc, ◌+◌, ◌-◌, ◌*◌, ◌/◌, ◌%◌, ◌^◌, ◌≤◌, ◌<◌, ◌≡◌, ◌≢◌, refl, sym, subst, ◌∙◌, ◌⊎◌, inl,
  inr, true, false, ◌&&◌, Option, some, List, [], ◌∷◌, arith, ltb, leb, ◌==◌, if◌then◌else◌,
  get_elem?, get_elem?-some, length, All, All-map, Bool-cases,
}
use shadow_stack_llvm.Lkm.Errno.{Ret, success, fail, enomem}
use shadow_stack_llvm.Lkm.Layout.{sub64, page_size}
use shadow_stack_llvm.Lkm.PageTable.{PageTables, Level, pgd, p4d, pud, pmd}
use shadow_stack_llvm.Lkm.Mapping.{do_range, set_page, set_ptes}

abbrev pub Aligned : ℕ → Type 0
Aligned a = a % page_size ≡ 0

module _ (t : PageTables) where
  open t use {
    Mm, is_none, pte, set_pte_at, addr_end, addr_end-bounds, addr_end-aligned, addr_end-entry,
    is_none-set_pte_at, pte-set_pte_at,
  }

  -- The table above every address of the range is there.
  abbrev pub Present : Mm → ℕ → ℕ → Level → Type 0
  Present mm lo hi l = (b : ℕ) → lo ≤ b → b < hi → is_none mm l b ≡ false

  -- No table goes away.
  pub record Grows (mm mm' : Mm) : Type 0 where
    pub grows : (l : Level) (b : ℕ) → is_none mm l b ≡ false → is_none mm' l b ≡ false

  -- One entry of the level covers the range, whatever the tables hold.
  abbrev pub OneEntry : Level → ℕ → ℕ → Type 0
  OneEntry l lo hi = (mm : Mm) (b : ℕ) → lo ≤ b → b < hi → is_none mm l b ≡ is_none mm l lo

  module _ (start : ℕ) (pages : List ℕ) where
    -- The page that belongs at an address of the stack that begins at `start`.
    abbrev pub page_for : ℕ → Option ℕ
    page_for b = get_elem? pages ((b - start) / page_size)

    -- The addresses from `lo` up to `hi` are mapped to their pages, the others as they were.
    pub record Mapped (lo hi : ℕ) (mm mm' : Mm) : Type 0 where
      pub mapped : (b : ℕ) → pte mm' b ≡ (if leb lo b && ltb b hi then page_for b else pte mm b)
      pub grown : Grows mm mm'

    pub Mapped-nothing : (a : ℕ) (mm : Mm) → Mapped a a mm mm
    Mapped-nothing a mm = record {
      mapped = λ b. ground arith;
      grown = record { grows = λ l b e. e };
    }

    pub Mapped-trans :
        (lo mid hi : ℕ) {m0 m1 m2 : Mm}
        → lo ≤ mid
        → mid ≤ hi
        → Mapped lo mid m0 m1
        → Mapped mid hi m1 m2
        → Mapped lo hi m0 m2
    Mapped-trans lo mid hi p q f g = record {
      mapped = λ b. ground (arith, f.mapped b, g.mapped b);
      grown = record { grows = λ l b e. g.grown.grows l b (f.grown.grows l b e) };
    }

    -- Everything is mapped; or the memory ran out at some address, and the part below it is mapped.
    abbrev pub Outcome : ℕ → ℕ → Mm → Ret → Mm → Type 0
    Outcome lo hi mm ret mm' =
        ((ret ≡ success) × Mapped lo hi mm mm')
        ⊎ ((ret ≡ fail enomem) × ((mid : ℕ) × (lo ≤ mid) × (mid ≤ hi) × Mapped lo mid mm mm'))

    pub Outcome-trans :
        (lo mid hi : ℕ) {m0 m1 m2 : Mm} (ret : Ret)
        → lo ≤ mid
        → mid ≤ hi
        → Mapped lo mid m0 m1
        → Outcome mid hi m1 ret m2
        → Outcome lo hi m0 ret m2
    Outcome-trans lo mid hi ret p q f (inl (ok, g)) = inl (ok, Mapped-trans lo mid hi p q f g)
    Outcome-trans lo mid hi ret p q f (inr (e, (m, l, h, g))) =
        inr (e, (m, omega arith, h, Mapped-trans lo mid m p l f g))

    pub Outcome-longer :
        (lo mid hi : ℕ) {m0 m1 : Mm}
        → mid ≤ hi
        → ((m : ℕ) × (lo ≤ m) × (m ≤ mid) × Mapped lo m m0 m1)
        → Outcome lo hi m0 (fail enomem) m1
    Outcome-longer lo mid hi h (m, l, k, g) = inr (refl, (m, l, omega arith, g))

    abbrev pub AllPresent : Mm → ℕ → ℕ → Type 0
    AllPresent mm lo hi = All (Present mm lo hi) (pmd ∷ pud ∷ p4d ∷ pgd ∷ [])

    -- Writing the entry of one page.
    set_page-Mapped :
        (addr : ℕ) (mm : Mm) {p : ℕ}
        → Aligned addr
        → Aligned start
        → start ≤ addr
        → addr < 2 ^ 64
        → page_for addr ≡ some p
        → AllPresent mm addr (addr + 1)
        → Mapped addr (addr + page_size) mm (set_page t start pages addr mm)
    unfolding set_page
    set_page-Mapped addr mm {p} al al' le small e present =
        let index : sub64 addr start ≡ addr - start = omega arith in
        rw (index, e, set_page)
          (record {
            mapped = λ b.
                pte-set_pte_at addr p mm b (present.1.1.1.0 addr (omega arith) (omega arith))
                  (present.1.1.0 addr (omega arith) (omega arith))
                  (present.1.0 addr (omega arith) (omega arith))
                  (present.0 addr (omega arith) (omega arith))
                ∙ same_page b;
            grown = record { grows = λ l b k. is_none-set_pte_at addr p mm l b ∙ k };
          })
      where
        same_page :
            (b : ℕ)
            → (if b / page_size == addr / page_size then some p else pte mm b)
              ≡ (if leb addr b && ltb b (addr + page_size) then page_for b else pte mm b)
        same_page b = elim (Bool-cases (b / page_size == addr / page_size)) [
          | inl hit ↦
              let q : b / page_size ≡ addr / page_size = ground arith in
              let i : (b - start) / page_size ≡ (addr - start) / page_size = omega arith in
              let lo : leb addr b ≡ true = ground arith in
              let hi : ltb b (addr + page_size) ≡ true = ground arith in rw (hit, lo, hi, i) (sym e)
          | inr miss ↦
              let q : b / page_size ≢ addr / page_size =
                λ (k : b / page_size ≡ addr / page_size). ground arith in
              let out : (leb addr b && ltb b (addr + page_size)) ≡ false = ground arith in
              rw (miss, out)
        ]

    -- The array has a page for every address up to `hi`.
    abbrev pub Covers : ℕ → Type 0
    Covers hi = hi ≤ start + length pages * page_size

    pub AllPresent-part :
        (lo hi lo' hi' : ℕ) {mm mm' : Mm}
        → lo ≤ lo'
        → hi' ≤ hi
        → Grows mm mm'
        → AllPresent mm lo hi
        → AllPresent mm' lo' hi'
    AllPresent-part lo hi lo' hi' {mm} {mm'} p q g a =
        All-map (Present mm lo hi) {Q = Present mm' lo' hi'}
          (λ l k b x y. g.grows l b (k b (omega arith) (omega arith))) (pmd ∷ pud ∷ p4d ∷ pgd ∷ [])
          a

    pub set_ptes-Mapped :
        (fuel addr hi : ℕ) (mm : Mm)
        → Aligned addr
        → Aligned hi
        → Aligned start
        → start ≤ addr
        → addr < hi
        → hi < 2 ^ 64
        → hi - addr ≤ fuel
        → Covers hi
        → AllPresent mm addr hi
        → Mapped addr hi mm (set_ptes t start pages fuel addr hi mm)
    unfolding set_ptes
    set_ptes-Mapped zero addr hi mm al ah ab le lt small f c present = absurd (omega arith)
    set_ptes-Mapped (suc fuel) addr hi mm al ah ab le lt small f c present =
        let next : (addr + page_size) % 2 ^ 64 ≡ addr + page_size = omega arith in
        let (p, e) = get_elem?-some pages ((addr - start) / page_size) (omega arith) in
        let first = set_page-Mapped addr mm al ab le (omega arith) e (
          AllPresent-part addr hi addr (addr + 1) (omega arith) (omega arith)
            (record { grows = λ l b k. k }) present) in
        elim (Bool-cases (addr + page_size == hi)) [
          | inl last ↦
              let stop : hi ≡ addr + page_size = ground arith in
              rw (next, last, set_ptes) (rw stop first)
          | inr more ↦
              let before : addr + page_size < hi = ground arith in
              rw (next, more, set_ptes, next)
                (Mapped-trans addr (addr + page_size) hi (omega arith) (omega arith) first (
                  set_ptes-Mapped fuel (addr + page_size) hi _ (omega arith) ah ab (omega arith)
                    before small (omega arith) c
                    (AllPresent-part addr hi (addr + page_size) hi (omega arith) (omega arith)
                      first.grown present)))
        ]

    module _ (l : Level) (body : ℕ → ℕ → Mm → Ret × Mm) (lo hi : ℕ) (m0 : Mm)
        (done : (a n : ℕ) (x : Mm)
          → lo ≤ a
          → a < n
          → n ≤ hi
          → Aligned a
          → Aligned n
          → OneEntry l a n
          → Grows m0 x
          → Outcome a n x (body a n x).0 (body a n x).1) where
      -- A loop over parts that each have an outcome has one for the whole range.
      pub do_range-Outcome :
          (fuel a : ℕ) (x : Mm)
          → lo ≤ a
          → a < hi
          → Aligned a
          → Aligned hi
          → hi - a ≤ fuel
          → Grows m0 x
          → let (ret, _, y) = do_range t (addr_end l) body fuel a hi x in Outcome a hi x ret y
      unfolding do_range
      do_range-Outcome zero a x h k al ah f g = absurd (omega arith)
      do_range-Outcome (suc fuel) a x h k al ah f g =
          let n = addr_end l a hi in
          let b = addr_end-bounds l a hi k in
          let an = addr_end-aligned l a hi al ah in
          elim (done a n x h b.0 b.1 al an (λ mm c p q. addr_end-entry l a hi c mm p q) g) [
            | inr (e, part) ↦ rw (e, do_range) (Outcome-longer a n hi b.1 part)
            | inl (e, part) ↦ elim (Bool-cases (n == hi)) [
              | inl last ↦
                  let stop : n ≡ hi = ground arith in
                  rw (e, last, do_range)
                    (inl (refl, subst (λ k. Mapped a k x (body a n x).1) stop part))
              | inr more ↦
                  let before : n < hi = ground arith in
                  rw (e, more, do_range)
                    (Outcome-trans a n hi _ (omega arith) b.1 part (
                      do_range-Outcome fuel n _ (omega arith) before an ah (omega arith)
                        (record { grows = λ k c z. part.grown.grows k c (g.grows k c z) })))
            ]
          ]
