-- ===== src/Lkm/PgdRange/Cleared.antt =====
-- Which entries free_pmd_range of lkm/core/api.c clears.
use shadow_stack_llvm.Prelude.{
  ℕ, zero, suc, ◌+◌, ◌-◌, ◌*◌, ◌/◌, ◌%◌, ◌^◌, ◌<◌, ◌≡◌, ◌≢◌, refl, sym, ap, ◌∙◌, inl, inr, Bool,
  true, false, ◌||◌, ◌&&◌, not, List, [], ◌∷◌, ◌==◌, ltb, arith, Bool-cases, neither,
}
use shadow_stack_llvm.Lkm.Memory.{is_mem}
use shadow_stack_llvm.Lkm.PageTable.{Level, p4d, pud, pmd}
use shadow_stack_llvm.Lkm.PgdRange.{
  Entries, Tlb, free_pte_range, visit, each_entry, covers, free_pmd_range,
}
use shadow_stack_llvm.Lkm.PgdRange.Same.{free_pte_range-Same}

pub or_false : (b : Bool) → (b || false) ≡ b
or_false true = refl
or_false false = refl

pub or_true : (b : Bool) → (b || true) ≡ true
or_true true = refl
or_true false = refl

pub and_false : (a b : Bool) → (a || (b && false)) ≡ a
and_false true b = refl
and_false false true = refl
and_false false false = refl

-- The addresses of so many entries.
abbrev pub slots : ℕ → ℕ → List ℕ
slots p zero = []
slots p (suc n) = p ∷ slots (p + 8) n

slots-below : (q p n : ℕ) → q < p → is_mem q (slots p n) ≡ false
slots-below q p zero h = refl
slots-below q p (suc n) h =
    let rest = slots-below q (p + 8) n (omega (arith, h)) in
    let first : (q == p) ≡ false = ground (arith, h) in rw (first, rest) refl

module _ (v : Entries) where
  open v use {Mm, is_none, is_bad, clear, mm_dec_nr, get_free_page, free_page, addr_end, offset}

  -- The entries at `at` have been visited.
  record Visited (at : List ℕ) (mm mm' : Mm) : Type 0 where
    cleared :
        (q : ℕ) → is_none mm' pmd q ≡ (is_none mm pmd q || (is_mem q at && not (is_bad mm pmd q)))
    above : (k : Level) (q : ℕ) → k ≢ pmd → is_none mm' k q ≡ is_none mm k q
    bad : (q : ℕ) → is_mem q at ≡ false → is_bad mm' pmd q ≡ is_bad mm pmd q

  Visited-trans :
      (p : ℕ) (rest : List ℕ) {a b c : Mm}
      → is_mem p rest ≡ false
      → Visited (p ∷ []) a b
      → Visited rest b c
      → Visited (p ∷ rest) a c
  Visited-trans p rest {a} {b} {c} apart f g = record {
    cleared = λ q. elim (Bool-cases (q == p)) [
      | inl hit ↦
          let same : q ≡ p = ground (arith, hit) in
          let away : is_mem q rest ≡ false = ap (λ y. is_mem y rest) same ∙ apart in
          let one : is_none b pmd q ≡ (is_none a pmd q || not (is_bad a pmd q)) =
            f.cleared q ∙ rw hit refl in
          g.cleared q ∙ rw (away, hit, one) (or_false _)
      | inr miss ↦
          let one : is_none b pmd q ≡ is_none a pmd q =
            f.cleared q ∙ rw miss (or_false (is_none a pmd q)) in
          let same : is_bad b pmd q ≡ is_bad a pmd q = f.bad q (rw miss refl) in
          g.cleared q ∙ rw (miss, one, same) refl
    ];
    above = λ k q other. g.above k q other ∙ f.above k q other;
    bad = λ q away.
        let (first, later) = neither (q == p) (is_mem q rest) away in
        g.bad q later ∙ f.bad q (rw first refl);
  }

  visit-Visited :
      (entry addr next : ℕ) (tlb : Tlb v)
      → Visited (entry ∷ []) tlb.mm (visit v pmd (free_pte_range v) entry addr next tlb).mm
  unfolding visit
  visit-Visited entry addr next tlb =
      let skip = is_none tlb.mm pmd entry || is_bad tlb.mm pmd entry in
      elim (Bool-cases skip) [
        | inl skipped ↦ rw skipped (record {
          cleared = λ q. elim (Bool-cases (q == entry)) [
            | inl hit ↦
                let same : q ≡ entry = ground (arith, hit) in
                rw (hit, same)
                  (skipped_lem (is_none tlb.mm pmd entry) (is_bad tlb.mm pmd entry) skipped)
            | inr miss ↦ rw miss (sym (or_false (is_none tlb.mm pmd q)))
          ];
          above = λ k q other. refl;
          bad = λ q away. refl;
        })
        | inr taken ↦
            let f = free_pte_range-Same v entry addr next tlb in
            rw taken (record {
              cleared = λ q. elim (Bool-cases (q == entry)) [
                | inl hit ↦
                    let same : q ≡ entry = ground (arith, hit) in
                    f.none_same pmd q
                    ∙ rw (hit, same)
                        (v.is_none-clear_self pmd entry tlb.mm
                          ∙ taken_lem (is_none tlb.mm pmd entry) (is_bad tlb.mm pmd entry) taken)
                | inr miss ↦
                    f.none_same pmd q
                    ∙ v.is_none-clear pmd pmd entry q tlb.mm (inr (λ e. ground (arith, e, miss)))
                    ∙ rw miss (sym (or_false (is_none tlb.mm pmd q)))
              ];
              above =
                  λ k q other. f.none_same k q ∙ v.is_none-clear pmd k entry q tlb.mm (inl other);
              bad = λ q away.
                  f.bad_same pmd q
                  ∙ v.is_bad-clear pmd entry q tlb.mm (λ e.
                    let miss = (neither (q == entry) false away).0 in ground (arith, e, miss));
            })
      ]
    where
      skipped_lem : (a b : Bool) → (a || b) ≡ true → a ≡ (a || not b)
      skipped_lem true b e = refl
      skipped_lem false true e = refl
      skipped_lem false false e = cc

      taken_lem : (a b : Bool) → (a || b) ≡ false → true ≡ (a || not b)
      taken_lem false false e = refl
      taken_lem true b e = cc
      taken_lem false true e = cc

  -- The next address: the one behind the entry, or the end.
  pmd_end-more :
      (a e : ℕ)
      → e < 2 ^ 64
      → a / 2 ^ 21 < (e - 1) / 2 ^ 21
      → addr_end pmd a e ≡ (a / 2 ^ 21 + 1) * 2 ^ 21
  pmd_end-more a e small more =
      let below : ltb ((a / 2 ^ 21 + 1) * 2 ^ 21) e ≡ true = ground arith in
      v.addr_end_lem pmd a e (omega arith) small ∙ rw (v.size-pmd, below) refl

  pmd_end_last :
      (a e : ℕ) → a < e → e < 2 ^ 64 → a / 2 ^ 21 ≡ (e - 1) / 2 ^ 21 → addr_end pmd a e ≡ e
  pmd_end_last a e less small last =
      let beyond : ltb ((a / 2 ^ 21 + 1) * 2 ^ 21) e ≡ false = ground arith in
      v.addr_end_lem pmd a e less small ∙ rw (v.size-pmd, beyond) refl

  -- The loop of free_pmd_range, for the entries from the address to the end.
  each_entry-Visited :
      (n rounds entry addr end : ℕ) (tlb : Tlb v)
      → addr < end
      → end < 2 ^ 64
      → (end - 1) / 2 ^ 21 ≡ addr / 2 ^ 21 + n
      → n < rounds
      → entry + 8 * n < 2 ^ 64
      → Visited
          (slots entry (suc n))
          tlb.mm
          (each_entry v pmd (free_pte_range v) rounds entry addr end tlb).mm
  unfolding each_entry
  each_entry-Visited n zero entry addr end tlb less small count enough fits =
      absurd (omega (arith, enough))
  each_entry-Visited zero (suc rounds) entry addr end tlb less small count enough fits =
      let next = addr_end pmd addr end in
      let stop : next ≡ end = pmd_end_last addr end less small (omega (arith, count)) in
      let here : (next == end) ≡ true = ground (arith, stop) in
      rw (here, each_entry) (visit-Visited entry addr next tlb)
  each_entry-Visited (suc n) (suc rounds) entry addr end tlb less small count enough fits =
      let next = addr_end pmd addr end in
      let go : next ≡ (addr / 2 ^ 21 + 1) * 2 ^ 21 =
        pmd_end-more addr end small (omega (arith, count)) in
      let on : (next == end) ≡ false = ground (arith, count, go) in
      let after : (entry + 8) % 2 ^ 64 ≡ entry + 8 = omega (arith, fits) in
      let tlb' = visit v pmd (free_pte_range v) entry addr next tlb in
      rw (on, after, each_entry)
        (Visited-trans entry (slots (entry + 8) (suc n))
          (slots-below entry (entry + 8) (suc n) (omega arith)) (visit-Visited entry addr next tlb)
          (each_entry-Visited n rounds (entry + 8) next end tlb' (omega (arith, count, go)) small
            (omega (arith, count, go)) (omega (arith, enough)) (omega (arith, fits))))

  -- free_pmd_range of a range that is not empty and has no more entries than rounds: behind it the pmd
  -- entries are empty that were, and those of the range that were not bad; the entry above is empty if
  -- it was, or if the range covers it as far as floor and ceiling go.
  pub free_pmd_range_lem :
      (n rounds entry addr end floor ceiling q : ℕ) (tlb : Tlb v)
      → addr < end
      → end < 2 ^ 64
      → (end - 1) / 2 ^ 21 ≡ addr / 2 ^ 21 + n
      → n < rounds
      → offset pmd entry addr tlb.mm + 8 * n < 2 ^ 64
      → let mm' = (free_pmd_range v rounds entry addr end floor ceiling tlb).mm in
        let at = slots (offset pmd entry addr tlb.mm) (suc n) in
        (is_none mm' pmd q ≡ (is_none tlb.mm pmd q || (is_mem q at && not (is_bad tlb.mm pmd q))))
        × (is_none mm' pud q
            ≡ (is_none tlb.mm pud q || ((q == entry) && covers v pud addr end floor ceiling)))
        × (is_none mm' p4d q ≡ is_none tlb.mm p4d q)
  unfolding free_pmd_range
  free_pmd_range_lem n rounds entry addr end floor ceiling q tlb less small count enough fits =
      let first = offset pmd entry addr tlb.mm in
      let tlb' = each_entry v pmd (free_pte_range v) rounds first addr end tlb in
      let f = each_entry-Visited n rounds first addr end tlb less small count enough fits in
      let untouched : is_none tlb'.mm pud q ≡ is_none tlb.mm pud q = f.above pud q pud-pmd in
      elim (Bool-cases (covers v pud addr end floor ceiling)) [
        | inr part ↦
            rw (part, free_pmd_range)
              (
                f.cleared q,
                untouched ∙ sym (and_false (is_none tlb.mm pud q) (q == entry)),
                f.above p4d q (λ e. cc),
              )
        | inl whole ↦
            let counted = v.is_none-mm_dec_nr pud in
            rw (whole, free_pmd_range)
              (
                counted pmd q _
                    ∙ v.is_none-clear pud pmd entry q tlb'.mm (inl pmd-pud)
                    ∙ f.cleared q,
                counted pud q _ ∙ elim (Bool-cases (q == entry)) [
                  | inl hit ↦
                      let same : q ≡ entry = ground (arith, hit) in
                      rw (hit, same) (v.is_none-clear_self pud entry tlb'.mm ∙ sym (or_true _))
                  | inr miss ↦
                      v.is_none-clear pud pud entry q tlb'.mm (inr (λ e. ground (arith, e, miss)))
                      ∙ untouched
                      ∙ rw miss (sym (or_false (is_none tlb.mm pud q)))
                ],
                counted p4d q _
                    ∙ v.is_none-clear pud p4d entry q tlb'.mm (inl (λ e. cc))
                    ∙ f.above p4d q (λ e. cc),
              )
      ]
    where
      pud-pmd : pud ≢ pmd
      pud-pmd e = cc

      pmd-pud : pmd ≢ pud
      pmd-pud e = cc
