-- ===== src/Lkm/PgdRange/Tests.antt =====
-- The walk over sample tables.
use shadow_stack_llvm.Prelude.{
  ℕ, ◌+◌, ◌*◌, ◌/◌, ◌%◌, ◌^◌, ◌≡◌, ◌≢◌, refl, ◌⊎◌, inl, inr, Bool, true, false, ◌&&◌, none, some,
  List, [], ◌∷◌, ◌==◌, if◌then◌else◌, ltb, arith, Bool-cases,
}
use shadow_stack_llvm.Lkm.PageTable.{Level, pgd, p4d, pud, pmd}
use shadow_stack_llvm.Lkm.PageTable.Sample.{span, same_level}
use shadow_stack_llvm.Lkm.PgdRange.{Entries, Tlb}

-- The entries that are empty, and the pages that were freed.
record Walked : Type 0 where
  empty : Level → ℕ → Bool
  freed : List ℕ

abbrev cleared : Level → ℕ → Walked → Walked
cleared l p mm = record mm {
  empty = λ k q. if same_level k l && (q == p) then true else mm.empty k q;
}

cleared_self : (l : Level) (p : ℕ) (mm : Walked) → (cleared l p mm).empty l p ≡ true
cleared_self pgd p mm = ground arith
cleared_self p4d p mm = ground arith
cleared_self pud p mm = ground arith
cleared_self pmd p mm = ground arith

differ : (k l : Level) → k ≢ l → same_level k l ≡ false
differ pgd pgd h = absurd (h refl)
differ p4d p4d h = absurd (h refl)
differ pud pud h = absurd (h refl)
differ pmd pmd h = absurd (h refl)
differ pgd p4d h = refl
differ pgd pud h = refl
differ pgd pmd h = refl
differ p4d pgd h = refl
differ p4d pud h = refl
differ p4d pmd h = refl
differ pud pgd h = refl
differ pud p4d h = refl
differ pud pmd h = refl
differ pmd pgd h = refl
differ pmd p4d h = refl
differ pmd pud h = refl

cleared-other :
    (l k : Level) (p q : ℕ) (mm : Walked)
    → (k ≢ l) ⊎ (q ≢ p)
    → (cleared l p mm).empty k q ≡ mm.empty k q
cleared-other l k p q mm (inl h) = rw (differ k l h) refl
cleared-other l k p q mm (inr h) = elim (Bool-cases (same_level k l)) [
  | inl e ↦ let off : (q == p) ≡ false = ground (arith, h) in rw (e, off) refl
  | inr e ↦ rw e refl
]

-- The tables of an entry are found by its address; no entry is bad, and there is a page for a batch.
abbrev sample_entries : Entries
sample_entries = record {
  Mm = Walked;
  size = span;
  pgd_offset = λ mm addr. 8 * (addr / 2 ^ 48 % 512);
  offset = λ l above addr mm. above * 512 + 8 * (addr / span l % 512);
  is_none = λ mm l p. mm.empty l p;
  is_bad = λ mm l p. false;
  clear = cleared;
  addr_end = λ l a e. if ltb ((a / span l + 1) * span l) e then (a / span l + 1) * span l else e;
  pmd_pgtable = λ mm p. p;
  mm_dec_nr = λ l mm. mm;
  get_free_page = λ mm. (some (8192, λ i. 0), mm);
  free_page = λ page mm. record mm { freed = page ∷ mm.freed };
  size-pmd = refl;
  size-pud = refl;
  addr_end_lem = λ l a e less small. refl;
  is_none-clear_self = cleared_self;
  is_none-clear = cleared-other;
  is_bad-clear = λ l p q mm h. refl;
  is_none-mm_dec_nr = λ l k q mm. refl;
  is_bad-mm_dec_nr = λ l k q mm. refl;
  is_none-get_free_page = λ k q mm. refl;
  is_bad-get_free_page = λ k q mm. refl;
  is_none-free_page = λ page k q mm. refl;
  is_bad-free_page = λ page k q mm. refl;
}

abbrev full_tables : Walked
full_tables = record { empty = λ l p. false; freed = [] }

abbrev at_first : Tlb sample_entries
at_first = record { mm = full_tables; start = 0; end = 0; clear_pmds = false; batch = none }
