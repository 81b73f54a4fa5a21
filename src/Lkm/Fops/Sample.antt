-- ===== src/Lkm/Fops/Sample.antt =====
-- Page tables that meet the laws of Lkm.Fops, for tests: a list of the pages that are mapped, each to
-- the frame of its own number. An entry is present when something is mapped below it.
use shadow_stack_llvm.Prelude.{
  ℕ, ◌+◌, ◌*◌, ◌/◌, ◌^◌, ◌≡◌, refl, sym, ap, inl, inr, Bool, true, false, ◌||◌, not, Option, none,
  some, List, [], ◌∷◌, arith, ◌==◌, if◌then◌else◌, Bool-cases,
}
use shadow_stack_llvm.Lkm.Layout.{page_size}
use shadow_stack_llvm.Lkm.Memory.{is_mem}
use shadow_stack_llvm.Lkm.PageTable.{Level, pgd, p4d, pud, pmd}
use shadow_stack_llvm.Lkm.PageTable.Sample.{
  span, sample_end, sample_end-bounds, sample_end-aligned, sample_end-index,
}
use shadow_stack_llvm.Lkm.Fops.{Teardown}

abbrev some_below : Level → ℕ → List ℕ → Bool
some_below l index [] = false
some_below l index (p ∷ ps) = (p * page_size / span l == index) || some_below l index ps

-- The bytes that an entry of the table below covers.
abbrev below_span : Level → ℕ
below_span pmd = page_size
below_span pud = 2 ^ 21
below_span p4d = 2 ^ 30
below_span pgd = 2 ^ 39

abbrev in_entry : Level → ℕ → List ℕ → Bool
in_entry l index [] = false
in_entry l index (p ∷ ps) = (p * page_size / below_span l == index) || in_entry l index ps

abbrev without : ℕ → List ℕ → List ℕ
without q [] = []
without q (p ∷ ps) = let rest = without q ps in if p == q then rest else p ∷ rest

abbrev mapped : List ℕ → ℕ → Option ℕ
mapped mm a = if is_mem (a / page_size) mm then some (a / page_size) else none

whole_page : (l : Level) (a : ℕ) → a / page_size * page_size / span l ≡ a / span l
whole_page pgd a = omega arith
whole_page p4d a = omega arith
whole_page pud a = omega arith
whole_page pmd a = omega arith

or_right : (p q : Bool) → (p || q) ≡ false → q ≡ false
or_right true q e = cc
or_right false q e = e

pub absent_mem :
    (l : Level) (a : ℕ) (mm : List ℕ)
    → some_below l (a / span l) mm ≡ false
    → is_mem (a / page_size) mm ≡ false
absent_mem l a [] e = refl
absent_mem l a (p ∷ ps) e = elim (Bool-cases (a / page_size == p)) [
  | inl hit ↦
      let same : a / page_size ≡ p = ground (arith, hit) in
      let below : p * page_size / span l ≡ a / span l = rw (sym same) (whole_page l a) in
      let found : (p * page_size / span l == a / span l) ≡ true = ground (arith, below) in
      let clash : true ≡ false = rw found at e in cc
  | inr miss ↦ rw miss (absent_mem l a ps (or_right (p * page_size / span l == a / span l) _ e))
]

mem_without :
    (q r : ℕ) (mm : List ℕ) → is_mem q (without r mm) ≡ (if q == r then false else is_mem q mm)
mem_without q r [] = ground arith
mem_without q r (p ∷ ps) = ground (arith, mem_without q r ps)

pub mapped_without :
    (a : ℕ) (mm : List ℕ) (b : ℕ)
    → mapped (without (a / page_size) mm) b
      ≡ (if b / page_size == a / page_size then none else mapped mm b)
mapped_without a mm b = ground (arith, mem_without (b / page_size) (a / page_size) mm)

abbrev pub sample_teardown : Teardown
sample_teardown = record {
  Mm = List ℕ;
  is_present = λ mm l a. some_below l (a / span l) mm;
  pte = mapped;
  addr_end = sample_end;
  ptrs_per = λ l. 512;
  entry_none = λ mm l a i. not (in_entry l (a / span l * 512 + i) mm);
  pte_clear = λ a mm. without (a / page_size) mm;
  table_free = λ l a mm. mm;
  entry_clear = λ l a mm. mm;
  flush_tlb_mm_range = λ a e mm. mm;
  addr_end-bounds = sample_end-bounds;
  addr_end-aligned = sample_end-aligned;
  addr_end-entry = λ l a e b mm h k. ap (λ i. some_below l i mm) (sample_end-index l a e b h k);
  pte-absent = λ l a mm e. rw (absent_mem l a mm e) refl;
  pte-page = λ a b mm e. rw e refl;
  pte-pte_clear = mapped_without;
  pte-table_free = λ l a mm b h. refl;
  pte-flush = λ a e mm b. refl;
}
