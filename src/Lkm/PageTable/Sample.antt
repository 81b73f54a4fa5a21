-- ===== src/Lkm/PageTable/Sample.antt =====
-- Page tables of x86-64 with five levels that meet the laws of Lkm.PageTable, for tests. There is
-- memory for a given number of tables.
use Prim.Native.Nat.{min}
use shadow_stack_llvm.Prelude.{
  ℕ, ◌+◌, ◌-◌, ◌*◌, ◌/◌, ◌%◌, ◌^◌, ◌≤◌, ◌<◌, ◌≡◌, refl, Bool, true, false, ◌&&◌, Option, none, some,
  arith, ltb, ◌==◌, if◌then◌else◌,
}
use shadow_stack_llvm.Lkm.Layout.{page_size}
use shadow_stack_llvm.Lkm.PageTable.{PageTables, Level, pgd, p4d, pud, pmd}

pub record Tables : Type 0 where
  pub budget : ℕ
  pub empty : Level → ℕ → Bool
  pub entry : ℕ → Option ℕ

-- The bytes that an entry covers.
abbrev pub span : Level → ℕ
span pmd = 2 ^ 21
span pud = 2 ^ 30
span p4d = 2 ^ 39
span pgd = 2 ^ 48

abbrev pub same_level : Level → Level → Bool
same_level pgd pgd = true
same_level p4d p4d = true
same_level pud pud = true
same_level pmd pmd = true
same_level _ _ = false

same_level_refl : (l : Level) → same_level l l ≡ true
same_level_refl pgd = refl
same_level_refl p4d = refl
same_level_refl pud = refl
same_level_refl pmd = refl

unfoldable pub sample_end : Level → ℕ → ℕ → ℕ
sample_end l a e = min ((a / span l + 1) * span l) e

pub sample_end-bounds :
    (l : Level) (a e : ℕ) → a < e → (a < sample_end l a e) × (sample_end l a e ≤ e)
unfolding sample_end
sample_end-bounds pgd a e h = (omega arith, omega arith)
sample_end-bounds p4d a e h = (omega arith, omega arith)
sample_end-bounds pud a e h = (omega arith, omega arith)
sample_end-bounds pmd a e h = (omega arith, omega arith)

pub sample_end-aligned :
    (l : Level) (a e : ℕ) → a % page_size ≡ 0 → e % page_size ≡ 0 → sample_end l a e % page_size ≡ 0
unfolding sample_end
sample_end-aligned pgd a e h k = omega arith
sample_end-aligned p4d a e h k = omega arith
sample_end-aligned pud a e h k = omega arith
sample_end-aligned pmd a e h k = omega arith

unfoldable pub sample_none : Tables → Level → ℕ → Bool
sample_none mm l a = mm.empty l (a / span l)

pub sample_end-index :
    (l : Level) (a e b : ℕ) → a ≤ b → b < sample_end l a e → b / span l ≡ a / span l
unfolding sample_end
sample_end-index pgd a e b h k = omega arith
sample_end-index p4d a e b h k = omega arith
sample_end-index pud a e b h k = omega arith
sample_end-index pmd a e b h k = omega arith

pub sample_end-entry :
    (l : Level) (a e b : ℕ) (mm : Tables)
    → a ≤ b
    → b < sample_end l a e
    → sample_none mm l b ≡ sample_none mm l a
unfolding sample_none
sample_end-entry l a e b mm h k = rw (sample_end-index l a e b h k, sample_none)

fill : Level → ℕ → Tables → Tables
fill l a mm = record mm {
  budget = mm.budget - 1;
  empty = λ k i. if same_level k l && i == a / span l then false else mm.empty k i;
}

unfoldable pub sample_table_alloc : Level → ℕ → Tables → Bool × Tables
unfolding fill
sample_table_alloc l a mm = if ltb 0 mm.budget then (true, fill l a mm) else (false, mm)

pub sample_table_alloc-fills :
    (l : Level) (a : ℕ) (mm : Tables)
    → (sample_table_alloc l a mm).0 ≡ true
    → sample_none (sample_table_alloc l a mm).1 l a ≡ false
unfolding sample_table_alloc sample_none
sample_table_alloc-fills l a mm h = ground (arith, same_level_refl l)

pub sample_table_alloc-keeps :
    (l : Level) (a : ℕ) (mm : Tables) (k : Level) (b : ℕ)
    → sample_none mm k b ≡ false
    → sample_none (sample_table_alloc l a mm).1 k b ≡ false
unfolding sample_table_alloc sample_none
sample_table_alloc-keeps l a mm k b h = ground arith

pub entry-sample_table_alloc :
    (l : Level) (a : ℕ) (mm : Tables) (b : ℕ)
    → (sample_table_alloc l a mm).1.entry (b / page_size) ≡ mm.entry (b / page_size)
unfolding sample_table_alloc
entry-sample_table_alloc l a mm b = ground arith

pub set_entry-none :
    (a p : ℕ) (mm : Tables) (k : Level) (b : ℕ)
    → sample_none (record mm { entry = λ i. if i == a / page_size then some p else mm.entry i }) k b
      ≡ sample_none mm k b
unfolding sample_none
set_entry-none a p mm k b = refl

abbrev pub sample_tables : PageTables
sample_tables = record {
  Mm = Tables;
  is_none = sample_none;
  pte = λ mm a. mm.entry (a / page_size);
  addr_end = sample_end;
  table_alloc = sample_table_alloc;
  set_pte_at =
      λ a p mm. record mm { entry = λ i. if i == a / page_size then some p else mm.entry i };
  flush_tlb_mm_range = λ a e mm. mm;
  addr_end-bounds = sample_end-bounds;
  addr_end-aligned = sample_end-aligned;
  addr_end-entry = sample_end-entry;
  table_alloc-fills = sample_table_alloc-fills;
  table_alloc-keeps = sample_table_alloc-keeps;
  pte-table_alloc = entry-sample_table_alloc;
  is_none-set_pte_at = set_entry-none;
  pte-set_pte_at = λ a p mm b h1 h2 h3 h4. refl;
  is_none-flush = λ a e mm k b. refl;
  pte-flush = λ a e mm b. refl;
}

-- A process with no tables, and memory for `n` of them.
abbrev pub no_tables : ℕ → Tables
no_tables n = record { budget = n; empty = λ l i. true; entry = λ i. none }
