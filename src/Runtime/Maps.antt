-- ===== src/Runtime/Maps.antt =====
-- runtime/mapping.c: the choice of an address range that nothing is mapped in, from the lines of
-- /proc/self/maps, and the reservation of the other ranges. The conversions of a line by strtoull,
-- malloc and mmap are arguments.
pub mod Gaps
mod Tests
use shadow_stack_llvm.Prelude.{
  ℕ, ◌-◌, ◌%◌, Bool, true, false, ◌||◌, ◌&&◌, not, Option, none, some, List, [], ◌∷◌, ltb, leb,
  ◌==◌, if◌then◌else◌, length,
}

abbrev pub base_address : ℕ
base_address = 0x700000000000

abbrev pub ceil_address : ℕ
ceil_address = 0x7fffffffffff

-- What strtoull makes of the two numbers of a line, and whether the character after the first is '-',
-- and the one after the second a blank or a tabulator.
pub record Line : Type 0 where
  pub lo : ℕ
  pub dash : Bool
  pub hi : ℕ
  pub blank : Bool

-- A list of struct MemArea, each of them from `lo` up to `hi`.
pub record MemArea : Type 0 where
  pub lo : ℕ
  pub hi : ℕ

-- Whether malloc succeeds for one more area when there are that many, and whether mmap of a fixed range
-- does.
pub record Libc : Type 0 where
  pub malloc_area : ℕ → Bool
  pub mmap_fixed : ℕ → ℕ → Bool

abbrev pub align : ℕ → ℕ
align a = a - a % 16

module _ (c : Libc) where
  open c use {malloc_area, mmap_fixed}

  -- none for -1.
  unfoldable pub insert_ma : List MemArea → ℕ → ℕ → Option (List MemArea)
  insert_ma areas lo hi =
      if malloc_area (length areas) then some (record { lo = lo; hi = hi } ∷ areas) else none

  -- The area before a line, if there is one.
  unfoldable pub insert_gap : List MemArea → ℕ → ℕ → Option (List MemArea)
  unfolding insert_ma
  insert_gap areas prev_hi lo = if ltb prev_hi lo then insert_ma areas prev_hi lo else some areas

  -- The loop over the lines; none for `goto out2`.
  unfoldable pub scan : List Line → ℕ → List MemArea → Option (ℕ × List MemArea)
  unfolding insert_gap
  scan [] prev_hi areas = some (prev_hi, areas)
  scan (l ∷ ls) prev_hi areas = elim ((l.lo == 0) || not l.dash) [
    | true ↦ none
    | false ↦ elim (ltb ceil_address l.lo) [
      | true ↦ scan ls prev_hi areas
      | false ↦ elim ((l.hi == 0) || not l.blank) [
        | true ↦ none
        | false ↦ elim (insert_gap areas prev_hi l.lo) [
          | none ↦ none
          | some areas' ↦ scan ls (if ltb prev_hi l.hi then l.hi else prev_hi) areas'
        ]
      ]
    ]
  ]

  -- All the areas: those between the lines and the one above the last line.
  unfoldable pub all_gaps : List Line → Option (List MemArea)
  unfolding scan insert_gap
  all_gaps lines = elim (scan lines base_address []) [
    | none ↦ none
    | some r ↦ insert_gap r.1 r.0 ceil_address
  ]

  unfoldable pub first_fit : ℕ → List MemArea → Option MemArea
  first_fit min [] = none
  first_fit min (a ∷ as') = if leb min (a.hi - a.lo) then some a else first_fit min as'

  -- The end of the area, both bounds moved down to a multiple of 16.
  unfoldable pub target : ℕ → MemArea → MemArea
  target min a =
      let lo = if ltb min (a.hi - a.lo) then a.hi - min else a.lo in
      record { lo = align lo; hi = align a.hi }

  -- Whether every area outside the target could be reserved.
  unfoldable pub reserve_all : List MemArea → MemArea → Bool
  reserve_all [] t = true
  reserve_all (p ∷ ps) t =
      if (leb t.hi p.lo || leb p.hi t.lo) && not (mmap_fixed p.lo (p.hi - p.lo))
      then false
      else reserve_all ps t

  -- setup_memory with the file open and its buffer allocated. `found` holds something before it is
  -- set, and `goto out2` from the loop leaves it. The result is `found`, and the bounds if they are
  -- written.
  unfoldable pub setup_memory : Bool → ℕ → List Line → Bool × Option MemArea
  unfolding all_gaps first_fit target reserve_all
  setup_memory found min lines = elim (all_gaps lines) [
    | none ↦ (found, none)
    | some areas ↦ elim (first_fit min areas) [
      | none ↦ (false, none)
      | some a ↦
          let t = target min a in if reserve_all areas t then (true, some t) else (false, none)
    ]
  ]
