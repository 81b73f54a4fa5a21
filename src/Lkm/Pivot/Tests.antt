-- ===== src/Lkm/Pivot/Tests.antt =====
-- sa_pivot of a sample process.
use shadow_stack_llvm.Prelude.{
  ℕ, ◌+◌, ◌≡◌, refl, true, Option, none, some, List, [], ◌∷◌, ltb, ◌==◌, if◌then◌else◌,
}
use shadow_stack_llvm.Lkm.Errno.{fail, minus_one, einval}
use shadow_stack_llvm.Lkm.Pivot.{
  Vma, AddressSpace, oops, returned, Mm, shift_auxv, pivot_out, pivot_from, move_stack, sa_pivot,
}
use shadow_stack_llvm.Lkm.Pivot.Moves.{Pivoted, sa_pivot_lem}

abbrev first_above : ℕ → List Vma → Option Vma
first_above addr [] = none
first_above addr (a ∷ rest) =
    let later = first_above addr rest in if ltb addr a.vm_end then some a else later

abbrev without : ℕ → List Vma → List Vma
without start [] = []
without start (a ∷ rest) =
    let others = without start rest in if a.vm_start == start then others else a ∷ others

-- The areas in the order of their addresses, with the flags left out.
abbrev sample_space : AddressSpace
sample_space = record {
  Areas = List Vma;
  find_vma = first_above;
  vm_munmap = λ start len areas. without start areas;
  clear_growsdown = λ a areas. areas;
  set_growsdown = λ a areas. areas;
}

abbrev area : ℕ → Vma
area start = record { vm_start = start; vm_end = start + 4096 }

abbrev sample_mm : Mm sample_space
sample_mm = record {
  start_stack = 8192;
  arg_start = 12000;
  arg_end = 12010;
  env_start = 12010;
  env_end = 12020;
  saved_auxv = 15 ∷ 12100 ∷ 6 ∷ 4096 ∷ 0 ∷ 0 ∷ 25 ∷ 7 ∷ [];
  areas = area 8192 ∷ area 40960 ∷ [];
}

sa_pivot_lem_example :
    Pivoted sample_space 9000 41768 sample_mm (sa_pivot sample_space true 9000 41768 sample_mm)
sa_pivot_lem_example = sa_pivot_lem sample_space 9000 41768 sample_mm

-- The stack moves: what is behind AT_NULL stays, and the call returns -1.
moves :
    let (out, mm) = sa_pivot sample_space true 9000 41768 sample_mm in
    (out ≡ returned (fail minus_one))
    × (mm.saved_auxv ≡ 15 ∷ 44868 ∷ 6 ∷ 4096 ∷ 0 ∷ 0 ∷ 25 ∷ 7 ∷ [])
    × (mm.areas ≡ area 40960 ∷ [])
unfolding sa_pivot pivot_from move_stack pivot_out shift_auxv
moves = (refl, refl, refl)

-- A stack pointer above all areas: a read through NULL.
no_area : (sa_pivot sample_space true 90000 41768 sample_mm).0 ≡ oops
unfolding sa_pivot
no_area = refl

-- An address without an area: the call fails, and the stack in use is unmapped.
lost_stack :
    let (out, mm) = sa_pivot sample_space true 9000 90000 sample_mm in
    (out ≡ returned (fail einval)) × (mm.areas ≡ area 40960 ∷ [])
unfolding sa_pivot pivot_from pivot_out
lost_stack = (refl, refl)
