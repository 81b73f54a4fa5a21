-- ===== src/Lkm/Pivot.antt =====
-- lkm/core/api.c, sa_pivot: a process goes on with a copy of its stack. The areas of its address space
-- are an argument, with the kernel's functions on them. The mmap lock and arg_lock make it one step.
pub mod Moves
mod Tests
use shadow_stack_llvm.Prelude.{
  ℕ, ◌+◌, ◌-◌, ◌%◌, ◌^◌, ◌≤◌, ◌<◌, Bool, true, false, ◌||◌, not, Option, none, some, List, [], ◌∷◌,
  ltb, ◌==◌, if◌then◌else◌,
}
use shadow_stack_llvm.Lkm.Errno.{Ret, fail, einval, minus_one}
use shadow_stack_llvm.Lkm.Layout.{sub64}

-- The keys of the auxiliary vector, of the kernel's headers.
abbrev pub at_null : ℕ
at_null = 0

abbrev pub at_platform : ℕ
at_platform = 15

abbrev pub at_random : ℕ
at_random = 25

abbrev pub at_execfn : ℕ
at_execfn = 31

-- What sa_pivot reads of struct vm_area_struct.
pub record Vma : Type 0 where
  pub vm_start : ℕ
  pub vm_end : ℕ

pub record AddressSpace : Type 1 where
  pub Areas : Type 0
  pub find_vma : ℕ → Areas → Option Vma
  pub vm_munmap : (start len : ℕ) → Areas → Areas
  -- vm_flags_clear and vm_flags_set of VM_GROWSDOWN.
  pub clear_growsdown : Vma → Areas → Areas
  pub set_growsdown : Vma → Areas → Areas

-- A read through NULL, or the value that is returned.
pub data Outcome : Type 0 where
  oops : Outcome
  returned : Ret → Outcome

abbrev pub moved : ℕ → Bool
moved key = (key == at_platform) || ((key == at_random) || (key == at_execfn))

-- The loop over saved_auxv, a key and its value at a time.
unfoldable pub shift_auxv : (delta : ℕ) → List ℕ → List ℕ
shift_auxv delta [] = []
shift_auxv delta (key ∷ []) = key ∷ []
shift_auxv delta (key ∷ value ∷ rest) =
    let others = shift_auxv delta rest in
    if key == at_null
    then key ∷ value ∷ rest
    else key ∷ (if moved key then (value + delta) % 2 ^ 64 else value) ∷ others

module _ (v : AddressSpace) where
  open v use {Areas, find_vma, vm_munmap, clear_growsdown, set_growsdown}

  -- What sa_pivot changes of struct mm_struct.
  pub record Mm : Type 0 where
    pub start_stack : ℕ
    pub arg_start : ℕ
    pub arg_end : ℕ
    pub env_start : ℕ
    pub env_end : ℕ
    pub saved_auxv : List ℕ
    pub areas : Areas

  -- The label out: the area is unmapped, after an error as well.
  unfoldable pub pivot_out : Ret → Vma → Mm → Outcome × Mm
  pivot_out err old mm = (
    returned err,
    record mm { areas = vm_munmap old.vm_start (sub64 old.vm_end old.vm_start) mm.areas },
  )

  -- The part under arg_lock, and the flags.
  unfoldable pub move_stack : (delta : ℕ) → (old new : Vma) → Mm → Mm
  unfolding shift_auxv
  move_stack delta old new mm = record {
    start_stack = new.vm_start;
    arg_start = (mm.arg_start + delta) % 2 ^ 64;
    arg_end = (mm.arg_end + delta) % 2 ^ 64;
    env_start = (mm.env_start + delta) % 2 ^ 64;
    env_end = (mm.env_end + delta) % 2 ^ 64;
    saved_auxv = shift_auxv delta mm.saved_auxv;
    areas = set_growsdown new (clear_growsdown old mm.areas);
  }

  -- sa_pivot once the area of the old stack is found.
  unfoldable pub pivot_from : (rsp new_stack_address : ℕ) → Vma → Mm → Outcome × Mm
  unfolding pivot_out move_stack
  pivot_from rsp new_stack_address old mm =
      if ltb rsp old.vm_start
      then pivot_out (fail einval) old mm
      else elim (find_vma new_stack_address mm.areas) [
        | none ↦ pivot_out (fail einval) old mm
        | some new ↦
            let delta = sub64 new_stack_address rsp in
            if ltb new_stack_address new.vm_start
            then pivot_out (fail einval) old mm
            else pivot_out (fail minus_one) old (move_stack delta old new mm)
      ]

  -- `has_mm` tells whether current->mm is there.
  unfoldable pub sa_pivot : (has_mm : Bool) → (rsp new_stack_address : ℕ) → Mm → Outcome × Mm
  unfolding pivot_from
  sa_pivot has_mm rsp new_stack_address mm =
      if not has_mm then (returned (fail einval), mm) else elim (find_vma rsp mm.areas) [
        | none ↦ (oops, mm)
        | some old ↦ pivot_from rsp new_stack_address old mm
      ]
