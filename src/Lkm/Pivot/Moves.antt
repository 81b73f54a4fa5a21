-- ===== src/Lkm/Pivot/Moves.antt =====
-- What sa_pivot of lkm/core/api.c comes to, and what the program finds in its auxiliary vector then.
use shadow_stack_llvm.Prelude.{
  ℕ, ◌+◌, ◌%◌, ◌^◌, ◌≤◌, ◌<◌, ◌≡◌, refl, sym, ◌⊎◌, inl, inr, true, Option, none, some, List, [],
  ◌∷◌, arith, ltb, ◌==◌, if◌then◌else◌, Bool-cases, Option-cases,
}
use shadow_stack_llvm.Lkm.Errno.{fail, einval, minus_one}
use shadow_stack_llvm.Lkm.Layout.{sub64}
use shadow_stack_llvm.Lkm.Pivot.{
  at_null, moved, Vma, AddressSpace, Outcome, oops, returned, shift_auxv, Mm, pivot_out, move_stack,
  pivot_from, sa_pivot,
}

-- The first value of a key, in the part before AT_NULL.
abbrev pub auxv_value : ℕ → List ℕ → Option ℕ
auxv_value wanted [] = none
auxv_value wanted (key ∷ []) = none
auxv_value wanted (key ∷ value ∷ rest) =
    let others = auxv_value wanted rest in
    if key == at_null then none else (if key == wanted then some value else others)

abbrev pub shifted : ℕ → ℕ → Option ℕ → Option ℕ
shifted delta key none = none
shifted delta key (some value) = some (if moved key then (value + delta) % 2 ^ 64 else value)

pub auxv_value-shift_auxv :
    (delta key : ℕ) (auxv : List ℕ)
    → auxv_value key (shift_auxv delta auxv) ≡ shifted delta key (auxv_value key auxv)
unfolding shift_auxv
auxv_value-shift_auxv delta key [] = refl
auxv_value-shift_auxv delta key (k ∷ []) = refl
auxv_value-shift_auxv delta key (k ∷ value ∷ rest) = elim (Bool-cases (k == at_null)) [
  | inl stop ↦ rw (stop, shift_auxv) (rw stop refl)
  | inr more ↦ elim (Bool-cases (k == key)) [
    | inl hit ↦
        let same : k ≡ key = ground (arith, hit) in
        rw (more, shift_auxv) (rw (more, hit) (rw (sym same) refl))
    | inr miss ↦ rw (more, shift_auxv) (rw (more, miss) (auxv_value-shift_auxv delta key rest))
  ]
]

module _ (v : AddressSpace) where
  open v use {Areas, find_vma, vm_munmap, clear_growsdown, set_growsdown}

  -- The areas without the one that `old` was.
  abbrev pub unmapped : Vma → Areas → Areas
  unmapped old areas = vm_munmap old.vm_start (sub64 old.vm_end old.vm_start) areas

  -- Why the new stack is refused.
  abbrev pub Refused : (rsp address : ℕ) → Vma → Mm v → Type 0
  Refused rsp address old mm =
      (rsp < old.vm_start)
      ⊎ ((find_vma address mm.areas ≡ none)
          ⊎ ((new : Vma) × (find_vma address mm.areas ≡ some new) × (address < new.vm_start)))

  -- The process has its stack in `new`, `delta` further on.
  abbrev pub Moved : (delta : ℕ) → (old new : Vma) → Mm v → Mm v → Type 0
  Moved delta old new mm mm' =
      (mm'.start_stack ≡ new.vm_start)
      × (mm'.arg_start ≡ (mm.arg_start + delta) % 2 ^ 64)
      × (mm'.arg_end ≡ (mm.arg_end + delta) % 2 ^ 64)
      × (mm'.env_start ≡ (mm.env_start + delta) % 2 ^ 64)
      × (mm'.env_end ≡ (mm.env_end + delta) % 2 ^ 64)
      × ((key : ℕ)
          → auxv_value key mm'.saved_auxv ≡ shifted delta key (auxv_value key mm.saved_auxv))
      × (mm'.areas ≡ unmapped old (set_growsdown new (clear_growsdown old mm.areas)))

  -- What a call comes to.
  abbrev pub Pivoted : (rsp address : ℕ) → Mm v → Outcome × Mm v → Type 0
  Pivoted rsp address mm r =
      ((r ≡ (oops, mm)) × (find_vma rsp mm.areas ≡ none))
      ⊎ ((old : Vma) × (find_vma rsp mm.areas ≡ some old)
          × ((Refused rsp address old mm
                × (r.0 ≡ returned (fail einval))
                × (r.1 ≡ record mm { areas = unmapped old mm.areas }))
              ⊎ ((new : Vma) × (find_vma address mm.areas ≡ some new)
                  × (old.vm_start ≤ rsp)
                  × (new.vm_start ≤ address)
                  × (r.0 ≡ returned (fail minus_one))
                  × Moved (sub64 address rsp) old new mm r.1)))

  -- sa_pivot in a process with an mm. Where no area ends above the stack pointer, it reads through
  -- NULL. Where the stack pointer is below the area that it finds, or the new address is in no area,
  -- it returns -EINVAL and has unmapped the area found for the old stack, with everything else as
  -- before. Otherwise it returns -1 and the stack has moved: start_stack is the start of the new area,
  -- the bounds of the arguments and of the environment are moved by the distance of the stacks modulo
  -- 2^64, and so are the values of AT_PLATFORM, AT_RANDOM and AT_EXECFN in the auxiliary vector, with
  -- those of all other keys as before; the flags are changed and the old stack is unmapped.
  pub sa_pivot_lem :
      (rsp address : ℕ) (mm : Mm v) → Pivoted rsp address mm (sa_pivot v true rsp address mm)
  unfolding sa_pivot pivot_from pivot_out move_stack
  sa_pivot_lem rsp address mm = elim (Option-cases (find_vma rsp mm.areas)) [
    | inl absent ↦ inl (rw (absent, sa_pivot) refl, absent)
    | inr (old, e) ↦
        rw (e, sa_pivot)
          (inr (
            old,
            refl,
            elim (Bool-cases (ltb rsp old.vm_start)) [
              | inl above ↦ rw above (inl (inl (ground (arith, above)), refl, refl))
              | inr good ↦ elim (Option-cases (find_vma address mm.areas)) [
                | inl absent ↦ rw (good, absent, pivot_from) (inl (inr (inl refl), refl, refl))
                | inr (new, n) ↦ elim (Bool-cases (ltb address new.vm_start)) [
                  | inl above ↦
                      rw (good, n, above, pivot_from)
                        (inl (inr (inr (new, refl, ground (arith, above))), refl, refl))
                  | inr fine ↦
                      rw (good, n, fine, pivot_from)
                        (inr (
                          new,
                          refl,
                          ground (arith, good),
                          ground (arith, fine),
                          refl,
                          (
                            refl,
                            refl,
                            refl,
                            refl,
                            refl,
                            (λ key. auxv_value-shift_auxv (sub64 address rsp) key mm.saved_auxv),
                            refl,
                          ),
                        ))
                ]
              ]
            ],
          ))
  ]
