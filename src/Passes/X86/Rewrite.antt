-- ===== src/Passes/X86/Rewrite.antt =====
-- What the pass of shadow_stack_x86/X86ShadowStack.cpp does to the instructions of a function.
use shadow_stack_llvm.Prelude.{
  ℕ, ◌≡◌, refl, ap, ◌∙◌, ◌⊎◌, inl, inr, Bool, true, false, ◌&&◌, arith, All, Option, List, [], ◌∷◌,
  ◌++◌, length, Bool-cases,
}
use shadow_stack_llvm.Passes.X86.{
  Reg, Instr, MachineInstr, MachineFunction, original, built, ViolationStrategy, blind_write,
  trapping, is_return, is_meta, built_all, preamble, return_sequence, instrument_preamble,
  instrument_block, instrument_blocks, any_return, trap_block, run_on_machine_function,
}

-- The instructions that were there before the pass.
abbrev pub originals : List MachineInstr → List MachineInstr
originals [] = []
originals (original r m k ∷ is) = original r m k ∷ originals is
originals (built i ∷ is) = originals is

abbrev pub all_originals : List (List MachineInstr) → List MachineInstr
all_originals [] = []
all_originals (b ∷ bs) = originals b ++ all_originals bs

-- Every return comes right after a whole check.
pub data Guarded (strategy : ViolationStrategy) : List MachineInstr → Type 0 where
  done : Guarded strategy []
  plain :
      {i : MachineInstr} {is : List MachineInstr}
      → is_return i ≡ false
      → Guarded strategy is
      → Guarded strategy (i ∷ is)
  checked :
      (scratch : Option Reg) (i : MachineInstr) (is : List MachineInstr)
      → Guarded strategy is
      → Guarded strategy (built_all (return_sequence strategy scratch) ++ i ∷ is)

-- The preamble comes first, but for meta instructions.
pub data Enters : List MachineInstr → Type 0 where
  now : {is : List MachineInstr} → Enters (built_all preamble ++ is)
  later :
      {i : MachineInstr} {is : List MachineInstr} → is_meta i ≡ true → Enters is → Enters (i ∷ is)

-- A meta instruction is no return.
abbrev pub MetaPlain : MachineInstr → Type 0
MetaPlain i = (is_meta i && is_return i) ≡ false

abbrev pub FirstEnters : List (List MachineInstr) → Type 0
FirstEnters [] = ⊥
FirstEnters (b ∷ bs) = Enters b

originals-built_all :
    (is : List Instr) (xs : List MachineInstr) → originals (built_all is ++ xs) ≡ originals xs
originals-built_all [] xs = refl
originals-built_all (i ∷ is) xs = originals-built_all is xs

originals-cons :
    (i : MachineInstr) (xs ys : List MachineInstr)
    → originals xs ≡ originals ys
    → originals (i ∷ xs) ≡ originals (i ∷ ys)
originals-cons (original r m k) xs ys e = ap (λ z. original r m k ∷ z) e
originals-cons (built i) xs ys e = e

originals-instrument_preamble :
    (is : List MachineInstr) → originals (instrument_preamble is) ≡ originals is
unfolding instrument_preamble
originals-instrument_preamble [] = refl
originals-instrument_preamble (i ∷ is) = elim (Bool-cases (is_meta i)) [
  | inl meta ↦ rw meta (originals-cons i _ is (originals-instrument_preamble is))
  | inr another ↦ rw another refl
]

originals-instrument_block :
    (strategy : ViolationStrategy) (found : ℕ → Option Reg) (is : List MachineInstr)
    → originals (instrument_block strategy found is) ≡ originals is
unfolding instrument_block
originals-instrument_block strategy found [] = refl
originals-instrument_block strategy found (i ∷ is) =
    let same = originals-cons i _ is (originals-instrument_block strategy found is) in
    elim (Bool-cases (is_return i)) [
      | inl ret ↦
          rw ret (originals-built_all (return_sequence strategy (found (length is))) _ ∙ same)
      | inr another ↦ rw another same
    ]

originals-append : (xs ys : List MachineInstr) → originals (xs ++ ys) ≡ originals xs ++ originals ys
originals-append [] ys = refl
originals-append (original r m k ∷ xs) ys = ap (λ z. original r m k ∷ z) (originals-append xs ys)
originals-append (built i ∷ xs) ys = originals-append xs ys

module _ (strategy : ViolationStrategy) where
  all_originals-instrument_blocks :
      (found : ℕ → ℕ → Option Reg) (bs tail : List (List MachineInstr))
      → all_originals tail ≡ []
      → all_originals (instrument_blocks strategy found bs ++ tail) ≡ all_originals bs
  unfolding instrument_blocks
  all_originals-instrument_blocks found [] tail e = e
  all_originals-instrument_blocks found (b ∷ bs) tail e =
      rw
        (
          originals-instrument_block strategy (found (length bs)) b,
          all_originals-instrument_blocks found bs tail e,
        )
        refl

  trap_block-no_originals :
      (bs : List (List MachineInstr)) → all_originals (trap_block strategy bs) ≡ []
  trap_block-no_originals bs = trap_case strategy
    where
      trap_case : (v : ViolationStrategy) → all_originals (trap_block v bs) ≡ []
      trap_case blind_write = refl
      trap_case trapping = elim (Bool-cases (any_return bs)) [
        | inl y ↦ rw y refl
        | inr n ↦ rw n refl
      ]

  instrument_block-Guarded :
      (found : ℕ → Option Reg) (is : List MachineInstr)
      → Guarded strategy (instrument_block strategy found is)
  unfolding instrument_block
  instrument_block-Guarded found [] = done
  instrument_block-Guarded found (i ∷ is) = elim (Bool-cases (is_return i)) [
    | inl ret ↦ rw ret (checked (found (length is)) i _ (instrument_block-Guarded found is))
    | inr other ↦ rw other (plain other (instrument_block-Guarded found is))
  ]

  instrument_blocks-Guarded :
      (found : ℕ → ℕ → Option Reg) (bs tail : List (List MachineInstr))
      → All (Guarded strategy) tail
      → All (Guarded strategy) (instrument_blocks strategy found bs ++ tail)
  unfolding instrument_blocks
  instrument_blocks-Guarded found [] tail h = h
  instrument_blocks-Guarded found (b ∷ bs) tail h =
      (instrument_block-Guarded (found (length bs)) b, instrument_blocks-Guarded found bs tail h)

  trap_block-Guarded :
      (bs : List (List MachineInstr)) → All (Guarded strategy) (trap_block strategy bs)
  trap_block-Guarded bs = trap_case strategy
    where
      trap_case : (v : ViolationStrategy) → All (Guarded strategy) (trap_block v bs)
      trap_case blind_write = tt
      trap_case trapping = elim (Bool-cases (any_return bs)) [
        | inl y ↦ rw y (plain refl done, tt)
        | inr n ↦ rw n tt
      ]

  -- The returns are looked for behind the preamble.
  instrument_block-built_all :
      (found : ℕ → Option Reg) (is : List Instr) (xs : List MachineInstr)
      → instrument_block strategy found (built_all is ++ xs)
        ≡ built_all is ++ instrument_block strategy found xs
  unfolding instrument_block
  instrument_block-built_all found [] xs = refl
  instrument_block-built_all found (i ∷ is) xs =
      ap (λ z. built i ∷ z) (instrument_block-built_all found is xs)

  first-Enters :
      (found : ℕ → Option Reg) (b : List MachineInstr)
      → All MetaPlain b
      → Enters (instrument_block strategy found (instrument_preamble b))
  unfolding instrument_preamble instrument_block
  first-Enters found [] h = now
  first-Enters found (i ∷ is) h = elim (Bool-cases (is_meta i)) [
    | inl meta ↦
        let not_return : is_return i ≡ false = ground (arith, h.0) in
        rw (meta, not_return) (later meta (first-Enters found is h.1))
    | inr not_meta ↦ rw (not_meta, instrument_block-built_all found preamble (i ∷ is)) now
  ]

  -- What the pass comes to: a function without calls stays as it is.
  abbrev pub Rewritten : MachineFunction → Bool × MachineFunction → Type 0
  Rewritten mf r =
      ((mf.has_calls ≡ false) × (r ≡ (false, mf)))
      ⊎ ((mf.has_calls ≡ true)
          × (r.0 ≡ true)
          × (all_originals r.1.blocks ≡ all_originals mf.blocks)
          × FirstEnters r.1.blocks
          × All (Guarded strategy) r.1.blocks)

  -- The pass of a function whose first block's meta instructions are no returns. Without calls the
  -- function stays as it is, with neither preamble nor check, and the pass says that it changed
  -- nothing. With calls it says that it changed the function; the function's own instructions are all
  -- there and in order; the preamble comes before the first of them that is not a meta instruction; and
  -- every return comes right after a whole check.
  pub run_on_machine_function_lem :
      (found : ℕ → ℕ → Option Reg) (has_calls : Bool) (b : List MachineInstr)
      (bs : List (List MachineInstr))
      → All MetaPlain b
      → Rewritten
          (record { has_calls = has_calls; blocks = b ∷ bs })
          (run_on_machine_function strategy found
            (record { has_calls = has_calls; blocks = b ∷ bs }))
  unfolding run_on_machine_function instrument_blocks
  run_on_machine_function_lem found false b bs h = inl (refl, refl)
  run_on_machine_function_lem found true b bs h = inr (
    refl,
    refl,
    all_originals-instrument_blocks found (instrument_preamble b ∷ bs)
          (trap_block strategy (b ∷ bs)) (trap_block-no_originals (b ∷ bs))
        ∙ rw (originals-instrument_preamble b) refl,
    first-Enters (found (length bs)) b h,
    instrument_blocks-Guarded found (instrument_preamble b ∷ bs) (trap_block strategy (b ∷ bs))
        (trap_block-Guarded (b ∷ bs)),
  )
