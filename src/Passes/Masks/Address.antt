-- ===== src/Passes/Masks/Address.antt =====
-- The addresses that the stores of shadow_stack/ShadowStack.cpp reach.
use Prim.Native.Nat.{bit_and}
use shadow_stack_llvm.Prelude.{
  ℕ, ◌%◌, ◌^◌, ◌≤◌, ◌<◌, ◌≡◌, ◌⊎◌, true, false, ◌||◌, not, List, [], ◌∷◌,
}
use shadow_stack_llvm.Passes.Masks.{
  mask, StoreInst, Analyses, Options, Operand, own, masked, Instruction, store_inst, another,
}

-- The addresses that the pointers have when the function runs, which the analyses are right about.
pub record Sound (an : Analyses) (value : ℕ → ℕ) : Type 0 where
  pub word : (p : ℕ) → value p < 2 ^ 64
  pub zero_word : (p : ℕ) → an.known_zero p < 2 ^ 64
  pub max_word : (p : ℕ) → an.unsigned_max p < 2 ^ 64
  pub zero : (p : ℕ) → bit_and (value p) (an.known_zero p) ≡ 0
  pub max : (p : ℕ) → value p ≤ an.unsigned_max p

abbrev pub address : (ℕ → ℕ) → Operand → ℕ
address value (own p) = value p
address value (masked k p) = bit_and (value p) mask

-- Where the mask comes from.
abbrev pub Placed : Analyses → StoreInst → Operand → Type 0
Placed an i (own p) = p ≡ i.pointer
Placed an i (masked k p) =
    (p ≡ i.pointer) × ((k ≡ i.id) ⊎ ((not (an.is_instruction k) || an.dominates k i.id) ≡ true))

-- The stores of some instructions, in their order, but those that are to be ignored.
pub data Collected : List Instruction → List StoreInst → Type 0 where
  finished : Collected [] []
  passed :
      {k : ℕ} {is : List Instruction} {ss : List StoreInst}
      → Collected is ss
      → Collected (another k ∷ is) ss
  ignored :
      {i : StoreInst} {is : List Instruction} {ss : List StoreInst}
      → i.ignored ≡ true
      → Collected is ss
      → Collected (store_inst i ∷ is) ss
  taken :
      {i : StoreInst} {is : List Instruction} {ss : List StoreInst}
      → i.ignored ≡ false
      → Collected is ss
      → Collected (store_inst i ∷ is) (i ∷ ss)

-- The store reaches the address that its pointer has without the high bits; a mask that it did not get
-- itself is of the same pointer, and is no instruction or dominates the store.
pub record Masked (an : Analyses) (value : ℕ → ℕ) (i : StoreInst) (o : Operand) : Type 0 where
  pub low : address value o ≡ value i.pointer % 2 ^ 47
  pub placed : Placed an i o

module _ (an : Analyses) (opts : Options) where
  open an use {known_zero, unsigned_max, dominates, is_instruction}
  open opts use {knownbits_opt, scev_opt, domtree_opt}

  abbrev Usable : StoreInst → ℕ → Type 0
  Usable i k = (not (is_instruction k) || dominates k i.id) ≡ true
