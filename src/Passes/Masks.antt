-- ===== src/Passes/Masks.antt =====
-- shadow_stack/ShadowStack.cpp: the stores of a function are given pointers without the bits above the
-- 47th, so that none can reach the shadow stacks. What the compiler's analyses say of a pointer is an
-- argument.
pub mod Address
pub mod Counts
mod Tests
use Prim.Native.Nat.{bit_and}
use shadow_stack_llvm.Prelude.{
  ℕ, ◌+◌, ◌-◌, ◌^◌, ◌≤◌, ◌<◌, ◌≡◌, Bool, true, false, ◌&&◌, ◌||◌, not, Option, none, some, List, [],
  ◌∷◌, ◌++◌, ◌==◌, if◌then◌else◌,
}

abbrev pub mask : ℕ
mask = 0x7fffffffffff

-- ~Mask, of 64 bits.
abbrev pub bits_to_clear : ℕ
bits_to_clear = 2 ^ 64 - 1 - mask

-- A store instruction, its pointer operand, and whether it carries the metadata "m-ignore".
pub record StoreInst : Type 0 where
  pub id : ℕ
  pub pointer : ℕ
  pub ignored : Bool

pub data Instruction : Type 0 where
  store_inst : StoreInst → Instruction
  another : ℕ → Instruction

-- computeKnownBits(...).Zero of a pointer, the largest value of its unsigned range, whether the mask
-- built before the one store dominates the other, and whether the builder made it an instruction.
pub record Analyses : Type 0 where
  pub known_zero : ℕ → ℕ
  pub unsigned_max : ℕ → ℕ
  pub dominates : ℕ → ℕ → Bool
  pub is_instruction : ℕ → Bool

-- KNOWNBITS_OPT, SCEV_OPT and DOMTREE_OPT; OPT_ALL is all of them.
pub record Options : Type 0 where
  pub knownbits_opt : Bool
  pub scev_opt : Bool
  pub domtree_opt : Bool

pub record Statistics : Type 0 where
  pub num_stores_seen : ℕ
  pub num_skipped_known_bits : ℕ
  pub num_skipped_scev : ℕ
  pub num_skipped_dom_tree : ℕ
  pub num_stores_instrumented : ℕ

-- The pointer operand that a store ends up with: its own, or the masked pointer that was built before
-- the store of that number, of that pointer.
pub data Operand : Type 0 where
  own : ℕ → Operand
  masked : (built_at pointer : ℕ) → Operand

-- MaskedPtrs, from a pointer to the store that its mask was built before; and the counters.
pub record Progress : Type 0 where
  pub masked_ptrs : List (ℕ × ℕ)
  pub statistics : Statistics

abbrev pub find_masked : ℕ → List (ℕ × ℕ) → Option ℕ
find_masked p [] = none
find_masked p ((q, k) ∷ rest) = if q == p then some k else find_masked p rest

module _ (an : Analyses) (opts : Options) where
  open an use {known_zero, unsigned_max, dominates, is_instruction}
  open opts use {knownbits_opt, scev_opt, domtree_opt}

  unfoldable pub known_bits : StoreInst → Bool
  known_bits i = bit_and (known_zero i.pointer) bits_to_clear == bits_to_clear

  unfoldable pub scalar_evolution : StoreInst → Bool
  scalar_evolution i = bit_and (unsigned_max i.pointer) bits_to_clear == 0

  -- The store whose mask can be used again.
  unfoldable pub dom_tree : StoreInst → List (ℕ × ℕ) → Option ℕ
  dom_tree i masked_ptrs = elim (find_masked i.pointer masked_ptrs) [
    | none ↦ none
    | some k ↦ if not (is_instruction k) || dominates k i.id then some k else none
  ]

  -- The part of instrumentStore that builds a mask.
  unfoldable pub build_mask : StoreInst → Progress → Operand × Progress
  build_mask i p = (
    masked i.id i.pointer,
    record {
      masked_ptrs = (i.pointer, i.id) ∷ p.masked_ptrs;
      statistics = record p.statistics {
        num_stores_instrumented = p.statistics.num_stores_instrumented + 1;
      };
    },
  )

  -- instrumentStore from the use of dominators on.
  unfoldable pub reuse_mask : StoreInst → Progress → Operand × Progress
  unfolding dom_tree build_mask
  reuse_mask i p = elim (if domtree_opt then dom_tree i p.masked_ptrs else none) [
    | none ↦ build_mask i p
    | some k ↦ (
      masked k i.pointer,
      record p {
        statistics = record p.statistics {
          num_skipped_dom_tree = p.statistics.num_skipped_dom_tree + 1;
        };
      },
    )
  ]

  unfoldable pub instrument_store : StoreInst → Progress → Operand × Progress
  unfolding known_bits scalar_evolution reuse_mask
  instrument_store i p0 =
      let c = record p0.statistics { num_stores_seen = p0.statistics.num_stores_seen + 1 } in
      let p : Progress = record p0 { statistics = c } in
      if knownbits_opt && known_bits i
      then (
        own i.pointer,
        record p {
          statistics = record c { num_skipped_known_bits = c.num_skipped_known_bits + 1 };
        },
      )
      else (if scev_opt && scalar_evolution i
          then (
            own i.pointer,
            record p { statistics = record c { num_skipped_scev = c.num_skipped_scev + 1 } },
          )
          else reuse_mask i p)

  unfoldable pub instrument_all : List StoreInst → Progress → List (StoreInst × Operand) × Progress
  unfolding instrument_store
  instrument_all [] p = ([], p)
  instrument_all (i ∷ is) p =
      let (operand, p1) = instrument_store i p in
      let (rest, p2) = instrument_all is p1 in ((i, operand) ∷ rest, p2)

  -- The stores that instrumentStores collects.
  unfoldable pub stores_of : List Instruction → List StoreInst
  stores_of [] = []
  stores_of (another k ∷ is) = stores_of is
  stores_of (store_inst i ∷ is) = if i.ignored then stores_of is else i ∷ stores_of is

  -- instrumentStores, with the counters as they were.
  unfoldable pub instrument_stores :
      List Instruction → Statistics → List (StoreInst × Operand) × Progress
  unfolding instrument_all stores_of
  instrument_stores instructions statistics =
      instrument_all (stores_of instructions) (record { masked_ptrs = []; statistics = statistics })

  -- SSFunctionPass::run on a function with these instructions; the stores that are not listed keep
  -- their operands.
  unfoldable pub run :
      (is_declaration instrument_store_flag : Bool)
      → List Instruction
      → Statistics
      → List (StoreInst × Operand) × Statistics
  unfolding instrument_stores
  run is_declaration instrument_store_flag instructions statistics =
      if is_declaration
      then ([], statistics)
      else (if instrument_store_flag
          then (
            (instrument_stores instructions statistics).0,
            (instrument_stores instructions statistics).1.statistics,
          )
          else ([], statistics))
