-- ===== src/Passes/Masks/Tests.antt =====
-- Stores of a small function.
use shadow_stack_llvm.Prelude.{◌+◌, ◌≡◌, true, false, List, [], ◌∷◌, length}
use shadow_stack_llvm.Passes.Masks.{
  Instruction, store_inst, another, Analyses, Options, Statistics, instrument_stores, stores_of,
}
use shadow_stack_llvm.Passes.Masks.Counts.{treated, instrument_stores-counts}

-- Nothing is known of the pointers; an earlier mask dominates all that follows.
abbrev analyses : Analyses
analyses = record {
  known_zero = λ p. 0;
  unsigned_max = λ p. 0xffffffffffffffff;
  dominates = λ j k. true;
  is_instruction = λ k. true;
}

abbrev all_of_them : Options
all_of_them = record { knownbits_opt = true; scev_opt = true; domtree_opt = true }

abbrev none_yet : Statistics
none_yet = record {
  num_stores_seen = 0;
  num_skipped_known_bits = 0;
  num_skipped_scev = 0;
  num_skipped_dom_tree = 0;
  num_stores_instrumented = 0;
}

-- Two stores through the pointer 7, which is an address in the shadow area, and one to be ignored.
abbrev function : List Instruction
function =
    store_inst (record { id = 1; pointer = 7; ignored = false })
    ∷ another 2
    ∷ store_inst (record { id = 3; pointer = 8; ignored = true })
    ∷ store_inst (record { id = 4; pointer = 7; ignored = false })
    ∷ []

instrument_stores-counts_example :
    let c' = (instrument_stores analyses all_of_them function none_yet).1.statistics in
    (c'.num_stores_seen ≡ 0 + length (stores_of analyses all_of_them function))
    × (treated c' ≡ 0 + length (stores_of analyses all_of_them function))
instrument_stores-counts_example = instrument_stores-counts analyses all_of_them function none_yet
