-- ===== src/Passes/Masks/Counts.antt =====
-- The counters of shadow_stack/ShadowStack.cpp.
use shadow_stack_llvm.Prelude.{
  ℕ, ◌+◌, ◌≡◌, refl, inl, inr, ◌&&◌, none, List, [], ◌∷◌, arith, if◌then◌else◌, length, Bool-cases,
  Option-cases,
}
use shadow_stack_llvm.Passes.Masks.{
  StoreInst, Instruction, Analyses, Options, Statistics, Progress, known_bits, scalar_evolution,
  dom_tree, build_mask, reuse_mask, instrument_store, instrument_all, instrument_stores, stores_of,
}

abbrev pub treated : Statistics → ℕ
treated c =
    c.num_skipped_known_bits + c.num_skipped_scev + c.num_skipped_dom_tree
    + c.num_stores_instrumented

module _ (an : Analyses) (opts : Options) where
  open opts use {knownbits_opt, scev_opt, domtree_opt}

  -- One store more is seen, and one more is accounted for.
  abbrev Counts : ℕ → Statistics → Statistics → Type 0
  Counts n c c' = (c'.num_stores_seen ≡ c.num_stores_seen + n) × (treated c' ≡ treated c + n)

  reuse_mask-treated :
      (i : StoreInst) (p : Progress)
      → ((reuse_mask an opts i p).1.statistics.num_stores_seen ≡ p.statistics.num_stores_seen)
        × (treated (reuse_mask an opts i p).1.statistics ≡ treated p.statistics + 1)
  unfolding reuse_mask build_mask
  reuse_mask-treated i p =
      elim (Option-cases (if domtree_opt then dom_tree an opts i p.masked_ptrs else none)) [
        | inl missing ↦ rw (missing, reuse_mask) (refl, omega arith)
        | inr (k, found) ↦ rw (found, reuse_mask) (refl, omega arith)
      ]

  instrument_store-Counts :
      (i : StoreInst) (p : Progress)
      → Counts 1 p.statistics (instrument_store an opts i p).1.statistics
  unfolding instrument_store
  instrument_store-Counts i p = elim (Bool-cases (knownbits_opt && known_bits an opts i)) [
    | inl known ↦ rw known (refl, omega arith)
    | inr unknown ↦ elim (Bool-cases (scev_opt && scalar_evolution an opts i)) [
      | inl bounded ↦ rw (unknown, bounded) (refl, omega arith)
      | inr free ↦ rw (unknown, free) (reuse_mask-treated i _)
    ]
  ]

  instrument_all-Counts :
      (is : List StoreInst) (p : Progress)
      → Counts (length is) p.statistics (instrument_all an opts is p).1.statistics
  unfolding instrument_all
  instrument_all-Counts [] p = (omega arith, omega arith)
  instrument_all-Counts (i ∷ is) p =
      let one = instrument_store-Counts i p in
      let more = instrument_all-Counts is (instrument_store an opts i p).1 in
      (omega (arith, one.0, more.0), omega (arith, one.1, more.1))

  -- instrumentStores counts every store that it treats once as seen, and once as skipped for one of the
  -- three reasons or as instrumented.
  pub instrument_stores-counts :
      (instructions : List Instruction) (c : Statistics)
      → let c' = (instrument_stores an opts instructions c).1.statistics in
        (c'.num_stores_seen ≡ c.num_stores_seen + length (stores_of an opts instructions))
        × (treated c' ≡ treated c + length (stores_of an opts instructions))
  unfolding instrument_stores
  instrument_stores-counts instructions c = instrument_all-Counts (stores_of an opts instructions) _
