-- ===== src/Lkm/FreeList/Race/Tests.antt =====
-- Two callers that give back a stack each, with room for one.
use shadow_stack_llvm.Prelude.{
  ℕ, zero, suc, ◌+◌, ◌≡◌, ◌<◌, refl, sym, false, some, List, ◌∷◌, arith, update, length,
}
use shadow_stack_llvm.Lkm.Memory.{block, is_mem}
use shadow_stack_llvm.Lkm.Memory.Members.{length-block}
use shadow_stack_llvm.Lkm.Memory.Sample.{Distinct-block}
use shadow_stack_llvm.Lkm.FreeList.{gl_sa_capacity}
use shadow_stack_llvm.Lkm.FreeList.Race.{
  Pc, idle, holds, passed, owned, System, pass, insert, pick, Reach, stay, next,
}
use shadow_stack_llvm.Lkm.FreeList.Race.Owners.{OneOwner, Reach-OneOwner}

-- Caller 0 has stack 200, caller 1 has stack 201, and 127 stacks are listed.
abbrev callers : ℕ → Pc
callers zero = holds 200
callers (suc zero) = holds 201
callers (suc (suc n)) = idle

known : (a b : ℕ) → some a ≡ some b → a ≡ b
known a b e = cc

module _ (listed : List ℕ) where
  abbrev at_first : System
  at_first = record { gl = record { gl_size = 127; gl_sa = listed }; pc = callers }

  abbrev one_passed : System
  one_passed = record { gl = at_first.gl; pc = update at_first.pc 0 (passed 200) }

  abbrev both_passed : System
  both_passed = record { gl = at_first.gl; pc = update one_passed.pc 1 (passed 201) }

  abbrev one_inserted : System
  one_inserted = record {
    gl = record { gl_size = 128; gl_sa = 200 ∷ listed };
    pc = update both_passed.pc 0 idle;
  }

  abbrev both_inserted : System
  both_inserted = record {
    gl = record { gl_size = 129; gl_sa = 201 ∷ 200 ∷ listed };
    pc = update one_inserted.pc 1 idle;
  }

  -- Both pass the test before either inserts its stack.
  race : Reach 2 at_first both_inserted
  race =
      next
        (next
          (next (next stay (pick 0 (omega arith) (pass (omega arith))))
            (pick 1 (omega arith) (pass (omega arith))))
          (pick 0 (omega arith) insert))
        (pick 1 (omega arith) insert)

  first_away :
      (i stack : ℕ)
      → is_mem 200 listed ≡ false
      → is_mem 201 listed ≡ false
      → owned (callers i) ≡ some stack
      → is_mem stack listed ≡ false
  first_away zero stack a b e = let same = known 200 stack e in rw (sym same) a
  first_away (suc zero) stack a b e = let same = known 201 stack e in rw (sym same) b
  first_away (suc (suc i)) stack a b e = cc

  first_alone :
      (i j stack : ℕ) → owned (callers i) ≡ some stack → owned (callers j) ≡ some stack → i ≡ j
  first_alone zero zero stack e h = refl
  first_alone (suc zero) (suc zero) stack e h = refl
  first_alone zero (suc zero) stack e h =
      absurd (omega (arith, known 200 stack e, known 201 stack h))
  first_alone (suc zero) zero stack e h =
      absurd (omega (arith, known 201 stack e, known 200 stack h))
  first_alone (suc (suc i)) j stack e h = cc
  first_alone zero (suc (suc j)) stack e h = cc
  first_alone (suc zero) (suc (suc j)) stack e h = cc

Reach-OneOwner_example :
    let last = both_inserted (block 1 127) in
    (129 ≡ length last.gl.gl_sa) × (129 < gl_sa_capacity + 2) × OneOwner last
Reach-OneOwner_example =
    Reach-OneOwner 2 (at_first (block 1 127)) (both_inserted (block 1 127)) (omega arith)
      (record {
        counted = sym (length-block 1 127);
        bounded = omega arith;
        before = refl;
        owners = record {
          distinct = Distinct-block 1 127;
          away = λ i stack e. first_away (block 1 127) i stack refl refl e;
          alone = first_alone (block 1 127);
        };
      })
      (race (block 1 127))
