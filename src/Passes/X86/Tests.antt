-- ===== src/Passes/X86/Tests.antt =====
-- The pass of shadow_stack_x86/X86ShadowStack.cpp on a small function, and its instructions on a small
-- memory.
use shadow_stack_llvm.Prelude.{
  ℕ, ◌%◌, ◌^◌, ◌≡◌, refl, inl, inr, true, false, none, some, [], ◌∷◌, arith, update,
}
use shadow_stack_llvm.Passes.X86.{
  other, MachineInstr, MachineFunction, original, blind_write, trapping, preamble, return_sequence,
  run_on_machine_function,
}
use shadow_stack_llvm.Passes.X86.Cpu.{Ram, Cpu, goes, run}
use shadow_stack_llvm.Passes.X86.Rewrite.{Rewritten, run_on_machine_function_lem}
use shadow_stack_llvm.Passes.X86.Protect.{Entry, Entered, preamble_lem, Return}
use shadow_stack_llvm.Passes.X86.Check.{Checks, return_sequence_lem}
use shadow_stack_llvm.Passes.X86.Call.{Body, Returns, protected_call}

abbrev label : MachineInstr
label = original false true 1

abbrev call : MachineInstr
call = original false false 2

abbrev ret : MachineInstr
ret = original true false 3

abbrev with_calls : MachineFunction
with_calls = record { has_calls = true; blocks = (label ∷ call ∷ ret ∷ []) ∷ [] }

run_on_machine_function_lem_example :
    Rewritten trapping with_calls (run_on_machine_function trapping (λ i j. none) with_calls)
run_on_machine_function_lem_example =
    run_on_machine_function_lem trapping (λ i j. none) true (label ∷ call ∷ ret ∷ []) []
      (refl, (refl, (refl, tt)))

-- Words at their addresses; the words of a test lie apart.
abbrev words : Ram
words = record {
  Mem = ℕ → ℕ;
  load = λ m a. m a % 2 ^ 64;
  store = λ a v m. update m a v;
  load-word = λ m a. omega arith;
  load-store = λ a v m h. ground (arith, h);
  load-store-apart = λ a v b m h. ground (arith, h);
}

-- The stack is at 4096, GS at 8192, and the shadow stack, still empty, at 8208.
abbrev at_entry : Cpu words
at_entry = record {
  rsp_reg = 4096;
  r10_reg = 10;
  r11_reg = 11;
  other_reg = λ k. k;
  gs_base = 8192;
  zero_flag = false;
  mem = update (update (λ a. 0) 4096 777) 8200 8208;
}

at_entry-Entry : Entry words at_entry
at_entry-Entry = record {
  low = omega arith;
  high = omega arith;
  gs_high = omega arith;
  top_high = omega arith;
  word10 = omega arith;
  word11 = omega arith;
  stack_gs = inl (omega arith);
  stack_top = inl (omega arith);
  top_gs = inr (omega arith);
}

preamble_lem_example :
    (c' : Cpu words) × (run words preamble at_entry ≡ goes c') × Entered words at_entry c'
preamble_lem_example = preamble_lem words at_entry at_entry-Entry

-- The body has overwritten the return address, and the registers.
abbrev attacked : Cpu words
attacked = record at_entry {
  r10_reg = 0;
  mem =
      update (update (update (update (update (λ a. 0) 4088 11) 4080 10) 8208 777) 8200 8216) 4096
        666;
}

attacked-Return : Return words attacked
attacked-Return = record {
  low = omega arith;
  high = omega arith;
  gs_high = omega arith;
  top_low = omega arith;
  word11 = omega arith;
  stack_gs = inl (omega arith);
  stack_top = inl (omega arith);
  top_gs = inr (omega arith);
}

return_sequence_lem_example :
    Checks words trapping attacked (run words (return_sequence trapping (some (other 3))) attacked)
return_sequence_lem_example =
    return_sequence_lem words attacked attacked-Return trapping (some (other 3)) tt

abbrev after_preamble : Cpu words
after_preamble = record at_entry {
  mem = update (update (update (update at_entry.mem 4088 11) 4080 10) 8208 777) 8200 8216;
}

ran : run words preamble at_entry ≡ goes after_preamble
unfolding run
ran = refl

attack : Body words at_entry after_preamble attacked
attack = record {
  rsp_kept = refl;
  gs_kept = refl;
  top_kept = refl;
  address_kept = refl;
  word11 = omega arith;
}

protected_call_example :
    Returns words blind_write at_entry attacked
      (run words (return_sequence blind_write none) attacked)
protected_call_example =
    protected_call words blind_write none at_entry after_preamble attacked tt at_entry-Entry ran
      attack
