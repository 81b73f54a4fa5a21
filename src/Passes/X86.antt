-- ===== src/Passes/X86.antt =====
-- shadow_stack_x86/X86ShadowStack.cpp: a function that calls others saves its return address on the
-- shadow stack when it is entered, and takes it back before each return. The pass works on the machine
-- instructions of a function; which register is free before a return is the register scavenger's to
-- say, and an argument.
pub mod Cpu
pub mod Rewrite
pub mod Protect
pub mod Pieces
pub mod Check
pub mod Call
mod Tests
use shadow_stack_llvm.Prelude.{
  ℕ, zero, suc, ◌+◌, ◌≡◌, Bool, true, false, ◌||◌, not, Option, none, some, List, [], ◌∷◌, ◌++◌,
  if◌then◌else◌, length,
}

-- The 64-bit registers that the pass names, and the others by number.
pub data Reg : Type 0 where
  rsp r10 r11 : Reg
  other : ℕ → Reg

-- A memory operand with scale 1 and no index: base, displacement, and whether the segment is GS.
pub record MemOperand : Type 0 where
  pub base : Option Reg
  pub disp : ℕ
  pub in_gs : Bool

-- The instructions that the pass builds. jcc_ne_trap is JCC_1 to the trap block with COND_NE.
pub data Instr : Type 0 where
  push64r pop64r : Reg → Instr
  mov64rm : Reg → MemOperand → Instr
  mov64mr cmp64mr : MemOperand → Reg → Instr
  add64ri8 sub64ri8 : Reg → ℕ → Instr
  jcc_ne_trap trap : Instr

-- An instruction of the function as the compiler made it, known by its number, or one that the pass
-- has built.
pub data MachineInstr : Type 0 where
  original : (is_return is_meta : Bool) → ℕ → MachineInstr
  built : Instr → MachineInstr

pub record MachineFunction : Type 0 where
  pub has_calls : Bool
  pub blocks : List (List MachineInstr)

pub data ViolationStrategy : Type 0 where
  blind_write trapping : ViolationStrategy

abbrev pub is_return : MachineInstr → Bool
is_return (original r m k) = r
is_return (built i) = false

abbrev pub is_meta : MachineInstr → Bool
is_meta (original r m k) = m
is_meta (built i) = false

abbrev pub built_all : List Instr → List MachineInstr
built_all [] = []
built_all (i ∷ is) = built i ∷ built_all is

-- GS:8, where the top of the shadow stack is kept.
abbrev pub top_operand : MemOperand
top_operand = record { base = none; disp = 8; in_gs = true }

abbrev pub at : Reg → ℕ → MemOperand
at r d = record { base = some r; disp = d; in_gs = false }

-- What instrumentPreamble builds.
abbrev pub preamble : List Instr
preamble =
    push64r r11
    ∷ push64r r10
    ∷ mov64rm r11 top_operand
    ∷ mov64rm r10 (at rsp 16)
    ∷ mov64mr (at r11 0) r10
    ∷ add64ri8 r11 8
    ∷ mov64mr top_operand r11
    ∷ pop64r r10
    ∷ pop64r r11
    ∷ []

-- The part of instrumentRet that both ways of getting a register share, with the register and the
-- offset of the return address.
abbrev pub check : ViolationStrategy → Reg → ℕ → List Instr
check strategy scratch_reg rsp_offset =
    mov64rm scratch_reg top_operand
    ∷ sub64ri8 scratch_reg 8
    ∷ mov64mr top_operand scratch_reg
    ∷ mov64rm scratch_reg (at scratch_reg 0)
    ∷ elim strategy [
      | blind_write ↦ mov64mr (at rsp rsp_offset) scratch_reg ∷ []
      | trapping ↦ cmp64mr (at rsp rsp_offset) scratch_reg ∷ jcc_ne_trap ∷ []
    ]

-- What instrumentRet builds, from the register that the scavenger found.
unfoldable pub return_sequence : ViolationStrategy → Option Reg → List Instr
return_sequence strategy (some scratch_reg) = check strategy scratch_reg 0
return_sequence strategy none = push64r r11 ∷ check strategy r11 8 ++ pop64r r11 ∷ []

-- instrumentPreamble: after the meta instructions at the head of the first block.
unfoldable pub instrument_preamble : List MachineInstr → List MachineInstr
instrument_preamble [] = built_all preamble
instrument_preamble (i ∷ is) =
    let rest = instrument_preamble is in
    if is_meta i then i ∷ rest else built_all preamble ++ i ∷ is

-- The loop over one block, with what the scavenger finds before the instruction that has so many
-- after it. The loop goes backwards, and what it inserts is not looked at as a return.
unfoldable pub instrument_block :
    ViolationStrategy → (ℕ → Option Reg) → List MachineInstr → List MachineInstr
unfolding return_sequence
instrument_block strategy found [] = []
instrument_block strategy found (i ∷ is) =
    let rest = instrument_block strategy found is in
    if is_return i
    then built_all (return_sequence strategy (found (length is))) ++ i ∷ rest
    else i ∷ rest

unfoldable pub instrument_blocks :
    ViolationStrategy → (ℕ → ℕ → Option Reg) → List (List MachineInstr) → List (List MachineInstr)
unfolding instrument_block
instrument_blocks strategy found [] = []
instrument_blocks strategy found (b ∷ bs) =
    instrument_block strategy (found (length bs)) b ∷ instrument_blocks strategy found bs

abbrev pub has_return : List MachineInstr → Bool
has_return [] = false
has_return (i ∷ is) = is_return i || has_return is

abbrev pub any_return : List (List MachineInstr) → Bool
any_return [] = false
any_return (b ∷ bs) = has_return b || any_return bs

-- getOrCreateTrapBB: one block at the end of the function, if a check needs it.
abbrev pub trap_block : ViolationStrategy → List (List MachineInstr) → List (List MachineInstr)
trap_block blind_write blocks = []
trap_block trapping blocks = if any_return blocks then (built trap ∷ []) ∷ [] else []

abbrev pub enter : List (List MachineInstr) → List (List MachineInstr)
enter [] = []
enter (b ∷ bs) = instrument_preamble b ∷ bs

-- runOnMachineFunction: whether the function was changed, and the function.
unfoldable pub run_on_machine_function :
    ViolationStrategy → (ℕ → ℕ → Option Reg) → MachineFunction → Bool × MachineFunction
unfolding instrument_blocks instrument_preamble
run_on_machine_function strategy found mf = if not mf.has_calls then (false, mf) else (
  true,
  record mf {
    blocks = instrument_blocks strategy found (enter mf.blocks) ++ trap_block strategy mf.blocks;
  },
)
