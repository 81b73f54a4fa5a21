-- ===== src/Passes/X86/Cpu.antt =====
-- The processor's reading of the instructions that shadow_stack_x86/X86ShadowStack.cpp builds. Words of
-- memory are an argument, with what is documented of 8-byte loads and stores; registers and addresses
-- are 64-bit words.
use shadow_stack_llvm.Prelude.{
  ℕ, ◌+◌, ◌-◌, ◌%◌, ◌^◌, ◌≤◌, ◌<◌, ◌≡◌, ◌⊎◌, Bool, Option, none, some, List, [], ◌∷◌, ◌==◌,
  if◌then◌else◌, update,
}
use shadow_stack_llvm.Passes.X86.{
  Reg, rsp, r10, r11, other, MemOperand, Instr, push64r, pop64r, mov64rm, mov64mr, cmp64mr,
  add64ri8, sub64ri8, jcc_ne_trap, trap,
}

-- Two words share no byte.
abbrev pub Apart : ℕ → ℕ → Type 0
Apart a b = (a + 8 ≤ b) ⊎ (b + 8 ≤ a)

pub record Ram : Type 1 where
  pub Mem : Type 0
  pub load : Mem → ℕ → ℕ
  pub store : ℕ → ℕ → Mem → Mem
  pub load-word : (m : Mem) (a : ℕ) → load m a < 2 ^ 64
  pub load-store : (a v : ℕ) (m : Mem) → v < 2 ^ 64 → load (store a v m) a ≡ v
  pub load-store-apart : (a v b : ℕ) (m : Mem) → Apart a b → load (store a v m) b ≡ load m b

module _ (ram : Ram) where
  open ram use {Mem, load, store}

  pub record Cpu : Type 0 where
    pub rsp_reg : ℕ
    pub r10_reg : ℕ
    pub r11_reg : ℕ
    pub other_reg : ℕ → ℕ
    pub gs_base : ℕ
    pub zero_flag : Bool
    pub mem : Mem

  abbrev pub get : Reg → Cpu → ℕ
  get rsp c = c.rsp_reg
  get r10 c = c.r10_reg
  get r11 c = c.r11_reg
  get (other k) c = c.other_reg k

  abbrev pub set : Reg → ℕ → Cpu → Cpu
  set rsp v c = record c { rsp_reg = v }
  set r10 v c = record c { r10_reg = v }
  set r11 v c = record c { r11_reg = v }
  set (other k) v c = record c { other_reg = update c.other_reg k v }

  abbrev pub base_value : Option Reg → Cpu → ℕ
  base_value none c = 0
  base_value (some r) c = get r c

  abbrev pub address : MemOperand → Cpu → ℕ
  address o c = ((if o.in_gs then c.gs_base else 0) + base_value o.base c + o.disp) % 2 ^ 64

  -- The processor goes on, or stops at a trap.
  pub data Run : Type 0 where
    goes : Cpu → Run
    traps : Cpu → Run

  abbrev pub step : Instr → Cpu → Run
  step (push64r r) c =
      let sp = (c.rsp_reg + 2 ^ 64 - 8) % 2 ^ 64 in
      goes (record c { rsp_reg = sp; mem = store sp (get r c) c.mem })
  step (pop64r r) c =
      goes (set r (load c.mem c.rsp_reg) (record c { rsp_reg = (c.rsp_reg + 8) % 2 ^ 64 }))
  step (mov64rm r o) c = goes (set r (load c.mem (address o c)) c)
  step (mov64mr o r) c = goes (record c { mem = store (address o c) (get r c) c.mem })
  step (add64ri8 r n) c =
      let v = (get r c + n) % 2 ^ 64 in goes (set r v (record c { zero_flag = v == 0 }))
  step (sub64ri8 r n) c =
      let v = (get r c + 2 ^ 64 - n) % 2 ^ 64 in goes (set r v (record c { zero_flag = v == 0 }))
  step (cmp64mr o r) c = goes (record c { zero_flag = load c.mem (address o c) == get r c })
  step jcc_ne_trap c = if c.zero_flag then goes c else traps c
  step trap c = traps c

  abbrev pub then_run : Run → (Cpu → Run) → Run
  then_run (goes c) k = k c
  then_run (traps c) k = traps c

  unfoldable pub run : List Instr → Cpu → Run
  run [] c = goes c
  run (i ∷ is) c = then_run (step i c) (run is)
