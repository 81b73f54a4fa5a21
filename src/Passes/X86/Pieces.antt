-- ===== src/Passes/X86/Pieces.antt =====
-- The parts of the check before a return, shadow_stack_x86/X86ShadowStack.cpp, run one after the other.
use shadow_stack_llvm.Prelude.{
  ℕ, ◌+◌, ◌-◌, ◌%◌, ◌^◌, ◌≤◌, ◌<◌, ◌≡◌, refl, ap, ◌∙◌, inl, inr, List, [], ◌∷◌, ◌++◌, arith, ◌==◌,
  if◌then◌else◌, Bool-cases,
}
use shadow_stack_llvm.Passes.X86.{
  Reg, rsp, r10, r11, other, Instr, push64r, pop64r, mov64mr, cmp64mr, jcc_ne_trap, at,
}
use shadow_stack_llvm.Passes.X86.Cpu.{
  Apart, Ram, Cpu, get, set, step, Run, goes, traps, then_run, run,
}
use shadow_stack_llvm.Passes.X86.Protect.{top_of, IsScratch, kept, popped, take, run-take}

module _ (ram : Ram) where
  open ram use {Mem, load, store, load-word, load-store, load-store-apart}

  -- r11 is spilled.
  abbrev pub pushed : Cpu ram → Cpu ram
  pushed c = record c { rsp_reg = c.rsp_reg - 8; mem = store (c.rsp_reg - 8) c.r11_reg c.mem }

  pub then_run-append :
      (is js : List Instr) (r : Run ram)
      → ((c : Cpu ram) → run ram (is ++ js) c ≡ then_run ram (run ram is c) (run ram js))
      → then_run ram r (run ram (is ++ js))
        ≡ then_run ram (then_run ram r (run ram is)) (run ram js)
  then_run-append is js (goes d) h = h d
  then_run-append is js (traps d) h = refl

  pub run-append :
      (is js : List Instr) (c : Cpu ram)
      → run ram (is ++ js) c ≡ then_run ram (run ram is c) (run ram js)
  unfolding run
  run-append [] js c = refl
  run-append (i ∷ is) js c = then_run-append is js (step ram i c) (run-append is js)

  -- Registers after one is set.
  pub rsp-set :
      (x : Reg) (v : ℕ) (c : Cpu ram) → IsScratch ram x → (set ram x v c).rsp_reg ≡ c.rsp_reg
  rsp-set rsp v c h = absurd h
  rsp-set r10 v c h = refl
  rsp-set r11 v c h = refl
  rsp-set (other k) v c h = refl

  pub gs-set : (x : Reg) (v : ℕ) (c : Cpu ram) → (set ram x v c).gs_base ≡ c.gs_base
  gs-set rsp v c = refl
  gs-set r10 v c = refl
  gs-set r11 v c = refl
  gs-set (other k) v c = refl

  pub mem-set : (x : Reg) (v : ℕ) (c : Cpu ram) → (set ram x v c).mem ≡ c.mem
  mem-set rsp v c = refl
  mem-set r10 v c = refl
  mem-set r11 v c = refl
  mem-set (other k) v c = refl

  pub get-set : (x : Reg) (v : ℕ) (c : Cpu ram) → get ram x (set ram x v c) ≡ v
  get-set rsp v c = refl
  get-set r10 v c = refl
  get-set r11 v c = refl
  get-set (other k) v c = ground arith

  -- What comes after `take` runs from there.
  pub run-after_take :
      (x : Reg) (js : List Instr) (c : Cpu ram)
      → IsScratch ram x
      → c.gs_base + 16 ≤ 2 ^ 64
      → 8 ≤ top_of ram c
      → Apart (top_of ram c - 8) (c.gs_base + 8)
      → run ram (take ram x ++ js) c ≡ run ram js (set ram x (kept ram c) (popped ram c))
  run-after_take x js c h high low gs =
      run-append (take ram x) js c
      ∙ ap (λ r. then_run ram r (run ram js)) (run-take ram c high low gs x h)

  -- The return address at the stack pointer or 8 above it is written, or compared.
  pub run-write :
      (x : Reg) (v d : ℕ) (js : List Instr) (c : Cpu ram)
      → IsScratch ram x
      → c.rsp_reg + d < 2 ^ 64
      → run ram (mov64mr (at rsp d) x ∷ js) (set ram x v c)
        ≡ run ram js (record (set ram x v c) { mem = store (c.rsp_reg + d) v c.mem })
  unfolding run
  run-write x v d js c h k =
      let a : (0 + c.rsp_reg + d) % 2 ^ 64 ≡ c.rsp_reg + d = omega (arith, k) in
      rw (rsp-set x v c h, get-set x v c, mem-set x v c, a) refl

  pub run-compare :
      (x : Reg) (v d : ℕ) (js : List Instr) (c : Cpu ram)
      → IsScratch ram x
      → c.rsp_reg + d < 2 ^ 64
      → run ram (cmp64mr (at rsp d) x ∷ jcc_ne_trap ∷ js) (set ram x v c) ≡ (
          let e = record (set ram x v c) { zero_flag = load c.mem (c.rsp_reg + d) == v } in
          if load c.mem (c.rsp_reg + d) == v then run ram js e else traps e)
  unfolding run
  run-compare x v d js c h k =
      let a : (0 + c.rsp_reg + d) % 2 ^ 64 ≡ c.rsp_reg + d = omega (arith, k) in
      rw (rsp-set x v c h, get-set x v c, mem-set x v c, a)
        (elim (Bool-cases (load c.mem (c.rsp_reg + d) == v)) [
          | inl y ↦ rw y refl
          | inr n ↦ rw n refl
        ])

  pub run-nil : (c : Cpu ram) → run ram [] c ≡ goes c
  unfolding run
  run-nil c = refl

  pub run-push :
      (js : List Instr) (c : Cpu ram)
      → 8 ≤ c.rsp_reg
      → c.rsp_reg < 2 ^ 64
      → run ram (push64r r11 ∷ js) c ≡ run ram js (pushed c)
  unfolding run
  run-push js c h k =
      let p : (c.rsp_reg + 2 ^ 64 - 8) % 2 ^ 64 ≡ c.rsp_reg - 8 = omega (arith, h, k) in rw p refl

  pub run-pop :
      (c : Cpu ram)
      → c.rsp_reg + 8 < 2 ^ 64
      → run ram (pop64r r11 ∷ []) c
        ≡ goes (record c { rsp_reg = c.rsp_reg + 8; r11_reg = load c.mem c.rsp_reg })
  unfolding run
  run-pop c h = let p : (c.rsp_reg + 8) % 2 ^ 64 ≡ c.rsp_reg + 8 = omega (arith, h) in rw p refl
