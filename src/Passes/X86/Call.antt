-- ===== src/Passes/X86/Call.antt =====
-- A whole call of a function that shadow_stack_x86/X86ShadowStack.cpp has instrumented.
use shadow_stack_llvm.Prelude.{
  ◌+◌, ◌-◌, ◌^◌, ◌<◌, ◌≡◌, ◌≢◌, ap, sym, subst, ◌∙◌, ◌⊎◌, inl, inr, Option, arith,
}
use shadow_stack_llvm.Passes.X86.{
  Reg, ViolationStrategy, blind_write, trapping, preamble, return_sequence,
}
use shadow_stack_llvm.Passes.X86.Cpu.{Ram, Cpu, Run, goes, traps, run}
use shadow_stack_llvm.Passes.X86.Protect.{top_of, Entry, Entered, preamble_lem, Return, kept}
use shadow_stack_llvm.Passes.X86.Check.{Usable, Back, Checks, return_sequence_lem}

module _ (ram : Ram) where
  open ram use {load}

  -- What the body of a function leaves as it was after the preamble: the stack pointer, GS, and what the
  -- preamble put on the shadow stack of `c`. It may do anything to the stack, the return address too.
  pub record Body (c c1 c2 : Cpu ram) : Type 0 where
    pub rsp_kept : c2.rsp_reg ≡ c1.rsp_reg
    pub gs_kept : c2.gs_base ≡ c1.gs_base
    pub top_kept : load c2.mem (c.gs_base + 8) ≡ load c1.mem (c.gs_base + 8)
    pub address_kept : load c2.mem (top_of ram c) ≡ load c1.mem (top_of ram c)
    pub word11 : c2.r11_reg < 2 ^ 64

  -- As it was called: stack pointer, GS and shadow stack are back, and so is the return address.
  pub record Returned (c c' : Cpu ram) : Type 0 where
    pub rsp_kept : c'.rsp_reg ≡ c.rsp_reg
    pub gs_kept : c'.gs_base ≡ c.gs_base
    pub top_kept : load c'.mem (c.gs_base + 8) ≡ top_of ram c
    pub address : load c'.mem c.rsp_reg ≡ load c.mem c.rsp_reg

  abbrev pub Returns : ViolationStrategy → Cpu ram → Cpu ram → Run ram → Type 0
  Returns blind_write c c2 r = (c' : Cpu ram) × (r ≡ goes c') × Returned c c'
  Returns trapping c c2 r =
      ((load c2.mem c.rsp_reg ≡ load c.mem c.rsp_reg)
        × ((c' : Cpu ram) × (r ≡ goes c') × Returned c c'))
      ⊎ ((load c2.mem c.rsp_reg ≢ load c.mem c.rsp_reg) × ((c' : Cpu ram) × (r ≡ traps c')))

  module _ (c c1 c2 : Cpu ram) (e : Entry ram c) (n : Entered ram c c1) (b : Body c c1 c2) where
    same_rsp : c2.rsp_reg ≡ c.rsp_reg
    same_rsp = b.rsp_kept ∙ n.registers.0

    same_gs : c2.gs_base ≡ c.gs_base
    same_gs = b.gs_kept ∙ n.registers.4

    one_longer : top_of ram c2 ≡ top_of ram c + 8
    one_longer = rw same_gs (b.top_kept ∙ n.top_up)

    saved_word : kept ram c2 ≡ load c.mem c.rsp_reg
    saved_word =
        let back : top_of ram c2 - 8 ≡ top_of ram c = omega (arith, one_longer) in
        ap (load c2.mem) back ∙ b.address_kept ∙ n.address

    may-Return : Return ram c2
    may-Return =
        let up : top_of ram c2 ≡ top_of ram c + 8 = one_longer in
        record {
          low = omega (arith, same_rsp, e.low);
          high = omega (arith, same_rsp, e.high);
          gs_high = omega (arith, same_gs, e.gs_high);
          top_low = omega (arith, up);
          word11 = b.word11;
          stack_gs = ground (arith, same_rsp, same_gs, e.stack_gs, e.low);
          stack_top = ground (arith, same_rsp, up, e.stack_top, e.low);
          top_gs = ground (arith, same_gs, up, e.top_gs);
        }

    Back-Returned : (c' : Cpu ram) → Back ram c2 c' → Returned c c'
    Back-Returned c' k = record {
      rsp_kept = k.rsp_kept ∙ same_rsp;
      gs_kept = k.gs_kept ∙ same_gs;
      top_kept =
          ap (λ a. load c'.mem (a + 8)) (sym same_gs) ∙ k.top_down ∙ omega (arith, one_longer);
      address = ap (load c'.mem) (sym same_rsp) ∙ k.address ∙ saved_word;
    }

    Checks-Returns :
        (strategy : ViolationStrategy) (r : Run ram)
        → Checks ram strategy c2 r
        → Returns strategy c c2 r
    Checks-Returns blind_write r (c', go, k) = (c', go, Back-Returned c' k)
    Checks-Returns trapping r (inl (same, (c', go, k))) =
        inl (ap (load c2.mem) (sym same_rsp) ∙ same ∙ saved_word, (c', go, Back-Returned c' k))
    Checks-Returns trapping r (inr (differ, stop)) =
        inr ((λ eq. differ (ap (load c2.mem) same_rsp ∙ eq ∙ sym saved_word)), stop)

  -- A call of an instrumented function, from its entry to its return, whatever its body does to the
  -- stack, as long as it puts the stack pointer back and leaves GS and the shadow stack alone. With
  -- BlindWrite it returns to where it was called from; with Trap it does so or it traps, and it traps
  -- just if the return address on the stack has changed. The shadow stack is back as well.
  pub protected_call :
      (strategy : ViolationStrategy) (scratch : Option Reg) (c c1 c2 : Cpu ram)
      → Usable ram scratch
      → Entry ram c
      → run ram preamble c ≡ goes c1
      → Body c c1 c2
      → Returns strategy c c2 (run ram (return_sequence strategy scratch) c2)
  protected_call strategy scratch c c1 c2 u e ran b =
      let (d, runs, entered) = preamble_lem ram c e in
      let same : d ≡ c1 = cc in
      let n : Entered ram c c1 = subst (Entered ram c) same entered in
      Checks-Returns c c1 c2 e n b strategy _
        (return_sequence_lem ram c2 (may-Return c c1 c2 e n b) strategy scratch u)
