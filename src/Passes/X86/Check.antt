-- ===== src/Passes/X86/Check.antt =====
-- The whole check before a return, shadow_stack_x86/X86ShadowStack.cpp, with both strategies and with and
-- without a free register.
use shadow_stack_llvm.Prelude.{
  ℕ, ◌+◌, ◌-◌, ◌≤◌, ◌≡◌, ◌≢◌, refl, ap, sym, ◌∙◌, ◌⊎◌, inl, inr, Option, none, some, List, [], ◌∷◌,
  ◌++◌, arith, ◌==◌, Bool-cases,
}
use shadow_stack_llvm.Passes.X86.{
  Reg, rsp, r11, Instr, push64r, pop64r, mov64mr, cmp64mr, jcc_ne_trap, at, ViolationStrategy,
  blind_write, trapping, check, return_sequence,
}
use shadow_stack_llvm.Passes.X86.Cpu.{Apart, Ram, Cpu, set, Run, goes, traps, run}
use shadow_stack_llvm.Passes.X86.Protect.{top_of, IsScratch, Return, kept, popped, take}
use shadow_stack_llvm.Passes.X86.Pieces.{
  pushed, run-after_take, run-write, run-compare, run-nil, run-push, run-pop, rsp-set, gs-set,
  mem-set,
}

module _ (ram : Ram) where
  open ram use {Mem, load, store, load-word, load-store, load-store-apart}

  -- The stack pointer and GS are as before, the shadow stack is one word shorter, and the return address
  -- is the one that was saved.
  pub record Back (c c' : Cpu ram) : Type 0 where
    pub rsp_kept : c'.rsp_reg ≡ c.rsp_reg
    pub gs_kept : c'.gs_base ≡ c.gs_base
    pub top_down : load c'.mem (c.gs_base + 8) ≡ top_of ram c - 8
    pub address : load c'.mem c.rsp_reg ≡ kept ram c

  abbrev pub Usable : Option Reg → Type 0
  Usable none = Unit
  Usable (some x) = IsScratch ram x

  -- The function goes on as it was called, or a strategy that traps has found another return address.
  abbrev pub Checks : ViolationStrategy → Cpu ram → Run ram → Type 0
  Checks blind_write c r = (c' : Cpu ram) × (r ≡ goes c') × Back c c'
  Checks trapping c r =
      ((load c.mem c.rsp_reg ≡ kept ram c) × ((c' : Cpu ram) × (r ≡ goes c') × Back c c'))
      ⊎ ((load c.mem c.rsp_reg ≢ kept ram c) × ((c' : Cpu ram) × (r ≡ traps c')))

  module _ (c : Cpu ram) (e : Return ram c) where
    gs8 : (v : ℕ) (m : Mem) → load (store c.rsp_reg v m) (c.gs_base + 8) ≡ load m (c.gs_base + 8)
    gs8 v m = load-store-apart c.rsp_reg v (c.gs_base + 8) m (ground (arith, e.stack_gs, e.low))

    down :
        (m : Mem)
        → load (store (c.gs_base + 8) (top_of ram c - 8) m) (c.gs_base + 8) ≡ top_of ram c - 8
    down m =
        load-store (c.gs_base + 8) (top_of ram c - 8) m
          (omega (arith, load-word c.mem (c.gs_base + 8)))

    on_stack :
        (b : ℕ) (m : Mem)
        → c.rsp_reg - 8 ≤ b
        → b ≤ c.rsp_reg
        → load (store (c.gs_base + 8) (top_of ram c - 8) m) b ≡ load m b
    on_stack b m h k =
        load-store-apart (c.gs_base + 8) (top_of ram c - 8) b m
          (ground (arith, e.stack_gs, e.low, h, k))

    here_0 : c.rsp_reg + 0 ≡ c.rsp_reg
    here_0 = omega arith

    blind-some :
        (x : Reg) → IsScratch ram x → Checks blind_write c (run ram (check blind_write x 0) c)
    blind-some x h = (
      record (set ram x (kept ram c) (popped ram c)) {
        mem = store (c.rsp_reg + 0) (kept ram c) (popped ram c).mem;
      },
      run-after_take ram x (mov64mr (at rsp 0) x ∷ []) c h e.gs_high e.top_low e.top_gs
          ∙ run-write ram x (kept ram c) 0 [] (popped ram c) h (omega (arith, e.high))
          ∙ run-nil ram _,
      record {
        rsp_kept = rsp-set ram x (kept ram c) (popped ram c) h;
        gs_kept = gs-set ram x (kept ram c) (popped ram c);
        top_down = rw (here_0, gs8 (kept ram c) (popped ram c).mem) (down c.mem);
        address = rw here_0 (
            load-store c.rsp_reg (kept ram c) (popped ram c).mem
              (load-word c.mem (top_of ram c - 8)));
      },
    )

    compare-some : (x : Reg) → IsScratch ram x → Checks trapping c (run ram (check trapping x 0) c)
    compare-some x h =
        let d = record (set ram x (kept ram c) (popped ram c)) {
          zero_flag = load (popped ram c).mem (c.rsp_reg + 0) == kept ram c;
        } in
        let whole =
          run-after_take ram x (cmp64mr (at rsp 0) x ∷ jcc_ne_trap ∷ []) c h e.gs_high e.top_low
            e.top_gs
          ∙ run-compare ram x (kept ram c) 0 [] (popped ram c) h (omega (arith, e.high)) in
        let found : load (popped ram c).mem (c.rsp_reg + 0) ≡ load c.mem c.rsp_reg =
          rw here_0 (on_stack c.rsp_reg c.mem (omega arith) (omega arith)) in
        elim (Bool-cases (load (popped ram c).mem (c.rsp_reg + 0) == kept ram c)) [
          | inl same ↦
              let eq : load c.mem c.rsp_reg ≡ kept ram c = sym found ∙ ground (arith, same) in
              inl (
                eq,
                (
                  d,
                  whole ∙ rw same (run-nil ram _),
                  record {
                    rsp_kept = rsp-set ram x (kept ram c) (popped ram c) h;
                    gs_kept = gs-set ram x (kept ram c) (popped ram c);
                    top_down = rw (mem-set ram x (kept ram c) (popped ram c)) (down c.mem);
                    address =
                        rw (mem-set ram x (kept ram c) (popped ram c))
                          (on_stack c.rsp_reg c.mem (omega arith) (omega arith) ∙ eq);
                  },
                ),
              )
          | inr differ ↦
              inr ((λ eq. ground (arith, differ, found, eq)), (d, whole ∙ rw differ refl))
        ]

    -- With r11 on the stack, the shadow stack is the same.
    top-pushed : top_of ram (pushed ram c) ≡ top_of ram c
    top-pushed =
        load-store-apart (c.rsp_reg - 8) c.r11_reg (c.gs_base + 8) c.mem
          (ground (arith, e.stack_gs, e.low))

    kept-pushed : kept ram (pushed ram c) ≡ kept ram c
    kept-pushed =
        ap (λ a. load (pushed ram c).mem (a - 8)) top-pushed
        ∙ load-store-apart (c.rsp_reg - 8) c.r11_reg (top_of ram c - 8) c.mem
            (ground (arith, e.stack_top, e.low))

    low-pushed : 8 ≤ top_of ram (pushed ram c)
    low-pushed = omega (arith, top-pushed, e.top_low)

    gs-pushed : Apart (top_of ram (pushed ram c) - 8) (c.gs_base + 8)
    gs-pushed = rw top-pushed e.top_gs

    back_8 : c.rsp_reg - 8 + 8 ≡ c.rsp_reg
    back_8 = omega (arith, e.low)

    run-spilled :
        (js : List Instr)
        → run ram (push64r r11 ∷ take ram r11 ++ js) c
          ≡ run ram js (set ram r11 (kept ram (pushed ram c)) (popped ram (pushed ram c)))
    run-spilled js =
        run-push ram (take ram r11 ++ js) c e.low (omega (arith, e.high))
        ∙ run-after_take ram r11 js (pushed ram c) tt e.gs_high low-pushed gs-pushed

    spilled-down : load (popped ram (pushed ram c)).mem (c.gs_base + 8) ≡ top_of ram c - 8
    spilled-down = rw top-pushed (down (pushed ram c).mem)

    spilled-address :
        load (popped ram (pushed ram c)).mem (c.rsp_reg - 8 + 8) ≡ load c.mem c.rsp_reg
    spilled-address =
        rw (back_8, top-pushed)
          (on_stack c.rsp_reg (pushed ram c).mem (omega arith) (omega arith)
            ∙ load-store-apart (c.rsp_reg - 8) c.r11_reg c.rsp_reg c.mem
                (inl (omega (arith, e.low))))

    blind-none : Checks blind_write c (run ram (return_sequence blind_write none) c)
    unfolding return_sequence
    blind-none =
        let k = kept ram (pushed ram c) in
        let w = record (set ram r11 k (popped ram (pushed ram c))) {
          mem = store (c.rsp_reg - 8 + 8) k (popped ram (pushed ram c)).mem;
        } in
        (
          record w { rsp_reg = c.rsp_reg - 8 + 8; r11_reg = load w.mem (c.rsp_reg - 8) },
          run-spilled (mov64mr (at rsp 8) r11 ∷ pop64r r11 ∷ [])
              ∙ run-write ram r11 k 8 (pop64r r11 ∷ []) (popped ram (pushed ram c)) tt
                  (omega (arith, e.low, e.high))
              ∙ run-pop ram w (omega (arith, e.low, e.high)),
          record {
            rsp_kept = back_8;
            gs_kept = refl;
            top_down = rw back_8 (gs8 k (popped ram (pushed ram c)).mem ∙ spilled-down);
            address =
                rw back_8 (
                  load-store c.rsp_reg k (popped ram (pushed ram c)).mem
                    (load-word (pushed ram c).mem (top_of ram (pushed ram c) - 8)))
                ∙ kept-pushed;
          },
        )

    compare-none : Checks trapping c (run ram (return_sequence trapping none) c)
    unfolding return_sequence
    compare-none =
        let k = kept ram (pushed ram c) in
        let p = popped ram (pushed ram c) in
        let d = record (set ram r11 k p) { zero_flag = load p.mem (c.rsp_reg - 8 + 8) == k } in
        let whole =
          run-spilled (cmp64mr (at rsp 8) r11 ∷ jcc_ne_trap ∷ pop64r r11 ∷ [])
          ∙ run-compare ram r11 k 8 (pop64r r11 ∷ []) p tt (omega (arith, e.low, e.high)) in
        elim (Bool-cases (load p.mem (c.rsp_reg - 8 + 8) == k)) [
          | inl same ↦
              let eq : load c.mem c.rsp_reg ≡ kept ram c =
                sym spilled-address ∙ ground (arith, same) ∙ kept-pushed in
              inl (
                eq,
                (
                  record d { rsp_reg = c.rsp_reg - 8 + 8; r11_reg = load p.mem (c.rsp_reg - 8) },
                  whole ∙ rw same (run-pop ram _ (omega (arith, e.low, e.high))),
                  record {
                    rsp_kept = back_8;
                    gs_kept = refl;
                    top_down = spilled-down;
                    address = ap (load p.mem) (sym back_8) ∙ spilled-address ∙ eq;
                  },
                ),
              )
          | inr differ ↦ inr (
            (λ eq. ground (arith, differ, spilled-address, kept-pushed, eq)),
            (d, whole ∙ rw differ refl),
          )
        ]

    -- The instructions before a return, when the function may return: with BlindWrite the return address
    -- is the one that was saved, whatever it was before; with Trap the processor goes on just if the
    -- return address is still the saved one. A function that goes on has its stack pointer back, and the
    -- shadow stack is one word shorter. This holds with a free register and without one.
    pub return_sequence_lem :
        (strategy : ViolationStrategy) (scratch : Option Reg)
        → Usable scratch
        → Checks strategy c (run ram (return_sequence strategy scratch) c)
    unfolding return_sequence
    return_sequence_lem blind_write (some x) h = blind-some x h
    return_sequence_lem blind_write none h = blind-none
    return_sequence_lem trapping (some x) h = compare-some x h
    return_sequence_lem trapping none h = compare-none
