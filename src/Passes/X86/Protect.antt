-- ===== src/Passes/X86/Protect.antt =====
-- What the instructions of shadow_stack_x86/X86ShadowStack.cpp do to a processor: the preamble saves the
-- return address, and the check before a return takes it back.
use shadow_stack_llvm.Prelude.{
  ℕ, ◌+◌, ◌-◌, ◌%◌, ◌^◌, ◌≤◌, ◌<◌, ◌≡◌, refl, ◌∙◌, ◌⊎◌, inl, inr, true, List, [], ◌∷◌, arith, ◌==◌,
  update,
}
use shadow_stack_llvm.Passes.X86.{
  Reg, rsp, r10, r11, other, Instr, mov64rm, mov64mr, sub64ri8, top_operand, at, preamble,
}
use shadow_stack_llvm.Passes.X86.Cpu.{Apart, Ram, Cpu, set, goes, run}

module _ (ram : Ram) where
  open ram use {Mem, load, store, load-word, load-store, load-store-apart}

  abbrev pub top_of : Cpu ram → ℕ
  top_of c = load c.mem (c.gs_base + 8)

  -- A function is entered: the words of the stack that the preamble touches, GS:8 and the next word of
  -- the shadow stack are apart, and no address wraps around.
  pub record Entry (c : Cpu ram) : Type 0 where
    pub low : 16 ≤ c.rsp_reg
    pub high : c.rsp_reg + 8 ≤ 2 ^ 64
    pub gs_high : c.gs_base + 16 ≤ 2 ^ 64
    pub top_high : top_of c + 16 ≤ 2 ^ 64
    pub word10 : c.r10_reg < 2 ^ 64
    pub word11 : c.r11_reg < 2 ^ 64
    pub stack_gs : (c.rsp_reg + 8 ≤ c.gs_base + 8) ⊎ (c.gs_base + 16 ≤ c.rsp_reg - 16)
    pub stack_top : (c.rsp_reg + 8 ≤ top_of c) ⊎ (top_of c + 8 ≤ c.rsp_reg - 16)
    pub top_gs : Apart (top_of c) (c.gs_base + 8)

  -- The memory after the preamble.
  abbrev pub saved : Cpu ram → Mem
  saved c = store (c.gs_base + 8) (top_of c + 8) (
      store (top_of c) (load c.mem c.rsp_reg)
        (store (c.rsp_reg - 16) c.r10_reg (store (c.rsp_reg - 8) c.r11_reg c.mem)))

  -- The last two stores of the preamble leave the stack alone.
  saved-spill :
      (c : Cpu ram)
      → Entry c
      → (b : ℕ) → c.rsp_reg - 16 ≤ b
      → b ≤ c.rsp_reg
      → load (saved c) b
        ≡ load (store (c.rsp_reg - 16) c.r10_reg (store (c.rsp_reg - 8) c.r11_reg c.mem)) b
  saved-spill c e b h k =
      load-store-apart (c.gs_base + 8) (top_of c + 8) b _ (ground (arith, e.stack_gs, h, k))
      ∙ load-store-apart (top_of c) (load c.mem c.rsp_reg) b _ (ground (arith, e.stack_top, h, k))

  run-preamble :
      (c : Cpu ram)
      → Entry c
      → run ram preamble c ≡ goes (record c { zero_flag = top_of c + 8 == 0; mem = saved c })
  unfolding run
  run-preamble c e =
      let sp = c.rsp_reg in
      let gs8 = c.gs_base + 8 in
      let m1 = store (sp - 8) c.r11_reg c.mem in
      let m2 = store (sp - 16) c.r10_reg m1 in
      let p1 : (sp + 2 ^ 64 - 8) % 2 ^ 64 ≡ sp - 8 = omega (arith, e.low, e.high) in
      let p2 : (sp - 8 + 2 ^ 64 - 8) % 2 ^ 64 ≡ sp - 16 = omega (arith, e.low, e.high) in
      let a1 : (c.gs_base + 0 + 8) % 2 ^ 64 ≡ gs8 = omega (arith, e.gs_high) in
      let a2 : (0 + (sp - 16) + 16) % 2 ^ 64 ≡ sp = omega (arith, e.low, e.high) in
      let t1 : (0 + top_of c + 0) % 2 ^ 64 ≡ top_of c = omega (arith, e.top_high) in
      let t2 : (top_of c + 8) % 2 ^ 64 ≡ top_of c + 8 = omega (arith, e.top_high) in
      let t3 : (sp - 16 + 8) % 2 ^ 64 ≡ sp - 8 = omega (arith, e.low, e.high) in
      let t4 : (sp - 8 + 8) % 2 ^ 64 ≡ sp = omega (arith, e.low, e.high) in
      let l1 : load m2 gs8 ≡ top_of c =
        load-store-apart (sp - 16) c.r10_reg gs8 m1 (ground (arith, e.stack_gs, e.low))
        ∙ load-store-apart (sp - 8) c.r11_reg gs8 c.mem (ground (arith, e.stack_gs, e.low)) in
      let l2 : load m2 sp ≡ load c.mem sp =
        load-store-apart (sp - 16) c.r10_reg sp m1 (inl (omega (arith, e.low)))
        ∙ load-store-apart (sp - 8) c.r11_reg sp c.mem (inl (omega (arith, e.low))) in
      let l3 : load (saved c) (sp - 16) ≡ c.r10_reg =
        saved-spill c e (sp - 16) (omega arith) (omega (arith, e.low))
        ∙ load-store (sp - 16) c.r10_reg m1 e.word10 in
      let l4 : load (saved c) (sp - 8) ≡ c.r11_reg =
        saved-spill c e (sp - 8) (omega arith) (omega (arith, e.low))
        ∙ load-store-apart (sp - 16) c.r10_reg (sp - 8) m1 (inl (omega (arith, e.low)))
        ∙ load-store (sp - 8) c.r11_reg c.mem e.word11 in
      rw (p1, p2, a1, a2, l1, l2, t1, t2, t3, l3, t4, l4) refl

  saved-top : (c : Cpu ram) → Entry c → load (saved c) (top_of c) ≡ load c.mem c.rsp_reg
  saved-top c e =
      load-store-apart (c.gs_base + 8) (top_of c + 8) (top_of c) _ (ground (arith, e.top_gs))
      ∙ load-store (top_of c) (load c.mem c.rsp_reg) _ (load-word c.mem c.rsp_reg)

  saved-gs : (c : Cpu ram) → Entry c → load (saved c) (c.gs_base + 8) ≡ top_of c + 8
  saved-gs c e = load-store (c.gs_base + 8) (top_of c + 8) _ (omega (arith, e.top_high))

  saved-else :
      (c : Cpu ram) (b : ℕ)
      → Entry c
      → Apart b (c.gs_base + 8)
      → Apart b (top_of c)
      → (c.rsp_reg ≤ b) ⊎ (b + 8 ≤ c.rsp_reg - 16)
      → load (saved c) b ≡ load c.mem b
  saved-else c b e g t s =
      load-store-apart (c.gs_base + 8) (top_of c + 8) b _ (ground (arith, g))
      ∙ load-store-apart (top_of c) (load c.mem c.rsp_reg) b _ (ground (arith, t))
      ∙ load-store-apart (c.rsp_reg - 16) c.r10_reg b _ (ground (arith, s, e.low))
      ∙ load-store-apart (c.rsp_reg - 8) c.r11_reg b _ (ground (arith, s, e.low))

  -- A word at `b` shares a byte with the words at GS:8, at the top of the shadow stack, or with the two
  -- words below the stack pointer.
  abbrev pub Touched : Cpu ram → ℕ → Type 0
  Touched c b =
      ((b < c.gs_base + 16) × (c.gs_base + 8 < b + 8))
      ⊎ ((b < top_of c + 8) × (top_of c < b + 8))
      ⊎ ((b < c.rsp_reg) × (c.rsp_reg - 16 < b + 8))

  -- The registers are as before; the return address is on top of the shadow stack, which is one word
  -- longer; and only three places of the memory may have changed.
  pub record Entered (c c' : Cpu ram) : Type 0 where
    pub registers :
        (c'.rsp_reg ≡ c.rsp_reg)
        × (c'.r10_reg ≡ c.r10_reg)
        × (c'.r11_reg ≡ c.r11_reg)
        × (c'.other_reg ≡ c.other_reg)
        × (c'.gs_base ≡ c.gs_base)
    pub address : load c'.mem (top_of c) ≡ load c.mem c.rsp_reg
    pub top_up : load c'.mem (c.gs_base + 8) ≡ top_of c + 8
    pub else_kept : (b : ℕ) → (load c'.mem b ≡ load c.mem b) ⊎ Touched c b

  -- The preamble, where the words it touches are apart: it goes on with all the registers as before, the
  -- return address on top of a shadow stack that is one word longer, and the memory as before but for
  -- GS:8, that word and the two words below the stack pointer.
  pub preamble_lem :
      (c : Cpu ram) → Entry c → (c' : Cpu ram) × (run ram preamble c ≡ goes c') × Entered c c'
  preamble_lem c e = (
    record c { zero_flag = top_of c + 8 == 0; mem = saved c },
    run-preamble c e,
    record {
      registers = (refl, refl, refl, refl, refl);
      address = saved-top c e;
      top_up = saved-gs c e;
      else_kept = λ b. elim (places b) [
        | inl away ↦ inl (saved-else c b e away.0 away.1 away.2)
        | inr near ↦ inr near
      ];
    },
  )
    where
      places :
          (b : ℕ)
          → (Apart b (c.gs_base + 8)
              × Apart b (top_of c)
              × ((c.rsp_reg ≤ b) ⊎ (b + 8 ≤ c.rsp_reg - 16)))
            ⊎ Touched c b
      places b = ground arith

  -- The stack pointer is never the scratch register.
  abbrev pub IsScratch : Reg → Type 0
  IsScratch rsp = ⊥
  IsScratch r10 = Unit
  IsScratch r11 = Unit
  IsScratch (other k) = Unit

  -- A function is about to return: the return address, the word below it, GS:8 and the last word of the
  -- shadow stack are apart, and no address wraps around.
  pub record Return (c : Cpu ram) : Type 0 where
    pub low : 8 ≤ c.rsp_reg
    pub high : c.rsp_reg + 8 ≤ 2 ^ 64
    pub gs_high : c.gs_base + 16 ≤ 2 ^ 64
    pub top_low : 8 ≤ top_of c
    pub word11 : c.r11_reg < 2 ^ 64
    pub stack_gs : (c.rsp_reg + 8 ≤ c.gs_base + 8) ⊎ (c.gs_base + 16 ≤ c.rsp_reg - 8)
    pub stack_top : (c.rsp_reg + 8 ≤ top_of c - 8) ⊎ (top_of c ≤ c.rsp_reg - 8)
    pub top_gs : Apart (top_of c - 8) (c.gs_base + 8)

  -- The last word of the shadow stack.
  abbrev pub kept : Cpu ram → ℕ
  kept c = load c.mem (top_of c - 8)

  abbrev pub popped : Cpu ram → Cpu ram
  popped c = record c {
    zero_flag = top_of c - 8 == 0;
    mem = store (c.gs_base + 8) (top_of c - 8) c.mem;
  }

  abbrev pub take : Reg → List Instr
  take x = mov64rm x top_operand ∷ sub64ri8 x 8 ∷ mov64mr top_operand x ∷ mov64rm x (at x 0) ∷ []

  module _ (c : Cpu ram) (high : c.gs_base + 16 ≤ 2 ^ 64) (low : 8 ≤ top_of c)
      (gs : Apart (top_of c - 8) (c.gs_base + 8)) where
    gs-address : (c.gs_base + 0 + 8) % 2 ^ 64 ≡ c.gs_base + 8
    gs-address = omega (arith, high)

    top-down : (top_of c + 2 ^ 64 - 8) % 2 ^ 64 ≡ top_of c - 8
    top-down = omega (arith, low, load-word c.mem (c.gs_base + 8))

    top-address : (0 + (top_of c - 8) + 0) % 2 ^ 64 ≡ top_of c - 8
    top-address = omega (arith, load-word c.mem (c.gs_base + 8))

    kept-popped : load (popped c).mem (top_of c - 8) ≡ kept c
    kept-popped =
        load-store-apart (c.gs_base + 8) (top_of c - 8) (top_of c - 8) c.mem (ground (arith, gs))

    pub run-take :
        (x : Reg) → IsScratch x → run ram (take x) c ≡ goes (set ram x (kept c) (popped c))
    unfolding run
    run-take rsp h = absurd h
    run-take r10 h = rw (gs-address, top-down, top-address, kept-popped) refl
    run-take r11 h = rw (gs-address, top-down, top-address, kept-popped) refl
    run-take (other k) h =
        rw (gs-address, same k)
          (rw (top-down, top-address, kept-popped)
            (λ i. goes (record (popped c) { other_reg = λ j. again j i })))
      where
        same : (j : ℕ) → (j == j) ≡ true
        same j = ground arith

        again :
            (j : ℕ)
            → update (update (update c.other_reg k (top_of c)) k (top_of c - 8)) k (kept c) j
              ≡ update c.other_reg k (kept c) j
        again j = ground arith
