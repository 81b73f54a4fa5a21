-- ===== src/Lkm/FreeList/Race/Owners.antt =====
-- What holds in every interleaving: the count is the length, at most a stack for every caller is over
-- the capacity, and a stack has one owner.
use shadow_stack_llvm.Prelude.{
  ℕ, zero, suc, ◌+◌, ◌-◌, ◌≤◌, ◌<◌, ◌≡◌, ◌≢◌, refl, sym, ap, subst, ◌∙◌, ◌⊎◌, inl, inr, false, some,
  arith, update, ◌==◌, length, Bool-cases,
}
use shadow_stack_llvm.Lkm.Memory.{is_mem, Distinct}
use shadow_stack_llvm.Lkm.FreeList.{gl_sa_capacity}
use shadow_stack_llvm.Lkm.FreeList.Race.{
  Shared, Pc, idle, allocating, holds, passed, owned, System, Move, take, empty, new_stack,
  no_memory, full, pass, insert, Step, pick, Reach, stay, next,
}

abbrev weight : Pc → ℕ
weight (passed stack) = 1
weight _ = 0

-- How many callers are past the test.
abbrev pub past_test : (ℕ → Pc) → ℕ → ℕ
past_test pc zero = 0
past_test pc (suc n) = past_test pc n + weight (pc n)

record Inv (n : ℕ) (s : System) : Type 0 where
  counted : s.gl.gl_size ≡ length s.gl.gl_sa
  bounded : s.gl.gl_size + past_test s.pc n < gl_sa_capacity + n
  distinct : Distinct s.gl.gl_sa
  away : (i stack : ℕ) → owned (s.pc i) ≡ some stack → is_mem stack s.gl.gl_sa ≡ false
  alone : (i j stack : ℕ) → owned (s.pc i) ≡ some stack → owned (s.pc j) ≡ some stack → i ≡ j

-- A stack is on the list once, or one caller has it.
pub record OneOwner (s : System) : Type 0 where
  pub distinct : Distinct s.gl.gl_sa
  pub away : (i stack : ℕ) → owned (s.pc i) ≡ some stack → is_mem stack s.gl.gl_sa ≡ false
  pub alone : (i j stack : ℕ) → owned (s.pc i) ≡ some stack → owned (s.pc j) ≡ some stack → i ≡ j

-- A state in which the callers may start: none of them is past the test.
pub record Start (n : ℕ) (s : System) : Type 0 where
  pub counted : s.gl.gl_size ≡ length s.gl.gl_sa
  pub bounded : s.gl.gl_size ≤ gl_sa_capacity
  pub before : past_test s.pc n ≡ 0
  pub owners : OneOwner s

-- A caller that is not one of the first `n` does not count.
past_test-outside :
    (pc : ℕ → Pc) (i : ℕ) (p : Pc) (n : ℕ) → n ≤ i → past_test (update pc i p) n ≡ past_test pc n
past_test-outside pc i p zero h = refl
past_test-outside pc i p (suc n) h =
    let other : (n == i) ≡ false = ground arith in
    let same = past_test-outside pc i p n (omega arith) in rw other (omega (arith, same))

past_test-update :
    (pc : ℕ → Pc) (i : ℕ) (p : Pc) (n : ℕ)
    → i < n
    → past_test (update pc i p) n + weight (pc i) ≡ past_test pc n + weight p
past_test-update pc i p zero h = absurd (omega arith)
past_test-update pc i p (suc n) h = elim (Bool-cases (n == i)) [
  | inl hit ↦
      let same : n ≡ i = ground (arith, hit) in
      let before = past_test-outside pc i p n (omega (arith, same)) in
      let moved : weight (pc n) ≡ weight (pc i) = ap (λ k. weight (pc k)) same in
      rw hit (omega (arith, before, moved))
  | inr miss ↦
      let before = past_test-update pc i p n (ground (arith, miss)) in
      rw miss (omega (arith, before))
]

past_test-le : (pc : ℕ → Pc) (n : ℕ) → past_test pc n ≤ n
past_test-le pc zero = omega arith
past_test-le pc (suc n) = omega (arith, past_test-le pc n, weight-le (pc n))
  where
    weight-le : (p : Pc) → weight p ≤ 1
    weight-le (passed stack) = omega arith
    weight-le idle = omega arith
    weight-le allocating = omega arith
    weight-le (holds stack) = omega arith

-- Who owns a stack after a step of `i`.
owner-cases :
    (pc : ℕ → Pc) (i : ℕ) (p : Pc) (j stack : ℕ)
    → owned (update pc i p j) ≡ some stack
    → ((j ≡ i) × (owned p ≡ some stack)) ⊎ (((j == i) ≡ false) × (owned (pc j) ≡ some stack))
owner-cases pc i p j stack e = elim (Bool-cases (j == i)) [
  | inl hit ↦ inl (ground (arith, hit), rw hit at e)
  | inr miss ↦ inr (miss, rw miss at e)
]

-- What a step must show of the list and of what the caller has then.
record Fits (s : System) (i : ℕ) (gl : Shared) (p : Pc) : Type 0 where
  counted : gl.gl_size ≡ length gl.gl_sa
  distinct : Distinct gl.gl_sa
  own : (stack : ℕ) → owned p ≡ some stack → is_mem stack gl.gl_sa ≡ false
  others :
      (j stack : ℕ) → (j == i) ≡ false → owned (s.pc j) ≡ some stack → is_mem stack gl.gl_sa ≡ false
  alone : (j stack : ℕ) → (j == i) ≡ false → owned p ≡ some stack → owned (s.pc j) ≢ some stack

Fits-Inv :
    (n : ℕ) (s : System) (i : ℕ) (gl : Shared) (p : Pc)
    → Inv n s
    → Fits s i gl p
    → gl.gl_size + past_test (update s.pc i p) n < gl_sa_capacity + n
    → Inv n (record { gl = gl; pc = update s.pc i p })
Fits-Inv n s i gl p inv f room = record {
  counted = f.counted;
  bounded = room;
  distinct = f.distinct;
  away = λ j stack e. elim (owner-cases s.pc i p j stack e) [
    | inl (same, mine) ↦ f.own stack mine
    | inr (miss, old) ↦ f.others j stack miss old
  ];
  alone = λ j k stack e h. elim (owner-cases s.pc i p j stack e) [
    | inl (j_i, mine) ↦ elim (owner-cases s.pc i p k stack h) [
      | inl (k_i, also) ↦ j_i ∙ sym k_i
      | inr (miss, old) ↦ absurd (f.alone k stack miss mine old)
    ]
    | inr (miss, old) ↦ elim (owner-cases s.pc i p k stack h) [
      | inl (k_i, mine) ↦ absurd (f.alone j stack miss mine old)
      | inr (other, too) ↦ inv.alone j k stack old too
    ]
  ];
}

-- A step that leaves the list, after which the caller has what it had, or nothing.
keeps-Fits :
    (n : ℕ) (s : System) (i : ℕ) (p : Pc)
    → Inv n s
    → ((stack : ℕ) → owned p ≡ some stack → owned (s.pc i) ≡ some stack)
    → Fits s i s.gl p
keeps-Fits n s i p inv h = record {
  counted = inv.counted;
  distinct = inv.distinct;
  own = λ stack e. inv.away i stack (h stack e);
  others = λ j stack miss e. inv.away j stack e;
  alone = λ j stack miss e old.
      let same = inv.alone j i stack old (h stack e) in ground (arith, same, miss);
}

gains-Fits :
    (s : System) (i : ℕ) (gl : Shared) (stack : ℕ)
    → gl.gl_size ≡ length gl.gl_sa
    → Distinct gl.gl_sa
    → is_mem stack gl.gl_sa ≡ false
    → ((j : ℕ) → (j == i) ≡ false → owned (s.pc j) ≢ some stack)
    → ((j other : ℕ)
        → (j == i) ≡ false
        → owned (s.pc j) ≡ some other
        → is_mem other gl.gl_sa ≡ false)
    → Fits s i gl (holds stack)
gains-Fits s i gl stack counted distinct absent nobody others = record {
  counted = counted;
  distinct = distinct;
  own = λ other e. let same : stack ≡ other = cc in rw (sym same) absent;
  others = others;
  alone = λ j other miss e old.
      let same : stack ≡ other = cc in nobody j miss (old ∙ ap some (sym same));
}

move-Fits :
    (n : ℕ) (s : System) (i : ℕ) (p0 p : Pc) (gl : Shared)
    → s.pc i ≡ p0
    → Inv n s
    → Move s p0 gl p
    → Fits s i gl p
move-Fits n s i _ _ _ at inv (empty e) = keeps-Fits n s i allocating inv (λ stack h. cc)
move-Fits n s i _ _ _ at inv no_memory = keeps-Fits n s i idle inv (λ stack h. cc)
move-Fits n s i _ _ _ at inv (full h) = keeps-Fits n s i idle inv (λ stack h. cc)
move-Fits n s i _ _ _ at inv (pass {stack} h) =
    keeps-Fits n s i (passed stack) inv (λ other e. ap owned at ∙ e)
move-Fits n s i _ _ _ at inv (new_stack {stack} absent nobody) =
    gains-Fits s i s.gl stack inv.counted inv.distinct absent (λ j miss. nobody j)
      (λ j other miss e. inv.away j other e)
move-Fits n s i _ _ _ at inv (take {stack} {rest} e) =
    let d = subst Distinct e inv.distinct in
    let size = ap length e in
    gains-Fits s i (record { gl_size = s.gl.gl_size - 1; gl_sa = rest }) stack
      (omega (arith, inv.counted, size)) d.1 d.0
      (λ j miss old.
        let a = subst (λ l. is_mem stack l ≡ false) e (inv.away j stack old) in ground (arith, a))
      (λ j other miss old.
        let a = subst (λ l. is_mem other l ≡ false) e (inv.away j other old) in ground (arith, a))
move-Fits n s i _ _ _ at inv (insert {stack}) =
    let mine = ap owned at in
    record {
      counted = omega (arith, inv.counted);
      distinct = (inv.away i stack mine, inv.distinct);
      own = λ other e. cc;
      others = λ j other miss e. elim (Bool-cases (other == stack)) [
        | inl hit ↦
            let same : other ≡ stack = ground (arith, hit) in
            let both = inv.alone j i stack (e ∙ ap some same) mine in
            absurd (ground (arith, both, miss))
        | inr away ↦ rw away (inv.away j other e)
      ];
      alone = λ j other miss e old. cc;
    }

move-room :
    (n : ℕ) (s : System) (i : ℕ) (p0 p : Pc) (gl : Shared)
    → i < n
    → s.pc i ≡ p0
    → Inv n s
    → Move s p0 gl p
    → gl.gl_size + past_test (update s.pc i p) n < gl_sa_capacity + n
move-room n s i _ _ _ lt at inv (take {stack} e) =
    omega (arith, inv.bounded, past_test-update s.pc i (holds stack) n lt, ap weight at)
move-room n s i _ _ _ lt at inv (empty e) =
    omega (arith, inv.bounded, past_test-update s.pc i allocating n lt, ap weight at)
move-room n s i _ _ _ lt at inv (new_stack {stack} absent nobody) =
    omega (arith, inv.bounded, past_test-update s.pc i (holds stack) n lt, ap weight at)
move-room n s i _ _ _ lt at inv no_memory =
    omega (arith, inv.bounded, past_test-update s.pc i idle n lt, ap weight at)
move-room n s i _ _ _ lt at inv (full h) =
    omega (arith, inv.bounded, past_test-update s.pc i idle n lt, ap weight at)
move-room n s i _ _ _ lt at inv insert =
    omega (arith, inv.bounded, past_test-update s.pc i idle n lt, ap weight at)
move-room n s i _ _ _ lt at inv (pass {stack} h) =
    omega (arith, h, past_test-le (update s.pc i (passed stack)) n)

Step-Inv : {n : ℕ} {s t : System} → Step n s t → Inv n s → Inv n t
Step-Inv {n} {s} (pick i {gl} {p} lt move) inv =
    Fits-Inv n s i gl p inv (move-Fits n s i (s.pc i) p gl refl inv move)
      (move-room n s i (s.pc i) p gl lt refl inv move)

Reach-Inv : {n : ℕ} {s t : System} → Reach n s t → Inv n s → Inv n t
Reach-Inv stay inv = inv
Reach-Inv (next r step) inv = Step-Inv step (Reach-Inv r inv)

-- However the steps of `n` callers of gl_alloc_stack and gl_free follow each other, gl_size is the
-- length of the list, the list never holds as many as `n` stacks more than its capacity, and every
-- stack is on the list once, or is one caller's alone.
pub Reach-OneOwner :
    (n : ℕ) (s t : System)
    → 0 < n
    → Start n s
    → Reach n s t
    → (t.gl.gl_size ≡ length t.gl.gl_sa) × (t.gl.gl_size < gl_sa_capacity + n) × OneOwner t
Reach-OneOwner n s t some_caller start r =
    let i = Reach-Inv r (record {
      counted = start.counted;
      bounded = omega (arith, start.bounded, start.before);
      distinct = start.owners.distinct;
      away = start.owners.away;
      alone = start.owners.alone;
    }) in
    (
      i.counted,
      omega (arith, i.bounded),
      record { distinct = i.distinct; away = i.away; alone = i.alone },
    )
