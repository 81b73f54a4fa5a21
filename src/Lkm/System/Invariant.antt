-- ===== src/Lkm/System/Invariant.antt =====
-- What holds of the descriptors of lkm/core/api.c between calls: every reference is the table's or a
-- thread's, and every stack in use is one thread's.
use shadow_stack_llvm.Prelude.{
  ℕ, ◌+◌, ◌≤◌, ◌<◌, ◌≡◌, refl, sym, ap, subst, ◌∙◌, ◌⊎◌, inl, inr, false, Option, some, List, ◌∷◌,
  arith, ◌==◌, if◌then◌else◌, update, Bool-cases, Pick, here, there,
}
use shadow_stack_llvm.Lkm.Layout.{threads_limit}
use shadow_stack_llvm.Lkm.Memory.{Memory}
use shadow_stack_llvm.Lkm.PageTable.{PageTables}
use shadow_stack_llvm.Lkm.Xarray.{Xarray, Slot, free, reserved, entry}
use shadow_stack_llvm.Lkm.FreeList.Invariant.{IsGl}
use shadow_stack_llvm.Lkm.Threads.{ThreadDesc, Focus}
use shadow_stack_llvm.Lkm.System.{Desc, System, unfocus}
use shadow_stack_llvm.Lkm.System.Keys.{Stacks, stacks, Pick-other}

-- The reference of the table.
abbrev pub points : Slot ℕ → ℕ → ℕ
points free p = 0
points reserved p = 0
points (entry q) p = if q == p then 1 else 0

abbrev pub one : ℕ → ℕ → ℕ
one p q = if q == p then 1 else 0

abbrev pub none_held : ℕ → ℕ
none_held q = 0

module _ (m : Memory) (t : PageTables) (x : Xarray ThreadDesc) (reg : Xarray ℕ) where
  open m use {view}
  open x use {slot, size}

  -- `extra` are the references that calls under way hold; `held` are the stacks in use.
  pub record Inv (extra : ℕ → ℕ) (held : Stacks) (s : System m t x reg) : Type 0 where
    pub table :
        (tgid p : ℕ)
        → reg.slot s.sa_allocators tgid ≡ entry p
        → (d : Desc m t x reg) × (s.desc p ≡ some d) × (d.tgid ≡ tgid)
    pub counted :
        (p : ℕ) (d : Desc m t x reg)
        → s.desc p ≡ some d
        → d.kref ≡ points (reg.slot s.sa_allocators d.tgid) p + size d.threads + extra p
    pub alive : (p : ℕ) (d : Desc m t x reg) → s.desc p ≡ some d → 0 < d.kref
    pub gl : IsGl s.gl (stacks held) (view s.mem)
    pub owned :
        (p : ℕ) (d : Desc m t x reg) (i : ℕ) (v : ThreadDesc)
        → s.desc p ≡ some d
        → slot d.threads i ≡ entry v
        → (i ≤ threads_limit) × ((rest : Stacks) × Pick ((p, i), v.pagelist) held rest)

  -- What a descriptor is after an update.
  pub update-cases :
      (desc : ℕ → Option (Desc m t x reg)) (p : ℕ) (o : Option (Desc m t x reg)) (q : ℕ)
      (d : Desc m t x reg)
      → update desc p o q ≡ some d
      → ((q ≡ p) × (o ≡ some d)) ⊎ (((q == p) ≡ false) × (desc q ≡ some d))
  update-cases desc p o q d e = elim (Bool-cases (q == p)) [
    | inl hit ↦ inl (ground (arith, hit), rw hit at e)
    | inr miss ↦ inr (miss, rw miss at e)
  ]

  pub update-hit :
      (desc : ℕ → Option (Desc m t x reg)) (p : ℕ) (o : Option (Desc m t x reg))
      → update desc p o p ≡ o
  update-hit desc p o = ground arith

  pub update-miss :
      (desc : ℕ → Option (Desc m t x reg)) (p : ℕ) (o : Option (Desc m t x reg)) (q : ℕ)
      → (q == p) ≡ false
      → update desc p o q ≡ desc q
  update-miss desc p o q h = rw h refl

  -- One descriptor changes, in its threads and its references.
  abbrev pub changed :
      (tgid p : ℕ) → Desc m t x reg → ℕ → Focus m t x → System m t x reg → System m t x reg
  changed tgid p d k f s = unfocus m t x reg tgid p (record d { kref = k }) f s

  -- What the stacks in use must be for a descriptor with these threads.
  pub record Owns (held' : Stacks) (held : Stacks) (p : ℕ) (f : Focus m t x) : Type 0 where
    pub gl : IsGl f.gl (stacks held') (view f.mem)
    pub mine :
        (j : ℕ) (v : ThreadDesc)
        → slot f.threads j ≡ entry v
        → (j ≤ threads_limit) × ((rest : Stacks) × Pick ((p, j), v.pagelist) held' rest)
    pub others :
        (q j : ℕ) (st : List ℕ) (rest : Stacks)
        → (q == p) ≡ false
        → Pick ((q, j), st) held rest
        → (rest' : Stacks) × Pick ((q, j), st) held' rest'

  pub changed-Inv :
      {extra extra' : ℕ → ℕ} {held held' : Stacks} (s : System m t x reg) (tgid p : ℕ)
      (d : Desc m t x reg) (f : Focus m t x) (k : ℕ)
      → Inv extra held s
      → s.desc p ≡ some d
      → ((q : ℕ) → (q == p) ≡ false → extra' q ≡ extra q)
      → k ≡ points (reg.slot s.sa_allocators d.tgid) p + size f.threads + extra' p
      → 0 < k
      → Owns held' held p f
      → Inv extra' held' (changed tgid p d k f s)
  changed-Inv {extra'} {held'} s tgid p d f k i at_p off count pos o =
      let new : Desc m t x reg = record d { kref = k; threads = f.threads; max_id = f.max_id } in
      record {
        table = λ g q e.
            let (dq, at_q, tg) = i.table g q e in
            elim (Bool-cases (q == p)) [
              | inl hit ↦
                  let same : q ≡ p = ground (arith, hit) in
                  let dd : some d ≡ some dq = sym at_p ∙ ap s.desc (sym same) ∙ at_q in
                  let eq : d ≡ dq = cc in
                  (new, rw hit refl, ap (λ (y : Desc m t x reg). y.tgid) eq ∙ tg)
              | inr miss ↦ (dq, update-miss s.desc p (some new) q miss ∙ at_q, tg)
            ];
        counted = λ q dq e. elim (update-cases s.desc p (some new) q dq e) [
          | inl (same, made) ↦
              let eq : new ≡ dq = cc in
              subst
                (λ (y : Desc m t x reg).
                  y.kref ≡ points (reg.slot s.sa_allocators y.tgid) q + size y.threads + extra' q)
                eq (rw same count)
          | inr (miss, old) ↦ rw (off q miss) (i.counted q dq old)
        ];
        alive = λ q dq e. elim (update-cases s.desc p (some new) q dq e) [
          | inl (same, made) ↦
              let eq : new ≡ dq = cc in subst (λ (y : Desc m t x reg). 0 < y.kref) eq pos
          | inr (miss, old) ↦ i.alive q dq old
        ];
        gl = o.gl;
        owned = λ q dq j v e h. elim (update-cases s.desc p (some new) q dq e) [
          | inl (same, made) ↦
              let eq : new ≡ dq = cc in
              let back : slot f.threads j ≡ entry v =
                ap (λ (y : Desc m t x reg). slot y.threads j) eq ∙ h in
              rw same (o.mine j v back)
          | inr (miss, old) ↦
              let old_one = i.owned q dq j v old h in
              (old_one.0, o.others q j v.pagelist old_one.1.0 miss old_one.1.1)
        ];
      }

  -- The same stacks stay in use, and no thread is new.
  pub same-Owns :
      {extra : ℕ → ℕ} {held : Stacks} (s : System m t x reg) (p : ℕ) (d : Desc m t x reg)
      (f : Focus m t x)
      → Inv extra held s
      → s.desc p ≡ some d
      → IsGl f.gl (stacks held) (view f.mem)
      → ((j : ℕ) (v : ThreadDesc) → slot f.threads j ≡ entry v → slot d.threads j ≡ entry v)
      → Owns held held p f
  same-Owns s p d f i at_p g h = record {
    gl = g;
    mine = λ j v e. i.owned p d j v at_p (h j v e);
    others = λ q j st rest miss k. (rest, k);
  }

  -- One thread is new, and its stack is.
  pub more-Owns :
      {extra : ℕ → ℕ} {held : Stacks} (s : System m t x reg) (p : ℕ) (d : Desc m t x reg)
      (f : Focus m t x) (id : ℕ) (w : ThreadDesc)
      → Inv extra held s
      → s.desc p ≡ some d
      → id ≤ threads_limit
      → IsGl f.gl (w.pagelist ∷ stacks held) (view f.mem)
      → ((j : ℕ) → slot f.threads j ≡ (if j == id then entry w else slot d.threads j))
      → Owns (((p, id), w.pagelist) ∷ held) held p f
  more-Owns {held} s p d f id w i at_p small g h = record {
    gl = g;
    mine = λ j v e. elim (Bool-cases (j == id)) [
      | inl hit ↦
          let same : j ≡ id = ground (arith, hit) in
          let put : slot f.threads j ≡ entry w = h j ∙ rw hit in
          let eq : w ≡ v = cc in (rw same small, (held, rw (same, sym eq) here))
      | inr miss ↦
          let old = i.owned p d j v at_p (sym (h j ∙ rw miss) ∙ e) in
          (old.0, (((p, id), w.pagelist) ∷ old.1.0, there old.1.1))
    ];
    others = λ q j st rest miss k. (((p, id), w.pagelist) ∷ rest, there k);
  }

  -- One thread is gone, and its stack is.
  pub less-Owns :
      {extra : ℕ → ℕ} {held rest : Stacks} (s : System m t x reg) (p : ℕ) (d : Desc m t x reg)
      (f : Focus m t x) (id : ℕ) (w : ThreadDesc)
      → Inv extra held s
      → s.desc p ≡ some d
      → Pick ((p, id), w.pagelist) held rest
      → IsGl f.gl (stacks rest) (view f.mem)
      → ((j : ℕ) → slot f.threads j ≡ (if j == id then free else slot d.threads j))
      → Owns rest held p f
  less-Owns s p d f id w i here_p gone g h = record {
    gl = g;
    mine = λ j v e. elim (Bool-cases (j == id)) [
      | inl hit ↦ let none_left : slot f.threads j ≡ free = h j ∙ rw hit in cc
      | inr miss ↦
          let old = i.owned p d j v here_p (sym (h j ∙ rw miss) ∙ e) in
          (
            old.0,
            Pick-other
                (λ eq. let same : id ≡ j = ap (λ (k : ℕ × ℕ). k.1) eq in ground (arith, miss)) gone
                old.1.1,
          )
    ];
    others = λ q j st rest' miss k.
        Pick-other (λ eq. let same : p ≡ q = ap (λ (k : ℕ × ℕ). k.0) eq in ground (arith, miss))
          gone k;
  }
