-- ===== src/Lkm/System/Refs.antt =====
-- alloc_get, alloc_put, alloc_create and alloc_destroy of lkm/core/api.c.
use shadow_stack_llvm.Prelude.{
  ℕ, ◌+◌, ◌-◌, ◌<◌, ◌≡◌, refl, sym, ap, ◌∙◌, ◌⊎◌, inl, inr, false, Option, none, some, arith, ◌==◌,
  update, Bool-cases, Option-cases,
}
use shadow_stack_llvm.Lkm.Memory.{Memory}
use shadow_stack_llvm.Lkm.PageTable.{PageTables}
use shadow_stack_llvm.Lkm.Xarray.{Xarray, Slot, free, reserved, entry, loaded}
use shadow_stack_llvm.Lkm.Threads.{ThreadDesc}
use shadow_stack_llvm.Lkm.System.{Desc, System, put_desc, alloc_find, alloc_get, alloc_put, focus}
use shadow_stack_llvm.Lkm.System.Keys.{Stacks}
use shadow_stack_llvm.Lkm.System.Invariant.{
  points, one, none_held, Inv, changed-Inv, same-Owns, update-cases, update-miss,
}

pub one_self : (p : ℕ) → one p p ≡ 1
one_self p = ground arith

pub one-other : (p q : ℕ) → (q == p) ≡ false → one p q ≡ 0
one-other p q miss = rw miss refl

pub loaded-entry : {V : Type 0} (u : Slot V) (p : V) → loaded u ≡ some p → u ≡ entry p
loaded-entry free p e = cc
loaded-entry reserved p e = cc
loaded-entry (entry q) p e = ap entry cc

module _ (m : Memory) (t : PageTables) (x : Xarray ThreadDesc) (reg : Xarray ℕ) where
  open m use {view}
  open x use {slot, size}

  -- Only the references to one descriptor change.
  put_desc-Inv :
      {extra extra' : ℕ → ℕ} {held : Stacks} (s : System m t x reg) (p : ℕ) (d : Desc m t x reg)
      (k : ℕ)
      → Inv m t x reg extra held s
      → s.desc p ≡ some d
      → ((q : ℕ) → (q == p) ≡ false → extra' q ≡ extra q)
      → k ≡ points (reg.slot s.sa_allocators d.tgid) p + size d.threads + extra' p
      → 0 < k
      → Inv m t x reg extra' held (put_desc m t x reg p (record d { kref = k }) s)
  put_desc-Inv s p d k i at_p off count pos =
      let f = focus m t x reg 0 d s in
      let own = same-Owns m t x reg s p d f i at_p i.gl (λ j v e. e) in
      let r = changed-Inv m t x reg s 0 p d f k i at_p off count pos own in
      record { table = r.table; counted = r.counted; alive = r.alive; gl = r.gl; owned = r.owned }

  -- alloc_get finds nothing and changes nothing, or gives a descriptor with one more reference.
  abbrev pub Got :
      System m t x reg → Stacks → ℕ → Option (ℕ × Desc m t x reg) × System m t x reg → Type 0
  Got s held tgid r =
      ((r.0 ≡ none) × (r.1 ≡ s))
      ⊎ ((p : ℕ) × (d : Desc m t x reg) × (d.tgid ≡ tgid)
          × (r.0 ≡ some (p, d))
          × (r.1 ≡ put_desc m t x reg p d s)
          × Inv m t x reg (one p) held (put_desc m t x reg p d s))

  pub get-Inv :
      {held : Stacks} (tgid : ℕ) (s : System m t x reg)
      → Inv m t x reg none_held held s
      → Got s held tgid (alloc_get m t x reg tgid s)
  unfolding alloc_get alloc_find
  get-Inv tgid s i = elim (Option-cases (loaded (reg.slot s.sa_allocators tgid))) [
    | inl e ↦ inl (rw (e, alloc_get) refl, rw (e, alloc_get) refl)
    | inr (p, e) ↦
        let (d, at_p, tg) = i.table tgid p (loaded-entry (reg.slot s.sa_allocators tgid) p e) in
        let positive = i.alive p d at_p in
        let not_zero : (d.kref == 0) ≡ false = ground arith in
        let n = i.counted p d at_p in
        inr (
          p,
          record d { kref = d.kref + 1 },
          tg,
          rw (e, at_p, not_zero, alloc_get) refl,
          rw (e, at_p, not_zero, alloc_get) refl,
          put_desc-Inv s p d (d.kref + 1) i at_p (λ q miss. one-other p q miss)
              (omega (arith, n, one_self p)) (omega arith),
        )
  ]

  -- A descriptor that the table does not have goes.
  removed-Inv :
      {held : Stacks} (s : System m t x reg) (p : ℕ) (d : Desc m t x reg)
      → Inv m t x reg (one p) held s
      → s.desc p ≡ some d
      → points (reg.slot s.sa_allocators d.tgid) p ≡ 0
      → Inv m t x reg none_held held (record s { desc = update s.desc p none })
  removed-Inv s p d i at_p off_table = record {
    table = λ g q e.
        let (dq, at_q, tg) = i.table g q e in
        elim (Bool-cases (q == p)) [
          | inl hit ↦
              let same : q ≡ p = ground (arith, hit) in
              let dd : some d ≡ some dq = sym at_p ∙ ap s.desc (sym same) ∙ at_q in
              let eq : d ≡ dq = cc in
              let of_d : d.tgid ≡ g = ap (λ (y : Desc m t x reg). y.tgid) eq ∙ tg in
              let pointed : points (reg.slot s.sa_allocators d.tgid) p ≡ 1 =
                rw (of_d, e, same) (one_self p) in
              ground (arith, pointed, off_table)
          | inr miss ↦ (dq, update-miss m t x reg s.desc p none q miss ∙ at_q, tg)
        ];
    counted = λ q dq e. elim (update-cases m t x reg s.desc p none q dq e) [
      | inl (same, made) ↦ cc
      | inr (miss, old) ↦ i.counted q dq old ∙ rw (one-other p q miss) refl
    ];
    alive = λ q dq e. elim (update-cases m t x reg s.desc p none q dq e) [
      | inl (same, made) ↦ cc
      | inr (miss, old) ↦ i.alive q dq old
    ];
    gl = i.gl;
    owned = λ q dq j v e h. elim (update-cases m t x reg s.desc p none q dq e) [
      | inl (same, made) ↦ cc
      | inr (miss, old) ↦ i.owned q dq j v old h
    ];
  }

  -- A reference that a call holds is dropped.
  pub put-Inv :
      {held : Stacks} (p : ℕ) (d : Desc m t x reg) (s : System m t x reg)
      → s.desc p ≡ some d
      → Inv m t x reg (one p) held s
      → Inv m t x reg none_held held (alloc_put m t x reg p s)
  unfolding alloc_put
  put-Inv p d s at_p i = elim (Bool-cases (d.kref == 1)) [
    | inr more ↦
        let n = i.counted p d at_p in
        rw (at_p, more, alloc_put)
          (put_desc-Inv s p d (d.kref - 1) i at_p (λ q miss. sym (one-other p q miss))
            (omega (arith, n, one_self p)) (let a = i.alive p d at_p in ground arith))
    | inl last ↦
        let last_one : d.kref ≡ 1 = ground (arith, last) in
        rw (at_p, last, alloc_put)
          (removed-Inv s p d i at_p (omega (arith, i.counted p d at_p, last_one, one_self p)))
  ]
