-- ===== src/Lkm/System/Table.antt =====
-- alloc_create and alloc_destroy of lkm/core/api.c.
use shadow_stack_llvm.Prelude.{
  ℕ, ◌+◌, ◌<◌, ◌≡◌, refl, sym, ap, subst, ◌∙◌, inl, inr, false, none, some, arith, ◌==◌, Bool-cases,
}
use shadow_stack_llvm.Lkm.Errno.{success, Ret-cases}
use shadow_stack_llvm.Lkm.Memory.{Memory}
use shadow_stack_llvm.Lkm.PageTable.{PageTables}
use shadow_stack_llvm.Lkm.Xarray.{Xarray, Slot, free, entry}
use shadow_stack_llvm.Lkm.Threads.{ThreadDesc}
use shadow_stack_llvm.Lkm.System.{Desc, System, put_desc, alloc_create, alloc_destroy}
use shadow_stack_llvm.Lkm.System.Keys.{Stacks}
use shadow_stack_llvm.Lkm.System.Invariant.{
  points, one, none_held, Inv, update-cases, update-miss, update-hit,
}
use shadow_stack_llvm.Lkm.System.Refs.{one_self, one-other, put-Inv}

module _ (m : Memory) (t : PageTables) (x : Xarray ThreadDesc) (reg : Xarray ℕ) where
  open m use {view}
  open x use {slot, size}

  points-other : (o : Slot ℕ) (p q : ℕ) → o ≡ entry p → (q == p) ≡ false → points o q ≡ 0
  points-other o p q e miss = rw e (ground (arith, miss))

  points_self : (o : Slot ℕ) (p : ℕ) → o ≡ entry p → points o p ≡ 1
  points_self o p e = rw e (ground arith)

  -- The table gives up its reference to a descriptor, which the call then holds.
  abbrev pub erased : Desc m t x reg → System m t x reg → System m t x reg
  erased d s = record s { sa_allocators = (reg.xa_erase d.tgid s.sa_allocators).1 }

  points-erased :
      (s : System m t x reg) (p : ℕ) (d : Desc m t x reg) (q g : ℕ)
      → reg.slot s.sa_allocators d.tgid ≡ entry p
      → (q == p) ≡ false
      → points (reg.slot (erased d s).sa_allocators g) q ≡ points (reg.slot s.sa_allocators g) q
  points-erased s p d q g listed miss =
      let after = reg.xa_erase-slot d.tgid s.sa_allocators g in
      elim (Bool-cases (g == d.tgid)) [
        | inl hit ↦
            let same : g ≡ d.tgid = ground (arith, hit) in
            let now : reg.slot (erased d s).sa_allocators g ≡ free = after ∙ rw hit refl in
            rw now (
              sym (
                points-other (reg.slot s.sa_allocators g) p q
                  (ap (reg.slot s.sa_allocators) same ∙ listed) miss))
        | inr other ↦ rw after (rw other refl)
      ]

  points-inserted :
      (a : reg.Array) (tgid p q g : ℕ)
      → (reg.xa_insert tgid p a).0 ≡ success
      → (q == p) ≡ false
      → points (reg.slot (reg.xa_insert tgid p a).1 g) q ≡ points (reg.slot a g) q
  points-inserted a tgid p q g ok miss =
      let r = reg.xa_insert-ok tgid p a ok in
      elim (Bool-cases (g == tgid)) [
        | inl hit ↦
            let same : g ≡ tgid = ground (arith, hit) in
            let now : reg.slot (reg.xa_insert tgid p a).1 g ≡ entry p = r.1 g ∙ rw hit refl in
            let unused : reg.slot a g ≡ free = ap (reg.slot a) same ∙ r.0 in
            points-other (reg.slot (reg.xa_insert tgid p a).1 g) p q now miss ∙ rw unused refl
        | inr other ↦ rw (r.1 g) (rw other refl)
      ]

  pub erase-Inv :
      {held : Stacks} (s : System m t x reg) (p : ℕ) (d : Desc m t x reg)
      → Inv m t x reg none_held held s
      → s.desc p ≡ some d
      → reg.slot s.sa_allocators d.tgid ≡ entry p
      → Inv m t x reg (one p) held (erased d s)
  erase-Inv s p d i at_p listed =
      let after = reg.xa_erase-slot d.tgid s.sa_allocators in
      record {
        table = λ g q e. elim (Bool-cases (g == d.tgid)) [
          | inl hit ↦ let gone : entry q ≡ free = sym e ∙ after g ∙ rw hit refl in cc
          | inr miss ↦ i.table g q (sym (after g ∙ rw miss refl) ∙ e)
        ];
        counted = λ q dq e. elim (Bool-cases (q == p)) [
          | inl hit ↦
              let same : q ≡ p = ground (arith, hit) in
              let dd : some d ≡ some dq = sym at_p ∙ ap s.desc (sym same) ∙ e in
              let eq : d ≡ dq = cc in
              let now : reg.slot (erased d s).sa_allocators d.tgid ≡ free =
                after d.tgid ∙ ground arith in
              let now_points : points (reg.slot (erased d s).sa_allocators d.tgid) p ≡ 0 =
                rw now refl in
              let was = points_self (reg.slot s.sa_allocators d.tgid) p listed in
              subst
                (λ (y : Desc m t x reg).
                  y.kref
                  ≡ points (reg.slot (erased d s).sa_allocators y.tgid) q
                    + size y.threads
                    + one p q)
                eq (rw same (omega (arith, i.counted p d at_p, was, now_points, one_self p)))
          | inr miss ↦ omega (
            arith,
            i.counted q dq e,
            points-erased s p d q dq.tgid listed miss,
            one-other p q miss,
          )
        ];
        alive = i.alive;
        gl = i.gl;
        owned = i.owned;
      }

  -- A descriptor of the table loses its entry, and the reference of the table goes.
  pub destroy-Inv :
      {held : Stacks} (s : System m t x reg) (tgid p : ℕ)
      → Inv m t x reg none_held held s
      → reg.slot s.sa_allocators tgid ≡ entry p
      → Inv m t x reg none_held held (alloc_destroy m t x reg (some p) s)
  unfolding alloc_destroy
  destroy-Inv {held} s tgid p i listed =
      let (d, at_p, tg) = i.table tgid p listed in
      rw (at_p, alloc_destroy)
        (put-Inv m t x reg p d (erased d s) at_p
          (erase-Inv s p d i at_p (ap (reg.slot s.sa_allocators) tg ∙ listed)))

  -- The descriptor that alloc_create sets up.
  abbrev created : x.Array → ℕ → Desc m t x reg
  created no_threads tgid = record { tgid = tgid; threads = no_threads; max_id = 0; kref = 1 }

  insert-Inv :
      {held : Stacks} (s : System m t x reg) (tgid p : ℕ) (no_threads : x.Array)
      → Inv m t x reg none_held held s
      → s.desc p ≡ none
      → ((j : ℕ) → slot no_threads j ≡ free)
      → size no_threads ≡ 0
      → (reg.xa_insert tgid p s.sa_allocators).0 ≡ success
      → Inv m t x reg none_held held (
          put_desc m t x reg p
            (created no_threads tgid)
            (record s { sa_allocators = (reg.xa_insert tgid p s.sa_allocators).1 }))
  insert-Inv s tgid p no_threads i fresh empty none_there ok =
      let new = created no_threads tgid in
      let table1 = (reg.xa_insert tgid p s.sa_allocators).1 in
      let after = (reg.xa_insert-ok tgid p s.sa_allocators ok).1 in
      record {
        table = λ g q u. elim (Bool-cases (g == tgid)) [
          | inl hit ↦
              let same : tgid ≡ g = ground (arith, hit) in
              let now : entry q ≡ entry p = sym u ∙ after g ∙ rw hit refl in
              let eq : q ≡ p = cc in (new, rw eq (update-hit m t x reg s.desc p (some new)), same)
          | inr miss ↦
              let (dq, at_q, tg) = i.table g q (sym (after g ∙ rw miss refl) ∙ u) in
              elim (Bool-cases (q == p)) [
                | inl hit ↦
                    let same : q ≡ p = ground (arith, hit) in
                    let clash : some dq ≡ none = sym at_q ∙ ap s.desc same ∙ fresh in cc
                | inr other ↦ (dq, update-miss m t x reg s.desc p (some new) q other ∙ at_q, tg)
              ]
        ];
        counted = λ q dq u. elim (update-cases m t x reg s.desc p (some new) q dq u) [
          | inl (same, made) ↦
              let eq : new ≡ dq = cc in
              let one_ref : points (reg.slot table1 tgid) p ≡ 1 =
                points_self (reg.slot table1 tgid) p (after tgid ∙ ground arith) in
              subst
                (λ (y : Desc m t x reg).
                  y.kref ≡ points (reg.slot table1 y.tgid) q + size y.threads + none_held q)
                eq (rw same (omega (arith, one_ref, none_there)))
          | inr (miss, old) ↦
              omega (
                arith,
                i.counted q dq old,
                points-inserted s.sa_allocators tgid p q dq.tgid ok miss,
              )
        ];
        alive = λ q dq u. elim (update-cases m t x reg s.desc p (some new) q dq u) [
          | inl (same, made) ↦
              let eq : new ≡ dq = cc in subst (λ (y : Desc m t x reg). 0 < y.kref) eq (omega arith)
          | inr (miss, old) ↦ i.alive q dq old
        ];
        gl = i.gl;
        owned = λ q dq j v u h. elim (update-cases m t x reg s.desc p (some new) q dq u) [
          | inl (same, made) ↦
              let eq : new ≡ dq = cc in
              let clash : free ≡ entry v =
                sym (empty j) ∙ ap (λ (y : Desc m t x reg). slot y.threads j) eq ∙ h in
              cc
          | inr (miss, old) ↦ i.owned q dq j v old h
        ];
      }

  pub create-Inv :
      {held : Stacks} (s : System m t x reg) (tgid p : ℕ) (no_threads : x.Array)
      → Inv m t x reg none_held held s
      → s.desc p ≡ none
      → ((j : ℕ) → slot no_threads j ≡ free)
      → size no_threads ≡ 0
      → Inv m t x reg none_held held (alloc_create m t x reg (some p) no_threads tgid s).1
  unfolding alloc_create
  create-Inv s tgid p no_threads i fresh empty none_there =
      elim (Ret-cases (reg.xa_insert tgid p s.sa_allocators).0) [
        | inr (e, bad) ↦
            let after = reg.xa_insert-failed tgid p s.sa_allocators (λ ok. cc) in
            rw bad (record {
              table = λ g q u. i.table g q (sym (after g) ∙ u);
              counted = λ q dq u. i.counted q dq u ∙ rw (after dq.tgid) refl;
              alive = i.alive;
              gl = i.gl;
              owned = i.owned;
            })
        | inl ok ↦ rw ok (insert-Inv s tgid p no_threads i fresh empty none_there ok)
      ]
