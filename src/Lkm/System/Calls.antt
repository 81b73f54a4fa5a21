-- ===== src/Lkm/System/Calls.antt =====
-- sa_alloc, sa_fork and sa_free of lkm/core/api.c with the table of the allocators.
use shadow_stack_llvm.Prelude.{
  ℕ, ◌≤◌, ◌≡◌, refl, sym, ap, subst, ◌∙◌, inl, inr, none, some, arith, ◌==◌, if◌then◌else◌,
  Bool-cases, Option-cases, Pick, ◌∷◌,
}
use shadow_stack_llvm.Lkm.Layout.{threads_limit, addr_to_id, is_bad_addr}
use shadow_stack_llvm.Lkm.Memory.{Memory}
use shadow_stack_llvm.Lkm.PageTable.{PageTables}
use shadow_stack_llvm.Lkm.Xarray.{Xarray, free, entry, loaded}
use shadow_stack_llvm.Lkm.FreeList.Invariant.{IsGl}
use shadow_stack_llvm.Lkm.Threads.{ThreadDesc, Focus, sa_free_held}
use shadow_stack_llvm.Lkm.Threads.Alloc.{sa_alloc_held_lem}
use shadow_stack_llvm.Lkm.Threads.Fork.{IsParent, sa_fork_held_lem}
use shadow_stack_llvm.Lkm.Threads.Free.{sa_free_held_lem, sa_free_held-einval}
use shadow_stack_llvm.Lkm.System.{
  Desc, System, focus, unfocus, put_desc, alloc_put, alloc_find, process_alloc, process_fork,
  process_free,
}
use shadow_stack_llvm.Lkm.System.Keys.{Stacks, stacks, Pick-stacks}
use shadow_stack_llvm.Lkm.System.Invariant.{
  one, none_held, Inv, changed-Inv, same-Owns, more-Owns, less-Owns, update-hit,
}
use shadow_stack_llvm.Lkm.System.Refs.{one_self, one-other, loaded-entry, put-Inv, get-Inv}

module _ (m : Memory) (t : PageTables) (x : Xarray ThreadDesc) (reg : Xarray ℕ) where
  open m use {view}
  open x use {slot, size, size-same, size-entry}

  -- The invariant with some stacks in use.
  abbrev pub Sound : System m t x reg → Type 0
  Sound s = (held : Stacks) × Inv m t x reg none_held held s

  -- A call that failed still holds its reference; the threads are as before.
  pub unserved-Inv :
      {held : Stacks} (tgid p : ℕ) (d : Desc m t x reg) (f : Focus m t x) (s : System m t x reg)
      → Inv m t x reg (one p) held s
      → s.desc p ≡ some d
      → IsGl f.gl (stacks held) (view f.mem)
      → ((j : ℕ) → slot f.threads j ≡ slot d.threads j)
      → Inv m t x reg (one p) held (unfocus m t x reg tgid p d f s)
  unserved-Inv tgid p d f s i at_p g same =
      let n = size-same f.threads d.threads (λ j. ap loaded (same j)) in
      changed-Inv m t x reg s tgid p d f d.kref i at_p (λ q miss. refl) (rw n (i.counted p d at_p))
        (i.alive p d at_p) (same-Owns m t x reg s p d f i at_p g (λ j v e. sym (same j) ∙ e))

  -- It drops its reference.
  refused-Inv :
      {held : Stacks} (tgid p : ℕ) (d : Desc m t x reg) (f : Focus m t x) (s : System m t x reg)
      → Inv m t x reg (one p) held s
      → s.desc p ≡ some d
      → IsGl f.gl (stacks held) (view f.mem)
      → ((j : ℕ) → slot f.threads j ≡ slot d.threads j)
      → Inv m t x reg none_held held (alloc_put m t x reg p (unfocus m t x reg tgid p d f s))
  refused-Inv tgid p d f s i at_p g same =
      let d' : Desc m t x reg = record d { threads = f.threads; max_id = f.max_id } in
      put-Inv m t x reg p d' (unfocus m t x reg tgid p d f s)
        (update-hit m t x reg s.desc p (some d')) (unserved-Inv tgid p d f s i at_p g same)

  -- A call that made a thread leaves its reference to the thread.
  added-Inv :
      {held : Stacks} (tgid p id : ℕ) (w : ThreadDesc) (d : Desc m t x reg) (f : Focus m t x)
      (s : System m t x reg)
      → Inv m t x reg (one p) held s
      → s.desc p ≡ some d
      → id ≤ threads_limit
      → slot d.threads id ≡ free
      → IsGl f.gl (w.pagelist ∷ stacks held) (view f.mem)
      → ((j : ℕ) → slot f.threads j ≡ (if j == id then entry w else slot d.threads j))
      → Inv m t x reg none_held (((p, id), w.pagelist) ∷ held) (unfocus m t x reg tgid p d f s)
  added-Inv tgid p id w d f s i at_p small unused g h =
      let n = size-entry id w d.threads f.threads unused h in
      changed-Inv m t x reg s tgid p d f d.kref i at_p (λ q miss. sym (one-other p q miss))
        (omega (arith, n, i.counted p d at_p, one_self p)) (i.alive p d at_p)
        (more-Owns m t x reg s p d f id w i at_p small g h)

  pub alloc-Sound :
      (tgid pid addr : ℕ) (s : System m t x reg)
      → Sound s
      → Sound (process_alloc m t x reg tgid pid addr s).2
  unfolding process_alloc
  alloc-Sound tgid pid addr s (held, i) = elim (get-Inv m t x reg tgid s i) [
    | inl (e, e1) ↦ rw (e, e1, process_alloc) (held, i)
    | inr (p, d, tg, e, e1, i1) ↦
        let s1 = put_desc m t x reg p d s in
        let at_p : s1.desc p ≡ some d = update-hit m t x reg s.desc p (some d) in
        elim (sa_alloc_held_lem m t x pid addr (stacks held) (focus m t x reg tgid d s1) i1.gl) [
          | inl (ok, a) ↦
              rw (e, e1, ok, process_alloc)
                (
                  ((p, a.id), a.stack) ∷ held,
                  added-Inv tgid p a.id _ d _ s1 i1 at_p a.within a.unused a.gl a.threads,
                )
          | inr (bad, r) ↦
              rw (e, e1, bad, process_alloc)
                (held, refused-Inv tgid p d _ s1 i1 at_p r.gl r.threads)
        ]
  ]

  pub parents :
      {extra : ℕ → ℕ} {held : Stacks} (s : System m t x reg) (q : ℕ) (parent : Desc m t x reg)
      → Inv m t x reg extra held s
      → s.desc q ≡ some parent
      → IsParent m t x parent.threads (stacks held)
  parents s q parent i at_q = record {
    within = λ id v e. (i.owned q parent id v at_q e).0;
    in_use =
        λ id v e. let old = i.owned q parent id v at_q e in (stacks old.1.0, Pick-stacks old.1.1);
  }

  pub fork-Sound :
      (tgid pid parent_tgid parent_pid : ℕ) (s : System m t x reg)
      → Sound s
      → Sound (process_fork m t x reg tgid pid parent_tgid parent_pid s).1
  unfolding process_fork alloc_find
  fork-Sound tgid pid parent_tgid parent_pid s (held, i) = elim (get-Inv m t x reg tgid s i) [
    | inl (e, e1) ↦ rw (e, e1, process_fork) (held, i)
    | inr (p, d, tg, e, e1, i1) ↦
        let s1 = put_desc m t x reg p d s in
        let at_p : s1.desc p ≡ some d = update-hit m t x reg s.desc p (some d) in
        let listed = loaded (reg.slot s1.sa_allocators parent_tgid) in
        elim (Option-cases listed) [
          | inl absent ↦
              rw (e, e1, absent, process_fork, e1) (held, put-Inv m t x reg p d s1 at_p i1)
          | inr (q, found) ↦
              let (parent, at_q, tq) =
                i1.table parent_tgid q
                  (loaded-entry (reg.slot s1.sa_allocators parent_tgid) q found) in
              elim (sa_fork_held_lem m t x pid parent_pid parent.threads (stacks held)
                (focus m t x reg tgid d s1) (parents s1 q parent i1 at_q) i1.gl) [
                  | inl (ok, a) ↦
                      rw (e, e1, found, e1, at_q, e1, ok, process_fork)
                        (
                          ((p, a.id), a.stack) ∷ held,
                          added-Inv tgid p a.id _ d _ s1 i1 at_p
                              (i1.owned q parent a.id a.old at_q a.found).0 a.unused a.gl a.threads,
                        )
                  | inr (bad, r) ↦
                      rw (e, e1, found, e1, at_q, e1, bad, process_fork)
                        (held, refused-Inv tgid p d _ s1 i1 at_p r.gl r.threads)
                ]
        ]
  ]

  -- Erasing a number that no thread has.
  pub missed-loaded :
      (id : ℕ) (a b : x.Array)
      → loaded (slot a id) ≡ none
      → ((j : ℕ) → slot b j ≡ (if j == id then free else slot a j))
      → (j : ℕ) → loaded (slot b j) ≡ loaded (slot a j)
  missed-loaded id a b absent h j = elim (Bool-cases (j == id)) [
    | inl hit ↦
        let same_j : j ≡ id = ground (arith, hit) in
        let gone : slot b j ≡ free = h j ∙ rw hit refl in
        ap loaded gone ∙ sym (ap (λ y. loaded (slot a y)) same_j ∙ absent)
    | inr miss ↦ let kept : slot b j ≡ slot a j = h j ∙ rw miss refl in ap loaded kept
  ]

  -- sa_free_held of an address that no thread has.
  missed-Inv :
      {held : Stacks} (tgid p addr : ℕ) (d : Desc m t x reg) (s : System m t x reg)
      → Inv m t x reg none_held held s
      → s.desc p ≡ some d
      → loaded (slot d.threads (addr_to_id addr)) ≡ none
      → Inv m t x reg none_held held
          (unfocus m t x reg tgid p d (sa_free_held m t x addr (focus m t x reg tgid d s)).1 s)
  missed-Inv {held} tgid p addr d s i at_p absent =
      let id = addr_to_id addr in
      let f = focus m t x reg tgid d s in
      let (ret, same, h) = sa_free_held-einval m t x addr f absent in
      let f' = (sa_free_held m t x addr f).1 in
      let g : IsGl f'.gl (stacks held) (view f'.mem) =
        subst (λ (y : Focus m t x). IsGl y.gl (stacks held) (view y.mem)) (sym same) i.gl in
      let n = size-same f'.threads d.threads (missed-loaded id d.threads f'.threads absent h) in
      changed-Inv m t x reg s tgid p d f' d.kref i at_p (λ q miss. refl) (rw n (i.counted p d at_p))
        (i.alive p d at_p)
        (same-Owns m t x reg s p d f' i at_p g (λ j v e. elim (Bool-cases (j == id)) [
          | inl hit ↦ let gone : free ≡ entry v = sym (h j ∙ rw hit refl) ∙ e in cc
          | inr miss ↦ sym (h j ∙ rw miss refl) ∙ e
        ]))

  -- sa_free_held of a thread: its reference is the call's.
  pub released-Inv :
      {held rest : Stacks} (tgid p id : ℕ) (v : ThreadDesc) (d : Desc m t x reg) (f : Focus m t x)
      (s : System m t x reg)
      → Inv m t x reg none_held held s
      → s.desc p ≡ some d
      → slot d.threads id ≡ entry v
      → Pick ((p, id), v.pagelist) held rest
      → IsGl f.gl (stacks rest) (view f.mem)
      → ((j : ℕ) → slot f.threads j ≡ (if j == id then free else slot d.threads j))
      → Inv m t x reg (one p) rest (unfocus m t x reg tgid p d f s)
  released-Inv tgid p id v d f s i at_p there_v gone g h =
      let unused : slot f.threads id ≡ free = h id ∙ ground arith in
      let n = size-entry id v f.threads d.threads unused (λ j. elim (Bool-cases (j == id)) [
        | inl hit ↦ let same_j : j ≡ id = ground (arith, hit) in rw (hit, same_j) there_v
        | inr miss ↦ rw miss (sym (h j ∙ rw miss refl))
      ]) in
      changed-Inv m t x reg s tgid p d f d.kref i at_p (λ q miss. one-other p q miss)
        (omega (arith, n, i.counted p d at_p, one_self p)) (i.alive p d at_p)
        (less-Owns m t x reg s p d f id v i at_p gone g h)

  -- The call drops it.
  freed-Inv :
      {held rest : Stacks} (tgid p id : ℕ) (v : ThreadDesc) (d : Desc m t x reg) (f : Focus m t x)
      (s : System m t x reg)
      → Inv m t x reg none_held held s
      → s.desc p ≡ some d
      → slot d.threads id ≡ entry v
      → Pick ((p, id), v.pagelist) held rest
      → IsGl f.gl (stacks rest) (view f.mem)
      → ((j : ℕ) → slot f.threads j ≡ (if j == id then free else slot d.threads j))
      → Inv m t x reg none_held rest (alloc_put m t x reg p (unfocus m t x reg tgid p d f s))
  freed-Inv tgid p id v d f s i at_p there_v gone g h =
      let d' : Desc m t x reg = record d { threads = f.threads; max_id = f.max_id } in
      put-Inv m t x reg p d' (unfocus m t x reg tgid p d f s)
        (update-hit m t x reg s.desc p (some d'))
        (released-Inv tgid p id v d f s i at_p there_v gone g h)

  pub free-Sound :
      (tgid addr : ℕ) (s : System m t x reg)
      → Sound s
      → Sound (process_free m t x reg tgid addr s).1
  unfolding process_free alloc_find
  free-Sound tgid addr s (held, i) = elim (Bool-cases (is_bad_addr addr)) [
    | inl bad ↦ rw (bad, process_free) (held, i)
    | inr good ↦ elim (Option-cases (loaded (reg.slot s.sa_allocators tgid))) [
      | inl absent ↦ rw (good, absent, process_free) (held, i)
      | inr (p, found) ↦
          let (d, at_p, tg) =
            i.table tgid p (loaded-entry (reg.slot s.sa_allocators tgid) p found) in
          let id = addr_to_id addr in
          elim (Option-cases (loaded (slot d.threads id))) [
            | inl absent ↦
                let ret = (sa_free_held-einval m t x addr (focus m t x reg tgid d s) absent).0 in
                rw (good, found, at_p, ret, process_free)
                  (held, missed-Inv tgid p addr d s i at_p absent)
            | inr (v, e) ↦
                let there_v = loaded-entry (slot d.threads id) v e in
                let old = i.owned p d id v at_p there_v in
                let (ret, r) =
                  sa_free_held_lem m t x addr (focus m t x reg tgid d s) v there_v
                    (Pick-stacks old.1.1) i.gl in
                rw (good, found, at_p, ret, process_free)
                  (old.1.0, freed-Inv tgid p id v d _ s i at_p there_v old.1.1 r.gl r.threads)
          ]
    ]
  ]
