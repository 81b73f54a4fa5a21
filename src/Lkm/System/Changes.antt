-- ===== src/Lkm/System/Changes.antt =====
-- The map of the threads of lkm/core/api.c when a call fails and when it makes a thread.
use shadow_stack_llvm.Prelude.{
  ℕ, ◌+◌, ◌≡◌, ◌≢◌, sym, ap, ◌∙◌, inl, inr, true, false, none, some, arith, ◌==◌, ◌&&◌,
  if◌then◌else◌, Bool-cases, Option-cases, All-Pick, Pairs-append_right, Pairs-Pick,
}
use shadow_stack_llvm.Lkm.Layout.{id_to_addr}
use shadow_stack_llvm.Lkm.Memory.{Memory}
use shadow_stack_llvm.Lkm.PageTable.{PageTables}
use shadow_stack_llvm.Lkm.Xarray.{Xarray, free, entry, loaded}
use shadow_stack_llvm.Lkm.FreeList.Invariant.{IsGl, Disjoint, Disjoint-symm}
use shadow_stack_llvm.Lkm.Threads.{ThreadDesc, Focus}
use shadow_stack_llvm.Lkm.System.{Desc, System, unfocus, alloc_get, alloc_put, alloc_find}
use shadow_stack_llvm.Lkm.System.Keys.{Stacks, stacks, Pick-stacks, Pick-other}
use shadow_stack_llvm.Lkm.System.Invariant.{one, none_held, Inv, update-hit}
use shadow_stack_llvm.Lkm.System.Refs.{loaded-entry}
use shadow_stack_llvm.Lkm.System.View.{
  threads_of, thread_map, thread_map-alloc_put, thread_map-refused, thread_map-changed,
}
use shadow_stack_llvm.Lkm.System.Spec.{Op, served, own_of, newcomer, Spec, kept, started}
use shadow_stack_llvm.Lkm.System.Calls.{Sound, unserved-Inv}

module _ (m : Memory) (t : PageTables) (x : Xarray ThreadDesc) (reg : Xarray ℕ) where
  open m use {view}
  open x use {slot}

  -- Where the map has a thread, there is a descriptor that has it.
  thread_map-entry :
      (s : System m t x reg) (p i : ℕ) (v : ThreadDesc)
      → thread_map m t x reg s p i ≡ some v
      → (d : Desc m t x reg) × (s.desc p ≡ some d) × (slot d.threads i ≡ entry v)
  thread_map-entry s p i v e = elim (Option-cases (s.desc p)) [
    | inl absent ↦
        let clash : none ≡ some v = ap (λ o. threads_of m t x reg o i) (sym absent) ∙ e in cc
    | inr (d, at_p) ↦ (
      d,
      at_p,
      loaded-entry (slot d.threads i) v (ap (λ o. threads_of m t x reg o i) (sym at_p) ∙ e),
    )
  ]

  -- Two numbers do not share a page.
  thread_map-Disjoint :
      (s : System m t x reg) (p q i j : ℕ) (v w : ThreadDesc)
      → Sound m t x reg s
      → ◌≢◌ {A = ℕ × ℕ} (p, i) (q, j)
      → thread_map m t x reg s p i ≡ some v
      → thread_map m t x reg s q j ≡ some w
      → Disjoint v.pagelist w.pagelist
  thread_map-Disjoint s p q i j v w (held, n) differ of_v of_w =
      let (d, at_p, of_d) = thread_map-entry s p i v of_v in
      let (e, at_q, of_e) = thread_map-entry s q j w of_w in
      let one_stack = (n.owned p d i v at_p of_d).1 in
      let two_stack = Pick-other differ one_stack.1 (n.owned q e j w at_q of_e).1.1 in
      let apart = Pairs-append_right Disjoint s.gl.gl_sa _ n.gl.apart in
      let from_one = (Pairs-Pick Disjoint Disjoint-symm (Pick-stacks one_stack.1) apart).0 in
      (All-Pick (Disjoint v.pagelist) (Pick-stacks two_stack.1) from_one).0

  -- The descriptor that alloc_get gives is the one of the table.
  pub alloc_get-find :
      {held : Stacks} (tgid : ℕ) (s : System m t x reg) (p : ℕ) (d : Desc m t x reg)
      → Inv m t x reg none_held held s
      → (alloc_get m t x reg tgid s).0 ≡ some (p, d)
      → alloc_find m t x reg tgid s ≡ some p
  unfolding alloc_get alloc_find
  alloc_get-find tgid s p d i got = elim (Option-cases (loaded (reg.slot s.sa_allocators tgid))) [
    | inl e ↦ let clash : none ≡ some (p, d) = rw (e, alloc_get) at got in cc
    | inr (q, e) ↦
        let (d0, at_q, tg) = i.table tgid q (loaded-entry (reg.slot s.sa_allocators tgid) q e) in
        let positive = i.alive q d0 at_q in
        let not_zero : (d0.kref == 0) ≡ false = ground arith in
        let same : some (q, record d0 { kref = d0.kref + 1 }) ≡ some (p, d) =
          rw (e, at_q, not_zero, alloc_get) at got in
        e ∙ cc
  ]

  -- A thread that is new in the map of a state in order has a stack of its own.
  new-Spec :
      (op : Op) (s s' : System m t x reg) (p id : ℕ) (w : ThreadDesc)
      → Sound m t x reg s'
      → served op ≡ true
      → own_of op ≡ some p
      → newcomer op ≡ some w.tid
      → w.addr ≡ id_to_addr id
      → thread_map m t x reg s p id ≡ none
      → ((q j : ℕ)
          → thread_map m t x reg s' q j
            ≡ (if (q == p) && (j == id) then some w else thread_map m t x reg s q j))
      → Spec op (thread_map m t x reg s) (thread_map m t x reg s')
  new-Spec op s s' p id w sound ok own new addr unused h =
      let there : thread_map m t x reg s' p id ≡ some w = h p id ∙ ground arith in
      started ok p id w own new addr unused
        (λ q j u e.
          let differ : ◌≢◌ {A = ℕ × ℕ} (p, id) (q, j) = λ same.
            let clash : none ≡ some u =
              sym unused ∙ ap (λ (k : ℕ × ℕ). thread_map m t x reg s k.0 k.1) same ∙ e in
            cc in
          let off : ((q == p) && (j == id)) ≡ false = elim (Bool-cases ((q == p) && (j == id))) [
            | inr miss ↦ miss
            | inl hit ↦
                let same_q : p ≡ q = ground (arith, hit) in
                let same_j : id ≡ j = ground (arith, hit) in
                elim (differ (λ k. (same_q k, same_j k))) [ ]
          ] in
          thread_map-Disjoint s' p q id j w u sound differ there (h q j ∙ rw off e))
        h

  abbrev pub Maps : Op → System m t x reg → System m t x reg → Type 0
  Maps op s s' = Spec op (thread_map m t x reg s) (thread_map m t x reg s')

  -- A call that failed after it has got a reference.
  pub refused-Spec :
      {held : Stacks} (op : Op) (tgid p : ℕ) (d : Desc m t x reg) (f : Focus m t x)
      (s s1 : System m t x reg)
      → served op ≡ false
      → ((q j : ℕ) → thread_map m t x reg s1 q j ≡ thread_map m t x reg s q j)
      → Inv m t x reg (one p) held s1
      → s1.desc p ≡ some d
      → IsGl f.gl (stacks held) (view f.mem)
      → ((j : ℕ) → slot f.threads j ≡ slot d.threads j)
      → Maps op s (alloc_put m t x reg p (unfocus m t x reg tgid p d f s1))
  refused-Spec op tgid p d f s s1 bad from i at_p g same =
      let d' : Desc m t x reg = record d { threads = f.threads; max_id = f.max_id } in
      let s2 = unfocus m t x reg tgid p d f s1 in
      kept bad (λ q j.
        thread_map-alloc_put m t x reg p d' s2 (update-hit m t x reg s1.desc p (some d'))
          (unserved-Inv m t x reg tgid p d f s1 i at_p g same) q j
        ∙ thread_map-refused m t x reg tgid p d f s1 at_p (λ k. ap loaded (same k)) q j
        ∙ from q j)

  -- A call that has made a thread.
  pub added-Spec :
      (op : Op) (tgid p id : ℕ) (w : ThreadDesc) (d : Desc m t x reg) (f : Focus m t x)
      (s s1 : System m t x reg)
      → Sound m t x reg (unfocus m t x reg tgid p d f s1)
      → served op ≡ true
      → own_of op ≡ some p
      → newcomer op ≡ some w.tid
      → w.addr ≡ id_to_addr id
      → ((q j : ℕ) → thread_map m t x reg s1 q j ≡ thread_map m t x reg s q j)
      → s1.desc p ≡ some d
      → slot d.threads id ≡ free
      → ((j : ℕ) → slot f.threads j ≡ (if j == id then entry w else slot d.threads j))
      → Maps op s (unfocus m t x reg tgid p d f s1)
  added-Spec op tgid p id w d f s s1 sound ok own new addr from at_p unused h =
      new-Spec op s (unfocus m t x reg tgid p d f s1) p id w sound ok own new addr
        (sym (from p id) ∙ ap (λ o. threads_of m t x reg o id) at_p ∙ ap loaded unused)
        (λ q j.
          thread_map-changed m t x reg tgid p id (entry w) d f s1 at_p h q j
          ∙ ap (λ o. if (q == p) && (j == id) then some w else o) (from q j))
