-- ===== src/Lkm/System/Refine.antt =====
-- sa_alloc, sa_fork, sa_free, alloc_create and alloc_destroy of lkm/core/api.c do what Lkm.System.Spec says.
use shadow_stack_llvm.Prelude.{ℕ, ◌≡◌, refl, sym, ap, ◌∙◌, inl, inr, some, Bool-cases, Option-cases}
use shadow_stack_llvm.Lkm.Layout.{addr_to_id, is_bad_addr}
use shadow_stack_llvm.Lkm.Memory.{Memory}
use shadow_stack_llvm.Lkm.PageTable.{PageTables}
use shadow_stack_llvm.Lkm.Xarray.{Xarray, free, loaded}
use shadow_stack_llvm.Lkm.Threads.{ThreadDesc, sa_free_held}
use shadow_stack_llvm.Lkm.Threads.Alloc.{sa_alloc_held_lem}
use shadow_stack_llvm.Lkm.Threads.Fork.{sa_fork_held_lem}
use shadow_stack_llvm.Lkm.Threads.Free.{sa_free_held_lem, sa_free_held-einval}
use shadow_stack_llvm.Lkm.System.{
  Desc, System, focus, unfocus, put_desc, alloc_find, process_alloc, process_fork, process_free,
}
use shadow_stack_llvm.Lkm.System.Keys.{stacks, Pick-stacks}
use shadow_stack_llvm.Lkm.System.Invariant.{update-hit}
use shadow_stack_llvm.Lkm.System.Refs.{loaded-entry, get-Inv}
use shadow_stack_llvm.Lkm.System.View.{
  threads_of, thread_map, thread_map-alloc_put, thread_map-alloc_get, thread_map-refused,
  thread_map-changed,
}
use shadow_stack_llvm.Lkm.System.Spec.{allocates, forks, frees, kept, ended}
use shadow_stack_llvm.Lkm.System.Calls.{
  Sound, alloc-Sound, fork-Sound, released-Inv, missed-loaded, parents,
}
use shadow_stack_llvm.Lkm.System.Changes.{Maps, alloc_get-find, refused-Spec, added-Spec}

module _ (m : Memory) (t : PageTables) (x : Xarray ThreadDesc) (reg : Xarray ℕ) where
  open m use {view}
  open x use {slot}

  pub alloc-Spec :
      (tgid pid addr : ℕ) (s : System m t x reg)
      → Sound m t x reg s
      → let (ret, addr', s') = process_alloc m t x reg tgid pid addr s in
        Maps m t x reg (allocates (alloc_find m t x reg tgid s) pid ret) s s'
  unfolding process_alloc
  alloc-Spec tgid pid addr s (held, i) =
      let sound = alloc-Sound m t x reg tgid pid addr s (held, i) in
      let from = thread_map-alloc_get m t x reg tgid s i in
      elim (get-Inv m t x reg tgid s i) [
        | inl (e, e1) ↦ rw (e, e1, process_alloc) (kept refl (λ q j. refl))
        | inr (p, d, tg, e, e1, i1) ↦
            let s1 = put_desc m t x reg p d s in
            let own = alloc_get-find m t x reg tgid s p d i e in
            let at_p : s1.desc p ≡ some d = update-hit m t x reg s.desc p (some d) in
            let from1 : (q j : ℕ) → thread_map m t x reg s1 q j ≡ thread_map m t x reg s q j =
              λ q j. sym (ap (λ y. thread_map m t x reg y q j) e1) ∙ from q j in
            elim (sa_alloc_held_lem m t x pid addr (stacks held) (focus m t x reg tgid d s1)
              i1.gl) [
                | inl (ok, a) ↦
                    rw (e, e1, ok, process_alloc)
                      (added-Spec m t x reg _ tgid p a.id _ d _ s s1
                        (rw (e, e1, ok, process_alloc) at sound) refl own refl a.address from1 at_p
                        a.unused a.threads)
                | inr (bad, r) ↦
                    rw (e, e1, bad, process_alloc)
                      (refused-Spec m t x reg _ tgid p d _ s s1 (rw bad refl) from1 i1 at_p r.gl
                        r.threads)
              ]
      ]

  pub fork-Spec :
      (tgid pid parent_tgid parent_pid : ℕ) (s : System m t x reg)
      → Sound m t x reg s
      → let (ret, s') = process_fork m t x reg tgid pid parent_tgid parent_pid s in
        Maps m t x reg (forks (alloc_find m t x reg tgid s) pid ret) s s'
  unfolding process_fork alloc_find
  fork-Spec tgid pid parent_tgid parent_pid s (held, i) =
      let sound = fork-Sound m t x reg tgid pid parent_tgid parent_pid s (held, i) in
      let from = thread_map-alloc_get m t x reg tgid s i in
      elim (get-Inv m t x reg tgid s i) [
        | inl (e, e1) ↦ rw (e, e1, process_fork) (kept refl (λ q j. refl))
        | inr (p, d, tg, e, e1, i1) ↦
            let s1 = put_desc m t x reg p d s in
            let own = alloc_get-find m t x reg tgid s p d i e in
            let at_p : s1.desc p ≡ some d = update-hit m t x reg s.desc p (some d) in
            let from1 : (q j : ℕ) → thread_map m t x reg s1 q j ≡ thread_map m t x reg s q j =
              λ q j. sym (ap (λ y. thread_map m t x reg y q j) e1) ∙ from q j in
            elim (Option-cases (loaded (reg.slot s1.sa_allocators parent_tgid))) [
              | inl absent ↦
                  rw (e, e1, absent, process_fork, e1)
                    (kept refl
                      (λ q j. thread_map-alloc_put m t x reg p d s1 at_p i1 q j ∙ from1 q j))
              | inr (q, found) ↦
                  let (parent, at_q, tq) =
                    i1.table parent_tgid q
                      (loaded-entry (reg.slot s1.sa_allocators parent_tgid) q found) in
                  elim (sa_fork_held_lem m t x pid parent_pid parent.threads (stacks held)
                    (focus m t x reg tgid d s1) (parents m t x reg s1 q parent i1 at_q) i1.gl) [
                      | inl (ok, a) ↦
                          rw (e, e1, found, e1, at_q, e1, ok, process_fork)
                            (added-Spec m t x reg _ tgid p a.id _ d _ s s1
                              (rw (e, e1, found, e1, at_q, e1, ok, process_fork) at sound) refl own
                              refl refl from1 at_p a.unused a.threads)
                      | inr (bad, r) ↦
                          rw (e, e1, found, e1, at_q, e1, bad, process_fork)
                            (refused-Spec m t x reg _ tgid p d _ s s1 (rw bad refl) from1 i1 at_p
                              r.gl r.threads)
                    ]
            ]
      ]

  pub free-Spec :
      (tgid addr : ℕ) (s : System m t x reg)
      → Sound m t x reg s
      → let (ret, s') = process_free m t x reg tgid addr s in
        Maps m t x reg (frees (alloc_find m t x reg tgid s) addr ret) s s'
  unfolding process_free alloc_find
  free-Spec tgid addr s (held, i) = elim (Bool-cases (is_bad_addr addr)) [
    | inl bad ↦ rw (bad, process_free) (kept refl (λ q j. refl))
    | inr good ↦ elim (Option-cases (loaded (reg.slot s.sa_allocators tgid))) [
      | inl absent ↦ rw (good, absent, process_free) (kept refl (λ q j. refl))
      | inr (p, found) ↦
          let (d, at_p, tg) =
            i.table tgid p (loaded-entry (reg.slot s.sa_allocators tgid) p found) in
          let id = addr_to_id addr in
          elim (Option-cases (loaded (slot d.threads id))) [
            | inl absent ↦
                let (ret, same, h) =
                  sa_free_held-einval m t x addr (focus m t x reg tgid d s) absent in
                rw (good, found, at_p, ret, process_free)
                  (kept refl (
                    thread_map-refused m t x reg tgid p d
                      (sa_free_held m t x addr (focus m t x reg tgid d s)).1 s at_p
                      (missed-loaded m t x reg id d.threads _ absent h)))
            | inr (v, e) ↦
                let there_v = loaded-entry (slot d.threads id) v e in
                let old = i.owned p d id v at_p there_v in
                let (ret, r) =
                  sa_free_held_lem m t x addr (focus m t x reg tgid d s) v there_v
                    (Pick-stacks old.1.1) i.gl in
                let f = (sa_free_held m t x addr (focus m t x reg tgid d s)).1 in
                let d' : Desc m t x reg = record d { threads = f.threads; max_id = f.max_id } in
                rw (good, found, at_p, ret, process_free)
                  (ended refl p id v refl refl (ap (λ o. threads_of m t x reg o id) at_p ∙ e)
                    (λ q j.
                      thread_map-alloc_put m t x reg p d' (unfocus m t x reg tgid p d f s)
                        (update-hit m t x reg s.desc p (some d'))
                        (released-Inv m t x reg tgid p id v d f s i at_p there_v old.1.1 r.gl
                          r.threads)
                        q j
                      ∙ thread_map-changed m t x reg tgid p id free d f s at_p r.threads q j))
          ]
    ]
  ]
