-- ===== src/Lkm/System/Rounds.antt =====
-- One thread of a process between sa_alloc and sa_free of lkm/core/api.c: which number it gets, and what
-- the map of the threads is before, between and afterwards.
use shadow_stack_llvm.Prelude.{
  ℕ, ◌≤◌, ◌≡◌, refl, sym, ap, ◌∙◌, ◌⊎◌, inl, inr, true, false, some, none, ◌==◌, ◌&&◌,
  if◌then◌else◌,
}
use shadow_stack_llvm.Lkm.Errno.{success, failed}
use shadow_stack_llvm.Lkm.Layout.{threads_limit, addr_to_id, id_to_addr, is_bad_addr}
use shadow_stack_llvm.Lkm.Memory.{Memory}
use shadow_stack_llvm.Lkm.PageTable.{PageTables}
use shadow_stack_llvm.Lkm.Xarray.{Xarray, free, entry, loaded}
use shadow_stack_llvm.Lkm.Threads.{ThreadDesc, sa_alloc_held, sa_free_held}
use shadow_stack_llvm.Lkm.Threads.Alloc.{sa_alloc_held_lem}
use shadow_stack_llvm.Lkm.Threads.Free.{sa_free_held_lem}
use shadow_stack_llvm.Lkm.System.{
  Desc, System, focus, unfocus, put_desc, alloc_find, process_alloc, process_free,
}
use shadow_stack_llvm.Lkm.System.Keys.{stacks, Pick-stacks}
use shadow_stack_llvm.Lkm.System.Invariant.{update-hit}
use shadow_stack_llvm.Lkm.System.Refs.{loaded-entry, get-Inv}
use shadow_stack_llvm.Lkm.System.View.{
  thread_map, thread_map-alloc_put, thread_map-alloc_get, thread_map-changed,
}
use shadow_stack_llvm.Lkm.System.Calls.{Sound, released-Inv}
use shadow_stack_llvm.Lkm.System.Changes.{alloc_get-find}

module _ (m : Memory) (t : PageTables) (x : Xarray ThreadDesc) (reg : Xarray ℕ) where
  open x use {slot}

  -- The thread `pid` has got the address `addr`, that of a number which was free.
  pub record Started (tgid pid : ℕ) (s : System m t x reg) (addr : ℕ) (s' : System m t x reg)
      : Type 0 where
    pub own : ℕ
    pub id : ℕ
    pub w : ThreadDesc
    pub found : alloc_find m t x reg tgid s ≡ some own
    pub found_after : alloc_find m t x reg tgid s' ≡ some own
    pub within : id ≤ threads_limit
    pub address : addr ≡ id_to_addr id
    pub of_pid : w.tid ≡ pid
    pub unused : thread_map m t x reg s own id ≡ none
    pub now :
        (q j : ℕ)
        → thread_map m t x reg s' q j
          ≡ (if (q == own) && (j == id) then some w else thread_map m t x reg s q j)

  pub process_alloc-Started :
      (tgid pid addr : ℕ) (s : System m t x reg)
      → Sound m t x reg s
      → let (ret, addr', s') = process_alloc m t x reg tgid pid addr s in
        (failed ret ≡ true) ⊎ ((failed ret ≡ false) × Started tgid pid s addr' s')
  unfolding process_alloc alloc_find
  process_alloc-Started tgid pid addr s (held, i) =
      let from = thread_map-alloc_get m t x reg tgid s i in
      elim (get-Inv m t x reg tgid s i) [
        | inl (e, e1) ↦ rw (e, e1, process_alloc) (inl refl)
        | inr (p, d, tg, e, e1, i1) ↦
            let s1 = put_desc m t x reg p d s in
            let own = alloc_get-find m t x reg tgid s p d i e in
            let at_p : s1.desc p ≡ some d = update-hit m t x reg s.desc p (some d) in
            let from1 : (q j : ℕ) → thread_map m t x reg s1 q j ≡ thread_map m t x reg s q j =
              λ q j. sym (ap (λ y. thread_map m t x reg y q j) e1) ∙ from q j in
            elim (sa_alloc_held_lem m t x pid addr (stacks held) (focus m t x reg tgid d s1)
              i1.gl) [
                | inr (bad, r) ↦ rw (e, e1, bad, process_alloc) (inl refl)
                | inl (ok, a) ↦
                    let f = (sa_alloc_held m t x pid addr (focus m t x reg tgid d s1)).2 in
                    let w : ThreadDesc = record {
                      tid = pid;
                      addr = (sa_alloc_held m t x pid addr (focus m t x reg tgid d s1)).1;
                      pagelist = a.stack;
                    } in
                    rw (e, e1, ok, process_alloc)
                      (inr (
                        refl,
                        record {
                          own = p;
                          id = a.id;
                          w = w;
                          found = own;
                          found_after = own;
                          within = a.within;
                          address = a.address;
                          of_pid = refl;
                          unused = sym (from1 p a.id) ∙ rw at_p (ap loaded a.unused);
                          now = λ q j.
                              thread_map-changed m t x reg tgid p a.id (entry w) d f s1 at_p
                                a.threads q j
                              ∙ rw (from1 q j) refl;
                        },
                      ))
              ]
      ]

  -- sa_free of the address of a thread that the map has.
  pub process_free-ended :
      (tgid addr p : ℕ) (v : ThreadDesc) (s : System m t x reg)
      → Sound m t x reg s
      → is_bad_addr addr ≡ false
      → alloc_find m t x reg tgid s ≡ some p
      → thread_map m t x reg s p (addr_to_id addr) ≡ some v
      → let (ret, s') = process_free m t x reg tgid addr s in
        (ret ≡ success)
        × ((q j : ℕ)
            → thread_map m t x reg s' q j
              ≡ (if (q == p) && (j == addr_to_id addr) then none else thread_map m t x reg s q j))
  unfolding process_free alloc_find
  process_free-ended tgid addr p v s (held, i) good found there_map =
      let (d, at_p, tg) = i.table tgid p (loaded-entry (reg.slot s.sa_allocators tgid) p found) in
      let id = addr_to_id addr in
      let e : loaded (slot d.threads id) ≡ some v = rw at_p at there_map in
      let there_v = loaded-entry (slot d.threads id) v e in
      let old = i.owned p d id v at_p there_v in
      let (ret, r) =
        sa_free_held_lem m t x addr (focus m t x reg tgid d s) v there_v (Pick-stacks old.1.1)
          i.gl in
      let f = (sa_free_held m t x addr (focus m t x reg tgid d s)).1 in
      let d' : Desc m t x reg = record d { threads = f.threads; max_id = f.max_id } in
      rw (good, found, at_p, ret, process_free)
        (
          refl,
          λ q j.
              thread_map-alloc_put m t x reg p d' (unfocus m t x reg tgid p d f s)
                (update-hit m t x reg s.desc p (some d'))
                (released-Inv m t x reg tgid p id v d f s i at_p there_v old.1.1 r.gl r.threads) q j
              ∙ thread_map-changed m t x reg tgid p id free d f s at_p r.threads q j,
        )
