-- ===== src/AltRuntime/Threads.antt =====
-- A thread of alt_runtime/main.c from its start in thread_trampoline to its end in ss_dtor.
use shadow_stack_llvm.Prelude.{
  ℕ, ◌+◌, ◌*◌, ◌<◌, ◌≡◌, refl, sym, ap, subst, ◌∙◌, ◌⊎◌, inl, inr, Bool, true, false, none, some,
  ◌∷◌, ◌==◌, ◌&&◌, arith, Bool-cases, Option-cases, Option, update, ◌%◌, ◌^◌,
}
use shadow_stack_llvm.Lkm.Layout.{
  ss_start, ss_size, threads_limit, id_to_addr, addr_to_id, is_bad_addr, id_to_addr-linear,
  id_to_addr-layout, is_bad_addr_iff, last_id-is_bad,
}
use shadow_stack_llvm.Lkm.Memory.{Memory}
use shadow_stack_llvm.Lkm.PageTable.{PageTables}
use shadow_stack_llvm.Lkm.Xarray.{Xarray}
use shadow_stack_llvm.Lkm.Threads.{ThreadDesc}
use shadow_stack_llvm.Lkm.System.{System, process_alloc, process_free}
use shadow_stack_llvm.Lkm.System.View.{thread_map}
use shadow_stack_llvm.Lkm.System.Calls.{Sound, alloc-Sound}
use shadow_stack_llvm.Lkm.System.Rounds.{Started, process_alloc-Started, process_free-ended}
use shadow_stack_llvm.AltRuntime.{
  Process, mem_pool_alloc, ss_dtor, shadow_stack_thread_init, end_thread, data_offset,
}

module _ (m : Memory) (t : PageTables) (x : Xarray ThreadDesc) (reg : Xarray ℕ) where
  -- What the end of a thread with the chunk of number `id` comes to: the map of the threads is as it
  -- was before the thread started; or nothing is given back.
  abbrev pub Ended : (is_set : Bool) → (id : ℕ) → (before between after : System m t x reg) → Type 0
  Ended is_set id before between after =
      ((is_set ≡ true)
        × (id < threads_limit)
        × ((q j : ℕ) → thread_map m t x reg after q j ≡ thread_map m t x reg before q j))
      ⊎ (((is_set ≡ false) ⊎ (id ≡ threads_limit)) × (after ≡ between))

  free-Ended :
      (tgid pid : ℕ) (s : System m t x reg)
      → Sound m t x reg s
      → let (ret, addr, s') = process_alloc m t x reg tgid pid 0 s in
        (a : Started m t x reg tgid pid s addr s')
        → Ended true a.id s s' (process_free m t x reg tgid (id_to_addr a.id) s').1
  unfolding process_free
  free-Ended tgid pid s sound a = elim (Bool-cases (a.id == threads_limit)) [
    | inl last ↦
        let same : a.id ≡ threads_limit = ground (arith, last) in
        let bad : is_bad_addr (id_to_addr a.id) ≡ true =
          ap (λ i. is_bad_addr (id_to_addr i)) same ∙ last_id-is_bad in
        inr (inr same, rw (bad, process_free) refl)
    | inr other ↦
        let id = a.id in
        let below : id < threads_limit = ground (arith, other, a.within) in
        let back : addr_to_id (id_to_addr id) ≡ id = (id_to_addr-layout id id below below).2 in
        let lin : id_to_addr id ≡ ss_start + id * ss_size = id_to_addr-linear id a.within in
        let good : is_bad_addr (id_to_addr id) ≡ false =
          (is_bad_addr_iff (id_to_addr id) (omega (arith, lin))).1 (rw back (below, refl)) in
        let hit : ((a.own == a.own) && (id == id)) ≡ true = ground arith in
        let between = (process_alloc m t x reg tgid pid 0 s).2 in
        let there_id : thread_map m t x reg between a.own id ≡ some a.w =
          a.now a.own id ∙ rw hit refl in
        let at_addr : thread_map m t x reg between a.own (addr_to_id (id_to_addr id)) ≡ some a.w =
          ap (λ i. thread_map m t x reg between a.own i) back ∙ there_id in
        let (ok, gone) =
          process_free-ended m t x reg tgid (id_to_addr id) a.own a.w between
            (alloc-Sound m t x reg tgid pid 0 s sound) good a.found_after at_addr in
        inl (
          refl,
          below,
          λ q j.
              gone q j
              ∙ rw back (elim (Bool-cases ((q == a.own) && (j == id))) [
                | inr miss ↦ rw miss (a.now q j ∙ rw miss refl)
                | inl both ↦
                    let of_own : q ≡ a.own = ground (arith, both) in
                    let of_id : j ≡ id = ground (arith, both) in
                    rw both (
                      sym (
                        ap (λ y. thread_map m t x reg s y j) of_own
                        ∙ ap (λ i. thread_map m t x reg s a.own i) of_id
                        ∙ a.unused))
              ]),
        )
  ]

  -- A thread of the process `p` has started, and would end again.
  abbrev pub Round : (is_set : Bool) → (pid : ℕ) → (p p' : Process m t x reg) → Type 0
  Round is_set pid p p' =
      (addr : ℕ) × ((a : Started m t x reg p.tgid pid p.device addr p'.device) × (p'.threads
          ≡ (addr, is_set) ∷ p.threads)
        × Ended is_set a.id p.device p'.device
            (end_thread m t x reg (addr, is_set) p.threads p').device)

  -- In a state of the module in order, shadow_stack_thread_init either makes the process exit, or the
  -- new thread has the address of a number of the process' allocator that was free, and the module's
  -- map of the threads has it there and is as before otherwise. When that thread ends, the map is as it
  -- was before the thread started, if the key was made and set and the number is below THREADS_LIMIT;
  -- in the other cases the module keeps the thread, its stack and its number.
  pub end_thread-shadow_stack_thread_init :
      (is_set : Bool) (pid : ℕ) (p : Process m t x reg)
      → Sound m t x reg p.device
      → (shadow_stack_thread_init m t x reg is_set pid p ≡ none)
        ⊎ ((p' : Process m t x reg) × (shadow_stack_thread_init m t x reg is_set pid p ≡ some p')
            × Round is_set pid p p')
  unfolding shadow_stack_thread_init mem_pool_alloc end_thread ss_dtor
  end_thread-shadow_stack_thread_init is_set pid p sound = elim (Option-cases p.shadow_fd) [
    | inl closed ↦ inl (rw (closed, mem_pool_alloc) refl)
    | inr (fd, opened) ↦ elim (process_alloc-Started m t x reg p.tgid pid 0 p.device sound) [
      | inl bad ↦ inl (rw (opened, bad, shadow_stack_thread_init) refl)
      | inr (ok, a) ↦
          let chunk = (process_alloc m t x reg p.tgid pid 0 p.device).1 in
          let q : Process m t x reg = record p {
            device = (process_alloc m t x reg p.tgid pid 0 p.device).2;
            padding = update p.padding chunk 0;
            top = update p.top chunk ((chunk + data_offset) % 2 ^ 64);
          } in
          let got : mem_pool_alloc m t x reg pid p ≡ (some chunk, q) =
            rw (opened, mem_pool_alloc)
              (rw ok (ap (λ o. (some chunk, record q { shadow_fd = o })) opened)) in
          let p' : Process m t x reg = record q { threads = (chunk, is_set) ∷ p.threads } in
          inr (
            p',
            rw (got, shadow_stack_thread_init)
                (ap
                  (λ (u : Option ℕ × Process m t x reg).
                    some (record u.1 { threads = (chunk, is_set) ∷ u.1.threads }))
                  got),
            (chunk, (a, refl, at_end fd opened a is_set)),
          )
    ]
  ]
    where
      at_end :
          (fd : ℕ)
          → p.shadow_fd ≡ some fd
          → let (ret, chunk, d) = process_alloc m t x reg p.tgid pid 0 p.device in
            (a : Started m t x reg p.tgid pid p.device chunk d)
            → (is : Bool)
            → Ended is a.id p.device d
                (end_thread m t x reg
                  (chunk, is)
                  p.threads
                  (record p {
                    device = d;
                    padding = update p.padding chunk 0;
                    top = update p.top chunk ((chunk + data_offset) % 2 ^ 64);
                    threads = (chunk, is) ∷ p.threads;
                  })).device
      at_end fd opened a false = inr (inl refl, refl)
      at_end fd opened a true =
          let lin = id_to_addr-linear a.id a.within in
          let chunk = (process_alloc m t x reg p.tgid pid 0 p.device).1 in
          let not_null : (chunk == 0) ≡ false = ground (arith, a.address, lin) in
          rw (opened, not_null, ss_dtor)
            (subst
              (λ c.
                let d = (process_alloc m t x reg p.tgid pid 0 p.device).2 in
                Ended true a.id p.device d (process_free m t x reg p.tgid c d).1)
              (sym a.address) (free-Ended p.tgid pid p.device sound a))
