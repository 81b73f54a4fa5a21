-- ===== src/Lkm/System/View.antt =====
-- What the rest of the module sees of the allocators of lkm/core/api.c: a map from an allocator and a
-- number to the thread, without the references, the table and the free list.
use shadow_stack_llvm.Prelude.{
  ℕ, ◌+◌, ◌-◌, ◌≡◌, refl, sym, ap, ◌∙◌, inl, inr, false, Option, none, some, arith, ◌==◌, ◌&&◌,
  if◌then◌else◌, update, Bool-cases, Option-cases, ◌≢◌,
}
use shadow_stack_llvm.Lkm.Memory.{Memory}
use shadow_stack_llvm.Lkm.PageTable.{PageTables}
use shadow_stack_llvm.Lkm.Xarray.{Xarray, Slot, free, reserved, entry, loaded}
use shadow_stack_llvm.Lkm.Threads.{ThreadDesc, Focus}
use shadow_stack_llvm.Lkm.System.{
  Desc, System, unfocus, alloc_create, alloc_destroy, alloc_find, alloc_get, alloc_put,
}
use shadow_stack_llvm.Lkm.System.Keys.{Stacks}
use shadow_stack_llvm.Lkm.System.Invariant.{one, none_held, Inv}
use shadow_stack_llvm.Lkm.Errno.{Ret-cases}
use shadow_stack_llvm.Lkm.System.Table.{erased, erase-Inv}
use shadow_stack_llvm.Lkm.System.Refs.{one_self, loaded-entry}

-- An allocator, named by its descriptor, and a number.
abbrev pub ThreadMap : Type 0
ThreadMap = ℕ → ℕ → Option ThreadDesc

pub Slot-free : {V : Type 0} (u : Slot V) → ((v : V) → u ≢ entry v) → loaded u ≡ none
Slot-free free h = refl
Slot-free reserved h = refl
Slot-free (entry v) h = absurd (h v refl)

module _ (m : Memory) (t : PageTables) (x : Xarray ThreadDesc) (reg : Xarray ℕ) where
  open x use {slot, size, size-entry, xa_erase, xa_erase-slot}

  abbrev pub threads_of : Option (Desc m t x reg) → ℕ → Option ThreadDesc
  threads_of none i = none
  threads_of (some d) i = loaded (slot d.threads i)

  abbrev pub thread_map : System m t x reg → ThreadMap
  thread_map s p i = threads_of (s.desc p) i

  -- The map after a change of one descriptor.
  thread_map-update :
      (s : System m t x reg) (p : ℕ) (o : Option (Desc m t x reg)) (q j : ℕ)
      → threads_of (update s.desc p o q) j ≡ (if q == p then threads_of o j else thread_map s q j)
  thread_map-update s p o q j = elim (Bool-cases (q == p)) [
    | inl hit ↦ rw hit refl
    | inr miss ↦ rw miss refl
  ]

  -- A change of one descriptor that keeps its threads.
  pub thread_map-kept :
      (s : System m t x reg) (p : ℕ) (o : Option (Desc m t x reg))
      → ((j : ℕ) → threads_of o j ≡ thread_map s p j)
      → (q j : ℕ) → threads_of (update s.desc p o q) j ≡ thread_map s q j
  thread_map-kept s p o h q j = elim (Bool-cases (q == p)) [
    | inl hit ↦
        let same : q ≡ p = ground (arith, hit) in thread_map-update s p o q j ∙ rw (hit, same) (h j)
    | inr miss ↦ thread_map-update s p o q j ∙ rw miss refl
  ]

  empty-threads :
      (d : Desc m t x reg) → size d.threads ≡ 0 → (j : ℕ) → loaded (slot d.threads j) ≡ none
  empty-threads d none_there j = Slot-free (slot d.threads j) (λ v e.
      let a = (xa_erase j d.threads).1 in
      let erased = xa_erase-slot j d.threads in
      let now : slot a j ≡ free = erased j ∙ ground arith in
      let back : (k : ℕ) → slot d.threads k ≡ (if k == j then entry v else slot a k) = λ k.
        elim (Bool-cases (k == j)) [
          | inl hit ↦ let same : k ≡ j = ground (arith, hit) in rw (hit, same) e
          | inr miss ↦ rw miss (sym (erased k ∙ rw miss refl))
        ] in
      let n = size-entry j v a d.threads now back in omega (arith, n, none_there))

  -- A reference that is dropped takes no thread with it.
  pub thread_map-alloc_put :
      {held : Stacks} (p : ℕ) (d : Desc m t x reg) (s : System m t x reg)
      → s.desc p ≡ some d
      → Inv m t x reg (one p) held s
      → (q j : ℕ) → thread_map (alloc_put m t x reg p s) q j ≡ thread_map s q j
  unfolding alloc_put
  thread_map-alloc_put p d s at_p i q j = elim (Bool-cases (d.kref == 1)) [
    | inr more ↦
        rw (at_p, more, alloc_put)
          (thread_map-kept s p (some (record d { kref = d.kref - 1 })) (λ k. rw at_p refl) q j)
    | inl last ↦
        let last_one : d.kref ≡ 1 = ground (arith, last) in
        let unused : size d.threads ≡ 0 = omega (arith, i.counted p d at_p, last_one, one_self p) in
        rw (at_p, last, alloc_put)
          (thread_map-kept s p none (λ k. rw at_p (sym (empty-threads d unused k))) q j)
  ]

  pub thread_map-alloc_get :
      {held : Stacks} (tgid : ℕ) (s : System m t x reg)
      → Inv m t x reg none_held held s
      → (q j : ℕ) → thread_map (alloc_get m t x reg tgid s).1 q j ≡ thread_map s q j
  unfolding alloc_get alloc_find
  thread_map-alloc_get tgid s i q j = elim (Option-cases (loaded (reg.slot s.sa_allocators tgid))) [
    | inl e ↦ rw (e, alloc_get) refl
    | inr (p, e) ↦
        let (d, at_p, tg) = i.table tgid p (loaded-entry (reg.slot s.sa_allocators tgid) p e) in
        let positive = i.alive p d at_p in
        let not_zero : (d.kref == 0) ≡ false = ground arith in
        rw (e, at_p, not_zero, alloc_get)
          (thread_map-kept s p (some (record d { kref = d.kref + 1 })) (λ k. rw at_p refl) q j)
  ]

  pub thread_map-unfocus :
      (tgid p : ℕ) (d : Desc m t x reg) (f : Focus m t x) (s : System m t x reg) (q j : ℕ)
      → thread_map (unfocus m t x reg tgid p d f s) q j
        ≡ (if q == p then loaded (slot f.threads j) else thread_map s q j)
  thread_map-unfocus tgid p d f s q j =
      thread_map-update s p (some (record d { threads = f.threads; max_id = f.max_id })) q j

  -- A call that leaves every number as it was.
  pub thread_map-refused :
      (tgid p : ℕ) (d : Desc m t x reg) (f : Focus m t x) (s : System m t x reg)
      → s.desc p ≡ some d
      → ((j : ℕ) → loaded (slot f.threads j) ≡ loaded (slot d.threads j))
      → (q j : ℕ) → thread_map (unfocus m t x reg tgid p d f s) q j ≡ thread_map s q j
  thread_map-refused tgid p d f s at_p same q j =
      thread_map-kept s p (some (record d { threads = f.threads; max_id = f.max_id }))
        (λ k. rw at_p (same k)) q j

  -- A call that changes what one number has.
  pub thread_map-changed :
      (tgid p id : ℕ) (u : Slot ThreadDesc) (d : Desc m t x reg) (f : Focus m t x)
      (s : System m t x reg)
      → s.desc p ≡ some d
      → ((j : ℕ) → slot f.threads j ≡ (if j == id then u else slot d.threads j))
      → (q j : ℕ)
      → thread_map (unfocus m t x reg tgid p d f s) q j
        ≡ (if (q == p) && (j == id) then loaded u else thread_map s q j)
  thread_map-changed tgid p id u d f s at_p h q j =
      thread_map-unfocus tgid p d f s q j ∙ elim (Bool-cases (q == p)) [
        | inr miss ↦ rw miss refl
        | inl hit ↦
            let same : q ≡ p = ground (arith, hit) in
            elim (Bool-cases (j == id)) [
              | inl there ↦ rw (hit, there) (ap loaded (h j ∙ rw there refl))
              | inr other ↦ rw (hit, other, same, at_p) (ap loaded (h j ∙ rw other refl))
            ]
      ]

  -- A new descriptor has no thread.
  pub thread_map-alloc_create :
      (p tgid : ℕ) (no_threads : x.Array) (s : System m t x reg)
      → s.desc p ≡ none
      → ((j : ℕ) → slot no_threads j ≡ free)
      → (q j : ℕ)
      → thread_map (alloc_create m t x reg (some p) no_threads tgid s).1 q j ≡ thread_map s q j
  unfolding alloc_create
  thread_map-alloc_create p tgid no_threads s absent empty q j =
      let d : Desc m t x reg = record { tgid = tgid; threads = no_threads; max_id = 0; kref = 1 } in
      elim (Ret-cases (reg.xa_insert tgid p s.sa_allocators).0) [
        | inr (e, bad) ↦ rw bad refl
        | inl ok ↦ rw ok (thread_map-kept s p (some d) (λ k. rw absent (ap loaded (empty k))) q j)
      ]

  -- An allocator that is destroyed leaves its threads in the map.
  pub thread_map-alloc_destroy :
      {held : Stacks} (p tgid : ℕ) (s : System m t x reg)
      → Inv m t x reg none_held held s
      → reg.slot s.sa_allocators tgid ≡ entry p
      → (q j : ℕ) → thread_map (alloc_destroy m t x reg (some p) s) q j ≡ thread_map s q j
  unfolding alloc_destroy
  thread_map-alloc_destroy p tgid s i listed q j =
      let (d, at_p, tg) = i.table tgid p listed in
      rw (at_p, alloc_destroy)
        (thread_map-alloc_put p d (erased m t x reg d s) at_p
          (erase-Inv m t x reg s p d i at_p (ap (reg.slot s.sa_allocators) tg ∙ listed)) q j)
