-- ===== src/Lkm/System/Reach.antt =====
-- The states that the module comes to, whatever processes call it and in whatever order.
use shadow_stack_llvm.Prelude.{
  ℕ, ◌+◌, ◌<◌, ◌≡◌, ◌≢◌, refl, ap, sym, ◌∙◌, none, some, [], arith, All-Pick, Pairs-append_right,
  Pairs-Pick,
}
use shadow_stack_llvm.Lkm.Memory.{Memory}
use shadow_stack_llvm.Lkm.PageTable.{PageTables}
use shadow_stack_llvm.Lkm.Xarray.{Xarray, free, entry}
use shadow_stack_llvm.Lkm.FreeList.Invariant.{IsGl, Disjoint, Disjoint-symm}
use shadow_stack_llvm.Lkm.Threads.{ThreadDesc}
use shadow_stack_llvm.Lkm.System.{
  Desc, System, alloc_find, alloc_create, alloc_destroy, process_alloc, process_fork, process_free,
}
use shadow_stack_llvm.Lkm.System.Keys.{Pick-other, Pick-stacks}
use shadow_stack_llvm.Lkm.System.Invariant.{points}
use shadow_stack_llvm.Lkm.System.Refs.{loaded-entry}
use shadow_stack_llvm.Lkm.System.Table.{create-Inv, destroy-Inv}
use shadow_stack_llvm.Lkm.System.View.{
  threads_of, thread_map, thread_map-alloc_create, thread_map-alloc_destroy,
}
use shadow_stack_llvm.Lkm.System.Spec.{Op, creates, destroys, allocates, forks, frees, Spec, kept}
use shadow_stack_llvm.Lkm.System.Refine.{alloc-Spec, fork-Spec, free-Spec}
use shadow_stack_llvm.Lkm.System.Calls.{Sound, alloc-Sound, fork-Sound, free-Sound}

module _ (m : Memory) (t : PageTables) (x : Xarray ThreadDesc) (reg : Xarray ℕ) where
  open m use {view}
  open x use {Array, slot, size}

  -- One call of the module. kmalloc gives alloc_create a block that no descriptor has, or none.
  pub data Step : System m t x reg → System m t x reg → Type 0 where
    create :
        (tgid p : ℕ) (no_threads : Array) (s : System m t x reg)
        → s.desc p ≡ none
        → ((j : ℕ) → slot no_threads j ≡ free)
        → size no_threads ≡ 0
        → Step s (alloc_create m t x reg (some p) no_threads tgid s).1
    destroy :
        (tgid p : ℕ) (s : System m t x reg)
        → reg.slot s.sa_allocators tgid ≡ entry p
        → Step s (alloc_destroy m t x reg (some p) s)
    sa_alloc :
        (tgid pid addr : ℕ) (s : System m t x reg)
        → Step s (process_alloc m t x reg tgid pid addr s).2
    sa_fork :
        (tgid pid parent_tgid parent_pid : ℕ) (s : System m t x reg)
        → Step s (process_fork m t x reg tgid pid parent_tgid parent_pid s).1
    sa_free : (tgid addr : ℕ) (s : System m t x reg) → Step s (process_free m t x reg tgid addr s).1

  pub data Reach (s : System m t x reg) : System m t x reg → Type 0 where
    stay : Reach s s
    next : {s1 s2 : System m t x reg} → Reach s s1 → Step s1 s2 → Reach s s2

  -- No process has an allocator, and no stack is in use.
  pub record Fresh (s : System m t x reg) : Type 0 where
    pub no_entries : (tgid : ℕ) → reg.slot s.sa_allocators tgid ≡ free
    pub no_desc : (p : ℕ) → s.desc p ≡ none
    pub gl : IsGl s.gl [] (view s.mem)

  -- The call that a step is, and what it returns.
  abbrev pub op_of : {s s' : System m t x reg} → Step s s' → Op
  op_of (create tgid p no_threads s fresh empty zero_size) = creates
  op_of (destroy tgid p s listed) = destroys
  op_of (sa_alloc tgid pid addr s) =
      allocates (alloc_find m t x reg tgid s) pid (process_alloc m t x reg tgid pid addr s).0
  op_of (sa_fork tgid pid ptgid ppid s) =
      forks (alloc_find m t x reg tgid s) pid (process_fork m t x reg tgid pid ptgid ppid s).0
  op_of (sa_free tgid addr s) =
      frees (alloc_find m t x reg tgid s) addr (process_free m t x reg tgid addr s).0

  Step-Sound : {s s' : System m t x reg} → Step s s' → Sound m t x reg s → Sound m t x reg s'
  Step-Sound (create tgid p no_threads s fresh empty zero_size) (held, i) =
      (held, create-Inv m t x reg s tgid p no_threads i fresh empty zero_size)
  Step-Sound (destroy tgid p s listed) (held, i) = (held, destroy-Inv m t x reg s tgid p i listed)
  Step-Sound (sa_alloc tgid pid addr s) h = alloc-Sound m t x reg tgid pid addr s h
  Step-Sound (sa_fork tgid pid ptgid ppid s) h = fork-Sound m t x reg tgid pid ptgid ppid s h
  Step-Sound (sa_free tgid addr s) h = free-Sound m t x reg tgid addr s h

  pub Fresh-Sound : (s : System m t x reg) → Fresh s → Sound m t x reg s
  Fresh-Sound s f = (
    [],
    record {
      table = λ g q e. let clash : free ≡ entry q = sym (f.no_entries g) ∙ e in cc;
      counted = λ q d e. let clash : none ≡ some d = sym (f.no_desc q) ∙ e in cc;
      alive = λ q d e. let clash : none ≡ some d = sym (f.no_desc q) ∙ e in cc;
      gl = f.gl;
      owned = λ q d j v e h. let clash : none ≡ some d = sym (f.no_desc q) ∙ e in cc;
    },
  )

  pub Reach-Sound : {s s' : System m t x reg} → Reach s s' → Sound m t x reg s → Sound m t x reg s'
  Reach-Sound stay h = h
  Reach-Sound (next r step) h = Step-Sound step (Reach-Sound r h)

  Step-Spec :
      {s s' : System m t x reg}
      → Sound m t x reg s
      → (step : Step s s') → Spec (op_of step) (thread_map m t x reg s) (thread_map m t x reg s')
  Step-Spec h (create tgid p no_threads s fresh empty zero_size) =
      kept refl (thread_map-alloc_create m t x reg p tgid no_threads s fresh empty)
  Step-Spec (held, i) (destroy tgid p s listed) =
      kept refl (thread_map-alloc_destroy m t x reg p tgid s i listed)
  Step-Spec h (sa_alloc tgid pid addr s) = alloc-Spec m t x reg tgid pid addr s h
  Step-Spec h (sa_fork tgid pid ptgid ppid s) = fork-Spec m t x reg tgid pid ptgid ppid s h
  Step-Spec h (sa_free tgid addr s) = free-Spec m t x reg tgid addr s h

  -- The module refines a map from an allocator and a number to a thread. Without allocators the map is
  -- empty. In every state that the module comes to from there, a call that returns 0 changes one number
  -- of the calling process' allocator: sa_alloc and sa_fork give a free number to the calling thread,
  -- at the number's address and with a stack that has no page of another thread's, and sa_free frees
  -- the number of its address. Every other call leaves the map as it is.
  pub Reach-Spec :
      {s s' s'' : System m t x reg}
      → Fresh s
      → Reach s s'
      → (step : Step s' s'')
      → ((q j : ℕ) → thread_map m t x reg s q j ≡ none)
        × Spec (op_of step) (thread_map m t x reg s') (thread_map m t x reg s'')
  Reach-Spec f r step = (
    λ q j. ap (λ o. threads_of m t x reg o j) (f.no_desc q),
    Step-Spec (Reach-Sound r (Fresh-Sound _ f)) step,
  )

  -- In every state that the module comes to from one without allocators, a descriptor has exactly a
  -- reference for its entry in the table, if it has one there, and one for each of its threads; and it
  -- has a reference.
  pub Reach-references :
      {s s' : System m t x reg} (p : ℕ) (d : Desc m t x reg)
      → Fresh s
      → Reach s s'
      → s'.desc p ≡ some d
      → (d.kref ≡ points (reg.slot s'.sa_allocators d.tgid) p + size d.threads) × (0 < d.kref)
  Reach-references p d f r e =
      let (held, i) = Reach-Sound r (Fresh-Sound _ f) in
      let n = i.counted p d e in (omega (arith, n), i.alive p d e)

  -- In every such state, alloc_find of a process gives nothing, or a descriptor that is still there,
  -- that is the one of the process, and that has a reference.
  pub Reach-alloc_find :
      {s s' : System m t x reg} (tgid p : ℕ)
      → Fresh s
      → Reach s s'
      → alloc_find m t x reg tgid s' ≡ some p
      → (d : Desc m t x reg) × (s'.desc p ≡ some d) × (d.tgid ≡ tgid) × (0 < d.kref)
  unfolding alloc_find
  Reach-alloc_find {s'} tgid p f r e =
      let (held, i) = Reach-Sound r (Fresh-Sound _ f) in
      let (d, at_p, tg) = i.table tgid p (loaded-entry (reg.slot s'.sa_allocators tgid) p e) in
      (d, at_p, tg, i.alive p d at_p)

  -- From a state in order, one without allocators or another that satisfies the invariant, the module
  -- only comes to states in which the stacks of two threads have no page in common, whether the threads
  -- are of one process or of two.
  pub Reach-stacks_apart :
      {s s' : System m t x reg} (p q i j : ℕ) (d e : Desc m t x reg) (v w : ThreadDesc)
      → Sound m t x reg s
      → Reach s s'
      → ◌≢◌ {A = ℕ × ℕ} (p, i) (q, j)
      → s'.desc p ≡ some d
      → s'.desc q ≡ some e
      → slot d.threads i ≡ entry v
      → slot e.threads j ≡ entry w
      → Disjoint v.pagelist w.pagelist
  Reach-stacks_apart {s'} p q i j d e v w sound r differ at_p at_q of_v of_w =
      let (held, n) = Reach-Sound r sound in
      let one_stack = (n.owned p d i v at_p of_v).1 in
      let two_stack = Pick-other differ one_stack.1 (n.owned q e j w at_q of_w).1.1 in
      let apart = Pairs-append_right Disjoint s'.gl.gl_sa _ n.gl.apart in
      let from_one = (Pairs-Pick Disjoint Disjoint-symm (Pick-stacks one_stack.1) apart).0 in
      (All-Pick (Disjoint v.pagelist) (Pick-stacks two_stack.1) from_one).0
