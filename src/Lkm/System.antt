-- ===== src/Lkm/System.antt =====
-- lkm/core/api.c, sa_allocators and the descriptors in it: an allocator for each process, with a reference
-- from the table and one for every thread that has a stack. sa_alloc, sa_fork and sa_free of all the
-- processes, one call after the other, are here functions of the state of the whole module.
pub mod Keys
pub mod Invariant
pub mod Refs
pub mod Table
pub mod Calls
pub mod View
pub mod Spec
pub mod Changes
pub mod Refine
pub mod Rounds
pub mod Reach
mod Tests
use shadow_stack_llvm.Prelude.{
  ℕ, ◌+◌, ◌-◌, ◌≡◌, Bool, true, false, Option, none, some, List, ◌==◌, if◌then◌else◌, update,
}
use shadow_stack_llvm.Lkm.Errno.{Ret, success, fail, enoent, enomem, einval, failed}
use shadow_stack_llvm.Lkm.Layout.{is_bad_addr}
use shadow_stack_llvm.Lkm.Memory.{Memory}
use shadow_stack_llvm.Lkm.PageTable.{PageTables}
use shadow_stack_llvm.Lkm.Xarray.{Xarray, loaded}
use shadow_stack_llvm.Lkm.FreeList.{Gl}
use shadow_stack_llvm.Lkm.Threads.{ThreadDesc, Focus, sa_alloc_held, sa_fork_held, sa_free_held}

module _ (m : Memory) (t : PageTables) (x : Xarray ThreadDesc) (reg : Xarray ℕ) where
  open m use {State}
  open t use {Mm}
  open x use {Array}
  open reg use {slot, xa_insert, xa_erase}

  -- struct sa_allocator_desc, without its lock. The page tables of its process are in the System.
  pub record Desc : Type 0 where
    pub tgid : ℕ
    pub threads : Array
    pub max_id : ℕ
    pub kref : ℕ

  -- The table of the allocators, the descriptors at their addresses, the global free list, the memory,
  -- and the page tables of every process.
  pub record System : Type 0 where
    pub sa_allocators : reg.Array
    pub desc : ℕ → Option Desc
    pub gl : Gl
    pub mem : State
    pub mms : ℕ → Mm

  abbrev pub put_desc : ℕ → Desc → System → System
  put_desc p d s = record s { desc = update s.desc p (some d) }

  -- xa_load.
  unfoldable pub alloc_find : ℕ → System → Option ℕ
  alloc_find tgid s = loaded (slot s.sa_allocators tgid)

  -- kref_get_unless_zero.
  unfoldable pub alloc_get : ℕ → System → Option (ℕ × Desc) × System
  unfolding alloc_find
  alloc_get tgid s = elim (alloc_find tgid s) [
    | none ↦ (none, s)
    | some p ↦ elim (s.desc p) [
      | none ↦ (none, s)
      | some d ↦
          let d' : Desc = record d { kref = d.kref + 1 } in
          if d.kref == 0 then (none, s) else (some (p, d'), put_desc p d' s)
    ]
  ]

  -- kref_put. When the last reference goes, alloc_destroy_callback frees the descriptor; its walk over
  -- the page tables is in Lkm.PgdRange.
  unfoldable pub alloc_put : ℕ → System → System
  alloc_put p s = elim (s.desc p) [
    | none ↦ s
    | some d ↦
        if d.kref == 1
        then record s { desc = update s.desc p none }
        else put_desc p (record d { kref = d.kref - 1 }) s
  ]

  -- alloc_create; `got` is what kmalloc returns, and `no_threads` the array that xa_init_flags sets up.
  unfoldable pub alloc_create : Option ℕ → Array → ℕ → System → Option ℕ × System
  alloc_create none no_threads tgid s = (none, s)
  alloc_create (some p) no_threads tgid s =
      let (err, table) = xa_insert tgid p s.sa_allocators in
      let d : Desc = record { tgid = tgid; threads = no_threads; max_id = 0; kref = 1 } in
      if failed err
      then (none, record s { sa_allocators = table })
      else (some p, put_desc p d (record s { sa_allocators = table }))

  unfoldable pub alloc_destroy : Option ℕ → System → System
  unfolding alloc_put
  alloc_destroy none s = s
  alloc_destroy (some p) s = elim (s.desc p) [
    | none ↦ s
    | some d ↦ alloc_put p (record s { sa_allocators = (xa_erase d.tgid s.sa_allocators).1 })
  ]

  -- A call in process `tgid` works on the threads of the descriptor, and on the process' page tables.
  abbrev pub focus : ℕ → Desc → System → Focus m t x
  focus tgid d s = record {
    threads = d.threads;
    max_id = d.max_id;
    gl = s.gl;
    mem = s.mem;
    mm = s.mms tgid;
  }

  abbrev pub unfocus : ℕ → ℕ → Desc → Focus m t x → System → System
  unfocus tgid p d f s = record s {
    desc = update s.desc p (some (record d { threads = f.threads; max_id = f.max_id }));
    gl = f.gl;
    mem = f.mem;
    mms = update s.mms tgid f.mm;
  }

  -- sa_alloc in a process that has an mm: the reference stays with the thread, or is dropped.
  unfoldable pub process_alloc : (tgid pid addr : ℕ) → System → Ret × ℕ × System
  unfolding alloc_get alloc_put
  process_alloc tgid pid addr s =
      let (got, s1) = alloc_get tgid s in
      elim got [
        | none ↦ (fail enomem, addr, s1)
        | some (p, d) ↦
            let (err, addr', f) = sa_alloc_held m t x pid addr (focus tgid d s1) in
            let s2 = unfocus tgid p d f s1 in
            (err, addr', (if failed err then alloc_put p s2 else s2))
      ]

  -- sa_fork in a process that has an mm.
  unfoldable pub process_fork : (tgid pid parent_tgid parent_pid : ℕ) → System → Ret × System
  unfolding alloc_get alloc_find alloc_put
  process_fork tgid pid parent_tgid parent_pid s =
      let (got, s1) = alloc_get tgid s in
      elim got [
        | none ↦ (fail enomem, s1)
        | some (p, d) ↦ elim (alloc_find parent_tgid s1) [
          | none ↦ (fail enoent, alloc_put p s1)
          | some q ↦ elim (s1.desc q) [
            | none ↦ (fail enoent, alloc_put p s1)
            | some parent ↦
                let (err, f) = sa_fork_held m t x pid parent_pid parent.threads (focus tgid d s1) in
                let s2 = unfocus tgid p d f s1 in (err, (if failed err then alloc_put p s2 else s2))
          ]
        ]
      ]

  -- sa_free in a process that has an mm: the thread's reference is dropped.
  unfoldable pub process_free : (tgid addr : ℕ) → System → Ret × System
  unfolding alloc_find alloc_put
  process_free tgid addr s =
      if is_bad_addr addr then (fail einval, s) else elim (alloc_find tgid s) [
        | none ↦ (fail einval, s)
        | some p ↦ elim (s.desc p) [
          | none ↦ (fail einval, s)
          | some d ↦
              let (err, f) = sa_free_held m t x addr (focus tgid d s) in
              let s2 = unfocus tgid p d f s in (err, (if failed err then s2 else alloc_put p s2))
        ]
      ]
