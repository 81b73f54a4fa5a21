-- ===== src/Lkm/Threads.antt =====
-- lkm/core/api.c, sa_alloc, sa_fork and sa_free: the stacks of the threads of one process. What they
-- do with the allocator at hand is a function of the parts of the state that it touches.
pub mod Alloc
pub mod Free
pub mod Copy
pub mod Fork
mod Tests
use shadow_stack_llvm.Prelude.{
  ℕ, ◌+◌, ◌-◌, ◌%◌, ◌^◌, Bool, true, false, not, Option, none, some, List, [], ◌∷◌, ltb, ◌==◌,
  if◌then◌else◌,
}
use shadow_stack_llvm.Lkm.Errno.{Ret, success, fail, enoent, enomem, einval, failed}
use shadow_stack_llvm.Lkm.Layout.{ss_size, threads_limit, id_to_addr, addr_to_id, is_bad_addr}
use shadow_stack_llvm.Lkm.Memory.{Memory}
use shadow_stack_llvm.Lkm.PageTable.{PageTables}
use shadow_stack_llvm.Lkm.Xarray.{Xarray}
use shadow_stack_llvm.Lkm.FreeList.{Gl, gl_alloc_stack, gl_free}
use shadow_stack_llvm.Lkm.Mapping.{map_range, unmap_range}

-- struct sa_thread_desc.
pub record ThreadDesc : Type 0 where
  pub tid : ℕ
  pub addr : ℕ
  pub pagelist : List ℕ

abbrev pub max : ℕ → ℕ → ℕ
max old id = if ltb old id then id else old

module _ (m : Memory) (t : PageTables) (x : Xarray ThreadDesc) where
  open m use {State, kmalloc, kfree, copy_highpage}
  open t use {Mm, flush_tlb_mm_range}
  open x use {Array, xa_alloc, xa_insert, xa_store, xa_erase, entries}

  -- The threads and the highest number of the allocator at hand, the global free list, the memory and
  -- the page tables of the calling process.
  pub record Focus : Type 0 where
    pub threads : Array
    pub max_id : ℕ
    pub gl : Gl
    pub mem : State
    pub mm : Mm

  unfoldable pub my_flush_tlb_mm : Mm → Mm
  my_flush_tlb_mm mm = flush_tlb_mm_range 0 (2 ^ 64 - 1) mm

  -- The labels at the end of sa_alloc and sa_fork; each falls through to the next.
  unfoldable pub err_erase : ℕ → Focus → Focus
  err_erase id f = record f { threads = (xa_erase id f.threads).1 }

  unfoldable pub err_thread : Focus → Focus
  err_thread f = record f { mem = kfree f.mem }

  unfoldable pub err_stack : List ℕ → Focus → Focus
  err_stack stack f =
      let (gl', mem') = gl_free m stack f.gl f.mem in record f { gl = gl'; mem = mem' }

  -- map_range for the stack at `addr`, and the flush that follows it.
  unfoldable pub map_stack : ℕ → List ℕ → Focus → Ret × Focus
  unfolding my_flush_tlb_mm
  map_stack addr stack f =
      let (err, mm') = map_range t addr ((addr + ss_size) % 2 ^ 64) stack f.mm in
      (err, record f { mm = my_flush_tlb_mm mm' })

  -- sa_alloc once the stack is there. The number is what `*addr` holds in the end.
  unfoldable pub sa_alloc_map : ℕ → ℕ → List ℕ → Focus → Ret × ℕ × Focus
  unfolding map_stack err_stack err_thread err_erase
  sa_alloc_map pid id stack f =
      let addr = id_to_addr id in
      let (err, f') = map_stack addr stack f in
      if failed err then (err, addr, err_erase id (err_thread (err_stack stack f'))) else (
        err,
        addr,
        record f' {
          max_id = max f'.max_id id;
          threads = xa_store id (record { tid = pid; addr = addr; pagelist = stack }) f'.threads;
        },
      )

  -- sa_alloc once the thread has a number.
  unfoldable pub sa_alloc_stack : ℕ → ℕ → ℕ → Focus → Ret × ℕ × Focus
  unfolding sa_alloc_map
  sa_alloc_stack pid id addr f =
      let (thread, mem1) = kmalloc f.mem in
      let (err, stack, gl2, mem2) = gl_alloc_stack m f.gl mem1 in
      let f2 : Focus = record f { gl = gl2; mem = mem2 } in
      if thread
      then (if failed err
          then (err, addr, err_erase id (err_thread f2))
          else sa_alloc_map pid id stack f2)
      else (fail enomem, addr, err_erase id (record f { mem = mem1 }))

  -- sa_alloc with the reference taken; `addr` is what `*addr` held before.
  unfoldable pub sa_alloc_held : ℕ → ℕ → Focus → Ret × ℕ × Focus
  unfolding sa_alloc_stack
  sa_alloc_held pid addr f =
      let (err, id, threads') = xa_alloc 0 threads_limit f.threads in
      let f' : Focus = record f { threads = threads' } in
      if failed err then (err, addr, f') else sa_alloc_stack pid id addr f'

  -- The page by page copy of one stack to another.
  unfoldable pub copy_pages : List ℕ → List ℕ → State → State
  copy_pages (p ∷ ps) (q ∷ qs) s = copy_pages ps qs (copy_highpage p q s)
  copy_pages [] qs s = s
  copy_pages (p ∷ ps) [] s = s

  -- The parent's thread that has the process number.
  unfoldable pub find_thread : ℕ → List (ℕ × ThreadDesc) → Option (ℕ × ThreadDesc)
  find_thread pid [] = none
  find_thread pid ((i, d) ∷ es) = if d.tid == pid then some (i, d) else find_thread pid es

  -- sa_fork from xa_insert on, with the parent's stack copied.
  unfoldable pub sa_fork_map : ℕ → ℕ → List ℕ → Focus → Ret × Focus
  unfolding map_stack err_stack err_thread err_erase
  sa_fork_map pid id stack f =
      let thread : ThreadDesc = record { tid = pid; addr = id_to_addr id; pagelist = stack } in
      let (err, threads') = xa_insert id thread f.threads in
      let f1 : Focus = record f { threads = threads' } in
      let (err2, f2) = map_stack thread.addr stack f1 in
      if failed err
      then (err, err_thread (err_stack stack f1))
      else (if failed err2
          then (err2, err_thread (err_stack stack (err_erase id f2)))
          else (success, record f2 { max_id = max f2.max_id id }))

  -- sa_fork from the search on.
  unfoldable pub sa_fork_stack : ℕ → ℕ → Array → List ℕ → Focus → Ret × Focus
  unfolding find_thread copy_pages sa_fork_map err_stack err_thread
  sa_fork_stack pid parent_pid parent stack f = elim (find_thread parent_pid (entries parent)) [
    | none ↦ (fail enoent, err_thread (err_stack stack f))
    | some e ↦ sa_fork_map pid e.0 stack (record f { mem = copy_pages stack e.1.pagelist f.mem })
  ]

  -- sa_fork with the reference taken; `parent` are the threads of the parent's allocator.
  unfoldable pub sa_fork_held : ℕ → ℕ → Array → Focus → Ret × Focus
  unfolding sa_fork_stack err_thread
  sa_fork_held pid parent_pid parent f =
      let (thread, mem1) = kmalloc f.mem in
      let (err, stack, gl2, mem2) = gl_alloc_stack m f.gl mem1 in
      let f2 : Focus = record f { gl = gl2; mem = mem2 } in
      if thread
      then (if failed err
          then (err, err_thread f2)
          else sa_fork_stack pid parent_pid parent stack f2)
      else (fail enomem, record f { mem = mem1 })

  -- sa_free behind its guards: the erased thread's pages go back. unmap_range flushes the TLB.
  unfoldable pub sa_free_held : ℕ → Focus → Ret × Focus
  unfolding unmap_range
  sa_free_held addr f =
      let (thread, threads') = xa_erase (addr_to_id addr) f.threads in
      elim thread [
        | none ↦ (fail einval, record f { threads = threads' })
        | some d ↦
            let mm' = unmap_range t addr ((addr + ss_size) % 2 ^ 64) f.mm in
            let (gl', mem') = gl_free m d.pagelist f.gl f.mem in
            (success, record f { threads = threads'; gl = gl'; mem = kfree mem'; mm = mm' })
      ]

  -- The three functions from their start. `has_mm` tells whether current->mm is there, `reference`
  -- whether alloc_get gives the allocator of the process, and `known` whether alloc_find does. What
  -- alloc_put does to the allocator is not modelled.
  unfoldable pub sa_alloc : (has_mm reference : Bool) → ℕ → ℕ → Focus → Ret × ℕ × Focus
  unfolding sa_alloc_held
  sa_alloc has_mm reference pid addr f =
      if not has_mm
      then (fail einval, addr, f)
      else (if not reference then (fail enomem, addr, f) else sa_alloc_held pid addr f)

  -- `parent` are the threads of the parent's allocator, if it is found.
  unfoldable pub sa_fork : (has_mm reference : Bool) → ℕ → ℕ → Option Array → Focus → Ret × Focus
  unfolding sa_fork_held
  sa_fork has_mm reference pid parent_pid parent f =
      if not has_mm
      then (fail einval, f)
      else (if not reference
          then (fail enomem, f)
          else elim parent [ none ↦ (fail enoent, f) | some p ↦ sa_fork_held pid parent_pid p f ])

  unfoldable pub sa_free : (has_mm known : Bool) → ℕ → Focus → Ret × Focus
  unfolding sa_free_held
  sa_free has_mm known addr f =
      if not has_mm
      then (fail einval, f)
      else (if is_bad_addr addr
          then (fail einval, f)
          else (if not known then (fail einval, f) else sa_free_held addr f))
