-- ===== src/Lib.antt =====
-- Shadow stacks for programs compiled with LLVM. A kernel module (lkm/) keeps the shadow stacks of the
-- threads of a process in an area of the address space that the program cannot reach by accident, and
-- hands them out through a character device; a runtime (runtime/) without the module takes them from a
-- memory pool of its own. Two passes of the compiler, in C++, instrument the program: one saves and
-- checks the return addresses, the other keeps the program's stores out of the area. This library
-- models the code of all of them.
--
-- The parts, from the bottom up:
--   Prelude: Boolean tests, options and lists over the native numbers.
--   Runtime/MemPool: runtime/allocator.c. A pool of chunks with a free list through the chunks'
--     headers. Invariant says which chunks the pool knows, Runs what follows for any sequence of calls.
--   Runtime/Maps: setup_memory of runtime/mapping.c, the choice of a range between the mappings.
--   Runtime/Process: runtime/main.c, the threads of a process with a chunk each; it uses MemPool.
--   AltRuntime: alt_runtime/main.c and alt_runtime/lkm.c, the runtime that takes the stacks from the
--     device, which is Lkm/System. Threads is about a thread from its start to its end. Fork is its
--     fork, in which parent and child take their steps in any order; Order is about these orders.
--   Lkm/Errno: the values that the functions of the module return.
--   Lkm/Layout: the constants of lkm/include/api.h and the macros at the head of lkm/core/api.c.
--   Lkm/Memory: the kernel's allocators, an argument of the model: operations with laws.
--   Lkm/Pagelist: sa_pagelist_alloc_pages, sa_pagelist_free_pages and sa_pagelist_free.
--   Lkm/FreeList: gl_alloc_stack, gl_free and vma_free on the list of free stacks. Invariant holds what
--     is true of the list and of the stacks in use; Take, Release and Unload are the operations, and
--     Taken is about a stack between the two, where the error paths of its callers give it back. Race
--     has several callers at once, with the steps of the code between the sections under the lock.
--   Lkm/PageTable: the kernel's page tables, an argument of the model.
--   Lkm/Mapping: map_range with the levels below it, unmap_range, and the helpers of
--     lkm/core/pt_bindings.h. Walk is one level, Levels all of them.
--   Lkm/Xarray: the kernel's xarray, an argument of the model.
--   Lkm/Threads: sa_alloc, sa_fork and sa_free of lkm/core/api.c; the functions named _held are their
--     parts with the allocator at hand. They use FreeList, Mapping and Xarray.
--   Lkm/System: the allocators of all the processes with their references, alloc_find, alloc_get,
--     alloc_put, alloc_create and alloc_destroy of lkm/core/api.c, and sa_alloc, sa_fork and sa_free
--     with the table of the allocators (process_alloc, process_fork, process_free), which use the
--     functions of Lkm/Threads. Invariant says what holds between calls, Refs, Table and Calls that
--     each call keeps it, Reach has the step relation. Spec is what the calls promise, as changes of
--     a map; View has the map of a state, Changes and Refine that the calls keep the promise. Rounds
--     is about one thread between sa_alloc and sa_free.
--   Lkm/PgdRange: __free_pgd_range, the functions below it and alloc_destroy_callback of
--     lkm/core/api.c. Batches is about sa_tlb_add, Same, Cleared and First about the entries.
--   Lkm/Symbols: resolve_symbols of lkm/core/pt_bindings.c. Wrappers has the functions of
--     lkm/core/pt_bindings.h that call what it has found, Safe is about both.
--   Lkm/Debug: pgd_show of lkm/core/debug.c.
--   Lkm/Ioctl: lkm/core/chrdev_ioctl.c with lkm/include/chrdev_ioctl.h. The functions of
--     lkm/core/api.c are an interface here.
--   Lkm/Pivot: sa_pivot of lkm/core/api.c. Moves is about its outcomes and the auxiliary vector.
--   Lkm/Fops: lkm/core/chrdev_fops.c, the walk that unmaps the shadow area. Remove is about the walk.
--   Lkm/Device: chrdev_init and chrdev_cleanup of lkm/core/chrdev.c, debug_init and debug_exit of
--     lkm/core/debug.c, and lkm/main.c.
--   Passes/X86: shadow_stack_x86/X86ShadowStack.cpp, the instructions that the pass builds and where it
--     puts them. Cpu runs them on a processor with a memory that is an argument; Rewrite is about the
--     function that results, Protect about the preamble, Pieces and Check about the instructions before
--     a return, Call about both together.
--   Passes/Masks: shadow_stack/ShadowStack.cpp, with the compiler's analyses as an argument. Address is
--     about the pointers of the stores, Counts about the statistics.
--
-- State is passed explicitly. A C function with an error result yields a Ret, 0 or an error number,
-- beside the state. Addresses are natural numbers below 2^64 with the wrap-around written out. A page
-- is named by its frame number, and its content is a number of which 0 means only zero bytes. A part
-- of the code under a lock is a single step, and calls of the same process follow one another.
--
-- Loops run on fuel. The three loops of sa_pagelist_alloc_pages have max_order + nr_pages rounds each:
-- every round takes a page or lowers the order, and Pagelist.Fuel shows that more rounds change
-- nothing. The walk over the page tables has as many rounds as the range has bytes, and every round
-- moves on; map_range_lem covers the whole range, so they are enough. The same holds of the walk of
-- Lkm/Fops and sa_remove-Cleared.
--
-- The walk of Lkm/PgdRange has its rounds as an argument, which its theorems ask to be as many as there
-- are entries. The fork of AltRuntime counts its steps.
--
-- Not modelled: what debugfs and the character device do with the callbacks that they are given, the
-- registration of the plugin with the compiler, messages, the wrappers that name kernel functions by
-- version, the assembly and the test programs.
pub mod Prelude
pub mod Runtime
pub mod AltRuntime
pub mod Lkm
pub mod Passes
