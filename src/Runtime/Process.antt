-- ===== src/Runtime/Process.antt =====
-- runtime/main.c: every thread of the program gets a chunk of the pool when it starts, and its GS points
-- to the chunk. What the system calls and malloc answer are arguments.
pub mod Threads
mod Tests
use shadow_stack_llvm.Prelude.{
  ℕ, ◌*◌, Bool, true, false, Option, none, some, List, [], ◌∷◌, ◌==◌, if◌then◌else◌,
}
use shadow_stack_llvm.Runtime.MemPool.{Pool, null, mem_pool_init, mem_pool_alloc}

abbrev pub shadow_size : ℕ
shadow_size = 1024 * 1024

abbrev pub mem_size : ℕ
mem_size = 1024 * 1024 * 1024

-- The pool, the GS bases of the threads, the newest first, and the PThreadWrapperArgs that no thread
-- has taken yet: a routine and its argument.
pub record Process : Type 0 where
  pub pool : Pool
  pub gs : List ℕ
  pub wrappers : List (ℕ × ℕ)

-- `none` where the process exits. `ok` tells whether arch_prctl returns 0.
unfoldable pub get_chunk : (ok : Bool) → ℕ → Process → Option Process
get_chunk ok chunk p = if ok then some (record p { gs = chunk ∷ p.gs }) else none

unfoldable pub shadow_stack_thread_init : (ok : Bool) → Process → Option Process
unfolding get_chunk mem_pool_alloc
shadow_stack_thread_init ok p =
    let (chunk, pool') = mem_pool_alloc p.pool in
    if chunk == null then none else get_chunk ok chunk (record p { pool = pool' })

-- `lo` is what setup_memory has written, if it returns 0; `mapped` what mmap returns in MemPoolInit.
unfoldable pub shadow_stack_init :
    (lo : Option ℕ) → (mapped : Option ℕ) → (ok : Bool) → Process → Option Process
unfolding mem_pool_init shadow_stack_thread_init
shadow_stack_init none mapped ok p = none
shadow_stack_init (some lo) mapped ok p =
    let (done, pool') = mem_pool_init mapped shadow_size mem_size p.pool in
    if done then shadow_stack_thread_init ok (record p { pool = pool' }) else none

-- The wrapper of pthread_create. `got` tells whether malloc gives a block, and `ret` is what the real
-- function returns; the result is `none` for -1.
unfoldable pub pthread_create :
    (got : Bool) → (ret : ℕ) → (routine arg : ℕ) → Process → Option ℕ × Process
pthread_create got ret routine arg p =
    if got
    then (if ret == 0
        then (some ret, record p { wrappers = (routine, arg) ∷ p.wrappers })
        else (some ret, p))
    else (none, p)

-- The new thread takes its block and goes on with the routine and the argument in it; `rest` are the
-- blocks of the others.
unfoldable pub thread_trampoline :
    (ok : Bool) → ℕ × ℕ → (rest : List (ℕ × ℕ)) → Process → Option ((ℕ × ℕ) × Process)
unfolding shadow_stack_thread_init
thread_trampoline ok w_args rest p = elim (shadow_stack_thread_init ok p) [
  | none ↦ none
  | some p' ↦ some (w_args, record p' { wrappers = rest })
]
