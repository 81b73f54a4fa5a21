-- ===== src/Runtime/Process/Tests.antt =====
-- A process of runtime/main.c with two threads.
use shadow_stack_llvm.Prelude.{◌+◌, ◌≤◌, ◌<◌, refl, true, [], ◌∷◌, arith, All, here}
use shadow_stack_llvm.Runtime.MemPool.{mem_pool_init, mem_pool_alloc, init_chunk}
use shadow_stack_llvm.Runtime.MemPool.Invariant.{Spaced}
use shadow_stack_llvm.Runtime.MemPool.Runs.{fresh_pool}
use shadow_stack_llvm.Runtime.Process.{
  Process, shadow_size, mem_size, get_chunk, shadow_stack_thread_init, shadow_stack_init,
  pthread_create, thread_trampoline,
}
use shadow_stack_llvm.Runtime.Process.Threads.{Life, starts, creates, runs, threads_apart}

abbrev no_process : Process
no_process = record {
  pool = record {
    mem_pool = 0;
    freelist = 0;
    chunk_size = 0;
    freearea_start = 0;
    freearea_end = 0;
    next = λ a. 0;
    top = λ a. 0;
  };
  gs = [];
  wrappers = [];
}

abbrev first : Process
first = record no_process {
  pool = (mem_pool_alloc (fresh_pool 0x1000 shadow_size mem_size no_process.pool)).1;
  gs = 0x1000 ∷ [];
}

-- The first thread starts another one.
abbrev created : Process
created = (pthread_create true 0 7 8 first).1

abbrev second : Process
second = record first {
  pool = (mem_pool_alloc first.pool).1;
  gs = 0x101000 ∷ 0x1000 ∷ [];
  wrappers = [];
}

two_threads : Life 0x1000 no_process 2 second
unfolding shadow_stack_init mem_pool_init shadow_stack_thread_init get_chunk mem_pool_alloc
    pthread_create thread_trampoline init_chunk
two_threads = runs true (7, 8) second (creates true 0 7 8 (starts 0x1000 true first refl)) here refl

threads_apart_example :
    Spaced shadow_size second.gs
    × All (λ a. (0x1000 ≤ a) × (a + shadow_size < 0x1000 + mem_size)) second.gs
threads_apart_example =
    threads_apart 0x1000 no_process refl (omega arith) (omega arith) (omega arith) two_threads
