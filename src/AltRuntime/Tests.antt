-- ===== src/AltRuntime/Tests.antt =====
-- A thread of a process that has an allocator, and threads that do not come to be.
use shadow_stack_llvm.Prelude.{◌≡◌, refl, ◌⊎◌, true, none, some, [], ◌∷◌, arith}
use shadow_stack_llvm.Lkm.Memory.Sample.{sample_memory, fresh_store}
use shadow_stack_llvm.Lkm.PageTable.Sample.{sample_tables, no_tables}
use shadow_stack_llvm.Lkm.Xarray.Sample.{sample_array}
use shadow_stack_llvm.Lkm.System.{System, alloc_create}
use shadow_stack_llvm.Lkm.System.Calls.{Sound}
use shadow_stack_llvm.Lkm.System.Reach.{create, next, stay, Fresh, Fresh-Sound, Reach-Sound}
use shadow_stack_llvm.AltRuntime.{
  Process, mem_pool_alloc, shadow_stack_init, shadow_stack_thread_init, thread_trampoline,
  pthread_create,
}
use shadow_stack_llvm.AltRuntime.Threads.{Round, end_thread-shadow_stack_thread_init}

abbrev TheSystem : Type 0
TheSystem = System sample_memory sample_tables sample_array sample_array

abbrev TheProcess : Type 0
TheProcess = Process sample_memory sample_tables sample_array sample_array

abbrev no_allocators : TheSystem
no_allocators = record {
  sa_allocators = [];
  desc = λ p. none;
  gl = record { gl_size = 0; gl_sa = [] };
  mem = fresh_store 4096;
  mms = λ tgid. no_tables 8;
}

no_allocators-Fresh : Fresh sample_memory sample_tables sample_array sample_array no_allocators
no_allocators-Fresh = record {
  no_entries = λ tgid. refl;
  no_desc = λ p. refl;
  gl = record { counted = refl; bounded = omega arith; clean = tt; whole = tt; apart = tt };
}

-- Process 2 has an allocator.
abbrev one_allocator : TheSystem
one_allocator =
    (alloc_create sample_memory sample_tables sample_array sample_array (some 3) [] 2
      no_allocators).1

one_allocator-Sound : Sound sample_memory sample_tables sample_array sample_array one_allocator
one_allocator-Sound =
    Reach-Sound sample_memory sample_tables sample_array sample_array
      (next stay (create 2 3 [] no_allocators refl (λ j. refl) refl))
      (Fresh-Sound sample_memory sample_tables sample_array sample_array no_allocators
        no_allocators-Fresh)

-- The process has opened the device.
abbrev started : TheProcess
started = record {
  tgid = 2;
  shadow_fd = some 3;
  device = one_allocator;
  padding = λ a. 0;
  top = λ a. 0;
  main_thread_chunk = 0;
  threads = [];
  wrappers = [];
}

end_thread-shadow_stack_thread_init_example :
    let started_thread =
      shadow_stack_thread_init sample_memory sample_tables sample_array sample_array true 21
        started in
    (started_thread ≡ none)
    ⊎ ((p' : TheProcess) × (started_thread ≡ some p')
        × Round sample_memory sample_tables sample_array sample_array true 21 started p')
end_thread-shadow_stack_thread_init_example =
    end_thread-shadow_stack_thread_init sample_memory sample_tables sample_array sample_array true
      21 started one_allocator-Sound

-- Without the device the process exits.
no_device :
    shadow_stack_init sample_memory sample_tables sample_array sample_array none 20 started ≡ none
unfolding shadow_stack_init
no_device = refl

-- A thread that finds the device closed exits with the process.
closed_device :
    thread_trampoline sample_memory sample_tables sample_array sample_array true 21
      (7, 8)
      []
      (record started { shadow_fd = none })
    ≡ none
unfolding thread_trampoline shadow_stack_thread_init mem_pool_alloc
closed_device = refl

-- pthread_create that succeeds leaves a block, and one that fails none.
one_block :
    (pthread_create sample_memory sample_tables sample_array sample_array true 0 7 8
      started).1.wrappers
    ≡ (7, 8) ∷ []
unfolding pthread_create
one_block = refl

no_block :
    (pthread_create sample_memory sample_tables sample_array sample_array true 11 7 8
      started).1.wrappers
    ≡ []
unfolding pthread_create
no_block = refl
