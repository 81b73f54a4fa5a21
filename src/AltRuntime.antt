-- ===== src/AltRuntime.antt =====
-- alt_runtime/main.c and alt_runtime/lkm.c: the preloaded library that takes the shadow stacks of the
-- threads from the device, which is the module as Lkm.System has it. The system calls, malloc and the
-- keys of the threads are arguments. shadow_fd is one variable of the process, as alt_runtime/lkm.c
-- declares it. The parameters of an ioctl are on the caller's stack and taken to be copied.

pub mod Fork
pub mod Threads
mod Tests
use shadow_stack_llvm.Prelude.{
  ℕ, ◌+◌, ◌%◌, ◌^◌, ◌≡◌, Bool, Option, none, some, List, ◌∷◌, ◌==◌, if◌then◌else◌, update,
}
use shadow_stack_llvm.Lkm.Errno.{failed}
use shadow_stack_llvm.Lkm.Memory.{Memory}
use shadow_stack_llvm.Lkm.PageTable.{PageTables}
use shadow_stack_llvm.Lkm.Xarray.{Xarray}
use shadow_stack_llvm.Lkm.Threads.{ThreadDesc}
use shadow_stack_llvm.Lkm.System.{System, process_alloc, process_free}

-- The offset of `data` behind `padding` and `top`.
abbrev pub data_offset : ℕ
data_offset = 16

module _ (m : Memory) (t : PageTables) (x : Xarray ThreadDesc) (reg : Xarray ℕ) where
  -- The number of the process; the descriptor, `none` for -1; the module; the headers of the chunks;
  -- the chunk of the first thread, and of each thread that pthread_create has started and that has not
  -- ended, which is its GS base, with whether it is the thread's value of ss_cleanup_key too; and the
  -- blocks that no thread has taken yet.
  pub record Process : Type 0 where
    pub tgid : ℕ
    pub shadow_fd : Option ℕ
    pub device : System m t x reg
    pub padding : ℕ → ℕ
    pub top : ℕ → ℕ
    pub main_thread_chunk : ℕ
    pub threads : List (ℕ × Bool)
    pub wrappers : List (ℕ × ℕ)

  -- By the thread `pid`. The address, or `none` for NULL.
  unfoldable pub mem_pool_alloc : (pid : ℕ) → Process → Option ℕ × Process
  unfolding process_alloc
  mem_pool_alloc pid p = elim p.shadow_fd [
    | none ↦ (none, p)
    | some fd ↦
        let (error, chunk, d) = process_alloc m t x reg p.tgid pid 0 p.device in
        if failed error then (none, record p { device = d }) else (
          some chunk,
          record p {
            device = d;
            padding = update p.padding chunk 0;
            top = update p.top chunk ((chunk + data_offset) % 2 ^ 64);
          },
        )
  ]

  -- The destructor of ss_cleanup_key. Whether the device frees the chunk is not looked at.
  unfoldable pub ss_dtor : ℕ → Process → Process
  unfolding process_free
  ss_dtor chunk p = elim p.shadow_fd [
    | none ↦ p
    | some fd ↦
        if chunk == 0
        then p
        else record p { device = (process_free m t x reg p.tgid chunk p.device).1 }
  ]

  -- `opened` is what open gives; `none` as the result where the process exits.
  unfoldable pub shadow_stack_init : (opened : Option ℕ) → (pid : ℕ) → Process → Option Process
  unfolding mem_pool_alloc
  shadow_stack_init none pid p = none
  shadow_stack_init (some fd) pid p =
      let (chunk, p') = mem_pool_alloc pid (record p { shadow_fd = some fd }) in
      elim chunk [ none ↦ none | some c ↦ some (record p' { main_thread_chunk = c }) ]

  -- `is_set` tells whether pthread_key_create and pthread_setspecific have succeeded, which nobody
  -- looks at.
  unfoldable pub shadow_stack_thread_init : (is_set : Bool) → (pid : ℕ) → Process → Option Process
  unfolding mem_pool_alloc
  shadow_stack_thread_init is_set pid p =
      let (chunk, p') = mem_pool_alloc pid p in
      elim chunk [ none ↦ none | some c ↦ some (record p' { threads = (c, is_set) ∷ p'.threads }) ]

  -- A thread ends, and `rest` are the others: pthreads call the destructor with the value of the key,
  -- if the thread has one.
  unfoldable pub end_thread : ℕ × Bool → (rest : List (ℕ × Bool)) → Process → Process
  unfolding ss_dtor
  end_thread (chunk, is_set) rest p =
      let q : Process = record p { threads = rest } in if is_set then ss_dtor chunk q else q

  -- The new thread goes on with the routine and the argument of its block; `rest` are the others.
  unfoldable pub thread_trampoline :
      (is_set : Bool)
      → (pid : ℕ) → (w_args : ℕ × ℕ) → (rest : List (ℕ × ℕ)) → Process
      → Option ((ℕ × ℕ) × Process)
  unfolding shadow_stack_thread_init
  thread_trampoline is_set pid w_args rest p = elim (shadow_stack_thread_init is_set pid p) [
    | none ↦ none
    | some p' ↦ some (w_args, record p' { wrappers = rest })
  ]

  -- `got` tells whether malloc gives a block, `ret` is what the real function returns; -1 is `none`.
  unfoldable pub pthread_create :
      (got : Bool) → (ret : ℕ) → (routine arg : ℕ) → Process → Option ℕ × Process
  pthread_create got ret routine arg p =
      if got
      then (if ret == 0
          then (some ret, record p { wrappers = (routine, arg) ∷ p.wrappers })
          else (some ret, p))
      else (none, p)
