-- ===== src/Runtime/Process/Threads.antt =====
-- The shadow stacks of the threads of runtime/main.c.
use shadow_stack_llvm.Prelude.{
  ℕ, suc, ◌+◌, ◌*◌, ◌^◌, ◌≤◌, ◌<◌, ◌≡◌, ◌≢◌, refl, sym, ap, subst, inl, inr, Bool, Option, none,
  some, List, [], ◌∷◌, arith, ◌==◌, Bool-cases, Option-cases, All, Pick,
}
use shadow_stack_llvm.Runtime.MemPool.{Pool, null, mem_pool_alloc, mem_pool_init}
use shadow_stack_llvm.Runtime.MemPool.Invariant.{Spaced, grown}
use shadow_stack_llvm.Runtime.MemPool.Runs.{Run, start, allocs, fresh_pool, live_chunks_disjoint}
use shadow_stack_llvm.Runtime.Process.{
  Process, shadow_size, mem_size, get_chunk, shadow_stack_thread_init, shadow_stack_init,
  pthread_create, thread_trampoline,
}

-- A process that has started, and what it does with its threads: the number counts the threads.
pub data Life (adr : ℕ) (p : Process) : ℕ → Process → Type 0 where
  starts :
      (lo : ℕ) (ok : Bool) (q : Process)
      → shadow_stack_init (some lo) (some adr) ok p ≡ some q
      → Life adr p 1 q
  creates :
      {n : ℕ} {q : Process} (got : Bool) (ret routine arg : ℕ)
      → Life adr p n q
      → Life adr p n (pthread_create got ret routine arg q).1
  runs :
      {n : ℕ} {q : Process} {rest : List (ℕ × ℕ)} (ok : Bool) (w_args : ℕ × ℕ) (r : Process)
      → Life adr p n q
      → Pick w_args q.wrappers rest
      → thread_trampoline ok w_args rest q ≡ some (w_args, r)
      → Life adr p (suc n) r

thread_init-Run :
    (p0 : Pool) (n : ℕ) (ok : Bool) (q r : Process)
    → Run p0 n q.pool q.gs
    → shadow_stack_thread_init ok q ≡ some r
    → Run p0 (suc n) r.pool r.gs
unfolding shadow_stack_thread_init get_chunk
thread_init-Run p0 n ok q r run e = elim (Bool-cases ((mem_pool_alloc q.pool).0 == null)) [
  | inl full ↦
      let clash : ◌≡◌ {A = Option Process} none (some r) =
        rw (full, shadow_stack_thread_init) at e in
      cc
  | inr got ↦ elim (Bool-cases ok) [
    | inr bad ↦
        let clash : ◌≡◌ {A = Option Process} none (some r) =
          rw (got, bad, shadow_stack_thread_init) at e in
        cc
    | inl good ↦
        let made : Process = record q {
          pool = (mem_pool_alloc q.pool).1;
          gs = (mem_pool_alloc q.pool).0 ∷ q.gs;
        } in
        let e1 : some made ≡ some r = rw (got, good, shadow_stack_thread_init) at e in
        let eq : made ≡ r = cc in
        let listed : grown (mem_pool_alloc q.pool).0 q.gs ≡ (mem_pool_alloc q.pool).0 ∷ q.gs =
          rw got refl in
        subst (λ (y : Process). Run p0 (suc n) y.pool y.gs) eq
          (subst (λ l. Run p0 (suc n) (mem_pool_alloc q.pool).1 l) listed (allocs run))
  ]
]

abbrev process_of : Process → Option ((ℕ × ℕ) × Process) → Process
process_of p none = p
process_of p (some (w_args, q)) = q

pthread_create-same :
    (got : Bool) (ret routine arg : ℕ) (q : Process)
    → let q' = (pthread_create got ret routine arg q).1 in (q'.pool ≡ q.pool) × (q'.gs ≡ q.gs)
unfolding pthread_create
pthread_create-same got ret routine arg q = elim (Bool-cases got) [
  | inr no_block ↦ rw (no_block, pthread_create) (refl, refl)
  | inl block ↦ elim (Bool-cases (ret == 0)) [
    | inl done ↦ rw (block, done, pthread_create) (refl, refl)
    | inr bad ↦ rw (block, bad, pthread_create) (refl, refl)
  ]
]

module _ (adr : ℕ) (p : Process) (none_yet : p.gs ≡ []) where
  Life-Run :
      {n : ℕ} {q : Process}
      → Life adr p n q
      → Run (fresh_pool adr shadow_size mem_size p.pool) n q.pool q.gs
  unfolding shadow_stack_init mem_pool_init thread_trampoline
  Life-Run (starts lo ok q e) =
      let fresh = fresh_pool adr shadow_size mem_size p.pool in
      thread_init-Run fresh 0 ok (record p { pool = fresh }) q
        (subst (λ l. Run fresh 0 fresh l) (sym none_yet) start) e
  Life-Run (creates {q} got ret routine arg life) =
      let same = pthread_create-same got ret routine arg q in rw (same.0, same.1) (Life-Run life)
  Life-Run (runs {n} {q} {rest} ok w_args r life k e) =
      elim (Option-cases (shadow_stack_thread_init ok q)) [
        | inl full ↦
            let clash : ◌≡◌ {A = Option ((ℕ × ℕ) × Process)} none (some (w_args, r)) =
              rw (full, thread_trampoline) at e in
            cc
        | inr (p', i) ↦
            let left : Process = record p' { wrappers = rest } in
            let eq : left ≡ r = ap (process_of left) (rw (i, thread_trampoline) at e) in
            subst
              (λ (y : Process).
                Run (fresh_pool adr shadow_size mem_size p.pool) (suc n) y.pool y.gs)
              eq
              (thread_init-Run (fresh_pool adr shadow_size mem_size p.pool) n ok q p'
                (Life-Run life) i)
      ]

  -- The shadow stacks of all the threads that a process has started, at most `n` of them with the first
  -- one, lie inside the pool's memory and share no byte, where mmap has given `adr` and there is room
  -- for so many chunks below 2^64.
  pub threads_apart :
      {n : ℕ} {q : Process}
      → adr ≢ null
      → adr + mem_size < 2 ^ 64
      → adr + n * shadow_size < 2 ^ 64
      → Life adr p n q
      → Spaced shadow_size q.gs × All (λ a. (adr ≤ a) × (a + shadow_size < adr + mem_size)) q.gs
  threads_apart real small room life =
      live_chunks_disjoint adr shadow_size mem_size p.pool real (omega arith) small (Life-Run life)
        room
