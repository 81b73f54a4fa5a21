-- ===== src/Lkm/Debug.antt =====
-- lkm/core/debug.c: the files that list the entries of a process' top page table. What the kernel knows
-- of processes is an argument; the references that are taken are counted.
pub mod Show
mod Tests
use shadow_stack_llvm.Prelude.{
  ℕ, zero, suc, ◌+◌, ◌-◌, ◌%◌, Bool, true, false, Option, none, some, List, [], ◌∷◌, ◌==◌,
  if◌then◌else◌,
}

abbrev pub kernel_pgd_start : ℕ
kernel_pgd_start = 256

-- The lines of a file.
pub data Line : Type 0 where
  pid_not_found no_mm_struct pid : ℕ → Line
  columns : Line
  row : (index value : ℕ) → Line

-- find_vpid with pid_task, get_task_mm, and the top page table of an mm.
pub record Processes : Type 0 where
  pub pid_task : ℕ → Option ℕ
  pub task_mm : ℕ → Option ℕ
  pub pgd : ℕ → ℕ → ℕ

-- How often rcu_read_lock is held, and the references to tasks and to address spaces.
pub record Held : Type 0 where
  pub rcu : ℕ
  pub tasks : ℕ
  pub mms : ℕ

abbrev pub is_present : ℕ → Bool
is_present value = value % 2 == 1

-- The loop for `n` entries from the index on.
abbrev pub rows : (ℕ → ℕ) → (n index : ℕ) → List (ℕ × ℕ)
rows entry zero index = []
rows entry (suc n) index =
    let rest = rows entry n (index + 1) in
    if is_present (entry index) then (index, entry index) ∷ rest else rest

abbrev pub print : List (ℕ × ℕ) → List Line
print [] = []
print ((index, value) ∷ rest) = row index value ∷ print rest

module _ (k : Processes) where
  open k use {pid_task, task_mm, pgd}

  abbrev pub rcu_read_lock : Held → Held
  rcu_read_lock h = record h { rcu = h.rcu + 1 }

  abbrev pub rcu_read_unlock : Held → Held
  rcu_read_unlock h = record h { rcu = h.rcu - 1 }

  abbrev pub get_task_struct : Held → Held
  get_task_struct h = record h { tasks = h.tasks + 1 }

  abbrev pub put_task_struct : Held → Held
  put_task_struct h = record h { tasks = h.tasks - 1 }

  -- The reference that get_task_mm takes with an mm.
  abbrev pub get_mm : Held → Held
  get_mm h = record h { mms = h.mms + 1 }

  abbrev pub mmput : Held → Held
  mmput h = record h { mms = h.mms - 1 }

  -- pgd_show from the task on; `hi` is what m->private holds.
  unfoldable pub show_task : (hi : Bool) → (target_pid task : ℕ) → Held → List Line × Held
  show_task hi target_pid task h0 =
      let h1 = rcu_read_unlock (get_task_struct h0) in
      elim (task_mm task) [
        | none ↦ (no_mm_struct target_pid ∷ [], put_task_struct h1)
        | some mm ↦
            let start = if hi then kernel_pgd_start else 0 in
            (
              pid target_pid ∷ columns ∷ print (rows (pgd mm) 256 start),
              mmput (put_task_struct (get_mm h1)),
            )
      ]

  unfoldable pub pgd_show : (hi : Bool) → (target_pid : ℕ) → Held → List Line × Held
  unfolding show_task
  pgd_show hi target_pid h = elim (pid_task target_pid) [
    | none ↦ (pid_not_found target_pid ∷ [], rcu_read_unlock (rcu_read_lock h))
    | some task ↦ show_task hi target_pid task (rcu_read_lock h)
  ]
