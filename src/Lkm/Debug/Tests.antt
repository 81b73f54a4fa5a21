-- ===== src/Lkm/Debug/Tests.antt =====
-- The files of lkm/core/debug.c for a sample process.
use shadow_stack_llvm.Prelude.{◌≡◌, refl, true, false, none, some, [], ◌∷◌, ◌==◌, if◌then◌else◌}
use shadow_stack_llvm.Lkm.Debug.{
  pid_not_found, pid, columns, row, Processes, Held, show_task, pgd_show,
}
use shadow_stack_llvm.Lkm.Debug.Show.{Shown, pgd_show_lem}

-- Process 1 has entries at 3 and 300, and one at 4 that is not present.
abbrev sample_processes : Processes
sample_processes = record {
  pid_task = λ p. if p == 1 then some 10 else none;
  task_mm = λ task. some 20;
  pgd = λ mm i.
      if i == 3 then 0x1003 else (if i == 4 then 0x1002 else (if i == 300 then 0x2001 else 0));
}

abbrev nothing_held : Held
nothing_held = record { rcu = 0; tasks = 0; mms = 0 }

pgd_show_lem_example :
    ((pgd_show sample_processes true 1 nothing_held).1 ≡ nothing_held)
    × Shown sample_processes true 1 (pgd_show sample_processes true 1 nothing_held).0
pgd_show_lem_example = pgd_show_lem sample_processes true 1 nothing_held

shown :
    ((pgd_show sample_processes false 1 nothing_held).0 ≡ pid 1 ∷ columns ∷ row 3 0x1003 ∷ [])
    × ((pgd_show sample_processes true 1 nothing_held).0 ≡ pid 1 ∷ columns ∷ row 300 0x2001 ∷ [])
    × ((pgd_show sample_processes true 2 nothing_held).0 ≡ pid_not_found 2 ∷ [])
unfolding pgd_show show_task
shown = (refl, refl, refl)
