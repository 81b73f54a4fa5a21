-- ===== src/AltRuntime/Fork/Tests.antt =====
-- A fork whose child gets descriptor 5 and asks before the parent reads, and one whose child dies first.
use shadow_stack_llvm.Prelude.{◌≡◌, refl, ◌⊎◌, true, false, none, some, arith}
use shadow_stack_llvm.AltRuntime.Fork.{
  Parent, Child, World, real_fork, parent_closes_write, parent_reads, parent_interrupted,
  parent_fails_to_read, parent_closes_read, child_closes_read, child_opens, child_asks,
  child_writes_byte, Run, called, next,
}
use shadow_stack_llvm.AltRuntime.Fork.Order.{Run-asked}

-- The child has written its byte, and the parent has read it.
abbrev asked_and_read : World
asked_and_read = record {
  piped = true;
  parent = Parent.closing_read;
  child = Child.closing_write;
  bytes = 0;
  parent_writes = false;
  child_writes = true;
  shadow_fd = some 5;
  asked = some (record { fd = 5; p_tgid = 100; p_pid = 101 });
}

asking_run : Run false (some 5) (some 3) 100 101 7 asked_and_read
asking_run =
    next
      (next
        (next
          (next
            (next (next (next (called true) (real_fork refl)) (child_closes_read refl))
              (child_opens refl))
            (child_asks refl))
          (parent_closes_write refl))
        (child_writes_byte refl))
      (parent_reads refl refl (omega arith))

-- The child dies before it opens the device; the parent returns.
abbrev died_and_returned : World
died_and_returned = record {
  piped = true;
  parent = Parent.returned;
  child = Child.dead;
  bytes = 0;
  parent_writes = false;
  child_writes = false;
  shadow_fd = some 3;
  asked = none;
}

-- A signal interrupts the read: the parent returns although its child, alive, has not asked.
abbrev interrupted_and_returned : World
interrupted_and_returned = record {
  piped = true;
  parent = Parent.returned;
  child = Child.closing_read;
  bytes = 0;
  parent_writes = false;
  child_writes = true;
  shadow_fd = some 3;
  asked = none;
}

interrupted_run : Run true (some 5) (some 3) 100 101 4 interrupted_and_returned
interrupted_run =
    next
      (next (next (next (called true) (real_fork refl)) (parent_closes_write refl))
        (parent_interrupted refl refl))
      (parent_closes_read refl)

-- Without a pipe the parent does not wait either.
abbrev unpiped_and_returned : World
unpiped_and_returned = record interrupted_and_returned { piped = false }

unpiped_run : Run false (some 5) (some 3) 100 101 4 unpiped_and_returned
unpiped_run =
    next
      (next (next (next (called false) (real_fork refl)) (parent_closes_write refl))
        (parent_fails_to_read refl refl))
      (parent_closes_read refl)

Run-asked_example :
    (asked_and_read.asked ≡ some (record { fd = 5; p_tgid = 100; p_pid = 101 }))
    ⊎ (asked_and_read.child ≡ Child.dead)
Run-asked_example = Run-asked false 5 (some 3) 100 101 7 asked_and_read asking_run refl refl refl
