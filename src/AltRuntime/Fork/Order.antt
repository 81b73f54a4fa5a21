-- ===== src/AltRuntime/Fork/Order.antt =====
-- What fork of alt_runtime/main.c guarantees in every order of the steps.
use shadow_stack_llvm.Prelude.{ℕ, ◌+◌, ◌≡◌, refl, ◌⊎◌, Bool, true, false, Option, some}
use shadow_stack_llvm.AltRuntime.Fork.{Parent, Child, World, Step, Run}
use shadow_stack_llvm.AltRuntime.Fork.Invariant.{has_read, is_unborn, Run-Inv}

-- When the parent goes on behind its read, whatever the order of the steps, the child has asked the
-- device for a copy, through the descriptor that its open gave and with the parent's numbers, or the
-- child is dead. This is so where pipe has succeeded, no signal can interrupt the read, and open gives
-- the child a descriptor.
pub Run-asked :
    (signals : Bool) (opened : ℕ) (fd : Option ℕ) (p_tgid p_pid n : ℕ) (w : World)
    → Run signals (some opened) fd p_tgid p_pid n w
    → w.piped ≡ true
    → signals ≡ false
    → has_read w.parent ≡ true
    → (w.asked ≡ some (record { fd = opened; p_tgid = p_tgid; p_pid = p_pid }))
      ⊎ (w.child ≡ Child.dead)
Run-asked signals opened fd p_tgid p_pid n w run piped quiet read =
    let h = Run-Inv signals (some opened) p_tgid p_pid fd n w run in h.waited piped quiet read

-- Parent and child have nothing left to do.
pub data Over (w : World) : Type 0 where
  over_failed : w.parent ≡ Parent.failed → is_unborn w.child ≡ true → Over w
  over_returned :
      w.parent ≡ Parent.returned → (w.child ≡ Child.returned) ⊎ (w.child ≡ Child.dead) → Over w

-- How many steps are left at most.
abbrev parent_left : Parent → ℕ
parent_left Parent.forking = 9
parent_left Parent.closing_write = 3
parent_left Parent.reading = 2
parent_left Parent.closing_read = 1
parent_left Parent.giving_up = 1
parent_left Parent.returned = 0
parent_left Parent.failed = 0

abbrev child_left : Child → ℕ
child_left Child.closing_read = 5
child_left Child.opening = 4
child_left Child.asking = 3
child_left Child.writing = 2
child_left Child.closing_write = 1
child_left _ = 0

abbrev left : World → ℕ
left w = parent_left w.parent + child_left w.child

Unborn-left : (c : Child) → is_unborn c ≡ true → child_left c ≡ 0
Unborn-left Child.unborn u = refl
Unborn-left Child.closing_read u = cc
Unborn-left Child.opening u = cc
Unborn-left Child.asking u = cc
Unborn-left Child.writing u = cc
Unborn-left Child.closing_write u = cc
Unborn-left Child.returned u = refl
Unborn-left Child.dead u = refl

module _ (signals : Bool) (opened : Option ℕ) (p_tgid p_pid : ℕ) where
  abbrev CanStep : World → Type 0
  CanStep w = (w' : World) × Step signals opened p_tgid p_pid w w'
