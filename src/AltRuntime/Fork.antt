-- ===== src/AltRuntime/Fork.antt =====
-- fork of alt_runtime/main.c: the parent waits on a pipe until the child has asked the device for a copy
-- of the parent's shadow stack. Parent and child are two processes that take their steps in any order.
pub mod Invariant
pub mod Order
pub mod Tests
use shadow_stack_llvm.Prelude.{
  ℕ, zero, suc, ◌+◌, ◌-◌, ◌≤◌, ◌<◌, ◌≡◌, ◌≢◌, refl, ◌⊎◌, inl, inr, Bool, true, false, Option, none,
  some, arith, if◌then◌else◌,
}

-- The next thing that the parent does. That it is killed is not modelled, since nobody waits for it.
pub data Parent : Type 0 where
  forking closing_write reading closing_read : Parent
  -- real_fork has failed, and both ends are to be closed.
  giving_up : Parent
  -- It has returned the number of the child, or -1.
  returned failed : Parent

-- The next thing that the child does.
pub data Child : Type 0 where
  unborn closing_read opening asking writing closing_write : Child
  returned : Child
  -- It has been killed, at whatever point.
  dead : Child

-- What the child asks of the device: through which descriptor, and the numbers of the parent.
pub record Request : Type 0 where
  pub fd : ℕ
  pub p_tgid : ℕ
  pub p_pid : ℕ

-- The request that the ioctl through a descriptor makes. Without one, where open has failed, the device
-- is not asked: the ioctl fails, and nobody looks at that.
abbrev pub request : Option ℕ → (p_tgid p_pid : ℕ) → Option Request
request none p_tgid p_pid = none
request (some fd) p_tgid p_pid = some (record { fd = fd; p_tgid = p_tgid; p_pid = p_pid })

-- Whether pipe has succeeded, which nobody looks at. The pipe has `bytes` in it; the parent, and the
-- child, have not closed the write end yet. Without a pipe the calls on the two descriptors, which were
-- never set, are taken to fail.
pub record World : Type 0 where
  pub piped : Bool
  pub parent : Parent
  pub child : Child
  pub bytes : ℕ
  pub parent_writes : Bool
  pub child_writes : Bool
  pub shadow_fd : Option ℕ
  pub asked : Option Request

-- The parent after pipe, getpid and gettid, with the descriptor that it has.
abbrev pub before : (piped : Bool) → Option ℕ → World
before piped fd = record {
  piped = piped;
  parent = Parent.forking;
  child = Child.unborn;
  bytes = 0;
  parent_writes = true;
  child_writes = false;
  shadow_fd = fd;
  asked = none;
}

-- What is alive can be killed.
pub data Alive : Child → Type 0 where
  alive_closing_read : Alive Child.closing_read
  alive_opening : Alive Child.opening
  alive_asking : Alive Child.asking
  alive_writing : Alive Child.writing
  alive_closing_write : Alive Child.closing_write

-- One step of one of them. `signals` tells whether a signal can interrupt the read; `opened` is what
-- open gives the child; the numbers are the parent's. shadow_fd is the child's once there is one.
pub data Step (signals : Bool) (opened : Option ℕ) (p_tgid p_pid : ℕ) (w : World)
    : World → Type 0 where
  real_fork :
      w.parent ≡ Parent.forking
      → Step signals opened p_tgid p_pid w (record w {
        parent = Parent.closing_write;
        child = Child.closing_read;
        child_writes = true;
      })
  no_fork :
      w.parent ≡ Parent.forking
      → Step signals opened p_tgid p_pid w (record w { parent = Parent.giving_up })
  give_up :
      w.parent ≡ Parent.giving_up
      → Step signals opened p_tgid p_pid w
          (record w { parent = Parent.failed; parent_writes = false })
  parent_closes_write :
      w.parent ≡ Parent.closing_write
      → Step signals opened p_tgid p_pid w
          (record w { parent = Parent.reading; parent_writes = false })
  parent_reads :
      w.parent ≡ Parent.reading
      → w.piped ≡ true
      → 0 < w.bytes
      → Step signals opened p_tgid p_pid w
          (record w { parent = Parent.closing_read; bytes = w.bytes - 1 })
  -- read returns 0 when nobody can write any more.
  parent_reads_end :
      w.parent ≡ Parent.reading
      → w.piped ≡ true
      → w.bytes ≡ 0
      → w.parent_writes ≡ false
      → w.child_writes ≡ false
      → Step signals opened p_tgid p_pid w (record w { parent = Parent.closing_read })
  -- read fails with EINTR, which nobody looks at.
  parent_interrupted :
      w.parent ≡ Parent.reading
      → signals ≡ true
      → Step signals opened p_tgid p_pid w (record w { parent = Parent.closing_read })
  -- read fails with EBADF, which nobody looks at either.
  parent_fails_to_read :
      w.parent ≡ Parent.reading
      → w.piped ≡ false
      → Step signals opened p_tgid p_pid w (record w { parent = Parent.closing_read })
  parent_closes_read :
      w.parent ≡ Parent.closing_read
      → Step signals opened p_tgid p_pid w (record w { parent = Parent.returned })
  child_closes_read :
      w.child ≡ Child.closing_read
      → Step signals opened p_tgid p_pid w (record w { child = Child.opening })
  child_opens :
      w.child ≡ Child.opening
      → Step signals opened p_tgid p_pid w (record w { child = Child.asking; shadow_fd = opened })
  child_asks :
      w.child ≡ Child.asking
      → Step signals opened p_tgid p_pid w
          (record w { child = Child.writing; asked = request w.shadow_fd p_tgid p_pid })
  child_writes_byte :
      w.child ≡ Child.writing
      → Step signals opened p_tgid p_pid w (record w {
        child = Child.closing_write;
        bytes = if w.piped then w.bytes + 1 else w.bytes;
      })
  child_closes_write :
      w.child ≡ Child.closing_write
      → Step signals opened p_tgid p_pid w
          (record w { child = Child.returned; child_writes = false })
  child_dies :
      Alive w.child
      → Step signals opened p_tgid p_pid w (record w { child = Child.dead; child_writes = false })

-- So many steps from the call on.
pub data Run (signals : Bool) (opened fd : Option ℕ) (p_tgid p_pid : ℕ) : ℕ → World → Type 0 where
  called : (piped : Bool) → Run signals opened fd p_tgid p_pid 0 (before piped fd)
  next :
      {n : ℕ} {w w' : World}
      → Run signals opened fd p_tgid p_pid n w
      → Step signals opened p_tgid p_pid w w'
      → Run signals opened fd p_tgid p_pid (suc n) w'
