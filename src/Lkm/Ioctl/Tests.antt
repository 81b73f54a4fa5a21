-- ===== src/Lkm/Ioctl/Tests.antt =====
-- The device's requests with the kernel's usual numbering and a user space that holds one structure of
-- each type.
use shadow_stack_llvm.Prelude.{
  ℕ, ◌+◌, ◌*◌, ◌/◌, ◌%◌, ◌^◌, ◌≡◌, refl, ◌⊎◌, true, false, not, Option, none, some, arith, ◌==◌,
}
use shadow_stack_llvm.Lkm.Errno.{success, fail, einval, failed}
use shadow_stack_llvm.Lkm.Ioctl.{
  MemParams, ForkParams, PivotParams, Numbers, Copies, User, Api, is_command, check_ioctl_cmd,
  ioctl_shadow_req, ioctl_shadow_free, ioctl_shadow_fork, ioctl_shadow_pivot, chrdev_ioctl,
}
use shadow_stack_llvm.Lkm.Ioctl.Request.{
  Answered, call_req, call_free, call_fork, call_pivot, chrdev_ioctl_lem,
}

abbrev numbers : Numbers
numbers = record {
  ioc_type = λ cmd. cmd / 2 ^ 8 % 2 ^ 8;
  ioc_nr = λ cmd. cmd % 2 ^ 8;
  is_read_or_write = λ cmd. not (cmd / 2 ^ 30 == 0);
  iowr = λ ty nr size. 3 * 2 ^ 30 + size * 2 ^ 16 + ty * 2 ^ 8 + nr;
  ioc_type-iowr = λ ty nr size h k l. omega arith;
  ioc_nr-iowr = λ ty nr size h k l. omega arith;
  is_read_or_write-iowr = λ ty nr size h k l. ground arith;
}

abbrev cell : (P : Type 0) → Copies (Option P) P
cell P = record {
  from_user = λ arg u. u;
  to_user = λ arg p u. (true, some p);
  from_user-to_user = λ arg p u e. refl;
}

abbrev Memories : Type 0
Memories = Option MemParams

abbrev no_copies : (P : Type 0) → Copies Memories P
no_copies P = record {
  from_user = λ arg u. none;
  to_user = λ arg p u. (false, u);
  from_user-to_user = λ arg p u e. cc;
}

abbrev user : User
user = record {
  U = Memories;
  mem = cell MemParams;
  fork = no_copies ForkParams;
  pivot = no_copies PivotParams;
}

-- An allocator that counts the stacks it gave.
abbrev counter : Api
counter = record {
  State = ℕ;
  sa_alloc = λ addr s. (success, s + 100, s + 1);
  sa_free = λ addr s. (success, s);
  sa_fork = λ tgid pid s. (fail einval, s);
  sa_pivot = λ rsp new s. (fail einval, s);
}

abbrev blank : MemParams
blank = record { error = success; addr = 0 }

chrdev_ioctl_lem_example :
    let cmd = ioctl_shadow_req numbers in
    let r = chrdev_ioctl numbers user counter cmd 64 0 4 (some blank) in
    ((is_command numbers cmd ≡ false)
      × (failed r.0 ≡ true)
      × (r ≡ (check_ioctl_cmd numbers cmd, 4, some blank)))
    ⊎ ((cmd ≡ ioctl_shadow_req numbers)
        × Answered numbers user counter user.mem
            (call_req numbers user counter 0)
            64
            4
            (some blank)
            r)
    ⊎ ((cmd ≡ ioctl_shadow_free numbers)
        × Answered numbers user counter user.mem
            (call_free numbers user counter)
            64
            4
            (some blank)
            r)
    ⊎ ((cmd ≡ ioctl_shadow_fork numbers)
        × Answered numbers user counter user.fork
            (call_fork numbers user counter)
            64
            4
            (some blank)
            r)
    ⊎ ((cmd ≡ ioctl_shadow_pivot numbers)
        × Answered numbers user counter user.pivot
            (call_pivot numbers user counter)
            64
            4
            (some blank)
            r)
chrdev_ioctl_lem_example =
    chrdev_ioctl_lem numbers user counter (ioctl_shadow_req numbers) 64 0 4 (some blank)
