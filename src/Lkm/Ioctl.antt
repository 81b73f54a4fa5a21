-- ===== src/Lkm/Ioctl.antt =====
-- lkm/core/chrdev_ioctl.c and lkm/include/chrdev_ioctl.h: the requests that user space makes of the
-- device. The numbering macros of the kernel, the copies from and to user space, and what the requests
-- do to the shadow stacks are arguments.
pub mod Command
pub mod Request
mod Tests
use shadow_stack_llvm.Prelude.{
  ℕ, ◌<◌, ◌≡◌, ◌^◌, Bool, true, false, ◌||◌, not, Option, none, some, ltb, ◌==◌, if◌then◌else◌,
}
use shadow_stack_llvm.Lkm.Errno.{Ret, success, fail, efault, einval, enotty, failed}

abbrev pub ioctl_shadow_magic : ℕ
ioctl_shadow_magic = 0xca

abbrev pub ioctl_shadow_req_no : ℕ
ioctl_shadow_req_no = 0x70

abbrev pub ioctl_shadow_free_no : ℕ
ioctl_shadow_free_no = 0x71

abbrev pub ioctl_shadow_fork_no : ℕ
ioctl_shadow_fork_no = 0x72

abbrev pub ioctl_shadow_pivot_no : ℕ
ioctl_shadow_pivot_no = 0x73

abbrev pub ioctl_shadow_max_nr : ℕ
ioctl_shadow_max_nr = 0x74

pub record MemParams : Type 0 where
  pub error : Ret
  pub addr : ℕ

pub record ForkParams : Type 0 where
  pub error : Ret
  pub p_tgid : ℕ
  pub p_pid : ℕ

pub record PivotParams : Type 0 where
  pub error : Ret
  pub new_stack_address : ℕ
  pub rsp : ℕ

-- asm-generic/ioctl.h: _IOC_TYPE, _IOC_NR, _IOC_DIR(cmd) & (_IOC_READ | _IOC_WRITE), and _IOWR.
pub record Numbers : Type 0 where
  pub ioc_type : ℕ → ℕ
  pub ioc_nr : ℕ → ℕ
  pub is_read_or_write : ℕ → Bool
  pub iowr : (type nr size : ℕ) → ℕ
  pub ioc_type-iowr :
      (ty nr size : ℕ) → ty < 2 ^ 8 → nr < 2 ^ 8 → size < 2 ^ 14 → ioc_type (iowr ty nr size) ≡ ty
  pub ioc_nr-iowr :
      (ty nr size : ℕ) → ty < 2 ^ 8 → nr < 2 ^ 8 → size < 2 ^ 14 → ioc_nr (iowr ty nr size) ≡ nr
  pub is_read_or_write-iowr :
      (ty nr size : ℕ)
      → ty < 2 ^ 8
      → nr < 2 ^ 8
      → size < 2 ^ 14
      → is_read_or_write (iowr ty nr size) ≡ true

-- copy_from_user and copy_to_user of one type of parameters. A copy that fails may have written a part.
pub record Copies (U P : Type 0) : Type 0 where
  pub from_user : ℕ → U → Option P
  pub to_user : ℕ → P → U → Bool × U
  pub from_user-to_user :
      (arg : ℕ) (p : P) (u : U)
      → (to_user arg p u).0 ≡ true
      → from_user arg (to_user arg p u).1 ≡ some p

pub record User : Type 1 where
  pub U : Type 0
  pub mem : Copies U MemParams
  pub fork : Copies U ForkParams
  pub pivot : Copies U PivotParams

-- The functions of lkm/core/api.c that the requests call. sa_alloc is given what `addr` holds before,
-- and yields what it holds then.
pub record Api : Type 1 where
  pub State : Type 0
  pub sa_alloc : ℕ → State → Ret × ℕ × State
  pub sa_free : ℕ → State → Ret × State
  pub sa_fork : ℕ → ℕ → State → Ret × State
  pub sa_pivot : ℕ → ℕ → State → Ret × State

module _ (n : Numbers) where
  open n use {ioc_type, ioc_nr, is_read_or_write, iowr}

  -- The sizes are those of the structures with a `long` of 8 bytes.
  abbrev pub ioctl_shadow_req : ℕ
  ioctl_shadow_req = iowr ioctl_shadow_magic ioctl_shadow_req_no 16

  abbrev pub ioctl_shadow_free : ℕ
  ioctl_shadow_free = iowr ioctl_shadow_magic ioctl_shadow_free_no 16

  abbrev pub ioctl_shadow_fork : ℕ
  ioctl_shadow_fork = iowr ioctl_shadow_magic ioctl_shadow_fork_no 16

  abbrev pub ioctl_shadow_pivot : ℕ
  ioctl_shadow_pivot = iowr ioctl_shadow_magic ioctl_shadow_pivot_no 24

  -- The cases of the switch.
  unfoldable pub is_command : ℕ → Bool
  is_command cmd =
      (cmd == ioctl_shadow_req)
      || (cmd == ioctl_shadow_free)
      || (cmd == ioctl_shadow_fork)
      || (cmd == ioctl_shadow_pivot)

  unfoldable pub check_ioctl_cmd : ℕ → Ret
  unfolding is_command
  check_ioctl_cmd cmd =
      if not (ioc_type cmd == ioctl_shadow_magic)
      then fail einval
      else (if ltb ioctl_shadow_max_nr (ioc_nr cmd)
          then fail einval
          else (if not (is_command cmd)
              then fail enotty
              else (if not (is_read_or_write cmd) then fail einval else success)))

  module _ (w : User) (api : Api) where
    open w use {U, mem, fork, pivot}
    open api use {State, sa_alloc, sa_free, sa_fork, sa_pivot}

    -- `if (copy_to_user(...)) return -EFAULT;` and the end of the function.
    abbrev pub reply : {P : Type 0} → Copies U P → ℕ → P → State → U → Ret × State × U
    reply c arg p s u =
        let (copied, u') = c.to_user arg p u in ((if copied then success else fail efault), s, u')

    unfoldable pub request_req : ℕ → ℕ → State → U → Ret × State × U
    request_req arg addr s u = elim (mem.from_user arg u) [
      | none ↦ (fail efault, s, u)
      | some req ↦
          let (error, addr', s') = sa_alloc addr s in
          reply mem arg (record { error = error; addr = addr' }) s' u
    ]

    unfoldable pub request_free : ℕ → State → U → Ret × State × U
    request_free arg s u = elim (mem.from_user arg u) [
      | none ↦ (fail efault, s, u)
      | some req ↦
          let (error, s') = sa_free req.addr s in
          reply mem arg (record { error = error; addr = req.addr }) s' u
    ]

    unfoldable pub request_fork : ℕ → State → U → Ret × State × U
    request_fork arg s u = elim (fork.from_user arg u) [
      | none ↦ (fail efault, s, u)
      | some req ↦
          let (error, s') = sa_fork req.p_tgid req.p_pid s in
          reply fork arg (record { error = error; p_tgid = req.p_tgid; p_pid = req.p_pid }) s' u
    ]

    unfoldable pub request_pivot : ℕ → State → U → Ret × State × U
    request_pivot arg s u = elim (pivot.from_user arg u) [
      | none ↦ (fail efault, s, u)
      | some req ↦
          let (error, s') = sa_pivot req.rsp req.new_stack_address s in
          reply pivot arg
            (record { error = error; new_stack_address = req.new_stack_address; rsp = req.rsp }) s'
            u
    ]

    -- chrdev_ioctl; `addr` is what the variable of that name holds when it comes to be.
    unfoldable pub chrdev_ioctl : (cmd arg addr : ℕ) → State → U → Ret × State × U
    unfolding request_req request_free request_fork request_pivot
    chrdev_ioctl cmd arg addr s u =
        if failed (check_ioctl_cmd cmd)
        then (check_ioctl_cmd cmd, s, u)
        else (if cmd == ioctl_shadow_req
            then request_req arg addr s u
            else (if cmd == ioctl_shadow_free
                then request_free arg s u
                else (if cmd == ioctl_shadow_fork
                    then request_fork arg s u
                    else (if cmd == ioctl_shadow_pivot
                        then request_pivot arg s u
                        else (success, s, u)))))
