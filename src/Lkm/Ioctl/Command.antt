-- ===== src/Lkm/Ioctl/Command.antt =====
-- Which command words lkm/core/chrdev_ioctl.c takes.
use shadow_stack_llvm.Prelude.{
  ℕ, ◌^◌, ◌≤◌, ◌<◌, ◌≡◌, refl, inl, inr, true, false, ◌&&◌, arith, ltb, leb, ◌==◌, if◌then◌else◌,
  Bool-cases,
}
use shadow_stack_llvm.Lkm.Errno.{success, fail, einval, enotty}
use shadow_stack_llvm.Lkm.Ioctl.{
  Numbers, ioctl_shadow_magic, ioctl_shadow_max_nr, is_command, check_ioctl_cmd, ioctl_shadow_req,
  ioctl_shadow_free, ioctl_shadow_fork,
}

module _ (n : Numbers) where
  open n use {
    ioc_type, ioc_nr, is_read_or_write, iowr, ioc_type-iowr, ioc_nr-iowr, is_read_or_write-iowr,
  }

  -- A word that passes every test before and after the switch.
  record Passes (cmd : ℕ) : Type 0 where
    type : (ioc_type cmd == ioctl_shadow_magic) ≡ true
    number : ltb ioctl_shadow_max_nr (ioc_nr cmd) ≡ false
    direction : is_read_or_write cmd ≡ true

  iowr-Passes :
      (nr size : ℕ)
      → nr ≤ ioctl_shadow_max_nr
      → size < 2 ^ 14
      → Passes (iowr ioctl_shadow_magic nr size)
  iowr-Passes nr size h k = record {
    type = rw (ioc_type-iowr ioctl_shadow_magic nr size (omega arith) (omega arith) k) refl;
    number =
        rw (ioc_nr-iowr ioctl_shadow_magic nr size (omega arith) (omega arith) k) (ground arith);
    direction = is_read_or_write-iowr ioctl_shadow_magic nr size (omega arith) (omega arith) k;
  }

  is_command-Passes : (cmd : ℕ) → is_command n cmd ≡ true → Passes cmd
  unfolding is_command
  is_command-Passes cmd e = elim (Bool-cases (cmd == ioctl_shadow_req n)) [
    | inl a ↦ moved cmd _ a (iowr-Passes 0x70 16 (omega arith) (omega arith))
    | inr a ↦ elim (Bool-cases (cmd == ioctl_shadow_free n)) [
      | inl b ↦ moved cmd _ b (iowr-Passes 0x71 16 (omega arith) (omega arith))
      | inr b ↦ elim (Bool-cases (cmd == ioctl_shadow_fork n)) [
        | inl c ↦ moved cmd _ c (iowr-Passes 0x72 16 (omega arith) (omega arith))
        | inr c ↦ moved cmd _ (ground (arith, e)) (iowr-Passes 0x73 24 (omega arith) (omega arith))
      ]
    ]
  ]
    where
      moved : (a b : ℕ) → (a == b) ≡ true → Passes b → Passes a
      moved a b h p = let same : a ≡ b = ground arith in rw same p

  pub check_ioctl_cmd_lem :
      (cmd : ℕ)
      → check_ioctl_cmd n cmd ≡ (
          if is_command n cmd
          then success
          else (if (ioc_type cmd == ioctl_shadow_magic) && leb (ioc_nr cmd) ioctl_shadow_max_nr
              then fail enotty
              else fail einval))
  unfolding check_ioctl_cmd
  check_ioctl_cmd_lem cmd = elim (Bool-cases (is_command n cmd)) [
    | inl hit ↦ let p = is_command-Passes cmd hit in rw (hit, p.type, p.number, p.direction) refl
    | inr miss ↦ rw miss (ground arith)
  ]
