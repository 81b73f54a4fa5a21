-- ===== src/Lkm/Errno.antt =====
-- What the functions of the kernel module return: 0, or a negated error number.
use mathlib.Core.Path.{◌≡◌, refl}
use mathlib.Core.Logic.{◌⊎◌, inl, inr}
use mathlib.Core.Bool.{Bool, true, false}

pub data Errno : Type 0 where
  enoent enomem ebusy efault einval enotty : Errno
  -- The plain -1 that some functions return.
  minus_one : Errno

pub data Ret : Type 0 where
  success : Ret
  fail : Errno → Ret

-- `if (err)` and its negation.
abbrev pub failed : Ret → Bool
failed success = false
failed (fail e) = true

pub Ret-cases : (r : Ret) → (r ≡ success) ⊎ ((e : Errno) × (r ≡ fail e))
Ret-cases success = inl refl
Ret-cases (fail e) = inr (e, refl)
