-- ===== src/Lkm/Device/Setup.antt =====
-- Loading the module of lkm/main.c.
use shadow_stack_llvm.Prelude.{if◌then◌else◌, ◌≡◌, inl, inr, true, false}
use shadow_stack_llvm.Lkm.Errno.{Ret, success, failed, Ret-cases}
use shadow_stack_llvm.Lkm.Device.{Registered, Answers, no_files}

abbrev pub nothing : Registered
nothing = record { region = false; cdev = false; class = false; node = false; debug = no_files }

-- All that the module asks for, of debugfs what the kernel grants.
abbrev pub loaded : Answers → Registered
loaded k = record {
  region = true;
  cdev = true;
  class = true;
  node = true;
  debug = if k.debugfs.dir then k.debugfs else no_files;
}

not_failed : (r : Ret) → failed r ≡ false → r ≡ success
not_failed r e = elim (Ret-cases r) [ inl ok ↦ ok | inr (c, bad) ↦ cc ]
