-- ===== src/Lkm/Device/Tests.antt =====
-- Loading with a kernel that refuses nothing.
use shadow_stack_llvm.Prelude.{◌≡◌, refl, true, false, []}
use shadow_stack_llvm.Lkm.Errno.{success, fail, enomem}
use shadow_stack_llvm.Lkm.FreeList.{Gl}
use shadow_stack_llvm.Lkm.Device.{Answers, runtime_init, chrdev_init, debug_init}
use shadow_stack_llvm.Lkm.Device.Setup.{nothing}

abbrev willing : Answers
willing = record {
  alloc_chrdev_region = success;
  cdev_add = success;
  class_create = success;
  device_create = success;
  debugfs = record { dir = true; target_pid = true; pgd_hi = true; pgd_lo = false };
  has_pti = false;
  resolve_symbols = true;
}

abbrev no_stacks : Gl
no_stacks = record { gl_size = 0; gl_sa = [] }

loaded_once : (runtime_init willing nothing).0 ≡ success
unfolding runtime_init chrdev_init debug_init
loaded_once = refl

abbrev refusing : Answers
refusing = record willing { device_create = fail enomem }
