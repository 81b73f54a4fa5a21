-- ===== src/Lkm/Device.antt =====
-- lkm/core/chrdev.c and lkm/main.c: what the module registers when it is loaded and takes back when it
-- is unloaded, or when a step of the loading fails. The kernel's answers are an argument.
pub mod Setup
mod Tests
use shadow_stack_llvm.Prelude.{◌≡◌, Bool, true, false, if◌then◌else◌}
use shadow_stack_llvm.Lkm.Errno.{Ret, success, fail, einval, minus_one, failed}
use shadow_stack_llvm.Lkm.Memory.{Memory}
use shadow_stack_llvm.Lkm.FreeList.{Gl, vma_free}

-- The directory of lkm/core/debug.c in debugfs, and the files in it.
pub record Debugfs : Type 0 where
  pub dir : Bool
  pub target_pid : Bool
  pub pgd_hi : Bool
  pub pgd_lo : Bool

abbrev pub no_files : Debugfs
no_files = record { dir = false; target_pid = false; pgd_hi = false; pgd_lo = false }

-- What is registered: the device numbers, the character device, the class, the device node, and the
-- files of lkm/core/debug.c.
pub record Registered : Type 0 where
  pub region : Bool
  pub cdev : Bool
  pub class : Bool
  pub node : Bool
  pub debug : Debugfs

-- What alloc_chrdev_region, cdev_add, class_create and device_create_with_groups return; the last two
-- through PTR_ERR. Which of its four requests debugfs grants. boot_cpu_has(X86_FEATURE_PTI), and whether resolve_symbols finds every symbol.
pub record Answers : Type 0 where
  pub alloc_chrdev_region : Ret
  pub cdev_add : Ret
  pub class_create : Ret
  pub device_create : Ret
  pub debugfs : Debugfs
  pub has_pti : Bool
  pub resolve_symbols : Bool

module _ (k : Answers) where
  open k use {
    alloc_chrdev_region, cdev_add, class_create, device_create, debugfs, has_pti, resolve_symbols,
  }

  -- The labels at the end of chrdev_init, each of which falls through to the next.
  abbrev pub out : Registered → Registered
  out r = record r { region = false }

  abbrev pub out2 : Registered → Registered
  out2 r = out (record r { cdev = false })

  abbrev pub out3 : Registered → Registered
  out3 r = out2 (record r { class = false })

  unfoldable pub chrdev_init : Registered → Ret × Registered
  chrdev_init r =
      if failed alloc_chrdev_region
      then (alloc_chrdev_region, r)
      else (let r1 : Registered = record r { region = true } in
          if failed cdev_add
          then (cdev_add, out r1)
          else (let r2 : Registered = record r1 { cdev = true } in
              if failed class_create
              then (class_create, out2 r2)
              else (let r3 : Registered = record r2 { class = true } in
                  if failed device_create
                  then (device_create, out3 r3)
                  else (success, record r3 { node = true }))))

  unfoldable pub chrdev_cleanup : Registered → Registered
  chrdev_cleanup r = record r { node = false; class = false; cdev = false; region = false }

  -- debugfs creates no file where the directory is an error. The results are not looked at.
  unfoldable pub debug_init : Registered → Registered
  debug_init r = record r { debug = if debugfs.dir then debugfs else no_files }

  -- debugfs_remove_recursive does nothing where the directory is an error.
  unfoldable pub debug_exit : Registered → Registered
  debug_exit r = record r { debug = if r.debug.dir then no_files else r.debug }

  unfoldable pub runtime_init : Registered → Ret × Registered
  unfolding chrdev_init debug_init debug_exit
  runtime_init r =
      let (err, r') = chrdev_init (debug_init r) in
      if has_pti
      then (fail einval, r)
      else (if resolve_symbols
          then (err, (if failed err then debug_exit r' else r'))
          else (fail minus_one, r))

  unfoldable pub runtime_exit : (m : Memory) → Registered → Gl → m.State → Registered × Gl × m.State
  unfolding chrdev_cleanup debug_exit
  runtime_exit m r gl s =
      let (gl', s') = vma_free m gl s in (chrdev_cleanup (debug_exit r), gl', s')
