-- ===== src/Lkm/Symbols.antt =====
-- lkm/core/pt_bindings.c: the kernel's functions that are not exported are looked up by name when the
-- module is loaded. kallsyms_lookup_name is an argument, and so is the version of the kernel.
pub mod Resolve
pub mod Wrappers
pub mod Safe
mod Tests
use shadow_stack_llvm.Prelude.{
  ℕ, ◌+◌, ◌*◌, Bool, true, false, Option, none, some, leb, ◌==◌, if◌then◌else◌,
}
use shadow_stack_llvm.Lkm.Errno.{Ret, success, fail, minus_one}

-- The names that are looked up.
pub data Symbol : Type 0 where
  p4d_alloc pud_alloc pmd_alloc pte_alloc flush_tlb_mm_range : Symbol
  -- pte_offset_map_lock, and with two underscores in front of it.
  pte_offset_map_lock pte_offset_map_lock_inner : Symbol
  pagetable_free_kernel : Symbol

-- The pointers; 0 is NULL.
pub record Bindings : Type 0 where
  pub p4d_alloc_bnd : ℕ
  pub pud_alloc_bnd : ℕ
  pub pmd_alloc_bnd : ℕ
  pub pte_alloc_bnd : ℕ
  pub flush_tlb_mm_range_bnd : ℕ
  pub pte_offset_map_lock_bnd : ℕ
  pub pagetable_free_kernel_bnd : ℕ

-- KERNEL_VERSION.
abbrev pub kernel_version : ℕ → ℕ → ℕ → ℕ
kernel_version a b c = a * 65536 + b * 256 + c

module _ (linux_version_code : ℕ) (ksyms_lookup : Symbol → ℕ) where
  -- One pointer, and what comes after it unless the pointer is NULL.
  abbrev pub bind :
      Symbol → (ℕ → Bindings → Bindings) → (Bindings → Ret × Bindings) → Bindings → Ret × Bindings
  bind name put rest b =
      let address = ksyms_lookup name in
      let later = rest (put address b) in
      if address == 0 then (fail minus_one, put address b) else later

  abbrev pub resolve_free_kernel : Bindings → Ret × Bindings
  resolve_free_kernel b =
      if leb (kernel_version 6 18 7) linux_version_code
      then bind pagetable_free_kernel (λ a c. record c { pagetable_free_kernel_bnd = a })
          (λ c. (success, c)) b
      else (success, b)

  abbrev pub resolve_map_lock : Bindings → Ret × Bindings
  resolve_map_lock b =
      if leb (kernel_version 7 0 0) linux_version_code
      then bind pte_offset_map_lock (λ a c. record c { pte_offset_map_lock_bnd = a })
          resolve_free_kernel b
      else (if leb (kernel_version 6 4 0) linux_version_code
          then bind pte_offset_map_lock_inner (λ a c. record c { pte_offset_map_lock_bnd = a })
              resolve_free_kernel b
          else resolve_free_kernel b)

  -- resolve_symbols from the symbol on that the name tells.
  abbrev pub resolve_flush : Bindings → Ret × Bindings
  resolve_flush =
      bind flush_tlb_mm_range (λ a c. record c { flush_tlb_mm_range_bnd = a }) resolve_map_lock

  abbrev pub resolve_pte : Bindings → Ret × Bindings
  resolve_pte = bind pte_alloc (λ a c. record c { pte_alloc_bnd = a }) resolve_flush

  abbrev pub resolve_pmd : Bindings → Ret × Bindings
  resolve_pmd = bind pmd_alloc (λ a c. record c { pmd_alloc_bnd = a }) resolve_pte

  abbrev pub resolve_pud : Bindings → Ret × Bindings
  resolve_pud = bind pud_alloc (λ a c. record c { pud_alloc_bnd = a }) resolve_pmd

  abbrev pub resolve_p4d : Bindings → Ret × Bindings
  resolve_p4d = bind p4d_alloc (λ a c. record c { p4d_alloc_bnd = a }) resolve_pud

  -- `found` tells whether the probe gives the address of kallsyms_lookup_name.
  unfoldable pub resolve_symbols : (found : Bool) → Bindings → Ret × Bindings
  resolve_symbols found b = if found then resolve_p4d b else (fail minus_one, b)
