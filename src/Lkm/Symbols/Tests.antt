-- ===== src/Lkm/Symbols/Tests.antt =====
-- The symbols of a sample kernel.
use shadow_stack_llvm.Prelude.{ℕ, ◌≡◌, refl, true, All, [], ◌∷◌}
use shadow_stack_llvm.Lkm.Errno.{success, fail, minus_one}
use shadow_stack_llvm.Lkm.Symbols.{
  Symbol, pte_offset_map_lock, pte_offset_map_lock_inner, pagetable_free_kernel, Bindings,
  kernel_version, resolve_symbols,
}
use shadow_stack_llvm.Lkm.PageTable.{pud}
use shadow_stack_llvm.Lkm.Symbols.Wrappers.{uses_free, calls, IsValid, destroyed, freed}
use shadow_stack_llvm.Lkm.Symbols.Safe.{resolve_symbols-calls}

abbrev unbound : Bindings
unbound = record {
  p4d_alloc_bnd = 0;
  pud_alloc_bnd = 0;
  pmd_alloc_bnd = 0;
  pte_alloc_bnd = 0;
  flush_tlb_mm_range_bnd = 0;
  pte_offset_map_lock_bnd = 0;
  pagetable_free_kernel_bnd = 0;
}

-- A kernel that still has the lock function with the underscores alone.
abbrev sample_lookup : Symbol → ℕ
sample_lookup pte_offset_map_lock = 0
sample_lookup pagetable_free_kernel = 0
sample_lookup pte_offset_map_lock_inner = 0x2000
sample_lookup _ = 0x1000

both_ways :
    ((resolve_symbols (kernel_version 6 12 0) sample_lookup true unbound).0 ≡ success)
    × ((resolve_symbols (kernel_version 7 0 0) sample_lookup true unbound).0 ≡ fail minus_one)
unfolding resolve_symbols
both_ways = (refl, refl)

abbrev no_inner_lock : Symbol → ℕ
no_inner_lock pte_offset_map_lock_inner = 0
no_inner_lock _ = 0x1000

all_found : (resolve_symbols (kernel_version 6 19 0) (λ s. 0x1000) true unbound).0 ≡ success
unfolding resolve_symbols
all_found = refl

-- A kernel that has every symbol and frees its own tables later: a table of the kernel goes through the
-- pointer.
resolve_symbols-calls_example :
    let b = (resolve_symbols (kernel_version 6 19 0) (λ s. 0x1000) true unbound).1 in
    let cs = calls (kernel_version 6 19 0) true (λ page. true) b (uses_free pud 77) in
    All (IsValid (kernel_version 6 19 0) true (λ page. true)) cs
    × (destroyed cs ≡ 77 ∷ [])
    × (freed cs ≡ 77 ∷ [])
resolve_symbols-calls_example =
    resolve_symbols-calls (kernel_version 6 19 0) (λ s. 0x1000) true (λ page. true) unbound
      (uses_free pud 77) all_found

-- resolve_symbols asks for the symbol with the underscores from version 6.4 on, which the wrapper uses
-- from 6.5 on.
version_gap : (resolve_symbols (kernel_version 6 4 0) no_inner_lock true unbound).0 ≡ fail minus_one
unfolding resolve_symbols
version_gap = refl
