-- ===== src/Lkm/Symbols/Wrappers.antt =====
-- lkm/core/pt_bindings.h: the wrappers that call the kernel's functions through the pointers of
-- lkm/core/pt_bindings.c, or directly where the kernel's version lets the module. A wrapper is modelled
-- by the calls that it makes, in order.
use shadow_stack_llvm.Prelude.{ℕ, Bool, List, [], ◌∷◌, ◌++◌, leb, if◌then◌else◌, ◌<◌}
use shadow_stack_llvm.Lkm.PageTable.{Level, pgd, p4d, pud, pmd}
use shadow_stack_llvm.Lkm.Symbols.{
  Symbol, p4d_alloc, pud_alloc, pmd_alloc, pte_alloc, flush_tlb_mm_range, pte_offset_map_lock,
  pte_offset_map_lock_inner, pagetable_free_kernel, Bindings, kernel_version,
}

-- A call: through a pointer, with the address or the page it is for; or of a function that the kernel
-- exports.
pub data Call : Type 0 where
  through : (name : Symbol) → (pointer : ℕ) → (target : ℕ) → Call
  -- pte_offset_map_lock.
  locks : (addr : ℕ) → Call
  pagetable_dtor : (page : ℕ) → Call
  ptdesc_clear_kernel : (page : ℕ) → Call
  -- __pagetable_free.
  pagetable_free : (page : ℕ) → Call
  -- pagetable_dtor_free, and pmd_free, pud_free and p4d_free.
  dtor_free : (page : ℕ) → Call

-- A use of a wrapper. `absent` tells whether the entry is none; `got` whether the table was allocated.
pub data Use : Type 0 where
  uses_alloc : (l : Level) → (absent : Bool) → (addr : ℕ) → Use
  uses_flush : Use
  uses_map_lock : (addr : ℕ) → Use
  uses_alloc_map_lock : (absent got : Bool) → (addr : ℕ) → Use
  -- my_p4d_free for a table below an entry of level pgd, down to my_pte_free.
  uses_free : (l : Level) → (page : ℕ) → Use

module _ (linux_version_code : ℕ) (async_free : Bool) (ptdesc_test_kernel : ℕ → Bool) where
  module _ (b : Bindings) where
    abbrev pub my_pte_alloc : (absent : Bool) → (addr : ℕ) → List Call
    my_pte_alloc absent addr = if absent then through pte_alloc b.pte_alloc_bnd addr ∷ [] else []

    abbrev pub my_alloc : Level → (absent : Bool) → (addr : ℕ) → List Call
    my_alloc pgd absent addr = if absent then through p4d_alloc b.p4d_alloc_bnd addr ∷ [] else []
    my_alloc p4d absent addr = if absent then through pud_alloc b.pud_alloc_bnd addr ∷ [] else []
    my_alloc pud absent addr = if absent then through pmd_alloc b.pmd_alloc_bnd addr ∷ [] else []
    my_alloc pmd absent addr = my_pte_alloc absent addr

    abbrev pub my_flush : List Call
    my_flush = through flush_tlb_mm_range b.flush_tlb_mm_range_bnd 0 ∷ []

    abbrev pub my_pte_offset_map_lock : (addr : ℕ) → List Call
    my_pte_offset_map_lock addr =
        if leb (kernel_version 7 0 0) linux_version_code
        then through pte_offset_map_lock b.pte_offset_map_lock_bnd addr ∷ []
        else (if leb (kernel_version 6 5 0) linux_version_code
            then through pte_offset_map_lock_inner b.pte_offset_map_lock_bnd addr ∷ []
            else locks addr ∷ [])

    abbrev pub my_pte_alloc_map_lock : (absent got : Bool) → (addr : ℕ) → List Call
    my_pte_alloc_map_lock absent got addr =
        if absent
        then (if got
            then my_pte_alloc absent addr ++ my_pte_offset_map_lock addr
            else my_pte_alloc absent addr)
        else my_pte_offset_map_lock addr

    -- `async_free` is CONFIG_ASYNC_KERNEL_PGTABLE_FREE.
    abbrev pub my_pagetable_free_kernel : (page : ℕ) → List Call
    my_pagetable_free_kernel page =
        if async_free
        then through pagetable_free_kernel b.pagetable_free_kernel_bnd page ∷ []
        else pagetable_free page ∷ []

    abbrev pub my_pagetable_free : (page : ℕ) → List Call
    my_pagetable_free page =
        if ptdesc_test_kernel page
        then ptdesc_clear_kernel page ∷ my_pagetable_free_kernel page
        else pagetable_free page ∷ []

    abbrev pub my_pagetable_dtor_free : (page : ℕ) → List Call
    my_pagetable_dtor_free page = pagetable_dtor page ∷ my_pagetable_free page

    -- my_p4d_free, my_pud_free, my_pmd_free and my_pte_free.
    abbrev pub my_free : Level → (page : ℕ) → List Call
    my_free l page =
        if leb (kernel_version 6 18 7) linux_version_code
        then my_pagetable_dtor_free page
        else dtor_free page ∷ []

    unfoldable pub calls : Use → List Call
    calls (uses_alloc l absent addr) = my_alloc l absent addr
    calls uses_flush = my_flush
    calls (uses_map_lock addr) = my_pte_offset_map_lock addr
    calls (uses_alloc_map_lock absent got addr) = my_pte_alloc_map_lock absent got addr
    calls (uses_free l page) = my_free l page

  -- A pointer that is called is not NULL.
  abbrev pub IsValid : Call → Type 0
  IsValid (through name p target) = 0 < p
  IsValid _ = Unit

-- The tables whose descriptors are torn down, and those that are freed.
abbrev pub destroyed : List Call → List ℕ
destroyed [] = []
destroyed (pagetable_dtor page ∷ cs) = page ∷ destroyed cs
destroyed (dtor_free page ∷ cs) = page ∷ destroyed cs
destroyed (_ ∷ cs) = destroyed cs

abbrev pub freed : List Call → List ℕ
freed [] = []
freed (pagetable_free page ∷ cs) = page ∷ freed cs
freed (dtor_free page ∷ cs) = page ∷ freed cs
freed (through pagetable_free_kernel p page ∷ cs) = page ∷ freed cs
freed (_ ∷ cs) = freed cs

-- The table that is to be freed.
abbrev pub given : Use → List ℕ
given (uses_free l page) = page ∷ []
given _ = []
