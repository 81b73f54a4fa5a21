-- ===== src/Lkm/Layout/Tests.antt =====
-- The layout at concrete numbers.
use shadow_stack_llvm.Prelude.{ℕ, ◌+◌, ◌≤◌, ◌≡◌, ◌⊎◌, arith}
use shadow_stack_llvm.Lkm.Layout.{
  ss_start, ss_end, ss_size, addr_to_id, id_to_addr, id_to_addr-layout,
}

abbrev first_thread : ℕ
first_thread = 3

abbrev second_thread : ℕ
second_thread = 7

id_to_addr-layout_example :
    (ss_start ≤ id_to_addr first_thread)
    × (id_to_addr first_thread + ss_size ≤ ss_end)
    × (addr_to_id (id_to_addr first_thread) ≡ first_thread)
    × ((first_thread ≡ second_thread)
        ⊎ (id_to_addr first_thread + ss_size ≤ id_to_addr second_thread)
        ⊎ (id_to_addr second_thread + ss_size ≤ id_to_addr first_thread))
id_to_addr-layout_example = id_to_addr-layout first_thread second_thread (omega arith) (omega arith)
