-- ===== src/Runtime/Maps/Tests.antt =====
-- The choice of a range from two lines.
use shadow_stack_llvm.Prelude.{
  ◌≡◌, refl, true, false, some, none, List, [], ◌∷◌, arith, here, there,
}
use shadow_stack_llvm.Runtime.Maps.{
  Line, Libc, setup_memory, scan, insert_gap, insert_ma, all_gaps, first_fit, target, reserve_all,
}
use shadow_stack_llvm.Runtime.Maps.Gaps.{IfSome, Good, setup_memory-Apart}

abbrev libc : Libc
libc = record { malloc_area = λ n. true; mmap_fixed = λ lo size. true }

abbrev program : Line
program = record { lo = 0x7f0000000000; dash = true; hi = 0x7f0000010000; blank = true }

abbrev stack : Line
stack = record { lo = 0x7ffffff00000; dash = true; hi = 0x7fffffff0000; blank = true }

abbrev maps : List Line
maps = program ∷ stack ∷ []

setup_memory-Apart_example : IfSome (Good libc stack 4096) (setup_memory libc false 4096 maps).1
setup_memory-Apart_example =
    setup_memory-Apart libc false 4096 maps stack ((omega arith, tt), (tt, tt)) (there here)
      (omega arith) refl

-- The range above the last line has room, and its end is taken.
below_the_ceiling :
    setup_memory libc false 4096 maps
    ≡ (true, some (record { lo = 0x7fffffffeff0; hi = 0x7ffffffffff0 }))
unfolding setup_memory scan insert_gap insert_ma all_gaps first_fit target reserve_all
below_the_ceiling = refl

-- A line that cannot be read leaves `found` as it was, and the bounds unwritten.
unreadable : setup_memory libc true 4096 (record program { dash = false } ∷ []) ≡ (true, none)
unfolding setup_memory scan insert_gap insert_ma all_gaps first_fit target reserve_all
unreadable = refl
