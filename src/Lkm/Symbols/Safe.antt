-- ===== src/Lkm/Symbols/Safe.antt =====
-- The wrappers of lkm/core/pt_bindings.h after resolve_symbols of lkm/core/pt_bindings.c.
use shadow_stack_llvm.Prelude.{
  ℕ, Bool, true, false, List, [], leb, ◌≡◌, ◌<◌, refl, sym, ◌∙◌, All, inl, inr, arith, Bool-cases,
}
use shadow_stack_llvm.Lkm.Errno.{success, fail, minus_one}
use shadow_stack_llvm.Lkm.PageTable.{Level, pgd, p4d, pud, pmd}
use shadow_stack_llvm.Lkm.Symbols.{
  Symbol, p4d_alloc, pud_alloc, pmd_alloc, pte_alloc, flush_tlb_mm_range, pte_offset_map_lock,
  pte_offset_map_lock_inner, pagetable_free_kernel, Bindings, kernel_version, resolve_symbols,
}
use shadow_stack_llvm.Lkm.Symbols.Resolve.{
  Needed, needs_p4d_alloc, needs_pud_alloc, needs_pmd_alloc, needs_pte_alloc, needs_flush,
  needs_map_lock, needs_map_lock_inner, needs_free_kernel, pointer, IsBound, resolve_symbols_lem,
}
use shadow_stack_llvm.Lkm.Symbols.Wrappers.{
  Call, Use, uses_alloc, uses_flush, uses_map_lock, uses_alloc_map_lock, uses_free, calls, IsValid,
  destroyed, freed, given, my_pte_alloc, my_pte_alloc_map_lock, my_pte_offset_map_lock, my_free,
}

module _ (version : ℕ) (lookup : Symbol → ℕ) (async_free : Bool) (test_kernel : ℕ → Bool) where
  bound-pos :
      (b : Bindings) (s : Symbol)
      → IsBound version lookup b
      → Needed version lookup s
      → 0 < pointer version lookup s b
  bound-pos b s bound n = let (same, found) = bound s n in omega (arith, same, found)

  abbrev AllValid : List Call → Type 0
  AllValid cs = All (IsValid version async_free test_kernel) cs

  my_pte_alloc-Valid :
      (b : Bindings) (absent : Bool) (addr : ℕ)
      → IsBound version lookup b
      → AllValid (my_pte_alloc version async_free test_kernel b absent addr)
  my_pte_alloc-Valid b true addr bound = (bound-pos b pte_alloc bound needs_pte_alloc, tt)
  my_pte_alloc-Valid b false addr bound = tt

  -- Calls that free nothing.
  record Quiet (cs : List Call) : Type 0 where
    valid : AllValid cs
    once : destroyed cs ≡ []
    given_back : freed cs ≡ []

  my_pte_offset_map_lock-Quiet :
      (b : Bindings) (addr : ℕ)
      → IsBound version lookup b
      → Quiet (my_pte_offset_map_lock version async_free test_kernel b addr)
  my_pte_offset_map_lock-Quiet b addr bound =
      elim (Bool-cases (leb (kernel_version 7 0 0) version)) [
        | inl new ↦
            let pos =
              bound-pos b pte_offset_map_lock bound (needs_map_lock (ground (arith, new))) in
            rw new (record { valid = (pos, tt); once = refl; given_back = refl })
        | inr old ↦ elim (Bool-cases (leb (kernel_version 6 5 0) version)) [
          | inl middle ↦
              let pos =
                bound-pos b pte_offset_map_lock_inner bound
                  (needs_map_lock_inner (ground (arith, middle)) (ground (arith, old))) in
              rw (old, middle) (record { valid = (pos, tt); once = refl; given_back = refl })
          | inr early ↦
              rw (old, early) (record { valid = (tt, tt); once = refl; given_back = refl })
        ]
      ]

  my_pte_alloc_map_lock-Quiet :
      (b : Bindings) (absent got : Bool) (addr : ℕ)
      → IsBound version lookup b
      → Quiet (my_pte_alloc_map_lock version async_free test_kernel b absent got addr)
  my_pte_alloc_map_lock-Quiet b false got addr bound = my_pte_offset_map_lock-Quiet b addr bound
  my_pte_alloc_map_lock-Quiet b true false addr bound = record {
    valid = my_pte_alloc-Valid b true addr bound;
    once = refl;
    given_back = refl;
  }
  my_pte_alloc_map_lock-Quiet b true true addr bound =
      let q = my_pte_offset_map_lock-Quiet b addr bound in
      record {
        valid = (bound-pos b pte_alloc bound needs_pte_alloc, q.valid);
        once = q.once;
        given_back = q.given_back;
      }

  -- What a use comes to.
  record Served (u : Use) (cs : List Call) : Type 0 where
    valid : AllValid cs
    once : destroyed cs ≡ given u
    given_back : freed cs ≡ given u

  my_free-Served :
      (b : Bindings) (l : Level) (page : ℕ)
      → IsBound version lookup b
      → Served (uses_free l page) (my_free version async_free test_kernel b l page)
  my_free-Served b l page bound = elim (Bool-cases (leb (kernel_version 6 18 7) version)) [
    | inr early ↦ rw early (record { valid = (tt, tt); once = refl; given_back = refl })
    | inl late ↦ elim (Bool-cases (test_kernel page)) [
      | inr user ↦
          rw (late, user) (record { valid = (tt, (tt, tt)); once = refl; given_back = refl })
      | inl kernel ↦
          let pos =
            bound-pos b pagetable_free_kernel bound (needs_free_kernel (ground (arith, late))) in
          elim (Bool-cases async_free) [
            | inl async ↦
                rw (late, kernel, async)
                  (record { valid = (tt, (tt, (pos, tt))); once = refl; given_back = refl })
            | inr direct ↦
                rw (late, kernel, direct)
                  (record { valid = (tt, (tt, (tt, tt))); once = refl; given_back = refl })
          ]
    ]
  ]

  calls-Served :
      (b : Bindings) (u : Use)
      → IsBound version lookup b
      → Served u (calls version async_free test_kernel b u)
  unfolding calls
  calls-Served b (uses_alloc pgd true addr) bound = record {
    valid = (bound-pos b p4d_alloc bound needs_p4d_alloc, tt);
    once = refl;
    given_back = refl;
  }
  calls-Served b (uses_alloc p4d true addr) bound = record {
    valid = (bound-pos b pud_alloc bound needs_pud_alloc, tt);
    once = refl;
    given_back = refl;
  }
  calls-Served b (uses_alloc pud true addr) bound = record {
    valid = (bound-pos b pmd_alloc bound needs_pmd_alloc, tt);
    once = refl;
    given_back = refl;
  }
  calls-Served b (uses_alloc pmd true addr) bound = record {
    valid = my_pte_alloc-Valid b true addr bound;
    once = refl;
    given_back = refl;
  }
  calls-Served b (uses_alloc pgd false addr) bound = record {
    valid = tt;
    once = refl;
    given_back = refl;
  }
  calls-Served b (uses_alloc p4d false addr) bound = record {
    valid = tt;
    once = refl;
    given_back = refl;
  }
  calls-Served b (uses_alloc pud false addr) bound = record {
    valid = tt;
    once = refl;
    given_back = refl;
  }
  calls-Served b (uses_alloc pmd false addr) bound = record {
    valid = tt;
    once = refl;
    given_back = refl;
  }
  calls-Served b uses_flush bound = record {
    valid = (bound-pos b flush_tlb_mm_range bound needs_flush, tt);
    once = refl;
    given_back = refl;
  }
  calls-Served b (uses_map_lock addr) bound =
      let q = my_pte_offset_map_lock-Quiet b addr bound in
      record { valid = q.valid; once = q.once; given_back = q.given_back }
  calls-Served b (uses_alloc_map_lock absent got addr) bound =
      let q = my_pte_alloc_map_lock-Quiet b absent got addr bound in
      record { valid = q.valid; once = q.once; given_back = q.given_back }
  calls-Served b (uses_free l page) bound = my_free-Served b l page bound

  -- When resolve_symbols has returned 0, a wrapper only calls pointers that are not NULL, whatever the
  -- version and the configuration of the kernel; and the wrappers that free a table tear it down once
  -- and free it once, and the others none.
  pub resolve_symbols-calls :
      (b : Bindings) (u : Use)
      → (resolve_symbols version lookup true b).0 ≡ success
      → let cs = calls version async_free test_kernel (resolve_symbols version lookup true b).1 u in
        All (IsValid version async_free test_kernel) cs
        × (destroyed cs ≡ given u)
        × (freed cs ≡ given u)
  resolve_symbols-calls b u ok = elim (resolve_symbols_lem version lookup b) [
    | inr (bad, missing) ↦ let clash : success ≡ fail minus_one = sym ok ∙ bad in absurd cc
    | inl (same, bound) ↦
        let s = calls-Served (resolve_symbols version lookup true b).1 u bound in
        (s.valid, s.once, s.given_back)
  ]
