-- ===== src/Lkm/Symbols/Resolve.antt =====
-- What resolve_symbols of lkm/core/pt_bindings.c has bound when it returns.
use shadow_stack_llvm.Prelude.{
  ℕ, ◌≡◌, ◌≤◌, ◌<◌, refl, ◌⊎◌, inl, inr, true, arith, leb, ◌==◌, Bool-cases,
}
use shadow_stack_llvm.Lkm.Errno.{Ret, success, fail, minus_one}
use shadow_stack_llvm.Lkm.Symbols.{
  Symbol, p4d_alloc, pud_alloc, pmd_alloc, pte_alloc, flush_tlb_mm_range, pte_offset_map_lock,
  pte_offset_map_lock_inner, pagetable_free_kernel, Bindings, kernel_version, bind,
  resolve_free_kernel, resolve_map_lock, resolve_flush, resolve_pte, resolve_pmd, resolve_pud,
  resolve_symbols,
}

module _ (version : ℕ) (lookup : Symbol → ℕ) where
  -- A kernel of that version lets the module use the symbol.
  pub data Needed : Symbol → Type 0 where
    needs_p4d_alloc : Needed p4d_alloc
    needs_pud_alloc : Needed pud_alloc
    needs_pmd_alloc : Needed pmd_alloc
    needs_pte_alloc : Needed pte_alloc
    needs_flush : Needed flush_tlb_mm_range
    needs_map_lock : kernel_version 7 0 0 ≤ version → Needed pte_offset_map_lock
    needs_map_lock_inner :
        kernel_version 6 4 0 ≤ version
        → version < kernel_version 7 0 0
        → Needed pte_offset_map_lock_inner
    needs_free_kernel : kernel_version 6 18 7 ≤ version → Needed pagetable_free_kernel

  -- The pointer that is for the symbol.
  abbrev pub pointer : Symbol → Bindings → ℕ
  pointer p4d_alloc b = b.p4d_alloc_bnd
  pointer pud_alloc b = b.pud_alloc_bnd
  pointer pmd_alloc b = b.pmd_alloc_bnd
  pointer pte_alloc b = b.pte_alloc_bnd
  pointer flush_tlb_mm_range b = b.flush_tlb_mm_range_bnd
  pointer pte_offset_map_lock b = b.pte_offset_map_lock_bnd
  pointer pte_offset_map_lock_inner b = b.pte_offset_map_lock_bnd
  pointer pagetable_free_kernel b = b.pagetable_free_kernel_bnd

  abbrev pub IsBound : Bindings → Type 0
  IsBound b = (s : Symbol) → Needed s → (pointer s b ≡ lookup s) × (0 < lookup s)

  -- What a part of the function comes to.
  abbrev pub Resolved : Ret × Bindings → Type 0
  Resolved r =
      ((r.0 ≡ success) × IsBound r.1)
      ⊎ ((r.0 ≡ fail minus_one) × ((s : Symbol) × Needed s × (lookup s ≡ 0)))

  abbrev Good : Symbol → Bindings → Type 0
  Good s b = (pointer s b ≡ lookup s) × (0 < lookup s)

  record Base (b : Bindings) : Type 0 where
    p4d : Good p4d_alloc b
    pud : Good pud_alloc b
    pmd : Good pmd_alloc b
    pte : Good pte_alloc b
    flush : Good flush_tlb_mm_range b

  record Lock (b : Bindings) : Type 0 where
    new : kernel_version 7 0 0 ≤ version → Good pte_offset_map_lock b
    old :
        kernel_version 6 4 0 ≤ version
        → version < kernel_version 7 0 0
        → Good pte_offset_map_lock_inner b

  all-IsBound :
      (b : Bindings)
      → Base b
      → Lock b
      → (kernel_version 6 18 7 ≤ version → Good pagetable_free_kernel b)
      → IsBound b
  all-IsBound b f l k _ needs_p4d_alloc = f.p4d
  all-IsBound b f l k _ needs_pud_alloc = f.pud
  all-IsBound b f l k _ needs_pmd_alloc = f.pmd
  all-IsBound b f l k _ needs_pte_alloc = f.pte
  all-IsBound b f l k _ needs_flush = f.flush
  all-IsBound b f l k _ (needs_map_lock h) = l.new h
  all-IsBound b f l k _ (needs_map_lock_inner h g) = l.old h g
  all-IsBound b f l k _ (needs_free_kernel h) = k h

  bind-Resolved :
      (s : Symbol) (put : ℕ → Bindings → Bindings) (rest : Bindings → Ret × Bindings) (b : Bindings)
      → Needed s
      → (0 < lookup s → Resolved (rest (put (lookup s) b)))
      → Resolved (bind version lookup s put rest b)
  bind-Resolved s put rest b need k = elim (Bool-cases (lookup s == 0)) [
    | inl missing ↦ rw missing (inr (refl, (s, need, ground (arith, missing))))
    | inr found ↦ rw found (k (ground (arith, found)))
  ]

  free_kernel-Resolved :
      (b : Bindings) → Base b → Lock b → Resolved (resolve_free_kernel version lookup b)
  free_kernel-Resolved b f l = elim (Bool-cases (leb (kernel_version 6 18 7) version)) [
    | inr early ↦ rw early (inl (refl, all-IsBound b f l (λ h. absurd (ground (arith, early)))))
    | inl late ↦ rw late (
        bind-Resolved pagetable_free_kernel (λ a c. record c { pagetable_free_kernel_bnd = a })
          (λ c. (success, c)) b (needs_free_kernel (ground (arith, late)))
          (λ some_address. inl (
            refl,
            all-IsBound (record b { pagetable_free_kernel_bnd = lookup pagetable_free_kernel })
                (record { p4d = f.p4d; pud = f.pud; pmd = f.pmd; pte = f.pte; flush = f.flush })
                (record { new = l.new; old = l.old }) (λ h. (refl, some_address)),
          )))
  ]

  with_lock : Bindings → ℕ → Bindings
  with_lock b a = record b { pte_offset_map_lock_bnd = a }

  with_lock-Base : (b : Bindings) (a : ℕ) → Base b → Base (with_lock b a)
  unfolding with_lock
  with_lock-Base b a f = record {
    p4d = f.p4d;
    pud = f.pud;
    pmd = f.pmd;
    pte = f.pte;
    flush = f.flush;
  }

  map_lock-Resolved : (b : Bindings) → Base b → Resolved (resolve_map_lock version lookup b)
  unfolding with_lock
  map_lock-Resolved b f = elim (Bool-cases (leb (kernel_version 7 0 0) version)) [
    | inl new ↦ rw new (
        bind-Resolved pte_offset_map_lock (λ a c. record c { pte_offset_map_lock_bnd = a })
          (resolve_free_kernel version lookup) b (needs_map_lock (ground (arith, new)))
          (λ some_address.
            free_kernel-Resolved (with_lock b (lookup pte_offset_map_lock))
              (with_lock-Base b (lookup pte_offset_map_lock) f)
              (record {
                new = λ h. (refl, some_address);
                old = λ h g. absurd (ground (arith, new));
              })))
    | inr not_new ↦ elim (Bool-cases (leb (kernel_version 6 4 0) version)) [
      | inl old ↦
          rw (not_new, old)
            (bind-Resolved pte_offset_map_lock_inner
              (λ a c. record c { pte_offset_map_lock_bnd = a }) (resolve_free_kernel version lookup)
              b (needs_map_lock_inner (ground (arith, old)) (ground (arith, not_new)))
              (λ some_address.
                free_kernel-Resolved (with_lock b (lookup pte_offset_map_lock_inner))
                  (with_lock-Base b (lookup pte_offset_map_lock_inner) f)
                  (record {
                    new = λ h. absurd (ground (arith, not_new));
                    old = λ h g. (refl, some_address);
                  })))
      | inr none_needed ↦
          rw (not_new, none_needed)
            (free_kernel-Resolved b f (record {
              new = λ h. absurd (ground (arith, not_new));
              old = λ h g. absurd (ground (arith, none_needed));
            }))
    ]
  ]

  -- Where the probe finds kallsyms_lookup_name, resolve_symbols either returns 0, and every symbol that
  -- it looks up for the version is found and bound; or it returns -1, and one of them is missing.
  pub resolve_symbols_lem : (b : Bindings) → Resolved (resolve_symbols version lookup true b)
  unfolding resolve_symbols
  resolve_symbols_lem b =
      let b1 = record b { p4d_alloc_bnd = lookup p4d_alloc } in
      let b2 = record b1 { pud_alloc_bnd = lookup pud_alloc } in
      let b3 = record b2 { pmd_alloc_bnd = lookup pmd_alloc } in
      let b4 = record b3 { pte_alloc_bnd = lookup pte_alloc } in
      let b5 = record b4 { flush_tlb_mm_range_bnd = lookup flush_tlb_mm_range } in
      bind-Resolved p4d_alloc (λ a c. record c { p4d_alloc_bnd = a }) (resolve_pud version lookup) b
        needs_p4d_alloc
        (λ h1.
          bind-Resolved pud_alloc (λ a c. record c { pud_alloc_bnd = a })
            (resolve_pmd version lookup) b1 needs_pud_alloc
            (λ h2.
              bind-Resolved pmd_alloc (λ a c. record c { pmd_alloc_bnd = a })
                (resolve_pte version lookup) b2 needs_pmd_alloc
                (λ h3.
                  bind-Resolved pte_alloc (λ a c. record c { pte_alloc_bnd = a })
                    (resolve_flush version lookup) b3 needs_pte_alloc
                    (λ h4.
                      bind-Resolved flush_tlb_mm_range
                        (λ a c. record c { flush_tlb_mm_range_bnd = a })
                        (resolve_map_lock version lookup) b4 needs_flush
                        (λ h5. map_lock-Resolved b5 (record {
                          p4d = (refl, h1);
                          pud = (refl, h2);
                          pmd = (refl, h3);
                          pte = (refl, h4);
                          flush = (refl, h5);
                        }))))))
