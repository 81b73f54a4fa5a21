-- ===== src/Lkm/Debug/Show.antt =====
-- What the files of lkm/core/debug.c show.
use shadow_stack_llvm.Prelude.{
  ℕ, zero, suc, ◌+◌, ◌-◌, ◌≡◌, ◌≤◌, ◌<◌, ◌↔◌, ◌⊎◌, refl, inl, inr, Bool, true, false, ◌||◌, none,
  some, List, [], ◌∷◌, ◌==◌, if◌then◌else◌, arith, All, All-map, Pairs, Bool-cases, Option-cases,
}
use shadow_stack_llvm.Lkm.Debug.{
  Line, pid_not_found, no_mm_struct, pid, columns, kernel_pgd_start, Processes, Held, is_present,
  rows, print, show_task, pgd_show,
}

abbrev pub listed : ℕ → List (ℕ × ℕ) → Bool
listed i [] = false
listed i ((index, value) ∷ rest) = (i == index) || listed i rest

abbrev pub Before : ℕ × ℕ → ℕ × ℕ → Type 0
Before a b = a.0 < b.0

-- The entries between the indices that are present, in order and each with its value.
pub record Listing (entry : ℕ → ℕ) (lo hi : ℕ) (es : List (ℕ × ℕ)) : Type 0 where
  pub values : All (λ (e : ℕ × ℕ). (lo ≤ e.0) × (e.1 ≡ entry e.0)) es
  pub in_order : Pairs Before es
  pub complete :
      (i : ℕ) → (listed i es ≡ true) ↔ ((lo ≤ i) × (i < hi) × (is_present (entry i) ≡ true))

-- Whether an index is listed, with one more entry at `lo`.
one_more :
    (q c : Bool) (i lo n : ℕ)
    → (q ≡ true) ↔ ((lo + 1 ≤ i) × (i < lo + 1 + n) × (c ≡ true))
    → (i ≡ lo → c ≡ true)
    → (((i == lo) || q) ≡ true) ↔ ((lo ≤ i) × (i < lo + suc n) × (c ≡ true))
one_more q c i lo n h first = elim (Bool-cases (i == lo)) [
  | inl hit ↦
      let same : i ≡ lo = ground (arith, hit) in
      rw hit (λ e. (omega (arith, same), omega (arith, same), first same), λ e. refl)
  | inr miss ↦ rw miss (
    λ e. let r = h.0 e in (omega (arith, r.0), omega (arith, r.1), r.2),
    λ r. h.1 (ground (arith, r.0, miss), omega (arith, r.1), r.2),
  )
]

-- With an entry at `lo` that is not listed.
one_less :
    (q c : Bool) (i lo n : ℕ)
    → (q ≡ true) ↔ ((lo + 1 ≤ i) × (i < lo + 1 + n) × (c ≡ true))
    → (i ≡ lo → c ≡ false)
    → (q ≡ true) ↔ ((lo ≤ i) × (i < lo + suc n) × (c ≡ true))
one_less q c i lo n h first = (
  λ e. let r = h.0 e in (omega (arith, r.0), omega (arith, r.1), r.2),
  λ r. elim (Bool-cases (i == lo)) [
    | inl hit ↦ let no = first (ground (arith, hit)) in let yes = r.2 in cc
    | inr miss ↦ h.1 (ground (arith, r.0, miss), omega (arith, r.1), r.2)
  ],
)

rows-Listing : (entry : ℕ → ℕ) (n lo : ℕ) → Listing entry lo (lo + n) (rows entry n lo)
rows-Listing entry zero lo = record {
  values = tt;
  in_order = tt;
  complete = λ i. (λ e. cc, λ h. absurd (omega (arith, h.0, h.1)));
}
rows-Listing entry (suc n) lo =
    let r = rows-Listing entry n (lo + 1) in
    let later : All (λ (e : ℕ × ℕ). (lo ≤ e.0) × (e.1 ≡ entry e.0)) (rows entry n (lo + 1)) =
      All-map _ (λ e k. (omega (arith, k.0), k.1)) (rows entry n (lo + 1)) r.values in
    let first : All (Before (lo, entry lo)) (rows entry n (lo + 1)) =
      All-map _ (λ e k. omega (arith, k.0)) (rows entry n (lo + 1)) r.values in
    elim (Bool-cases (is_present (entry lo))) [
      | inl shown ↦ rw shown (record {
        values = ((omega arith, refl), later);
        in_order = (first, r.in_order);
        complete = λ i.
            one_more (listed i (rows entry n (lo + 1))) (is_present (entry i)) i lo n (r.complete i)
              (λ e. rw e shown);
      })
      | inr hidden ↦ rw hidden (record {
        values = later;
        in_order = r.in_order;
        complete = λ i.
            one_less (listed i (rows entry n (lo + 1))) (is_present (entry i)) i lo n (r.complete i)
              (λ e. rw e hidden);
      })
    ]

halves :
    (hi : Bool) (entry : ℕ → ℕ)
    → Listing entry
        (if hi then 256 else 0)
        (if hi then 512 else 256)
        (rows entry 256 (if hi then kernel_pgd_start else 0))
halves true entry = rows-Listing entry 256 256
halves false entry = rows-Listing entry 256 0

module _ (k : Processes) where
  open k use {pid_task, task_mm, pgd}

  abbrev pub Shown : Bool → ℕ → List Line → Type 0
  Shown hi target lines =
      ((pid_task target ≡ none) × (lines ≡ pid_not_found target ∷ []))
      ⊎ ((task : ℕ) × (pid_task target ≡ some task)
          × (((task_mm task ≡ none) × (lines ≡ no_mm_struct target ∷ []))
              ⊎ ((mm : ℕ) × (task_mm task ≡ some mm)
                  × ((es : List (ℕ × ℕ)) × (lines ≡ pid target ∷ columns ∷ print es)
                      × Listing (pgd mm) (if hi then 256 else 0) (if hi then 512 else 256) es))))

  back : (n : ℕ) → n + 1 - 1 ≡ n
  back n = omega arith

  -- pgd_show puts back every reference that it takes, on every path; and it prints one error line,
  -- where there is no such process or the process has no mm, or exactly the entries of the half that
  -- are present, in order and each with its value.
  pub pgd_show_lem :
      (hi : Bool) (target : ℕ) (h : Held)
      → ((pgd_show k hi target h).1 ≡ h) × Shown hi target (pgd_show k hi target h).0
  unfolding pgd_show show_task
  pgd_show_lem hi target h = elim (Option-cases (pid_task target)) [
    | inl gone ↦ rw (gone, pgd_show) (λ i. record h { rcu = back h.rcu i }, inl (refl, refl))
    | inr (task, e) ↦ elim (Option-cases (task_mm task)) [
      | inl bare ↦
          rw (e, pgd_show)
            (rw (bare, show_task)
              (
                λ i. record h { rcu = back h.rcu i; tasks = back h.tasks i },
                inr (task, refl, inl (bare, refl)),
              ))
      | inr (mm, m) ↦
          rw (e, pgd_show)
            (rw (m, show_task)
              (
                λ i. record h { rcu = back h.rcu i; tasks = back h.tasks i; mms = back h.mms i },
                inr (
                  task,
                  refl,
                  inr (
                    mm,
                    m,
                    (
                      rows (pgd mm) 256 (if hi then kernel_pgd_start else 0),
                      refl,
                      halves hi (pgd mm),
                    ),
                  ),
                ),
              ))
    ]
  ]
