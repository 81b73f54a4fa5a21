-- ===== src/Runtime/Maps/Gaps.antt =====
-- The range that runtime/mapping.c chooses.
use shadow_stack_llvm.Prelude.{
  ℕ, ◌+◌, ◌-◌, ◌%◌, ◌≤◌, ◌<◌, ◌≡◌, ◌⊎◌, inl, inr, Bool, true, false, ◌||◌, not, Option, none, some,
  List, [], ◌∷◌, arith, ltb, leb, ◌==◌, if◌then◌else◌, length, All, All-map, Bool-cases, Pick, here,
  there,
}
use shadow_stack_llvm.Runtime.Maps.{
  Line, MemArea, Libc, base_address, ceil_address, insert_ma, insert_gap, scan, all_gaps, first_fit,
  target, reserve_all, setup_memory,
}

-- In the order of the addresses.
abbrev pub Sorted : List Line → Type 0
Sorted [] = Unit
Sorted (l ∷ ls) = All (λ (k : Line). l.lo ≤ k.lo) ls × Sorted ls

abbrev pub Apart : Line → MemArea → Type 0
Apart q a = (q.hi ≤ a.lo) ⊎ (a.hi ≤ q.lo)

abbrev pub IfSome : {A : Type 0} → (A → Type 0) → Option A → Type 0
IfSome P none = Unit
IfSome P (some a) = P a

then-IfSome :
    {A B : Type 0} (P : A → Type 0) (R : B → Type 0) (f : A → Option B) (o : Option A)
    → IfSome P o
    → ((a : A) → P a → IfSome R (f a))
    → IfSome R (elim o [ none ↦ none | some a ↦ f a ])
then-IfSome P R f none h k = tt
then-IfSome P R f (some a) h k = k a h

else-IfSome :
    {A B : Type 0} (P : A → Type 0) (R : B → Type 0) (z : Bool) (f : A → Bool × Option B)
    (o : Option A)
    → IfSome P o
    → ((a : A) → P a → IfSome R (f a).1)
    → let r : Bool × Option B = elim o [ none ↦ (z, none) | some a ↦ f a ] in IfSome R r.1
else-IfSome P R z f none h k = tt
else-IfSome P R z f (some a) h k = k a h

module _ (c : Libc) where
  insert_gap-All :
      (P : MemArea → Type 0) (areas : List MemArea) (prev_hi lo : ℕ)
      → P (record { lo = prev_hi; hi = lo })
      → All P areas
      → IfSome (All P) (insert_gap c areas prev_hi lo)
  unfolding insert_gap insert_ma
  insert_gap-All P areas prev_hi lo h k = elim (Bool-cases (ltb prev_hi lo)) [
    | inr over ↦ rw over k
    | inl gap ↦ elim (Bool-cases (c.malloc_area (length areas))) [
      | inl got ↦ rw (gap, got) (h, k)
      | inr failed ↦ rw (gap, failed) tt
    ]
  ]

  abbrev top_of : ℕ → Line → ℕ
  top_of prev_hi l = if ltb prev_hi l.hi then l.hi else prev_hi

  -- One line of the loop: it is above the ceiling, or it is taken.
  scan-line :
      (R : ℕ × List MemArea → Type 0) (Q : List MemArea → Type 0) (l : Line) (ls : List Line)
      (prev_hi : ℕ) (areas : List MemArea)
      → (ceil_address < l.lo → IfSome R (scan c ls prev_hi areas))
      → IfSome Q (insert_gap c areas prev_hi l.lo)
      → ((out : List MemArea) → Q out → IfSome R (scan c ls (top_of prev_hi l) out))
      → IfSome R (scan c (l ∷ ls) prev_hi areas)
  unfolding scan
  scan-line R Q l ls prev_hi areas above gap next = elim (Bool-cases ((l.lo == 0) || not l.dash)) [
    | inl bad ↦ rw (bad, scan) tt
    | inr good ↦ elim (Bool-cases (ltb ceil_address l.lo)) [
      | inl high ↦ rw (good, high, scan) (above (ground arith))
      | inr low ↦ elim (Bool-cases ((l.hi == 0) || not l.blank)) [
        | inl bad ↦ rw (good, low, bad, scan) tt
        | inr fine ↦
            rw (good, low, fine, scan)
              (then-IfSome Q R (λ out. scan c ls (top_of prev_hi l) out)
                (insert_gap c areas prev_hi l.lo) gap next)
      ]
    ]
  ]

  -- The areas so far are apart from the line, and so will those above be.
  abbrev Done : Line → ℕ × List MemArea → Type 0
  Done q r = (q.hi ≤ r.0) × All (Apart q) r.1

  -- Once the line is behind.
  scan-after :
      (q : Line) (ls : List Line) (prev_hi : ℕ) (areas : List MemArea)
      → q.hi ≤ prev_hi
      → All (Apart q) areas
      → IfSome (Done q) (scan c ls prev_hi areas)
  unfolding scan
  scan-after q [] prev_hi areas h k = (h, k)
  scan-after q (l ∷ ls) prev_hi areas h k =
      scan-line (Done q) (All (Apart q)) l ls prev_hi areas
        (λ high. scan-after q ls prev_hi areas h k)
        (insert_gap-All (Apart q) areas prev_hi l.lo (inl h) k)
        (λ out d. scan-after q ls (top_of prev_hi l) out (ground arith) d)

  -- While the line is ahead, all the areas end at or below it.
  scan-before :
      (q : Line) {ls rest : List Line} (prev_hi bound : ℕ) (areas : List MemArea)
      → Pick q ls rest
      → Sorted ls
      → All (λ (k : Line). bound ≤ k.lo) ls
      → All (λ (a : MemArea). a.hi ≤ bound) areas
      → q.lo ≤ ceil_address
      → IfSome (Done q) (scan c ls prev_hi areas)
  scan-before q prev_hi bound areas (here {xs = ls}) o b k low =
      scan-line (Done q) (All (Apart q)) q ls prev_hi areas
        (λ high. let no_way : ⊥ = omega (arith, high, low) in elim no_way [ ])
        (insert_gap-All (Apart q) areas prev_hi q.lo (inr (omega arith))
          (All-map (λ (a : MemArea). a.hi ≤ bound) (λ a h. inr (omega (arith, h, b.0))) areas k))
        (λ out d. scan-after q ls (top_of prev_hi q) out (ground arith) d)
  scan-before q prev_hi bound areas (there {y = l} {xs = ls} p) o b k low =
      scan-line (Done q) (All (λ (a : MemArea). a.hi ≤ l.lo)) l ls prev_hi areas
        (λ high. scan-before q prev_hi bound areas p o.1 b.1 k low)
        (insert_gap-All (λ (a : MemArea). a.hi ≤ l.lo) areas prev_hi l.lo (omega arith)
          (All-map (λ (a : MemArea). a.hi ≤ bound) (λ a h. omega (arith, h, b.0)) areas k))
        (λ out d. scan-before q (top_of prev_hi l) l.lo out p o.1 o.0 d low)

  all_gaps-Apart :
      (q : Line) {lines rest : List Line}
      → Sorted lines
      → Pick q lines rest
      → q.lo ≤ ceil_address
      → IfSome (All (Apart q)) (all_gaps c lines)
  unfolding all_gaps
  all_gaps-Apart q {lines} o p low =
      then-IfSome (Done q) (All (Apart q)) (λ r. insert_gap c r.1 r.0 ceil_address)
        (scan c lines base_address [])
        (scan-before q base_address 0 [] p o (everywhere lines) tt low)
        (λ r d. insert_gap-All (Apart q) r.1 r.0 ceil_address (inl d.0) d.1)
    where
      everywhere : (ls : List Line) → All (λ (k : Line). 0 ≤ k.lo) ls
      everywhere [] = tt
      everywhere (l ∷ ls) = (omega arith, everywhere ls)

  first_fit-All :
      (P : MemArea → Type 0) (min : ℕ) (areas : List MemArea)
      → All P areas
      → IfSome (λ (a : MemArea). P a × (min ≤ a.hi - a.lo)) (first_fit c min areas)
  unfolding first_fit
  first_fit-All P min [] h = tt
  first_fit-All P min (a ∷ as') h = elim (Bool-cases (leb min (a.hi - a.lo))) [
    | inl fits ↦ rw fits (h.0, ground arith)
    | inr small ↦ rw small (first_fit-All P min as' h.1)
  ]

  abbrev pub Good : Line → ℕ → MemArea → Type 0
  Good q min t = Apart q t × (min ≤ t.hi - t.lo + 15)

  abbrev Fits : Line → ℕ → MemArea → Type 0
  Fits q min a = Apart q a × (min ≤ a.hi - a.lo)

  target-Good :
      (q : Line) (min : ℕ) (a : MemArea)
      → q.hi % 16 ≡ 0
      → Fits q min a
      → Good q min (target c min a)
  unfolding target
  target-Good q min a even (inl below, fits) = (inl (ground arith), ground arith)
  target-Good q min a even (inr above, fits) = (inr (ground arith), ground arith)

  -- The end of setup_memory with a target.
  abbrev written : List MemArea → MemArea → Bool × Option MemArea
  written areas t = if reserve_all c areas t then (true, some t) else (false, none)

  -- Of the lines of /proc/self/maps in the order of their addresses, one that starts below the ceiling
  -- and ends at a multiple of 16: a range that setup_memory writes shares no byte with it, and is at
  -- most 15 bytes shorter than was asked for.
  pub setup_memory-Apart :
      (found : Bool) (min : ℕ) (lines : List Line) {rest : List Line} (q : Line)
      → Sorted lines
      → Pick q lines rest
      → q.lo ≤ ceil_address
      → q.hi % 16 ≡ 0
      → IfSome (Good q min) (setup_memory c found min lines).1
  unfolding setup_memory
  setup_memory-Apart found min lines q o p low even =
      else-IfSome (All (Apart q)) (Good q min) found
        (λ areas. elim (first_fit c min areas) [
          | none ↦ (false, none)
          | some a ↦ written areas (target c min a)
        ])
        (all_gaps c lines) (all_gaps-Apart q o p low)
        (λ areas d.
          else-IfSome (Fits q min) (Good q min) false (λ a. written areas (target c min a))
            (first_fit c min areas) (first_fit-All (Apart q) min areas d)
            (λ a e. reserved areas (target c min a) (target-Good q min a even e)))
    where
      reserved :
          (areas : List MemArea) (t : MemArea)
          → Good q min t
          → IfSome (Good q min) (written areas t).1
      reserved areas t h = elim (Bool-cases (reserve_all c areas t)) [
        | inl all ↦ rw all h
        | inr failed ↦ rw failed tt
      ]
