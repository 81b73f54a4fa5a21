-- ===== src/Lkm/Xarray/Sample.antt =====
-- An array in memory that meets the laws of Lkm.Xarray, for tests: the slots from index 0 on, the rest
-- of them free.
use shadow_stack_llvm.Prelude.{
  ℕ, zero, suc, ◌+◌, ◌-◌, ◌≤◌, ◌≡◌, ◌≢◌, refl, ap, sym, ◌∙◌, subst, inl, inr, Bool, true, false,
  List, [], ◌∷◌, arith, ◌==◌, if◌then◌else◌, Bool-cases, All, Option, none, some,
}
use shadow_stack_llvm.Lkm.Errno.{Ret, success, fail, ebusy}
use shadow_stack_llvm.Lkm.Xarray.{Xarray, Slot, free, reserved, entry, loaded}

module _ {V : Type 0} where
  abbrev pub slot_at : List (Slot V) → ℕ → Slot V
  slot_at [] i = free
  slot_at (s ∷ ss) zero = s
  slot_at (s ∷ ss) (suc i) = slot_at ss i

  abbrev pub put_at : ℕ → Slot V → List (Slot V) → List (Slot V)
  put_at zero v [] = v ∷ []
  put_at zero v (s ∷ ss) = v ∷ ss
  put_at (suc i) v [] = free ∷ put_at i v []
  put_at (suc i) v (s ∷ ss) = s ∷ put_at i v ss

  abbrev pub is_free : Slot V → Bool
  is_free free = true
  is_free reserved = false
  is_free (entry v) = false

  pub is_free-free : (s : Slot V) → is_free s ≡ true → s ≡ free
  is_free-free free e = refl
  is_free-free reserved e = cc
  is_free-free (entry v) e = cc

  step : (i j : ℕ) (v s : Slot V) → (if j == i then v else s) ≡ (if suc j == suc i then v else s)
  step i j v s = ground arith

  pub slot_at-put_at :
      (i : ℕ) (v : Slot V) (ss : List (Slot V)) (j : ℕ)
      → slot_at (put_at i v ss) j ≡ (if j == i then v else slot_at ss j)
  slot_at-put_at zero v [] zero = refl
  slot_at-put_at zero v [] (suc j) = ground arith
  slot_at-put_at zero v (s ∷ ss) zero = refl
  slot_at-put_at zero v (s ∷ ss) (suc j) = ground arith
  slot_at-put_at (suc i) v [] zero = ground arith
  slot_at-put_at (suc i) v [] (suc j) = slot_at-put_at i v [] j ∙ step i j v free
  slot_at-put_at (suc i) v (s ∷ ss) zero = ground arith
  slot_at-put_at (suc i) v (s ∷ ss) (suc j) = slot_at-put_at i v ss j ∙ step i j v (slot_at ss j)

  abbrev pub entries_from : ℕ → List (Slot V) → List (ℕ × V)
  entries_from k [] = []
  entries_from k (free ∷ ss) = entries_from (k + 1) ss
  entries_from k (reserved ∷ ss) = entries_from (k + 1) ss
  entries_from k (entry v ∷ ss) = (k, v) ∷ entries_from (k + 1) ss

  -- The slots from `k` on are `ss`.
  abbrev pub From : List (Slot V) → ℕ → List (Slot V) → Type 0
  From whole k ss = (j i : ℕ) → i ≡ k + j → slot_at whole i ≡ slot_at ss j

  From-next :
      (whole : List (Slot V)) (k : ℕ) (s : Slot V) (ss : List (Slot V))
      → From whole k (s ∷ ss)
      → From whole (k + 1) ss
  From-next whole k s ss h j i e = h (suc j) i (omega (arith, e))

  pub From-all : (ss : List (Slot V)) → From ss 0 ss
  From-all ss j i e = let same : i ≡ j = omega (arith, e) in rw same refl

  pub entries_from_sound :
      (whole : List (Slot V)) (k : ℕ) (ss : List (Slot V))
      → From whole k ss
      → All (λ (e : ℕ × V). slot_at whole e.0 ≡ entry e.1) (entries_from k ss)
  entries_from_sound whole k [] h = tt
  entries_from_sound whole k (free ∷ ss) h =
      entries_from_sound whole (k + 1) ss (From-next whole k free ss h)
  entries_from_sound whole k (reserved ∷ ss) h =
      entries_from_sound whole (k + 1) ss (From-next whole k reserved ss h)
  entries_from_sound whole k (entry v ∷ ss) h =
      (h 0 k (omega arith), entries_from_sound whole (k + 1) ss (From-next whole k (entry v) ss h))

  -- The first free slot, for as many as the fuel from `i` on.
  abbrev pub search_free : ℕ → ℕ → List (Slot V) → Ret × ℕ × List (Slot V)
  search_free zero i ss = (fail ebusy, i, ss)
  search_free (suc fuel) i ss =
      if is_free (slot_at ss i)
      then (success, i, put_at i reserved ss)
      else search_free fuel (i + 1) ss

  pub record Found (lo hi : ℕ) (ss : List (Slot V)) (r : Ret × ℕ × List (Slot V)) : Type 0 where
    pub unused : slot_at ss r.1 ≡ free
    pub above : lo ≤ r.1
    pub below : r.1 + 1 ≤ hi
    pub slots : (j : ℕ) → slot_at r.2 j ≡ (if j == r.1 then reserved else slot_at ss j)

  pub search_free-Found :
      (fuel i : ℕ) (ss : List (Slot V))
      → (search_free fuel i ss).0 ≡ success
      → Found i (i + fuel) ss (search_free fuel i ss)
  search_free-Found zero i ss e = cc
  search_free-Found (suc fuel) i ss e = elim (Bool-cases (is_free (slot_at ss i))) [
    | inl hit ↦ rw hit (record {
      unused = is_free-free (slot_at ss i) hit;
      above = omega arith;
      below = omega arith;
      slots = slot_at-put_at i reserved ss;
    })
    | inr miss ↦
        let ok : (search_free fuel (i + 1) ss).0 ≡ success =
          subst
            (λ b.
              (if b then (success, i, put_at i reserved ss) else search_free fuel (i + 1) ss).0
              ≡ success)
            miss e in
        let f = search_free-Found fuel (i + 1) ss ok in
        rw miss (record {
          unused = f.unused;
          above = omega (arith, f.above);
          below = omega (arith, f.below);
          slots = f.slots;
        })
  ]

  pub search_free-failed :
      (fuel i : ℕ) (ss : List (Slot V))
      → (search_free fuel i ss).0 ≢ success
      → (search_free fuel i ss).2 ≡ ss
  search_free-failed zero i ss e = refl
  search_free-failed (suc fuel) i ss e = elim (Bool-cases (is_free (slot_at ss i))) [
    | inl hit ↦ elim (e (rw hit refl)) [ ]
    | inr miss ↦ rw miss (search_free-failed fuel (i + 1) ss (λ ok. e (rw miss ok)))
  ]

  -- xa_insert finds room for its entry wherever the slot is free.
  abbrev pub insert_at : ℕ → V → List (Slot V) → Ret × List (Slot V)
  insert_at i v ss =
      if is_free (slot_at ss i) then (success, put_at i (entry v) ss) else (fail ebusy, ss)

  pub insert-busy :
      {P : Type 0} (i : ℕ) (v : V) (ss : List (Slot V))
      → is_free (slot_at ss i) ≡ false
      → (insert_at i v ss).0 ≡ success
      → P
  insert-busy i v ss miss e = ground (arith, e)

  abbrev pub size_of : List (Slot V) → ℕ
  size_of [] = 0
  size_of (free ∷ ss) = size_of ss
  size_of (reserved ∷ ss) = size_of ss
  size_of (entry v ∷ ss) = size_of ss + 1

  abbrev count : Option V → ℕ
  count none = 0
  count (some v) = 1

  abbrev weight : Slot V → ℕ
  weight s = count (loaded s)

  size_of-cons : (s : Slot V) (ss : List (Slot V)) → size_of (s ∷ ss) ≡ weight s + size_of ss
  size_of-cons free ss = omega arith
  size_of-cons reserved ss = omega arith
  size_of-cons (entry v) ss = omega arith

  size_of-free : (b : List (Slot V)) → ((j : ℕ) → none ≡ loaded (slot_at b j)) → size_of b ≡ 0
  size_of-free [] h = refl
  size_of-free (s ∷ ss) h =
      let e : weight s ≡ 0 = ap count (sym (h zero)) in
      omega (arith, size_of-cons s ss, e, size_of-free ss (λ j. h (suc j)))

  pub size_of-same :
      (a b : List (Slot V))
      → ((j : ℕ) → loaded (slot_at a j) ≡ loaded (slot_at b j))
      → size_of a ≡ size_of b
  size_of-same [] b h = sym (size_of-free b h)
  size_of-same (s ∷ ss) [] h = size_of-free (s ∷ ss) (λ j. sym (h j))
  size_of-same (s ∷ ss) (r ∷ rs) h =
      let e : weight s ≡ weight r = ap count (h zero) in
      omega (arith, size_of-cons s ss, size_of-cons r rs, e, size_of-same ss rs (λ j. h (suc j)))

  size_of-put_at :
      (i : ℕ) (v : V) (a : List (Slot V))
      → slot_at a i ≡ free
      → size_of (put_at i (entry v) a) ≡ size_of a + 1
  size_of-put_at zero v [] h = refl
  size_of-put_at zero v (s ∷ ss) h =
      let e : weight s ≡ 0 = ap weight h in omega (arith, size_of-cons s ss, e)
  size_of-put_at (suc i) v [] h = size_of-put_at i v [] refl
  size_of-put_at (suc i) v (s ∷ ss) h =
      omega
        (arith, size_of-cons s ss, size_of-cons s (put_at i (entry v) ss), size_of-put_at i v ss h)

  pub size_of-entry :
      (i : ℕ) (v : V) (a b : List (Slot V))
      → slot_at a i ≡ free
      → ((j : ℕ) → slot_at b j ≡ (if j == i then entry v else slot_at a j))
      → size_of b ≡ size_of a + 1
  size_of-entry i v a b e h =
      size_of-same b (put_at i (entry v) a)
        (λ j. ap loaded (h j ∙ sym (slot_at-put_at i (entry v) a j)))
      ∙ size_of-put_at i v a e

  abbrev pub sample_array : Xarray V
  sample_array = record {
    Array = List (Slot V);
    slot = slot_at;
    xa_alloc = λ lo hi ss. search_free (hi + 1 - lo) lo ss;
    xa_insert = insert_at;
    xa_store = λ i v ss. put_at i (entry v) ss;
    xa_erase = λ i ss. (loaded (slot_at ss i), put_at i free ss);
    size = size_of;
    size-same = size_of-same;
    size-entry = size_of-entry;
    entries = entries_from 0;
    entries-sound = λ ss. entries_from_sound ss 0 ss (From-all ss);
    xa_alloc-ok = λ lo hi ss e.
        let f = search_free-Found (hi + 1 - lo) lo ss e in
        (f.unused, f.above, omega (arith, f.below, f.above), f.slots);
    xa_alloc-failed = λ lo hi ss e j. rw (search_free-failed (hi + 1 - lo) lo ss e);
    xa_insert-ok = λ i v ss e. elim (Bool-cases (is_free (slot_at ss i))) [
      | inl hit ↦ (is_free-free (slot_at ss i) hit, λ j. rw hit (slot_at-put_at i (entry v) ss j))
      | inr miss ↦ insert-busy i v ss miss e
    ];
    xa_insert-failed = λ i v ss e j. elim (Bool-cases (is_free (slot_at ss i))) [
      | inl hit ↦ elim (e (rw hit refl)) [ ]
      | inr miss ↦ rw miss
    ];
    xa_store-slot = λ i v ss e j. slot_at-put_at i (entry v) ss j;
    xa_erase-loaded = λ i ss. refl;
    xa_erase-slot = λ i ss j. slot_at-put_at i free ss j;
  }
