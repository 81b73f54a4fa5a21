-- ===== src/Prelude/Lists.antt =====
-- Lists measured by native numbers, predicates on their items, and picking one item out.
use Prim.Native.Nat.{ℕ, zero, suc, ◌+◌, ◌<◌}
use mathlib.Core.Path.{◌≡◌, refl}
use mathlib.Core.List.{List, [], ◌∷◌, ◌++◌}
use mathlib.Core.Option.{Option, none, some}
use native.Mathlib.Omega.{arith}

module _ {ℓ} {A : Type ℓ} where
  abbrev pub length : List A → ℕ
  length [] = 0
  length (x ∷ xs) = suc (length xs)

  pub length-append : (xs ys : List A) → length (xs ++ ys) ≡ length xs + length ys
  length-append [] ys = omega arith
  length-append (x ∷ xs) ys = omega (arith, length-append xs ys)

  abbrev pub get_elem? : List A → ℕ → Option A
  get_elem? [] i = none
  get_elem? (x ∷ xs) zero = some x
  get_elem? (x ∷ xs) (suc i) = get_elem? xs i

  abbrev pub All {κ} : (A → Type κ) → List A → Type κ
  All P [] = Unit
  All P (x ∷ xs) = P x × All P xs

  -- `ys` is `xs` without one occurrence of `x`.
  pub data Pick (x : A) : List A → List A → Type ℓ where
    here : {xs : List A} → Pick x (x ∷ xs) xs
    there : {y : A} {xs ys : List A} → Pick x xs ys → Pick x (y ∷ xs) (y ∷ ys)

module _ {ℓ} {A : Type ℓ} where
  pub Pick-append : (x : A) (xs ys : List A) → Pick x (xs ++ x ∷ ys) (xs ++ ys)
  Pick-append x [] ys = here
  Pick-append x (y ∷ xs) ys = there (Pick-append x xs ys)

  pub Pick-append_left :
      (x : A) (zs : List A) {xs ys : List A} → Pick x xs ys → Pick x (zs ++ xs) (zs ++ ys)
  Pick-append_left x [] p = p
  Pick-append_left x (z ∷ zs) p = there (Pick-append_left x zs p)

module _ {ℓ κ} {A : Type ℓ} (P : A → Type κ) where
  pub All-map {μ} : {Q : A → Type μ} → ((a : A) → P a → Q a) → (xs : List A) → All P xs → All Q xs
  All-map f [] h = tt
  All-map f (x ∷ xs) h = (f x h.0, All-map f xs h.1)

  pub All-append : (xs ys : List A) → All P xs → All P ys → All P (xs ++ ys)
  All-append [] ys h k = k
  All-append (x ∷ xs) ys h k = (h.0, All-append xs ys h.1 k)

  pub All-Pick : {x : A} {xs ys : List A} → Pick x xs ys → All P xs → P x × All P ys
  All-Pick here h = h
  All-Pick (there p) h = let r = All-Pick p h.1 in (r.0, (h.0, r.1))

  pub All-put : {x : A} {xs ys : List A} → Pick x xs ys → P x → All P ys → All P xs
  All-put here a h = (a, h)
  All-put (there p) a h = (h.0, All-put p a h.1)

  pub All-append_left : (xs ys : List A) → All P (xs ++ ys) → All P xs
  All-append_left [] ys h = tt
  All-append_left (x ∷ xs) ys h = (h.0, All-append_left xs ys h.1)

  pub All-append_right : (xs ys : List A) → All P (xs ++ ys) → All P ys
  All-append_right [] ys h = h
  All-append_right (x ∷ xs) ys h = All-append_right xs ys h.1

module _ {ℓ} {A : Type ℓ} where
  pub get_elem?-some : (xs : List A) (i : ℕ) → i < length xs → (x : A) × (get_elem? xs i ≡ some x)
  get_elem?-some [] i h = elim h [ ]
  get_elem?-some (x ∷ xs) zero h = (x, refl)
  get_elem?-some (x ∷ xs) (suc i) h = get_elem?-some xs i (omega arith)

-- Every two items, at different places, are related.
module _ {ℓ κ} {A : Type ℓ} (R : A → A → Type κ) where
  abbrev pub Pairs : List A → Type (ℓ ⊔ κ)
  Pairs [] = Unit
  Pairs (x ∷ xs) = All (R x) xs × Pairs xs

  pub Pairs-append_right : (xs ys : List A) → Pairs (xs ++ ys) → Pairs ys
  Pairs-append_right [] ys s = s
  Pairs-append_right (x ∷ xs) ys s = Pairs-append_right xs ys s.1

  module _ (symm : (a b : A) → R a b → R b a) where
    pub Pairs-Pick : {x : A} {xs ys : List A} → Pick x xs ys → Pairs xs → All (R x) ys × Pairs ys
    Pairs-Pick here s = s
    Pairs-Pick {x} (there {y} {ys} k) s =
        let a = All-Pick (R y) k s.0 in
        let r = Pairs-Pick k s.1 in ((symm y x a.0, r.0), (a.1, r.1))

    pub Pairs-put : {x : A} {xs ys : List A} → Pick x xs ys → All (R x) ys → Pairs ys → Pairs xs
    Pairs-put here b s = (b, s)
    Pairs-put {x} (there {y} {ys} k) b s = (All-put (R y) k (symm x y b.0) s.0, Pairs-put k b.1 s.1)
