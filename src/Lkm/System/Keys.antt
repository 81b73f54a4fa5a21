-- ===== src/Lkm/System/Keys.antt =====
-- Lists of stacks under distinct keys.
use shadow_stack_llvm.Prelude.{ℕ, ◌≢◌, refl, List, [], ◌∷◌, Pick, here, there}

-- An allocator's descriptor and a thread number.
abbrev pub Key : Type 0
Key = ℕ × ℕ

abbrev pub Stacks : Type 0
Stacks = List (Key × List ℕ)

abbrev pub stacks : Stacks → List (List ℕ)
stacks [] = []
stacks ((k, st) ∷ xs) = st ∷ stacks xs

pub Pick-stacks :
    {k : Key} {st : List ℕ} {xs rest : Stacks}
    → Pick (k, st) xs rest
    → Pick st (stacks xs) (stacks rest)
Pick-stacks here = here
Pick-stacks (there p) = there (Pick-stacks p)

-- What is left when another one is taken away can still be picked.
pub Pick-other :
    {a b : Key × List ℕ} {xs rest_a rest_b : Stacks}
    → a.0 ≢ b.0
    → Pick a xs rest_a
    → Pick b xs rest_b
    → (rest : Stacks) × Pick b rest_a rest
Pick-other d here here = elim (d refl) [ ]
Pick-other {rest_a} {rest_b} d here (there q) = (_, q)
Pick-other d (there p) here = (_, here)
Pick-other d (there {y} p) (there q) = let (r, k) = Pick-other d p q in (y ∷ r, there k)
