-- ===== src/Lkm/Memory/Members.antt =====
-- Which pages are in a list of pages.
use shadow_stack_llvm.Prelude.{
  ℕ, zero, suc, ◌+◌, ◌≡◌, refl, sym, subst, inl, inr, true, ◌||◌, List, [], ◌∷◌, ◌++◌, arith, ◌==◌,
  ==_iff, length, All, Bool-cases,
}
use shadow_stack_llvm.Lkm.Memory.{is_mem, block}

pub is_mem-append : (q : ℕ) (xs ys : List ℕ) → is_mem q (xs ++ ys) ≡ (is_mem q xs || is_mem q ys)
is_mem-append q [] ys = refl
is_mem-append q (x ∷ xs) ys = ground (arith, is_mem-append q xs ys)

-- A test that holds for the members holds for all items, and the other way round.
pub All-of_mem {κ} :
    (P : ℕ → Type κ) (xs : List ℕ) → ((q : ℕ) → is_mem q xs ≡ true → P q) → All P xs
All-of_mem P [] h = tt
All-of_mem P (x ∷ xs) h = (h x (ground arith), All-of_mem P xs (λ q e. h q (ground arith)))

pub All-mem {κ} : (P : ℕ → Type κ) (xs : List ℕ) (q : ℕ) → All P xs → is_mem q xs ≡ true → P q
All-mem P [] q h e = cc
All-mem P (x ∷ xs) q h e = elim (Bool-cases (q == x)) [
  | inl hit ↦ subst P (sym ((==_iff q x).0 hit)) h.0
  | inr miss ↦ All-mem P xs q h.1 (ground arith)
]

pub length-block : (p n : ℕ) → length (block p n) ≡ n
length-block p zero = refl
length-block p (suc n) = omega (arith, length-block (p + 1) n)
