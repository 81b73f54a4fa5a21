-- ===== src/Lkm/FreeList/Invariant.antt =====
-- What holds of the global free list of lkm/core/api.c and of the stacks that are in use.
use shadow_stack_llvm.Prelude.{
  ℕ, ◌≤◌, ◌≡◌, refl, ◌∙◌, inl, inr, Bool, true, false, List, [], ◌∷◌, ◌++◌, arith, length, All,
  All-map, Pairs, Bool-cases,
}
use shadow_stack_llvm.Lkm.Memory.{View, Grant, is_mem, Distinct}
use shadow_stack_llvm.Lkm.Memory.Same.{Same}
use shadow_stack_llvm.Lkm.Memory.Members.{All-mem, All-of_mem}
use shadow_stack_llvm.Lkm.Pagelist.Grant.{old-not-mem}
use shadow_stack_llvm.Lkm.FreeList.{Gl, gl_sa_capacity, stack_pages}

-- The pages of a whole stack, all of them allocated.
abbrev pub Whole : View → List ℕ → Type 0
Whole v stack = (length stack ≡ stack_pages) × Distinct stack × All (λ p. v.live p ≡ true) stack

-- A stack that may be handed out: besides, its pages hold only zero bytes.
abbrev pub Clean : View → List ℕ → Type 0
Clean v stack = Whole v stack × All (λ p. v.content p ≡ 0) stack

-- No page is in both.
abbrev pub Disjoint : List ℕ → List ℕ → Type 0
Disjoint xs ys = All (λ q. is_mem q xs ≡ false) ys

-- `held` are the stacks that are in use.
pub record IsGl (gl : Gl) (held : List (List ℕ)) (v : View) : Type 0 where
  pub counted : gl.gl_size ≡ length gl.gl_sa
  pub bounded : gl.gl_size ≤ gl_sa_capacity
  pub clean : All (Clean v) gl.gl_sa
  pub whole : All (Whole v) held
  pub apart : Pairs Disjoint (gl.gl_sa ++ held)

not-mem-both : (xs ys : List ℕ) (q : ℕ) → Disjoint xs ys → is_mem q xs ≡ true → is_mem q ys ≡ false
not-mem-both xs ys q d e = elim (Bool-cases (is_mem q ys)) [
  | inl i ↦ ground (arith, All-mem (λ r. is_mem r xs ≡ false) ys q d i)
  | inr o ↦ o
]

pub Disjoint-symm : (xs ys : List ℕ) → Disjoint xs ys → Disjoint ys xs
Disjoint-symm xs ys d = All-of_mem (λ q. is_mem q ys ≡ false) xs (λ q i. not-mem-both xs ys q d i)

-- What `v` has allocated, but for the pages of `gone`, is allocated in `w` and holds the same.
pub record Keeps (gone : List ℕ) (v w : View) : Type 0 where
  pub kept :
      (q : ℕ)
      → is_mem q gone ≡ false
      → v.live q ≡ true
      → (w.live q ≡ true) × (w.content q ≡ v.content q)

All-Disjoint {κ μ} :
    (P : ℕ → Type κ) (Q : ℕ → Type μ) (gone xs : List ℕ)
    → Disjoint gone xs
    → ((q : ℕ) → is_mem q gone ≡ false → P q → Q q)
    → All P xs
    → All Q xs
All-Disjoint P Q gone [] d f h = tt
All-Disjoint P Q gone (x ∷ xs) d f h = (f x d.0 h.0, All-Disjoint P Q gone xs d.1 f h.1)

pub Whole-Keeps :
    {gone : List ℕ} {v w : View} (stack : List ℕ)
    → Keeps gone v w
    → Disjoint gone stack
    → Whole v stack
    → Whole w stack
Whole-Keeps {gone} {v} {w} stack k d c = (
  c.0,
  c.1,
  All-Disjoint (λ p. v.live p ≡ true) (λ p. w.live p ≡ true) gone stack d
      (λ q o e. (k.kept q o e).0) c.2,
)

All-both {κ μ} :
    (P : ℕ → Type κ) (Q : ℕ → Type μ) (xs : List ℕ) → All P xs → All Q xs → All (λ q. P q × Q q) xs
All-both P Q [] h k = tt
All-both P Q (x ∷ xs) h k = ((h.0, k.0), All-both P Q xs h.1 k.1)

pub Clean-Keeps :
    {gone : List ℕ} {v w : View} (stack : List ℕ)
    → Keeps gone v w
    → Disjoint gone stack
    → Clean v stack
    → Clean w stack
Clean-Keeps {gone} {v} {w} stack k d c = (
  Whole-Keeps stack k d c.0,
  All-Disjoint (λ p. (v.live p ≡ true) × (v.content p ≡ 0)) (λ p. w.content p ≡ 0) gone stack d
      (λ q o z. (k.kept q o z.0).1 ∙ z.1) (All-both _ _ stack c.0.2 c.1),
)

pub All-Keeps {κ} :
    (P : View → List ℕ → Type κ) (gone : List ℕ) (v w : View) (stacks : List (List ℕ))
    → ((stack : List ℕ) → Disjoint gone stack → P v stack → P w stack)
    → All (Disjoint gone) stacks
    → All (P v) stacks
    → All (P w) stacks
All-Keeps P gone v w [] f d h = tt
All-Keeps P gone v w (x ∷ xs) f d h = (f x d.0 h.0, All-Keeps P gone v w xs f d.1 h.1)

pub Disjoint-nil : (stacks : List (List ℕ)) → All (Disjoint []) stacks
Disjoint-nil [] = tt
Disjoint-nil (x ∷ xs) = (All-of_mem (λ q. false ≡ false) x (λ q i. refl), Disjoint-nil xs)

-- The invariant in a view that keeps everything.
pub IsGl-Keeps :
    {gl : Gl} {held : List (List ℕ)} {v w : View} → Keeps [] v w → IsGl gl held v → IsGl gl held w
IsGl-Keeps {gl} {held} {v} {w} k g = record {
  counted = g.counted;
  bounded = g.bounded;
  clean =
      All-Keeps Clean [] v w gl.gl_sa (λ st d. Clean-Keeps st k d) (Disjoint-nil gl.gl_sa) g.clean;
  whole = All-Keeps Whole [] v w held (λ st d. Whole-Keeps st k d) (Disjoint-nil held) g.whole;
  apart = g.apart;
}

pub Same-Keeps : {v w : View} → Same v w → Keeps [] v w
Same-Keeps a = record { kept = λ q o e. (a.live q ∙ e, a.kept q e) }

-- A granted stack is clean, and new to all the stacks there were.
pub Grant-Keeps : {z : Bool} {v w : View} {pages : List ℕ} → Grant z v pages w → Keeps [] v w
Grant-Keeps g = record { kept = λ q o e. (ground (arith, g.live q), g.kept q e) }

pub Grant-Clean :
    {v w : View} {pages : List ℕ}
    → Grant true v pages w
    → length pages ≡ stack_pages
    → Clean w pages
Grant-Clean {w} {pages} g e = (
  (e, g.distinct, All-of_mem (λ p. w.live p ≡ true) pages (λ q i. ground (arith, g.live q))),
  g.zeroes refl,
)

pub Grant-Disjoint :
    {z : Bool} {v w : View} {pages : List ℕ} (stacks : List (List ℕ))
    → Grant z v pages w
    → All (Whole v) stacks
    → All (Disjoint pages) stacks
Grant-Disjoint [] g h = tt
Grant-Disjoint {v} {pages} (st ∷ stacks) g h = (
  All-map (λ p. v.live p ≡ true) (λ q e. old-not-mem g q e) st h.0.2,
  Grant-Disjoint stacks g h.1,
)
