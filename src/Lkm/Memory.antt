-- ===== src/Lkm/Memory.antt =====
-- The kernel's memory services, which the module calls and does not implement: the page allocator,
-- kmalloc, clear_highpage and copy_highpage. They are an argument of the model, with what the code
-- relies on as laws. A page is named by its page frame number; the page that holds only zero bytes
-- has the content 0.
pub mod Members
pub mod Same
pub mod Sample
use shadow_stack_llvm.Prelude.{
  ℕ, zero, suc, ◌+◌, ◌-◌, ◌^◌, ◌≤◌, ◌<◌, ◌≡◌, ◌≢◌, Bool, true, false, ◌||◌, Option, none, some,
  List, [], ◌∷◌, ◌==◌, if◌then◌else◌, length, All,
}

-- The bits of gfp_t that the module sets or clears.
pub record Gfp : Type 0 where
  pub nowarn : Bool
  pub direct_reclaim : Bool
  pub zeroed : Bool

abbrev pub gfp_kernel : Gfp
gfp_kernel = record { nowarn = false; direct_reclaim = true; zeroed = false }

abbrev pub is_mem : ℕ → List ℕ → Bool
is_mem a [] = false
is_mem a (x ∷ xs) = (a == x) || is_mem a xs

abbrev pub Distinct : List ℕ → Type 0
Distinct [] = Unit {0}
Distinct (x ∷ xs) = (is_mem x xs ≡ false) × Distinct xs

-- The pages `p`, `p + 1`, … of a block.
abbrev pub block : ℕ → ℕ → List ℕ
block p zero = []
block p (suc n) = p ∷ block (p + 1) n

-- What can be seen of the memory: which pages are allocated, what they hold, and how many kmalloc
-- and kvcalloc objects there are.
pub record View : Type 0 where
  pub live : ℕ → Bool
  pub content : ℕ → ℕ
  pub objects : ℕ

-- The pages of the list are newly allocated, and nothing else has changed.
pub record Grant (zeroed : Bool) (v : View) (pages : List ℕ) (w : View) : Type 0 where
  pub fresh : All (λ p. v.live p ≡ false) pages
  pub distinct : Distinct pages
  pub live : (q : ℕ) → w.live q ≡ (is_mem q pages || v.live q)
  pub zeroes : zeroed ≡ true → All (λ p. w.content p ≡ 0) pages
  pub kept : (q : ℕ) → v.live q ≡ true → w.content q ≡ v.content q
  pub objects : w.objects ≡ v.objects

abbrev pub Granted : Bool → View → Option (List ℕ) → View → Type 0
Granted zeroed v none w = Grant zeroed v [] w
Granted zeroed v (some pages) w = Grant zeroed v pages w

pub record Memory : Type 1 where
  pub State : Type 0
  pub view : State → View
  -- COMPAT_MAX_ORDER and ilog2 of the kernel's headers.
  pub max_order : ℕ
  pub ilog2 : ℕ → ℕ
  -- The first page of a block of 2 ^ order pages.
  pub alloc_pages : Gfp → ℕ → State → Option ℕ × State
  -- The pages that alloc_pages_bulk has written to the array.
  pub alloc_pages_bulk : Gfp → ℕ → State → List ℕ × State
  pub free_page : ℕ → State → State
  pub clear_highpage : ℕ → State → State
  -- To the first page from the second one.
  pub copy_highpage : ℕ → ℕ → State → State
  -- Whether there was memory for the object; kmalloc_obj and kvcalloc are both meant.
  pub kmalloc : State → Bool × State
  pub kfree : State → State
  pub fatal_signal_pending : State → Bool
  pub pow-ilog2-le : (n : ℕ) → 0 < n → 2 ^ ilog2 n ≤ n
  pub alloc_pages-Grant :
      (g : Gfp) (order : ℕ) (s : State)
      → Granted g.zeroed
          (view s)
          (elim (alloc_pages g order s).0 [ none ↦ none | some p ↦ some (block p (2 ^ order)) ])
          (view (alloc_pages g order s).1)
  pub alloc_pages_bulk-Grant :
      (g : Gfp) (n : ℕ) (s : State)
      → Grant g.zeroed (view s) (alloc_pages_bulk g n s).0 (view (alloc_pages_bulk g n s).1)
  pub length-alloc_pages_bulk :
      (g : Gfp) (n : ℕ) (s : State) → length (alloc_pages_bulk g n s).0 ≤ n
  pub live-free_page :
      (p : ℕ) (s : State) (q : ℕ)
      → (view (free_page p s)).live q ≡ (if q == p then false else (view s).live q)
  pub content-free_page :
      (p : ℕ) (s : State) (q : ℕ) → q ≢ p → (view (free_page p s)).content q ≡ (view s).content q
  pub objects-free_page : (p : ℕ) (s : State) → (view (free_page p s)).objects ≡ (view s).objects
  pub clear_highpage-view :
      (p : ℕ) (s : State)
      → view (clear_highpage p s)
        ≡ record (view s) { content = λ q. if q == p then 0 else (view s).content q }
  pub copy_highpage-view :
      (p r : ℕ) (s : State)
      → view (copy_highpage p r s) ≡ record (view s) {
        content = λ q. if q == p then (view s).content r else (view s).content q;
      }
  pub kmalloc-view :
      (s : State)
      → view (kmalloc s).1
        ≡ record (view s) { objects = (view s).objects + (if (kmalloc s).0 then 1 else 0) }
  pub kfree-view : (s : State) → view (kfree s) ≡ record (view s) { objects = (view s).objects - 1 }
