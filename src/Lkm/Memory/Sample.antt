-- ===== src/Lkm/Memory/Sample.antt =====
-- A small memory that meets the laws of Lkm.Memory, for tests: pages are handed out in order up to a
-- limit, and are zeroed then. It shows that the assumptions on the kernel can hold together.
use shadow_stack_llvm.Prelude.{
  ℕ, zero, suc, ◌+◌, ◌-◌, ◌^◌, ◌≤◌, ◌<◌, ◌≡◌, refl, inl, inr, Bool, true, false, ◌&&◌, ◌||◌, not,
  Option, none, some, List, [], arith, ltb, leb, ◌==◌, if◌then◌else◌, length, All, Bool-cases,
}
use shadow_stack_llvm.Lkm.Memory.Members.{All-of_mem, length-block}
use shadow_stack_llvm.Lkm.Memory.{Memory, Gfp, View, Grant, Granted, is_mem, Distinct, block}

-- The pages below `next` have been handed out, those of `freed` are given back.
pub record Store : Type 0 where
  pub next : ℕ
  pub limit : ℕ
  pub freed : ℕ → Bool
  pub content : ℕ → ℕ
  pub objects : ℕ

abbrev pub seen : Store → View
seen s = record {
  live = λ q. ltb q s.next && not (s.freed q);
  content = s.content;
  objects = s.objects;
}

-- `n` pages are handed out.
abbrev pub advance : ℕ → Store → Store
advance n s = record s {
  next = s.next + n;
  freed = λ q. ltb q s.next && s.freed q;
  content = λ q. if ltb q s.next then s.content q else 0;
}

pub is_mem-block : (q p n : ℕ) → is_mem q (block p n) ≡ (leb p q && ltb q (p + n))
is_mem-block q p zero = ground arith
is_mem-block q p (suc n) = ground (arith, is_mem-block q (p + 1) n)

pub All-block {κ} : (P : ℕ → Type κ) (p n : ℕ) → ((q : ℕ) → p ≤ q → P q) → All P (block p n)
All-block P p zero h = tt
All-block P p (suc n) h = (h p (omega arith), All-block P (p + 1) n (λ q e. h q (omega arith)))

pub Distinct-block : (p n : ℕ) → Distinct (block p n)
Distinct-block p zero = tt
Distinct-block p (suc n) = (ground (arith, is_mem-block p (p + 1) n), Distinct-block (p + 1) n)

advance-Grant :
    (z : Bool) (n : ℕ) (s : Store) → Grant z (seen s) (block s.next n) (seen (advance n s))
advance-Grant z n s = record {
  fresh = All-block _ s.next n (λ q e. ground arith);
  distinct = Distinct-block s.next n;
  live = λ q. ground (arith, is_mem-block q s.next n);
  zeroes = λ e. All-block _ s.next n (λ q h. ground arith);
  kept = λ q e. ground arith;
  objects = refl;
}

pub advance-Live :
    (n : ℕ) (s : Store) → All (λ p. (seen (advance n s)).live p ≡ true) (block s.next n)
advance-Live n s = All-of_mem _ (block s.next n) (λ q i. ground (arith, is_mem-block q s.next n))

abbrev room : ℕ → Store → Bool
room n s = leb (s.next + n) s.limit

unfoldable pub sample_alloc : Gfp → ℕ → Store → Option ℕ × Store
sample_alloc g order s =
    if room (2 ^ order) s then (some s.next, advance (2 ^ order) s) else (none, s)

unfoldable pub sample_bulk : Gfp → ℕ → Store → List ℕ × Store
sample_bulk g n s = if room n s then (block s.next n, advance n s) else ([], s)

Grant-nothing : (z : Bool) (v : View) → Grant z v [] v
Grant-nothing z v = record {
  fresh = tt;
  distinct = tt;
  live = λ q. refl;
  zeroes = λ e. tt;
  kept = λ q e. refl;
  objects = refl;
}

pub sample_alloc-Grant :
    (g : Gfp) (order : ℕ) (s : Store)
    → Granted g.zeroed
        (seen s)
        (elim (sample_alloc g order s).0 [ none ↦ none | some p ↦ some (block p (2 ^ order)) ])
        (seen (sample_alloc g order s).1)
unfolding sample_alloc
sample_alloc-Grant g order s = elim (Bool-cases (room (2 ^ order) s)) [
  | inl fits ↦ rw (fits, sample_alloc) (advance-Grant g.zeroed (2 ^ order) s)
  | inr full ↦ rw (full, sample_alloc) (Grant-nothing g.zeroed (seen s))
]

pub sample_bulk-Grant :
    (g : Gfp) (n : ℕ) (s : Store)
    → Grant g.zeroed (seen s) (sample_bulk g n s).0 (seen (sample_bulk g n s).1)
unfolding sample_bulk
sample_bulk-Grant g n s = elim (Bool-cases (room n s)) [
  | inl fits ↦ rw (fits, sample_bulk) (advance-Grant g.zeroed n s)
  | inr full ↦ rw (full, sample_bulk) (Grant-nothing g.zeroed (seen s))
]

pub length-sample_bulk : (g : Gfp) (n : ℕ) (s : Store) → length (sample_bulk g n s).0 ≤ n
unfolding sample_bulk
length-sample_bulk g n s = ground (arith, length-block s.next n)

abbrev sample_free : ℕ → Store → Store
sample_free p s = record s { freed = λ q. q == p || s.freed q }

pub live-sample_free :
    (p : ℕ) (s : Store) (q : ℕ)
    → (seen (sample_free p s)).live q ≡ (if q == p then false else (seen s).live q)
live-sample_free p s q = ground arith

unfoldable pub sample_ilog2 : ℕ → ℕ
sample_ilog2 n = if leb 1024 n then 10 else 0

pub pow-sample_ilog2-le : (n : ℕ) → 0 < n → 2 ^ sample_ilog2 n ≤ n
unfolding sample_ilog2
pow-sample_ilog2-le n h = elim (Bool-cases (leb 1024 n)) [
  | inl big ↦ rw (big, sample_ilog2) (ground arith)
  | inr small ↦ rw (small, sample_ilog2) (omega arith)
]

abbrev pub sample_memory : Memory
sample_memory = record {
  State = Store;
  view = seen;
  max_order = 10;
  ilog2 = sample_ilog2;
  alloc_pages = sample_alloc;
  alloc_pages_bulk = sample_bulk;
  free_page = sample_free;
  clear_highpage = λ p s. record s { content = λ q. if q == p then 0 else s.content q };
  copy_highpage = λ p r s. record s { content = λ q. if q == p then s.content r else s.content q };
  kmalloc = λ s. (true, record s { objects = s.objects + 1 });
  kfree = λ s. record s { objects = s.objects - 1 };
  fatal_signal_pending = λ s. false;
  pow-ilog2-le = pow-sample_ilog2-le;
  alloc_pages-Grant = sample_alloc-Grant;
  alloc_pages_bulk-Grant = sample_bulk-Grant;
  length-alloc_pages_bulk = length-sample_bulk;
  live-free_page = live-sample_free;
  content-free_page = λ p s q ne. refl;
  objects-free_page = λ p s. refl;
  clear_highpage-view = λ p s. refl;
  copy_highpage-view = λ p r s. refl;
  kmalloc-view = λ s. refl;
  kfree-view = λ s. refl;
}

-- A store in which nothing was handed out yet, with the given number of pages.
abbrev pub fresh_store : ℕ → Store
fresh_store limit = record {
  next = 1;
  limit = limit + 1;
  freed = λ q. false;
  content = λ q. 0;
  objects = 0;
}
