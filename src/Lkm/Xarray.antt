-- ===== src/Lkm/Xarray.antt =====
-- The kernel's xarray, which lkm/core/api.c uses for the threads of an allocator: an argument of the
-- model, with the documented behaviour as laws.
pub mod Sample
use shadow_stack_llvm.Prelude.{
  ℕ, ◌+◌, ◌≤◌, ◌≡◌, ◌≢◌, ◌⊎◌, Option, none, some, List, [], ◌∷◌, ◌==◌, if◌then◌else◌, All,
}
use shadow_stack_llvm.Lkm.Errno.{Ret, success, fail, ebusy}

-- What an index holds. xa_alloc with a NULL entry reserves it.
pub data Slot (V : Type 0) : Type 0 where
  free : Slot V
  reserved : Slot V
  entry : V → Slot V

-- xa_load, and what xa_erase returns: NULL unless there is an entry.
abbrev pub loaded : {V : Type 0} → Slot V → Option V
loaded free = none
loaded reserved = none
loaded (entry v) = some v

pub record Xarray (V : Type 0) : Type 1 where
  pub Array : Type 0
  pub slot : Array → ℕ → Slot V
  -- xa_alloc of a NULL entry between the limits, both included.
  pub xa_alloc : ℕ → ℕ → Array → Ret × ℕ × Array
  pub xa_insert : ℕ → V → Array → Ret × Array
  pub xa_store : ℕ → V → Array → Array
  pub xa_erase : ℕ → Array → Option V × Array
  -- How many entries there are.
  pub size : Array → ℕ
  pub size-same :
      (a b : Array) → ((j : ℕ) → loaded (slot a j) ≡ loaded (slot b j)) → size a ≡ size b
  pub size-entry :
      (i : ℕ) (v : V) (a b : Array)
      → slot a i ≡ free
      → ((j : ℕ) → slot b j ≡ (if j == i then entry v else slot a j))
      → size b ≡ size a + 1
  -- What xa_for_each visits, in its order.
  pub entries : Array → List (ℕ × V)
  pub entries-sound : (a : Array) → All (λ (e : ℕ × V). slot a e.0 ≡ entry e.1) (entries a)
  pub xa_alloc-ok :
      (lo hi : ℕ) (a : Array)
      → (xa_alloc lo hi a).0 ≡ success
      → let (_, id, a') = xa_alloc lo hi a in
        (slot a id ≡ free)
        × (lo ≤ id)
        × (id ≤ hi)
        × ((j : ℕ) → slot a' j ≡ (if j == id then reserved else slot a j))
  pub xa_alloc-failed :
      (lo hi : ℕ) (a : Array)
      → (xa_alloc lo hi a).0 ≢ success
      → (j : ℕ) → slot (xa_alloc lo hi a).2 j ≡ slot a j
  pub xa_insert-ok :
      (i : ℕ) (v : V) (a : Array)
      → (xa_insert i v a).0 ≡ success
      → (slot a i ≡ free)
        × ((j : ℕ) → slot (xa_insert i v a).1 j ≡ (if j == i then entry v else slot a j))
  pub xa_insert-failed :
      (i : ℕ) (v : V) (a : Array)
      → (xa_insert i v a).0 ≢ success
      → (j : ℕ) → slot (xa_insert i v a).1 j ≡ slot a j
  -- There is memory for an entry at a reserved index.
  pub xa_store-slot :
      (i : ℕ) (v : V) (a : Array)
      → slot a i ≡ reserved
      → (j : ℕ) → slot (xa_store i v a) j ≡ (if j == i then entry v else slot a j)
  pub xa_erase-loaded : (i : ℕ) (a : Array) → (xa_erase i a).0 ≡ loaded (slot a i)
  pub xa_erase-slot :
      (i : ℕ) (a : Array) (j : ℕ) → slot (xa_erase i a).1 j ≡ (if j == i then free else slot a j)
