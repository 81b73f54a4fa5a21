-- ===== src/Lkm/System/Spec.antt =====
-- What the calls of lkm/core/api.c promise, as changes of a map from an allocator and a number to the
-- thread; nothing is said of references, free stacks or page tables.
use shadow_stack_llvm.Prelude.{
  ℕ, ◌≡◌, Bool, true, false, not, Option, none, some, ◌==◌, ◌&&◌, if◌then◌else◌,
}
use shadow_stack_llvm.Lkm.Errno.{Ret, failed}
use shadow_stack_llvm.Lkm.Layout.{addr_to_id, id_to_addr}
use shadow_stack_llvm.Lkm.FreeList.Invariant.{Disjoint}
use shadow_stack_llvm.Lkm.Threads.{ThreadDesc}
use shadow_stack_llvm.Lkm.System.View.{ThreadMap}

-- A call, with the allocator that the table has for the calling process, and what it returns.
pub data Op : Type 0 where
  creates destroys : Op
  allocates : (own : Option ℕ) → (pid : ℕ) → Ret → Op
  forks : (own : Option ℕ) → (pid : ℕ) → Ret → Op
  frees : (own : Option ℕ) → (addr : ℕ) → Ret → Op

abbrev pub served : Op → Bool
served creates = false
served destroys = false
served (allocates own pid ret) = not (failed ret)
served (forks own pid ret) = not (failed ret)
served (frees own addr ret) = not (failed ret)

abbrev pub own_of : Op → Option ℕ
own_of creates = none
own_of destroys = none
own_of (allocates own pid ret) = own
own_of (forks own pid ret) = own
own_of (frees own addr ret) = own

-- The thread that gets a stack, and the number that loses its one.
abbrev pub newcomer : Op → Option ℕ
newcomer (allocates own pid ret) = some pid
newcomer (forks own pid ret) = some pid
newcomer _ = none

abbrev pub leaver : Op → Option ℕ
leaver (frees own addr ret) = some (addr_to_id addr)
leaver _ = none

-- A call that returns 0 changes one number of the calling process' allocator, and any other call none:
-- the number was free and has the thread of the call, at the number's address and with a stack that
-- has no page of another thread's, or it was in use and is free.
pub data Spec (op : Op) (before after : ThreadMap) : Type 0 where
  kept : served op ≡ false → ((q j : ℕ) → after q j ≡ before q j) → Spec op before after
  started :
      served op ≡ true
      → (p id : ℕ) (w : ThreadDesc) → own_of op ≡ some p
      → newcomer op ≡ some w.tid
      → w.addr ≡ id_to_addr id
      → before p id ≡ none
      → ((q j : ℕ) (u : ThreadDesc) → before q j ≡ some u → Disjoint w.pagelist u.pagelist)
      → ((q j : ℕ) → after q j ≡ (if (q == p) && (j == id) then some w else before q j))
      → Spec op before after
  ended :
      served op ≡ true
      → (p id : ℕ) (w : ThreadDesc) → own_of op ≡ some p
      → leaver op ≡ some id
      → before p id ≡ some w
      → ((q j : ℕ) → after q j ≡ (if (q == p) && (j == id) then none else before q j))
      → Spec op before after
