-- ===== src/Lkm/FreeList/Race.antt =====
-- gl_alloc_stack and gl_free of lkm/core/api.c by several callers at once. A step is a section under
-- gl_lock or an access to gl_size outside of it; gl_free tests gl_size before it takes the lock.
pub mod Owners
mod Tests
use shadow_stack_llvm.Prelude.{
  ℕ, ◌+◌, ◌-◌, ◌≤◌, ◌<◌, ◌≡◌, ◌≢◌, Bool, false, Option, none, some, List, [], ◌∷◌, update,
}
use shadow_stack_llvm.Lkm.Memory.{is_mem}
use shadow_stack_llvm.Lkm.FreeList.{gl_sa_capacity}

-- gl_size and gl_sa. A stack is named by its struct sa_pagelist.
pub record Shared : Type 0 where
  pub gl_size : ℕ
  pub gl_sa : List ℕ

-- Where a caller stands.
pub data Pc : Type 0 where
  -- It has no stack.
  idle : Pc
  -- gl_alloc_stack has found the list empty and dropped the lock.
  allocating : Pc
  -- It has a stack, of which it may call gl_free.
  holds : (stack : ℕ) → Pc
  -- gl_free is past the test of gl_size, and is about to take the lock.
  passed : (stack : ℕ) → Pc

abbrev pub owned : Pc → Option ℕ
owned idle = none
owned allocating = none
owned (holds stack) = some stack
owned (passed stack) = some stack

pub record System : Type 0 where
  pub gl : Shared
  pub pc : ℕ → Pc

-- A step of one caller. A stack that is allocated anew is nobody else's.
pub data Move (s : System) : Pc → Shared → Pc → Type 0 where
  take :
      {stack : ℕ} {rest : List ℕ}
      → s.gl.gl_sa ≡ stack ∷ rest
      → Move s idle (record { gl_size = s.gl.gl_size - 1; gl_sa = rest }) (holds stack)
  empty : s.gl.gl_sa ≡ [] → Move s idle s.gl allocating
  new_stack :
      {stack : ℕ}
      → is_mem stack s.gl.gl_sa ≡ false
      → ((j : ℕ) → owned (s.pc j) ≢ some stack)
      → Move s allocating s.gl (holds stack)
  no_memory : Move s allocating s.gl idle
  full : {stack : ℕ} → gl_sa_capacity ≤ s.gl.gl_size → Move s (holds stack) s.gl idle
  pass : {stack : ℕ} → s.gl.gl_size < gl_sa_capacity → Move s (holds stack) s.gl (passed stack)
  insert :
      {stack : ℕ}
      → Move s
          (passed stack)
          (record { gl_size = s.gl.gl_size + 1; gl_sa = stack ∷ s.gl.gl_sa })
          idle

-- The callers are those with a number below `n`.
pub data Step (n : ℕ) (s : System) : System → Type 0 where
  pick :
      (i : ℕ) {gl : Shared} {p : Pc}
      → i < n
      → Move s (s.pc i) gl p
      → Step n s (record { gl = gl; pc = update s.pc i p })

pub data Reach (n : ℕ) (s : System) : System → Type 0 where
  stay : Reach n s s
  next : {t u : System} → Reach n s t → Step n t u → Reach n s u
