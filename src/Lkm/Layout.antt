-- ===== src/Lkm/Layout.antt =====
-- lkm/include/api.h and the head of lkm/core/api.c: where the shadow stacks lie. Addresses are 64-bit
-- words, thread numbers 32-bit words, each with its wrap-around.
mod Tests
use shadow_stack_llvm.Prelude.{
  ℕ, ◌+◌, ◌-◌, ◌*◌, ◌/◌, ◌%◌, ◌^◌, ◌≤◌, ◌<◌, ◌≡◌, ◌≢◌, refl, ◌⊎◌, ◌↔◌, Bool, true, false, ◌||◌, not,
  arith, ltb, leb, ◌==◌,
}

abbrev pub ss_start : ℕ
ss_start = 0xffffeb0000000000

abbrev pub ss_end : ℕ
ss_end = 0xfffffc0000000000

abbrev pub ss_size : ℕ
ss_size = 8 * 1024 * 1024

abbrev pub threads_limit : ℕ
threads_limit = (ss_end - ss_start) / ss_size

abbrev pub page_shift : ℕ
page_shift = 12

abbrev pub page_size : ℕ
page_size = 2 ^ page_shift

abbrev pub sub64 : ℕ → ℕ → ℕ
sub64 a b = (a + 2 ^ 64 - b) % 2 ^ 64

unfoldable pub addr_to_id : ℕ → ℕ
addr_to_id addr = sub64 addr ss_start / ss_size % 2 ^ 32

unfoldable pub id_to_addr : ℕ → ℕ
id_to_addr id = (ss_start + id * ss_size % 2 ^ 64) % 2 ^ 64

-- The guard of sa_free: the address cannot be one of a shadow stack.
unfoldable pub is_bad_addr : ℕ → Bool
is_bad_addr addr = ltb addr ss_start || leb ss_end addr || not (sub64 addr ss_start % ss_size == 0)

pub id_to_addr-linear : (i : ℕ) → i ≤ threads_limit → id_to_addr i ≡ ss_start + i * ss_size
unfolding id_to_addr
id_to_addr-linear i h = omega arith

stacks-apart :
    (i j : ℕ)
    → (i ≡ j) ⊎ (i * ss_size + ss_size ≤ j * ss_size) ⊎ (j * ss_size + ss_size ≤ i * ss_size)
stacks-apart i j = ground arith

-- Distinct numbers have stacks that share no byte, all of them inside the shadow area, and the
-- address of a stack gives its number back.
pub id_to_addr-layout :
    (i j : ℕ)
    → i < threads_limit
    → j < threads_limit
    → (ss_start ≤ id_to_addr i)
      × (id_to_addr i + ss_size ≤ ss_end)
      × (addr_to_id (id_to_addr i) ≡ i)
      × ((i ≡ j)
          ⊎ (id_to_addr i + ss_size ≤ id_to_addr j)
          ⊎ (id_to_addr j + ss_size ≤ id_to_addr i))
unfolding addr_to_id
id_to_addr-layout i j hi hj =
    rw (id_to_addr-linear i (omega arith), id_to_addr-linear j (omega arith))
      (omega arith, omega arith, omega arith, ground (arith, stacks-apart i j))

-- What the guard tests.
abbrev Aligned : ℕ → Type 0
Aligned addr = (ss_start ≤ addr) × (addr < ss_end) × ((addr - ss_start) % ss_size ≡ 0)

guard-Aligned : (addr : ℕ) → addr < 2 ^ 64 → (is_bad_addr addr ≡ false) ↔ Aligned addr
unfolding is_bad_addr
guard-Aligned addr h = (λ e. (ground arith, ground arith, ground arith), λ k. ground arith)

-- sa_free's guard lets an address pass exactly when it is the address of a thread number below the
-- limit, and that number is the one that sa_free computes.
pub is_bad_addr_iff :
    (addr : ℕ)
    → addr < 2 ^ 64
    → (is_bad_addr addr ≡ false)
      ↔ ((addr_to_id addr < threads_limit) × (id_to_addr (addr_to_id addr) ≡ addr))
unfolding addr_to_id id_to_addr
is_bad_addr_iff addr h = (
  λ e. let a = (guard-Aligned addr h).0 e in (omega (arith, a), omega (arith, a)),
  λ k. (guard-Aligned addr h).1 (omega (arith, k), omega (arith, k), omega (arith, k)),
)

-- XA_LIMIT(0, THREADS_LIMIT) includes its upper end: a thread that is given that number is told an
-- address that sa_free refuses.
pub last_id-is_bad : is_bad_addr (id_to_addr threads_limit) ≡ true
unfolding is_bad_addr id_to_addr
last_id-is_bad = refl
