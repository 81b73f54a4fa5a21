-- ===== src/Prelude/Bits.antt =====
-- `bit_and` with a mask of the lowest bits, and with one of the bits above them.
use Prim.Native.Nat.{
  ℕ, zero, suc, ◌+◌, ◌-◌, ◌*◌, ◌/◌, ◌%◌, ◌≤◌, ◌<◌, min, bit_and, digits, bit_and-bitwise,
}
use mathlib.Core.Path.{◌≡◌, refl, ◌∙◌, ap}
use native.Mathlib.Omega.{arith}

-- One step of the recursion that `bit_and` stands for, with any count that is large enough.
abbrev both : ℕ → ℕ → ℕ → ℕ
both n a b = digits (λ b. zero) min n a b

both-none : (n b : ℕ) → both n zero b ≡ 0
both-none zero b = refl
both-none (suc n) b = refl

both-more : (n a b : ℕ) → a ≤ n → both (suc n) a b ≡ both n a b
both-more zero zero b h = refl
both-more zero (suc a) b h = absurd (omega (arith, h))
both-more (suc n) zero b h = refl
both-more (suc n) (suc a) b h =
    ap (λ r. r * 2 + min (suc a % 2) (b % 2)) (both-more n (suc a / 2) (b / 2) (omega (arith, h)))

both-enough : (k a b : ℕ) → both (a + k) a b ≡ both a a b
both-enough zero a b = let e : a + 0 ≡ a = omega arith in rw e refl
both-enough (suc k) a b =
    let e : a + suc k ≡ suc (a + k) = omega arith in
    rw e (both-more (a + k) a b (omega arith) ∙ both-enough k a b)

bit_and-halves : (a b : ℕ) → bit_and a b ≡ bit_and (a / 2) (b / 2) * 2 + min (a % 2) (b % 2)
bit_and-halves zero b =
    omega (arith, bit_and-bitwise 0 b, bit_and-bitwise (0 / 2) (b / 2), both-none (0 / 2) (b / 2))
bit_and-halves (suc a) b =
    let h = suc a / 2 in
    let rest : h + (a - h) ≡ a = omega arith in
    let e : both a h (b / 2) ≡ both h h (b / 2) = rw rest at (both-enough (a - h) h (b / 2)) in
    omega (arith, bit_and-bitwise (suc a) b, bit_and-bitwise h (b / 2), e)

both-zero : (n a : ℕ) → both n a 0 ≡ 0
both-zero zero a = refl
both-zero (suc n) zero = refl
both-zero (suc n) (suc a) = omega (arith, both-zero n (suc a / 2))

-- The number without its `k` lowest bits, these bits, and 2 to the `k`.
pub above : ℕ → ℕ → ℕ
above zero a = a
above (suc k) a = above k (a / 2)

pub lowest : ℕ → ℕ → ℕ
lowest zero a = 0
lowest (suc k) a = lowest k (a / 2) * 2 + a % 2

unfoldable pub power : ℕ → ℕ
power zero = 1
power (suc k) = power k * 2

pub above-lowest : (k a : ℕ) → power k * above k a + lowest k a ≡ a
unfolding above lowest power
above-lowest zero a = omega arith
above-lowest (suc k) a = omega (arith, above-lowest k (a / 2))

pub lowest-lt : (k a : ℕ) → lowest k a < power k
unfolding lowest power
lowest-lt zero a = omega arith
lowest-lt (suc k) a = omega (arith, lowest-lt k (a / 2))

unfoldable pub ones : ℕ → ℕ
ones zero = 0
ones (suc k) = ones k * 2 + 1

pub bit_and-ones : (k a : ℕ) → bit_and a (ones k) ≡ lowest k a
unfolding ones lowest
bit_and-ones zero a = omega (arith, bit_and-bitwise a 0, both-zero a a)
bit_and-ones (suc k) a =
    let h : (ones k * 2 + 1) / 2 ≡ ones k = omega arith in
    omega (arith, rw h at (bit_and-halves a (ones k * 2 + 1)), bit_and-ones k (a / 2))

-- A mask of bits from `k` on reads only those.
pub bit_and-shifted : (k a m : ℕ) → bit_and a (m * power k) ≡ bit_and (above k a) m * power k
unfolding above power
bit_and-shifted zero a m = let e : m * 1 ≡ m = omega arith in rw e (omega arith)
bit_and-shifted (suc k) a m =
    let h : m * (power k * 2) / 2 ≡ m * power k = omega arith in
    omega (arith, rw h at (bit_and-halves a (m * (power k * 2))), bit_and-shifted k (a / 2) m)

-- Numbers without a bit in common have none above either.
pub bit_and-above : (k a b : ℕ) → bit_and a b ≡ 0 → bit_and (above k a) (above k b) ≡ 0
unfolding above
bit_and-above zero a b e = e
bit_and-above (suc k) a b e = bit_and-above k (a / 2) (b / 2) (omega (arith, bit_and-halves a b, e))
