-- ===== src/Prelude/Bits.antt =====
-- The laws of `|` on words, from the digit recursion that the native operation stands for.
use Prim.Native.Nat.{
  ℕ, zero, suc, ◌+◌, ◌*◌, ◌/◌, ◌%◌, ◌^◌, ◌≤◌, ◌<◌, max, bit_or, digits, bit_or-bitwise,
}
use mathlib.Core.Path.{◌≡◌, refl, sym, ap}
use native.Mathlib.Decide.{dec_lt}
use native.Mathlib.Nat.{zero-add, suc-add, two-pow-succ}
use native.Mathlib.Omega.{arith}

-- The recursion with any fuel of at least the left operand has the value of `|`; `bound` is at least the
-- fuel.
or_fuel :
    (bound fuel left right : ℕ)
    → fuel ≤ bound
    → left ≤ fuel
    → digits (λ low. low) max fuel left right ≡ bit_or left right
or_fuel bound zero zero right _ _ = sym (bit_or-bitwise zero right)
or_fuel bound (suc fuel) zero right _ _ = sym (bit_or-bitwise zero right)
or_fuel bound zero (suc left) right _ enough = absurd (omega arith)
or_fuel zero (suc fuel) (suc left) right bounded _ = absurd (omega arith)
or_fuel (suc bound) (suc fuel) (suc left) right bounded enough =
    let given = or_fuel bound fuel (suc left / 2) (right / 2) (omega arith) (omega arith) in
    let own = or_fuel bound left (suc left / 2) (right / 2) (omega arith) (omega arith) in
    omega (arith, given, own, bit_or-bitwise (suc left) right)

pub zero-bit_or : (b : ℕ) → bit_or 0 b ≡ b
zero-bit_or b = bit_or-bitwise 0 b

-- The lowest digit of `a | b`.
bit_or_lowest : (a b : ℕ) → max (a % 2) (b % 2) + 2 * bit_or (a / 2) (b / 2) ≡ bit_or a b
bit_or_lowest zero b = omega (arith, zero-bit_or b, zero-bit_or (b / 2))
bit_or_lowest (suc a) b =
    omega
      (arith, or_fuel a a (suc a / 2) (b / 2) (omega arith) (omega arith), bit_or-bitwise (suc a) b)

bit_or-zero_fuel : (n a : ℕ) → a ≤ n → bit_or a 0 ≡ a
bit_or-zero_fuel n zero h = refl
bit_or-zero_fuel zero (suc a) h = absurd (omega arith)
bit_or-zero_fuel (suc n) (suc a) h =
    omega (arith, bit_or_lowest (suc a) 0, bit_or-zero_fuel n (suc a / 2) (omega arith))

pub bit_or-zero : (a : ℕ) → bit_or a 0 ≡ a
bit_or-zero a = bit_or-zero_fuel a a (omega arith)

-- The digits from `j` on are those of the left operand, if the right one has none there.
pub bit_or_high :
    (j h r w : ℕ) → r < 2 ^ j → w < 2 ^ j → bit_or (h * 2 ^ j + r) w ≡ h * 2 ^ j + bit_or r w
bit_or_high zero h zero zero p q = omega (arith, bit_or-zero (h * 1 + 0), bit_or-zero 0)
bit_or_high zero h zero (suc w) p q = absurd (omega arith)
bit_or_high zero h (suc r) w p q = absurd (omega arith)
bit_or_high (suc j) h r w p q =
    let e : 2 ^ suc j ≡ 2 ^ j + 2 ^ j = two-pow-succ j in
    let d : h * 2 ^ suc j ≡ h * 2 ^ j + h * 2 ^ j = rw e (omega arith) in
    let half : (h * 2 ^ suc j + r) / 2 ≡ h * 2 ^ j + r / 2 = omega arith in
    let odd : (h * 2 ^ suc j + r) % 2 ≡ r % 2 = omega arith in
    rw (sym (bit_or_lowest (h * 2 ^ suc j + r) w), half, odd)
      (omega
        (arith, bit_or_high j h (r / 2) (w / 2) (omega arith) (omega arith), bit_or_lowest r w))

-- `|` sets every digit of its right operand, and no digit that neither has.
pub bit_or_bounds : (j r w : ℕ) → r < 2 ^ j → w < 2 ^ j → (w ≤ bit_or r w) × (bit_or r w < 2 ^ j)
bit_or_bounds zero zero zero p q = omega (arith, bit_or-zero 0)
bit_or_bounds zero zero (suc w) p q = absurd (omega arith)
bit_or_bounds zero (suc r) w p q = absurd (omega arith)
bit_or_bounds (suc j) r w p q =
    let e : 2 ^ suc j ≡ 2 ^ j + 2 ^ j = two-pow-succ j in
    omega (arith, bit_or_lowest r w, bit_or_bounds j (r / 2) (w / 2) (omega arith) (omega arith))

-- `2 ^ (i + j)`, and the order of the powers.
pub pow-add : (i j : ℕ) → 2 ^ (i + j) ≡ 2 ^ i * 2 ^ j
pow-add zero j = omega (arith, ap (λ (t : ℕ). 2 ^ t) (zero-add j))
pow-add (suc i) j = omega (
  arith,
  pow-add i j,
  two-pow-succ (i + j),
  ap (λ (t : ℕ). 2 ^ t) (suc-add i j),
  ap (λ (t : ℕ). t * 2 ^ j) (two-pow-succ i),
)

pub pow_pos : (i : ℕ) → 0 < 2 ^ i
pow_pos zero = omega arith
pow_pos (suc i) = omega (arith, pow_pos i, two-pow-succ i)

-- Between two neighbouring powers of two lies every positive number.
pub log2_bounds : (n v : ℕ) → 0 < v → v < 2 ^ n → (k : ℕ) × (k < n) × (2 ^ k ≤ v) × (v < 2 ^ suc k)
log2_bounds zero v p q = absurd (omega arith)
log2_bounds (suc n) v p q = elim (dec_lt v (2 ^ n)) [
  | yes low ↦ let (k, a, b, c) = log2_bounds n v p low in (k, omega arith, b, c)
  | no high ↦ (n, omega arith, omega arith, q)
]
