-- ===== src/Align/Power.antt =====
-- lib/Common.h: what the rounding functions return.
use cring.Prelude.{
  ℕ, zero, suc, ◌+◌, ◌-◌, ◌*◌, ◌/◌, ◌%◌, ◌^◌, ◌≤◌, ◌<◌, ◌≡◌, refl, sym, ap, ◌∙◌, bit_or, arith,
}
use cring.Prelude.{bit_or_high, bit_or_bounds, bit_or-zero, dec_le, pow-add, pow_pos}
use cring.Prelude.{log2_bounds}
use native.Mathlib.Nat.{
  pow-le-pow_right, two-pow-succ, div-lt_iff_lt-mul, lt-div-mul-add, suc-mul,
  lt_of_mul-lt-mul_right, div-eq_of_lt,
}
use native.Mathlib.Numerals.{sub-one}
use cring.Align.{smear, dec_word, align32pow2, align64pow2}

-- A word of `k` digits of which the upper `m` are all ones.
record IsFilled (k m v : ℕ) : Type 0 where
  short : v < 2 ^ k
  ones : 2 ^ k ≤ v + 2 ^ (k - m)

quotient_bounds :
    (p q m v : ℕ) → 0 < m → v < p * m → p * m ≤ v + q * m → (v / m < p) × (p ≤ v / m + q)
quotient_bounds p q m v a b c =
    let near : v < v / m * m + m = lt-div-mul-add a in
    let scaled : p * m < (v / m + q + 1) * m = omega arith in
    let above : p < v / m + q + 1 = lt_of_mul-lt-mul_right m scaled in
    ((div-lt_iff_lt-mul a).1 b, omega arith)

-- One round on a word of `m + j` digits.
fill :
    (j m q v : ℕ)
    → v < 2 ^ (m + j)
    → 2 ^ (m + j) ≤ v + 2 ^ j
    → 2 ^ j ≤ q * 2 ^ m
    → (smear m v < 2 ^ (m + j)) × (2 ^ (m + j) ≤ smear m v + q)
fill j m q v short ones wide =
    let n : 2 ^ (m + j) ≡ 2 ^ m * 2 ^ j = pow-add m j in
    let quot : (v / 2 ^ m < 2 ^ j) × (2 ^ j ≤ v / 2 ^ m + q) =
      quotient_bounds (2 ^ j) q (2 ^ m) v (pow_pos m) (omega arith) (omega arith) in
    let top : (2 ^ m - 1) * 2 ^ j + 2 ^ j ≡ 2 ^ (m + j) =
      below (2 ^ m) (2 ^ j) (pow_pos m) ∙ sym n in
    let r : ℕ = v - (2 ^ m - 1) * 2 ^ j in
    let split : (2 ^ m - 1) * 2 ^ j + r ≡ v = omega arith in
    let small : r < 2 ^ j = omega arith in
    let or_eq : smear m v ≡ (2 ^ m - 1) * 2 ^ j + bit_or r (v / 2 ^ m) =
      ap (λ t. bit_or t (v / 2 ^ m)) (sym split)
      ∙ bit_or_high j (2 ^ m - 1) r (v / 2 ^ m) small quot.0 in
    omega (arith, or_eq, bit_or_bounds j r (v / 2 ^ m) small quot.0)
  where
    below : (a b : ℕ) → 0 < a → (a - 1) * b + b ≡ a * b
    below zero b h = absurd (omega arith)
    below (suc a) b h = omega (arith, suc-mul a b, ap (λ (t : ℕ). t * b) (sub-one (suc a)))

-- Past the last digit there is nothing left to fill.
smear_full : (k m : ℕ) {v : ℕ} → k ≤ m → v < 2 ^ k → smear m v ≡ v
smear_full k m {v} le short =
    let big : 2 ^ k ≤ 2 ^ m = pow-le-pow_right (omega arith) le in
    ap (bit_or v) (div-eq_of_lt (omega arith)) ∙ bit_or-zero v

wide : (m k : ℕ) → 2 ^ (k - m) ≤ 2 ^ (k - (m + m)) * 2 ^ m
wide m k = rw (← pow-add (k - (m + m)) m) (pow-le-pow_right (omega arith) (omega arith))

smear-IsFilled : (k m : ℕ) {v : ℕ} → IsFilled k m v → IsFilled k (m + m) (smear m v)
smear-IsFilled k m {v} f = elim (dec_le m k) [
  | yes le ↦ inside le
  | no gt ↦ record {
    short = omega (arith, smear_full k m {v = v} (omega arith) f.short);
    ones = omega (arith, smear_full k m {v = v} (omega arith) f.short, pow_pos (k - (m + m)), past);
  }
]
  where
    past : k ≤ m → 2 ^ (k - m) ≡ 1
    past le = let e : k - m ≡ 0 = omega arith in rw e

    inside : m ≤ k → IsFilled k (m + m) (smear m v)
    inside le =
        let e : m + (k - m) ≡ k = omega arith in
        let filled : (smear m v < 2 ^ (m + (k - m)))
            × (2 ^ (m + (k - m)) ≤ smear m v + 2 ^ (k - (m + m))) =
          fill (k - m) m (2 ^ (k - (m + m))) v (rw e f.short) (rw e f.ones) (wide m k) in
        record { short = rw e at filled.0; ones = rw e at filled.1 }

-- The highest digit starts it, and five rounds fill a word of 32 digits.
first : (k v : ℕ) → 2 ^ k ≤ v → v < 2 ^ suc k → IsFilled (suc k) 1 v
first k v lo hi = record {
  short = hi;
  ones = omega (arith, two-pow-succ k, ap (λ (t : ℕ). 2 ^ t) (sub-one (suc k)));
}

rounds32 : ℕ → ℕ
rounds32 v = smear 16 (smear 8 (smear 4 (smear 2 (smear 1 v))))

rounds64 : ℕ → ℕ
rounds64 v = smear 32 (smear 16 (smear 8 (smear 4 (smear 2 (smear 1 v)))))

filled_all : (k m : ℕ) {v : ℕ} → k ≤ m → IsFilled k m v → v + 1 ≡ 2 ^ k
filled_all k m le f =
    let e : k - m ≡ 0 = omega arith in omega (arith, f.short, f.ones, ap (λ (t : ℕ). 2 ^ t) e)

rounds32_lem : (k v : ℕ) → k < 32 → 2 ^ k ≤ v → v < 2 ^ suc k → rounds32 v + 1 ≡ 2 ^ suc k
unfolding rounds32
rounds32_lem k v lt lo hi = filled_all (suc k) 32 lt (
    smear-IsFilled n 16 (
      smear-IsFilled n 8
        (smear-IsFilled n 4 (smear-IsFilled n 2 (smear-IsFilled n 1 (first k v lo hi))))))
  where
    n : ℕ
    n = suc k

rounds64_lem : (k v : ℕ) → k < 64 → 2 ^ k ≤ v → v < 2 ^ suc k → rounds64 v + 1 ≡ 2 ^ suc k
unfolding rounds64
rounds64_lem k v lt lo hi = filled_all (suc k) 64 lt (
    smear-IsFilled n 32 (
      smear-IsFilled n 16 (
        smear-IsFilled n 8
          (smear-IsFilled n 4 (smear-IsFilled n 2 (smear-IsFilled n 1 (first k v lo hi)))))))
  where
    n : ℕ
    n = suc k

-- `p` is the least power of two that is not below `x`.
pub record IsLeastPower (x p : ℕ) : Type 0 where
  pub exponent : ℕ
  pub power : p ≡ 2 ^ exponent
  pub above : x ≤ p
  pub least : p < 2 * x

align32pow2-rounds : (x : ℕ) → align32pow2 x ≡ (rounds32 (dec_word 32 x) + 1) % 2 ^ 32
unfolding align32pow2 rounds32
align32pow2-rounds x = refl

align64pow2-rounds : (x : ℕ) → align64pow2 x ≡ (rounds64 (dec_word 64 x) + 1) % 2 ^ 64
unfolding align64pow2 rounds64
align64pow2-rounds x = refl

align32pow2-one : align32pow2 1 ≡ 1
unfolding align32pow2
align32pow2-one = refl

align64pow2-one : align64pow2 1 ≡ 1
unfolding align64pow2
align64pow2-one = refl

-- For 0 < x <= 2^31, `align32pow2` returns the least power of two that is not below x.
pub align32pow2-IsLeastPower : (x : ℕ) → 0 < x → x ≤ 2 ^ 31 → IsLeastPower x (align32pow2 x)
align32pow2-IsLeastPower zero lo hi = elim lo [ ]
align32pow2-IsLeastPower (suc zero) lo hi = record {
  exponent = 0;
  power = align32pow2-one;
  above = omega (arith, align32pow2-one);
  least = omega (arith, align32pow2-one);
}
align32pow2-IsLeastPower (suc (suc x)) lo hi =
    let (k, lt, ge, below) = log2_bounds 31 (suc x) (omega arith) (omega arith) in
    let v : dec_word 32 (suc (suc x)) ≡ suc x = omega arith in
    let small : 2 ^ suc k ≤ 2 ^ 31 = pow-le-pow_right (omega arith) lt in
    let eq : align32pow2 (suc (suc x)) ≡ 2 ^ suc k = omega (
      arith,
      align32pow2-rounds (suc (suc x)),
      ap rounds32 v,
      rounds32_lem k (suc x) (omega arith) ge below,
    ) in
    record {
      exponent = suc k;
      power = eq;
      above = omega (arith, eq);
      least = omega (arith, eq, two-pow-succ k);
    }

-- Past 2^31 there is no room for the next power: `align32pow2` wraps round to 0.
pub align32pow2-eq-zero : (x : ℕ) → 2 ^ 31 < x → x < 2 ^ 32 → align32pow2 x ≡ 0
align32pow2-eq-zero x lo hi =
    let v : dec_word 32 x ≡ x - 1 = omega arith in
    omega (
      arith,
      align32pow2-rounds x,
      ap rounds32 v,
      rounds32_lem 31 (x - 1) (omega arith) (omega arith) (omega arith),
    )

-- For 0 < v <= 2^63, `align64pow2` returns the least power of two that is not below v.
pub align64pow2-IsLeastPower : (x : ℕ) → 0 < x → x ≤ 2 ^ 63 → IsLeastPower x (align64pow2 x)
align64pow2-IsLeastPower zero lo hi = elim lo [ ]
align64pow2-IsLeastPower (suc zero) lo hi = record {
  exponent = 0;
  power = align64pow2-one;
  above = omega (arith, align64pow2-one);
  least = omega (arith, align64pow2-one);
}
align64pow2-IsLeastPower (suc (suc x)) lo hi =
    let (k, lt, ge, below) = log2_bounds 63 (suc x) (omega arith) (omega arith) in
    let v : dec_word 64 (suc (suc x)) ≡ suc x = omega arith in
    let small : 2 ^ suc k ≤ 2 ^ 63 = pow-le-pow_right (omega arith) lt in
    let eq : align64pow2 (suc (suc x)) ≡ 2 ^ suc k = omega (
      arith,
      align64pow2-rounds (suc (suc x)),
      ap rounds64 v,
      rounds64_lem k (suc x) (omega arith) ge below,
    ) in
    record {
      exponent = suc k;
      power = eq;
      above = omega (arith, eq);
      least = omega (arith, eq, two-pow-succ k);
    }
