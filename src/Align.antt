-- ===== src/Align.antt =====
-- lib/Common.h: rounding up to a power of two by filling the bits below the highest one.
pub mod Power
use cring.Prelude.{ℕ, ◌+◌, ◌-◌, ◌/◌, ◌%◌, ◌^◌, bit_or}

-- `v |= v >> k`
abbrev smear : ℕ → ℕ → ℕ
smear k v = bit_or v (v / 2 ^ k)

-- `--v` on a `w`-bit unsigned integer.
abbrev dec_word : ℕ → ℕ → ℕ
dec_word w v = (v + 2 ^ w - 1) % 2 ^ w

unfoldable pub align64pow2 : ℕ → ℕ
align64pow2 v =
    let v0 = dec_word 64 v in
    let v1 = smear 1 v0 in
    let v2 = smear 2 v1 in
    let v3 = smear 4 v2 in
    let v4 = smear 8 v3 in let v5 = smear 16 v4 in let v6 = smear 32 v5 in (v6 + 1) % 2 ^ 64

unfoldable pub align32pow2 : ℕ → ℕ
align32pow2 x =
    let x0 = dec_word 32 x in
    let x1 = smear 1 x0 in
    let x2 = smear 2 x1 in
    let x3 = smear 4 x2 in let x4 = smear 8 x3 in let x5 = smear 16 x4 in (x5 + 1) % 2 ^ 32
