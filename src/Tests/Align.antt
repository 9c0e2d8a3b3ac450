-- ===== src/Tests/Align.antt =====
-- lib/Common.h on concrete words.
use cring.Prelude.{◌+◌, ◌^◌, ◌≡◌, refl, arith}
use cring.Align.{align32pow2, align64pow2}
use cring.Align.Power.{IsLeastPower, align32pow2-IsLeastPower, align64pow2-IsLeastPower}

align32pow2_runs :
    (align32pow2 11 ≡ 16)
    × (align32pow2 16 ≡ 16)
    × (align32pow2 0 ≡ 0)
    × (align32pow2 (2 ^ 31 + 1) ≡ 0)
unfolding align32pow2
align32pow2_runs = (refl, refl, refl, refl)

align64pow2_runs : (align64pow2 (2 ^ 40 + 1) ≡ 2 ^ 41) × (align64pow2 0 ≡ 0)
unfolding align64pow2
align64pow2_runs = (refl, refl)

align32pow2-IsLeastPower_example : IsLeastPower 41 (align32pow2 41)
align32pow2-IsLeastPower_example = align32pow2-IsLeastPower 41 (omega arith) (omega arith)

align64pow2-IsLeastPower_example : IsLeastPower 41 (align64pow2 41)
align64pow2-IsLeastPower_example = align64pow2-IsLeastPower 41 (omega arith) (omega arith)
