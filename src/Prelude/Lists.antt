-- ===== src/Prelude/Lists.antt =====
-- Arrays as lists measured and indexed by native numbers, under the library's names.
use Prim.Native.Nat.{ℕ, zero, suc, ◌+◌, ◌-◌, ◌≤◌, ◌<◌}
use mathlib.Core.Path.{◌≡◌, refl, sym, ap}
use mathlib.Core.Option.{Option, none, some}
use mathlib.Core.List.{List, [], ◌∷◌, ◌++◌}
use native.Mathlib.Omega.{arith}
use native.Mathlib.Numerals.{add-one, sub-one}
use mathlib.Core.Bool.{◌&&◌}
use cring.Prelude.Tests.{leb, ltb, ◌==◌, if◌then◌else◌}

module _ {ℓ} {A : Type ℓ} where
  abbrev pub get_elem? : List A → ℕ → Option A
  get_elem? [] i = none
  get_elem? (x ∷ xs) zero = some x
  get_elem? (x ∷ xs) (suc i) = get_elem? xs i

  abbrev pub length : List A → ℕ
  length [] = 0
  length (_ ∷ xs) = suc (length xs)

  abbrev pub get_or : List A → ℕ → A → A
  get_or [] _ d = d
  get_or (x ∷ _) zero _ = x
  get_or (_ ∷ xs) (suc i) d = get_or xs i d

  -- A write out of bounds changes nothing.
  abbrev pub set : List A → ℕ → A → List A
  set [] _ _ = []
  set (_ ∷ xs) zero v = v ∷ xs
  set (x ∷ xs) (suc i) v = x ∷ set xs i v

  abbrev pub take : ℕ → List A → List A
  take zero _ = []
  take (suc n) [] = []
  take (suc n) (x ∷ xs) = x ∷ take n xs

  pub length-append : (xs ys : List A) → length (xs ++ ys) ≡ length xs + length ys
  length-append [] ys = omega arith
  length-append (x ∷ xs) ys = omega (arith, length-append xs ys)

  pub length-set : (xs : List A) (i : ℕ) (v : A) → length (set xs i v) ≡ length xs
  length-set [] i v = refl
  length-set (x ∷ xs) zero v = refl
  length-set (x ∷ xs) (suc i) v = ap suc (length-set xs i v)

  pub get_or-set :
      (xs : List A) (i j : ℕ) (v d : A)
      → i < length xs
      → get_or (set xs i v) j d ≡ (if i == j then v else get_or xs j d)
  get_or-set [] i j v d h = absurd (omega arith)
  get_or-set (x ∷ xs) zero zero v d h = refl
  get_or-set (x ∷ xs) zero (suc j) v d h = ground arith
  get_or-set (x ∷ xs) (suc i) zero v d h = ground arith
  get_or-set (x ∷ xs) (suc i) (suc j) v d h = ground (arith, get_or-set xs i j v d)

  pub get_or-set_self :
      (xs : List A) (i : ℕ) (v d : A) → i < length xs → get_or (set xs i v) i d ≡ v
  get_or-set_self [] i v d h = absurd (omega arith)
  get_or-set_self (x ∷ xs) zero v d h = refl
  get_or-set_self (x ∷ xs) (suc i) v d h = get_or-set_self xs i v d (omega arith)

  -- Writing back what is there changes nothing.
  pub set-get_or : (xs : List A) (i : ℕ) (d : A) → set xs i (get_or xs i d) ≡ xs
  set-get_or [] i d = refl
  set-get_or (x ∷ xs) zero d = refl
  set-get_or (x ∷ xs) (suc i) d = ap (λ ys. x ∷ ys) (set-get_or xs i d)

abbrev pub count : ℕ → List ℕ → ℕ
count a [] = 0
count a (x ∷ xs) = (if x == a then 1 else 0) + count a xs

pub count-append :
    (item : ℕ) (front back : List ℕ)
    → count item (front ++ back) ≡ count item front + count item back
count-append item [] back = omega arith
count-append item (head ∷ front) back = omega (arith, count-append item front back)

-- The first `n + 1` items are the first `n` and the item at `n`.
pub count-take-suc :
    (a : ℕ) (xs : List ℕ) (n : ℕ)
    → n < length xs
    → count a (take (suc n) xs) ≡ count a (take n xs) + (if get_or xs n 0 == a then 1 else 0)
count-take-suc a [] n h = absurd (omega arith)
count-take-suc a (x ∷ xs) zero h = omega arith
count-take-suc a (x ∷ xs) (suc n) h = omega (arith, count-take-suc a xs n)

-- The items below an index do not see a write at it.
pub take-set_self : (xs : List ℕ) (n v : ℕ) → take n (set xs n v) ≡ take n xs
take-set_self [] n v = refl
take-set_self (x ∷ xs) zero v = refl
take-set_self (x ∷ xs) (suc n) v = ap (λ ys. x ∷ ys) (take-set_self xs n v)

-- Popping an item off the first `n`, and pushing one.
pub count-take-pred :
    (a : ℕ) (xs : List ℕ) (n : ℕ)
    → 0 < n
    → n ≤ length xs
    → count a (take (n - 1) xs) + (if get_or xs (n - 1) 0 == a then 1 else 0) ≡ count a (take n xs)
count-take-pred a xs zero lo hi = elim lo [ ]
count-take-pred a xs (suc n) lo hi = rw sub-one (sym (count-take-suc a xs n hi))

pub count-take-set :
    (a : ℕ) (xs : List ℕ) (n v : ℕ)
    → n < length xs
    → count a (take (n + 1) (set xs n v)) ≡ (if v == a then 1 else 0) + count a (take n xs)
count-take-set a xs n v h = rw add-one (
    omega (
      arith,
      count-take-suc a (set xs n v) n (omega (arith, length-set xs n v)),
      ap (count a) (take-set_self xs n v),
      ap {B = ℕ} (λ t. if t == a then 1 else 0) (get_or-set_self xs n v 0 h),
    ))

-- `k, k + 1, ..., k + n - 1`
abbrev pub range_from : ℕ → ℕ → List ℕ
range_from k zero = []
range_from k (suc n) = k ∷ range_from (suc k) n

pub length-range_from : (k n : ℕ) → length (range_from k n) ≡ n
length-range_from k zero = refl
length-range_from k (suc n) = ap suc (length-range_from (suc k) n)

pub get_or-range_from : (k n i : ℕ) → i < n → get_or (range_from k n) i 0 ≡ k + i
get_or-range_from k zero i h = absurd (omega arith)
get_or-range_from k (suc n) zero h = omega arith
get_or-range_from k (suc n) (suc i) h = omega (arith, get_or-range_from (suc k) n i)

pub count-range_from :
    (a k n : ℕ) → count a (range_from k n) ≡ (if leb k a && ltb a (k + n) then 1 else 0)
count-range_from a k zero = ground arith
count-range_from a k (suc n) = ground (arith, count-range_from a (suc k) n)

pub take-length {ℓ} : {A : Type ℓ} (xs : List A) → take (length xs) xs ≡ xs
take-length [] = refl
take-length (x ∷ xs) = ap (λ ys. x ∷ ys) (take-length xs)
