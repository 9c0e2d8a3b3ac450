-- ===== src/DocSearch/Id.antt =====
-- search.js: `convertToId`, and the search for a prefix of an id.
use cring.Prelude.{
  ℕ, suc, ◌/◌, ◌%◌, ◌≤◌, ◌<◌, ◌≡◌, ◌≢◌, ◌↔◌, inl, inr, refl, sym, ap, ap₂, ◌∙◌, [], ◌∷◌, ◌++◌, Bool,
  true, false, ◌&&◌, ◌||◌, arith,
}
use cring.Prelude.{leb, ltb, if◌then◌else◌, Bool-cases}
use mathlib.Core.List.{append_assoc, append-nil}
use cring.DocSearch.Text.{Text, hex, hex_digit, same_text, begins}

-- `c.match(/[a-z0-9\u0080-\uFFFF]/)`, for a code unit.
abbrev pub is_kept : ℕ → Bool
is_kept c = (leb b'a' c && leb c b'z') || (leb b'0' c && leb c b'9') || leb 0x80 c

-- A round of the loop: a code unit has at most four hexadecimal digits.
unfoldable pub convert_unit : ℕ → Text
convert_unit c =
    if is_kept c then c ∷ [] else if ltb c 16 then b'_' ∷ b'0' ∷ hex 3 c else b'_' ∷ hex 3 c

unfoldable pub convert_to_id : Text → Text
unfolding convert_unit
convert_to_id [] = []
convert_to_id (c ∷ s) = convert_unit c ++ convert_to_id s

hex-small : (k n : ℕ) → n < 16 → hex (suc k) n ≡ hex_digit n ∷ []
unfolding hex
hex-small k n lt = ground arith

not_small : (n : ℕ) → 16 ≤ n → ltb n 16 ≡ false
not_small n ge = ground arith

hex_digit-zero : hex_digit 0 ≡ b'0'
unfolding hex_digit
hex_digit-zero = refl

convert_unit-first :
    (c : ℕ) → is_kept c ≡ false → ltb c 16 ≡ true → convert_unit c ≡ b'_' ∷ b'0' ∷ hex 3 c
unfolding convert_unit
convert_unit-first c e l = rw (e, l)

convert_unit-second :
    (c : ℕ) → is_kept c ≡ false → ltb c 16 ≡ false → convert_unit c ≡ b'_' ∷ hex 3 c
unfolding convert_unit
convert_unit-second c e l = rw (e, l)

hex-two :
    (k n : ℕ)
    → 16 ≤ n
    → n < 256
    → hex (suc (suc k)) n ≡ hex_digit (n / 16) ∷ hex_digit (n % 16) ∷ []
hex-two k n ge lt =
    last_digit ∙ ap (λ t. t ++ (hex_digit (n % 16) ∷ [])) (hex-small k (n / 16) (omega arith))
  where
    last_digit : hex (suc (suc k)) n ≡ hex (suc k) (n / 16) ++ (hex_digit (n % 16) ∷ [])
    last_digit = unfold hex in rw (not_small n ge) refl

-- What is not kept becomes an underscore and two digits.
convert_unit-escaped :
    (c : ℕ)
    → is_kept c ≡ false
    → convert_unit c ≡ b'_' ∷ hex_digit (c / 16) ∷ hex_digit (c % 16) ∷ []
convert_unit-escaped c e = elim (Bool-cases (ltb c 16)) [
  | inl small ↦
      let lt : c < 16 = ground arith in
      let high : c / 16 ≡ 0 = omega arith in
      let low : c % 16 ≡ c = omega arith in
      convert_unit-first c e small
      ∙ ap₂ (λ x t. b'_' ∷ x ∷ t) (sym hex_digit-zero ∙ ap hex_digit (sym high))
          (hex-small 2 c lt ∙ ap (λ x. hex_digit x ∷ []) (sym low))
  | inr large ↦
      convert_unit-second c e large ∙ ap (λ t. b'_' ∷ t) (hex-two 1 c (ground arith) (ground arith))
]

convert_unit-kept : (c : ℕ) → is_kept c ≡ true → convert_unit c ≡ c ∷ []
unfolding convert_unit
convert_unit-kept c e = rw e

hex_digit-injective : (m n : ℕ) → m < 16 → n < 16 → hex_digit m ≡ hex_digit n → m ≡ n
unfolding hex_digit
hex_digit-injective m n a b e = ground arith

-- The conversion of a code unit shows where it ends, and which unit it was.
convert_unit-injective :
    (c d : ℕ) (x y : Text) → convert_unit c ++ x ≡ convert_unit d ++ y → (c ≡ d) × (x ≡ y)
convert_unit-injective c d x y e = elim (Bool-cases (is_kept c)) [
  | inl kc ↦ elim (Bool-cases (is_kept d)) [
    | inl kd ↦
        let e' : c ∷ x ≡ d ∷ y = eq (convert_unit-kept c kc) (convert_unit-kept d kd) in (cc, cc)
    | inr ed ↦
        let e' : c ∷ x ≡ b'_' ∷ hex_digit (d / 16) ∷ hex_digit (d % 16) ∷ y =
          eq (convert_unit-kept c kc) (convert_unit-escaped d ed) in
        absurd (ground arith)
  ]
  | inr ec ↦ elim (Bool-cases (is_kept d)) [
    | inl kd ↦
        let e' : b'_' ∷ hex_digit (c / 16) ∷ hex_digit (c % 16) ∷ x ≡ d ∷ y =
          eq (convert_unit-escaped c ec) (convert_unit-kept d kd) in
        absurd (ground arith)
    | inr ed ↦
        let e' : b'_' ∷ hex_digit (c / 16) ∷ hex_digit (c % 16) ∷ x
            ≡ b'_' ∷ hex_digit (d / 16) ∷ hex_digit (d % 16) ∷ y =
          eq (convert_unit-escaped c ec) (convert_unit-escaped d ed) in
        (both (ground arith) (ground arith) (cc) (cc), cc)
  ]
]
  where
    eq : {s t : Text} → convert_unit c ≡ s → convert_unit d ≡ t → s ++ x ≡ t ++ y
    eq p q = ap (λ r. r ++ x) (sym p) ∙ e ∙ ap (λ r. r ++ y) q

    both :
        c < 128
        → d < 128
        → hex_digit (c / 16) ≡ hex_digit (d / 16)
        → hex_digit (c % 16) ≡ hex_digit (d % 16)
        → c ≡ d
    both lc ld h l = omega (
      arith,
      hex_digit-injective (c / 16) (d / 16) (omega arith) (omega arith) h,
      hex_digit-injective (c % 16) (d % 16) (omega arith) (omega arith) l,
    )

convert_unit-nonempty : (c : ℕ) (x : Text) → convert_unit c ++ x ≢ []
convert_unit-nonempty c x e = elim (Bool-cases (is_kept c)) [
  | inl kc ↦
      let e' : c ∷ x ≡ [] = ap (λ r. r ++ x) (sym (convert_unit-kept c kc)) ∙ e in absurd (cc)
  | inr ec ↦
      let e' : b'_' ∷ hex_digit (c / 16) ∷ hex_digit (c % 16) ∷ x ≡ [] =
        ap (λ r. r ++ x) (sym (convert_unit-escaped c ec)) ∙ e in
      absurd (cc)
]

convert_to_id-append : (s t : Text) → convert_to_id (s ++ t) ≡ convert_to_id s ++ convert_to_id t
unfolding convert_to_id
convert_to_id-append [] t = refl
convert_to_id-append (c ∷ s) t =
    ap (λ r. convert_unit c ++ r) (convert_to_id-append s t)
    ∙ sym (append_assoc (convert_unit c) (convert_to_id s) (convert_to_id t))

-- A name whose id begins with the id of `s` begins with `s`.
unconverted :
    (s t : Text) (u : Text)
    → convert_to_id t ≡ convert_to_id s ++ u
    → (rest : Text) × (t ≡ s ++ rest) × (convert_to_id rest ≡ u)
unfolding convert_to_id
unconverted [] t u e = (t, refl, e)
unconverted (c ∷ s) [] u e = absurd (
    convert_unit-nonempty c (convert_to_id s ++ u)
      (sym (e ∙ append_assoc (convert_unit c) (convert_to_id s) u)))
unconverted (c ∷ s) (d ∷ t) u e =
    let same =
      convert_unit-injective d c (convert_to_id t) (convert_to_id s ++ u)
        (e ∙ append_assoc (convert_unit c) (convert_to_id s) u) in
    let (rest, eq, last) = unconverted s t u same.1 in (rest, ap₂ (λ x r. x ∷ r) same.0 eq, last)

-- `convertToId` is injective.
pub convert_to_id-injective : (s t : Text) → convert_to_id s ≡ convert_to_id t → s ≡ t
convert_to_id-injective s t e =
    let (rest, eq, last) = unconverted t s [] (e ∙ sym (append-nil (convert_to_id t))) in
    eq ∙ ap (λ r. t ++ r) (unconverted_nil rest last) ∙ append-nil t
  where
    unconverted_nil : (r : Text) → convert_to_id r ≡ [] → r ≡ []
    unconverted_nil [] e = refl
    unconverted_nil (c ∷ r) e =
        absurd (convert_unit-nonempty c (convert_to_id r) (unfold convert_to_id in e))

pub same_text_sound : (s t : Text) → same_text s t ≡ true → s ≡ t
same_text_sound [] [] e = refl
same_text_sound [] (d ∷ t) e = absurd (cc)
same_text_sound (c ∷ s) [] e = absurd (cc)
same_text_sound (c ∷ s) (d ∷ t) e = ground (arith, same_text_sound s t)

begins_sound : (s t : Text) → begins s t ≡ true → (rest : Text) × (t ≡ s ++ rest)
unfolding begins
begins_sound [] t e = (t, refl)
begins_sound (c ∷ s) [] e = absurd (ground arith)
begins_sound (c ∷ s) (d ∷ t) e =
    let (rest, eq) = begins_sound s t (ground arith) in
    let same : d ≡ c = ground arith in (rest, ap₂ (λ x r. x ∷ r) same eq)

pub begins-append : (s t : Text) → begins s (s ++ t) ≡ true
unfolding begins
begins-append [] [] = refl
begins-append [] (d ∷ t) = ground arith
begins-append (c ∷ s) t = ground (arith, begins-append s t)

-- The test of the search between two converted texts holds exactly when the one begins with the other.
pub begins-convert_to_id :
    (s t : Text)
    → (begins (convert_to_id s) (convert_to_id t) ≡ true) ↔ ((rest : Text) × (t ≡ s ++ rest))
begins-convert_to_id s t = (sound, complete)
  where
    sound : begins (convert_to_id s) (convert_to_id t) ≡ true → (rest : Text) × (t ≡ s ++ rest)
    sound e =
        let (u, eq) = begins_sound (convert_to_id s) (convert_to_id t) e in
        let (rest, eq', _) = unconverted s t u eq in (rest, eq')

    complete : (rest : Text) × (t ≡ s ++ rest) → begins (convert_to_id s) (convert_to_id t) ≡ true
    complete (rest, e) =
        ap (λ x. begins (convert_to_id s) (convert_to_id x)) e
        ∙ ap (begins (convert_to_id s)) (convert_to_id-append s rest)
        ∙ begins-append (convert_to_id s) (convert_to_id rest)
