-- ===== src/DocSearch/Found.antt =====
-- docs/html/search: each name in the tables is found by the search.
use cring.Prelude.{
  ℕ, zero, suc, ◌+◌, ◌≡◌, refl, subst, List, [], ◌∷◌, map, Option, none, some, Bool, true, false,
  not, ◌&&◌, arith, Option-cases, inl, inr,
}
use cring.Prelude.{◌==◌, get_elem?, take}
use cring.DocSearch.Text.{
  Text, same_text, begins, strip_leading, strip_trailing, ascii_lower, is_ascii, hex, hex_digit,
}
use cring.DocSearch.Id.{convert_to_id, convert_unit}
use cring.DocSearch.Create.{Datum}
use cring.DocSearch.Box.Search.{index_of, is_high_surrogate}
use cring.DocSearch.Data.{index_sections_with_content}
use cring.DocSearch.Data.Tables.{search_tables}

-- The key that the results page makes of a name.
abbrev pub name_key : Text → Text
name_key name = convert_to_id (ascii_lower (strip_trailing name))

abbrev pub is_at : ℕ → Option ℕ → Bool
is_at k none = false
is_at k (some i) = i == k

-- In a table for the place `k` of a section, a name begins with the character there, and its id with
-- what is looked for.
abbrev pub is_ascii_datum : Datum → Bool
is_ascii_datum d =
    is_ascii d.name
    && (is_ascii (take 1 d.name) && (is_ascii (strip_trailing d.name) && is_ascii d.id))

abbrev pub is_found : Text → ℕ → Datum → Bool
is_found section k d =
    is_ascii_datum d
    && (not (is_high_surrogate (ascii_lower d.name))
        && (same_text (strip_leading d.name) d.name
            && (is_at k (index_of (ascii_lower (take 1 d.name)) section)
                && begins (name_key d.name) (ascii_lower d.id))))

-- A test of the elements with their places, from `k` on.
abbrev every : {A : Type 0} → (ℕ → A → Bool) → ℕ → List A → Bool
every p k [] = true
every p k (x ∷ xs) = p k x && every p (suc k) xs

abbrev is_found_table : Text → ℕ → List Datum → Bool
is_found_table section k table = every (λ j d. is_found section k d) 0 table

abbrev is_found_filter : ℕ → List (List Datum) → Bool
is_found_filter n tables = elim (get_elem? index_sections_with_content n) [
  | none ↦ false
  | some section ↦ every (is_found_table section) 0 tables
]

search_tables-found : every is_found_filter 0 search_tables ≡ true
unfolding convert_to_id convert_unit hex hex_digit begins index_of
search_tables-found = refl

pub left_true : (a b : Bool) → (a && b) ≡ true → a ≡ true
left_true true b h = refl
left_true false b h = h

pub right_true : (a b : Bool) → (a && b) ≡ true → b ≡ true
right_true true b h = h
right_true false b h = absurd (ground (arith, h))

abbrev Holds : {A : Type 0} → (A → Bool) → Option A → Type 0
Holds p none = Unit {0}
Holds p (some x) = p x ≡ true

every-at :
    {A : Type 0} (p : ℕ → A → Bool) (k : ℕ) (xs : List A) (i : ℕ)
    → every p k xs ≡ true
    → Holds (p (k + i)) (get_elem? xs i)
every-at p k [] i h = tt
every-at p k (x ∷ xs) zero h =
    subst (λ (m : ℕ). p m x ≡ true) (omega arith) (left_true (p k x) (every p (suc k) xs) h)
every-at p k (x ∷ xs) (suc i) h =
    subst (λ (m : ℕ). Holds (p m) (get_elem? xs i)) {x = suc k + i} (omega arith)
      (every-at p (suc k) xs i (right_true (p k x) (every p (suc k) xs) h))

every-get_elem? :
    {A : Type 0} (p : ℕ → A → Bool) (xs : List A) (i : ℕ) (x : A)
    → every p 0 xs ≡ true
    → get_elem? xs i ≡ some x
    → p i x ≡ true
every-get_elem? p xs i x h e =
    subst (λ (m : ℕ). p m x ≡ true) (omega arith)
      (subst (Holds (p (0 + i))) e (every-at p 0 xs i h))

-- What the tests of a filter, a table and a datum say.
section_found :
    (n : ℕ) (tables : List (List Datum))
    → get_elem? search_tables n ≡ some tables
    → (section : Text) × (get_elem? index_sections_with_content n ≡ some section)
      × (every (is_found_table section) 0 tables ≡ true)
section_found n tables f =
    let filter = every-get_elem? is_found_filter search_tables n tables search_tables-found f in
    elim (Option-cases (get_elem? index_sections_with_content n)) [
      | inl e ↦ absurd (ground (arith, rw e at filter))
      | inr (section, e) ↦ (section, e, rw e at filter)
    ]

pub datum_found :
    (n k j : ℕ) (tables : List (List Datum)) (table : List Datum) (d : Datum)
    → get_elem? search_tables n ≡ some tables
    → get_elem? tables k ≡ some table
    → get_elem? table j ≡ some d
    → (section : Text) × (get_elem? index_sections_with_content n ≡ some section)
      × (is_found section k d ≡ true)
datum_found n k j tables table d f t e =
    let (section, s, filter) = section_found n tables f in
    (
      section,
      s,
      every-get_elem? (λ j d. is_found section k d) table j d
          (every-get_elem? (is_found_table section) tables k table filter t) e,
    )

pub get_elem?-map :
    {A B : Type 0} (f : A → B) (xs : List A) (i : ℕ) (x : A)
    → get_elem? xs i ≡ some x
    → get_elem? (map f xs) i ≡ some (f x)
get_elem?-map f [] i x e = absurd (ground arith)
get_elem?-map f (y ∷ xs) zero x e =
    subst (λ o. some (f y) ≡ elim o [ none ↦ none | some z ↦ some (f z) ]) e refl
get_elem?-map f (y ∷ xs) (suc i) x e = get_elem?-map f xs i x e
