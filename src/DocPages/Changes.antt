-- ===== src/DocPages/Changes.antt =====
-- What changes of selections leave of a document, for any part of an element that is looked at.
use cring.Prelude.{
  ℕ, List, [], ◌∷◌, ◌≡◌, refl, ap, ◌∙◌, Bool, false, ◌||◌, arith, Bool-cases, inl, inr,
}
use cring.Prelude.{◌==◌, if◌then◌else◌}
use cring.DocPages.Query.{Query, QueryLaws, Element, Change, changed}
use cring.DocPages.Sections.{all}

abbrev pub mem : ℕ → List ℕ → Bool
mem j [] = false
mem j (e ∷ es) = e == j || mem j es

-- The part of an element that is looked at stays as it is.
abbrev pub Keeps : {A : Type 0} → (Element → A) → Change → Type 0
Keeps look c = (e : Element) → look (changed c e) ≡ look e

-- It gets the value `v`.
abbrev pub Sets : {A : Type 0} → (Element → A) → A → Change → Type 0
Sets look v c = (e : Element) → look (changed c e) ≡ v

module _ {D A : Type 0} {Q : Query D} (L : QueryLaws Q) (look : Element → A) where
  pub apply-Keeps :
      (c : Change) (e : ℕ) (d : D) (j : ℕ)
      → Keeps look c
      → look (Q.read (Q.apply c e d) j) ≡ look (Q.read d j)
  apply-Keeps c e d j k = elim (Bool-cases (e == j)) [
    | inl h ↦ ap look (L.read_apply c e d j) ∙ rw h (k (Q.read d j))
    | inr h ↦ ap look (L.read_apply c e d j) ∙ rw h refl
  ]

  pub apply-Sets :
      (c : Change) (v : A) (e : ℕ) (d : D) (j : ℕ)
      → Sets look v c
      → look (Q.read (Q.apply c e d) j) ≡ (if e == j then v else look (Q.read d j))
  apply-Sets c v e d j s = elim (Bool-cases (e == j)) [
    | inl h ↦ ap look (L.read_apply c e d j) ∙ rw h (s (Q.read d j))
    | inr h ↦ ap look (L.read_apply c e d j) ∙ rw h refl
  ]

  pub all-Keeps :
      (c : Change) (es : List ℕ) (d : D) (j : ℕ)
      → Keeps look c
      → look (Q.read (all Q c es d) j) ≡ look (Q.read d j)
  unfolding all
  all-Keeps c [] d j k = refl
  all-Keeps c (e ∷ es) d j k = all-Keeps c es (Q.apply c e d) j k ∙ apply-Keeps c e d j k

  pub all-Sets :
      (c : Change) (es : List ℕ) (d : D) (v : A) (j : ℕ)
      → Sets look v c
      → look (Q.read (all Q c es d) j) ≡ (if mem j es then v else look (Q.read d j))
  unfolding all
  all-Sets c [] d v j s = refl
  all-Sets c (e ∷ es) d v j s =
      all-Sets c es (Q.apply c e d) v j s ∙ rw (apply-Sets c v e d j s) (ground arith)

-- What no change moves, no change of a selection moves.
pub all-moves :
    {D A : Type 0} (Q : Query D) (look : D → A)
    → ((c : Change) (e : ℕ) (d : D) → look (Q.apply c e d) ≡ look d)
    → (c : Change) (es : List ℕ) (d : D) → look (all Q c es d) ≡ look d
unfolding all
all-moves Q look same c [] d = refl
all-moves Q look same c (e ∷ es) d = all-moves Q look same c es (Q.apply c e d) ∙ same c e d
