-- ===== src/DocPages/Stripes.antt =====
-- docs/html/dynsections.js: the stripes of a table.
use cring.Prelude.{
  ℕ, List, [], ◌∷◌, ◌≡◌, refl, ap, ap₂, ◌∙◌, map, Bool, true, false, not, ◌&&◌, arith, Bool-cases,
  inl, inr,
}
use cring.Prelude.{if◌then◌else◌}
use cring.DocPages.Query.{Query, QueryLaws, remove_class, even}
use cring.DocPages.Sections.{all, select, evens, update_stripes}
use cring.DocPages.Changes.{mem, all-Keeps, all-Sets}

-- No row stands twice in a list.
abbrev pub IsDistinct : List ℕ → Type 0
IsDistinct [] = Unit {0}
IsDistinct (e ∷ es) = (mem e es ≡ false) × IsDistinct es

-- Each second one that is visible, from the first on if `b` holds.
abbrev pub stripes : (b : Bool) → List Bool → List Bool
stripes b [] = []
stripes b (v ∷ vs) = (v && b) ∷ stripes (if v then not b else b) vs

-- Each second element, from the first on or from the second.
abbrev evens_from : Bool → List ℕ → List ℕ
evens_from true es = evens es
evens_from false [] = []
evens_from false (e ∷ es) = evens es

evens-cons : (e : ℕ) (es : List ℕ) → evens (e ∷ es) ≡ e ∷ evens_from false es
evens-cons e [] = refl
evens-cons e (f ∷ es) = refl

mem-evens : (j : ℕ) (es : List ℕ) → mem j es ≡ false → mem j (evens es) ≡ false
mem-evens j [] h = refl
mem-evens j (e ∷ []) h = h
mem-evens j (e ∷ f ∷ es) h = ground (arith, mem-evens j es)

mem-evens_from :
    (b : Bool) (j : ℕ) (es : List ℕ) → mem j es ≡ false → mem j (evens_from b es) ≡ false
mem-evens_from true j es h = mem-evens j es h
mem-evens_from false j [] h = refl
mem-evens_from false j (e ∷ es) h = mem-evens j es (ground arith)

mem-select : (p : ℕ → Bool) (j : ℕ) (es : List ℕ) → mem j es ≡ false → mem j (select p es) ≡ false
mem-select p j [] h = refl
mem-select p j (e ∷ es) h = ground (arith, mem-select p j es)

-- Which of the elements `es` are among the `xs`.
abbrev pub members : (xs es : List ℕ) → List Bool
members xs [] = []
members xs (e ∷ es) = mem e xs ∷ members xs es

-- An element in front changes nothing for the elements that are not it.
members-cons : (e : ℕ) (xs es : List ℕ) → mem e es ≡ false → members (e ∷ xs) es ≡ members xs es
members-cons e xs [] h = refl
members-cons e xs (f ∷ es) h =
    ap₂ (λ b bs. b ∷ bs) (ground arith) (members-cons e xs es (ground arith))

select-in : (p : ℕ → Bool) (e : ℕ) (es : List ℕ) → p e ≡ true → select p (e ∷ es) ≡ e ∷ select p es
select-in p e es h = rw h refl

select-out : (p : ℕ → Bool) (e : ℕ) (es : List ℕ) → p e ≡ false → select p (e ∷ es) ≡ select p es
select-out p e es h = rw h refl

members-evens_from :
    (p : ℕ → Bool) (b : Bool) (es : List ℕ)
    → IsDistinct es
    → members (evens_from b (select p es)) es ≡ stripes b (map p es)
members-evens_from p b [] u = refl
members-evens_from p true (e ∷ es) u = elim (Bool-cases (p e)) [
  | inl h ↦
      ap (λ xs. members xs (e ∷ es))
        (ap (evens_from true) (select-in p e es h) ∙ evens-cons e (select p es))
      ∙ rw h (
          ap₂ (λ c cs. c ∷ cs) (ground arith)
            (members-cons e (evens_from false (select p es)) es u.0
              ∙ members-evens_from p false es u.1))
  | inr h ↦
      ap (λ xs. members (evens_from true xs) (e ∷ es)) (select-out p e es h)
      ∙ rw h (
          ap₂ (λ c cs. c ∷ cs) (mem-evens e (select p es) (mem-select p e es u.0))
            (members-evens_from p true es u.1))
]
members-evens_from p false (e ∷ es) u = elim (Bool-cases (p e)) [
  | inl h ↦
      ap (λ xs. members (evens_from false xs) (e ∷ es)) (select-in p e es h)
      ∙ rw h (
          ap₂ (λ c cs. c ∷ cs) (mem-evens e (select p es) (mem-select p e es u.0))
            (members-evens_from p true es u.1))
  | inr h ↦
      ap (λ xs. members (evens_from false xs) (e ∷ es)) (select-out p e es h)
      ∙ rw h (
          ap₂ (λ c cs. c ∷ cs) (mem-evens_from false e (select p es) (mem-select p e es u.0))
            (members-evens_from p false es u.1))
]

pub map-ext : {p q : ℕ → Bool} (es : List ℕ) → ((e : ℕ) → p e ≡ q e) → map p es ≡ map q es
map-ext [] h = refl
map-ext (e ∷ es) h = ap₂ (λ c cs. c ∷ cs) (h e) (map-ext es h)

module _ {D : Type 0} (Q : Query D) where
  abbrev pub evens_of : D → List ℕ → List Bool
  evens_of d [] = []
  evens_of d (e ∷ es) = (Q.read d e).has even ∷ evens_of d es

  abbrev pub visible_of : D → List ℕ → List Bool
  visible_of d es = map (λ e. (Q.read d e).visible) es

  -- Of the rows that are visible each second one is even, from the first on, and no other row is.
  abbrev pub IsStriped : D → Type 0
  IsStriped d = evens_of d (Q.directory_rows d) ≡ stripes true (visible_of d (Q.directory_rows d))

module _ {D : Type 0} {Q : Query D} (L : QueryLaws Q) where
  -- The stripes change the visibility of no element.
  pub visible-update_stripes :
      (d : D) (j : ℕ) → (Q.read (update_stripes Q d) j).visible ≡ (Q.read d j).visible
  unfolding update_stripes
  visible-update_stripes d j =
      all-Keeps L (λ e. e.visible) _ _ _ j (λ e. refl)
      ∙ all-Keeps L (λ e. e.visible) _ _ _ j (λ e. refl)

  has-even :
      (d d' : D) (xs es : List ℕ)
      → ((j : ℕ) → (Q.read d' j).has even ≡ (if mem j xs then true else (Q.read d j).has even))
      → ((j : ℕ) → mem j es ≡ true → (Q.read d j).has even ≡ false)
      → evens_of Q d' es ≡ members xs es
  has-even d d' xs [] set off = refl
  has-even d d' xs (e ∷ es) set off =
      ap₂ (λ c cs. c ∷ cs)
        (set e ∙ elim (Bool-cases (mem e xs)) [
          | inl h ↦ rw h refl
          | inr h ↦ rw h (off e (ground arith))
        ])
        (has-even d d' xs es set (λ j m. off j (ground (arith, m))))

  pub evens_of-update_stripes :
      (d : D)
      → IsDistinct (Q.directory_rows d)
      → evens_of Q (update_stripes Q d) (Q.directory_rows d)
        ≡ stripes true (visible_of Q d (Q.directory_rows d))
  unfolding update_stripes
  evens_of-update_stripes d u =
      let rows = Q.directory_rows d in
      let d' = all Q (remove_class even) rows d in
      let es = evens (select (λ e. (Q.read d' e).visible) rows) in
      has-even d' (update_stripes Q d) es rows
        (λ j. all-Sets L (λ e. e.has even) _ _ _ true j (λ e. refl))
        (λ j m. all-Sets L (λ e. e.has even) _ _ _ false j (λ e. refl) ∙ rw m refl)
      ∙ members-evens_from (λ e. (Q.read d' e).visible) true rows u
      ∙ ap (stripes true) (map-ext rows λ e. all-Keeps L (λ x. x.visible) _ _ _ e (λ x. refl))
