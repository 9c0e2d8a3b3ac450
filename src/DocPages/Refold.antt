-- ===== src/DocPages/Refold.antt =====
-- docs/html/dynsections.js: a folder is shown and hidden again.
use cring.Prelude.{
  ℕ, List, ◌∷◌, ◌≡◌, refl, sym, ap, ap₂, ◌∙◌, true, false, arith, Bool-cases, inl, inr,
}
use cring.Prelude.{if◌then◌else◌}
use cring.DocSearch.Text.{Text, begins}
use cring.DocPages.Query.{Query, QueryLaws, Change}
use cring.DocPages.Sections.{select, first_visible}
use cring.DocPages.Folder.{toggle_folder, row_id, is_child}
use cring.DocPages.Changes.{mem}
use cring.DocPages.Moves.{id-apply, toggle_folder-moves}
use cring.DocPages.Fold.{rows_of, children_of, below, select-ext, visible-toggle_folder}

module _ {D : Type 0} (Q : Query D) where
  -- A folder that is closed: it has children, their ids begin with its own, and nothing below it is visible.
  abbrev pub HasChild : (id : Text) → D → Type 0
  HasChild id d = (e : ℕ) × (es : List ℕ) × (children_of Q id d ≡ e ∷ es)

  abbrev pub IsClosed : (id : Text) → D → Type 0
  IsClosed id d =
      HasChild id d
      × ((j : ℕ) → mem j (children_of Q id d) ≡ true → mem j (below Q id d) ≡ true)
      × ((j : ℕ) → mem j (below Q id d) ≡ true → (Q.read d j).visible ≡ false)

module _ {D : Type 0} {Q : Query D} (L : QueryLaws Q) where
  rows_of-apply :
      (id : Text) (c : Change) (e : ℕ) (d : D) → rows_of Q id (Q.apply c e d) ≡ rows_of Q id d
  rows_of-apply id c e d =
      L.next_rows_apply c e d _ ∙ ap (Q.next_rows d) (L.with_id_apply c e d (row_id id))

  children_of-apply :
      (id : Text) (c : Change) (e : ℕ) (d : D)
      → children_of Q id (Q.apply c e d) ≡ children_of Q id d
  children_of-apply id c e d =
      ap (select _) (rows_of-apply id c e d)
      ∙ select-ext (rows_of Q id d) (λ j. ap (is_child id) (id-apply L j c e d))

  below-apply : (id : Text) (c : Change) (e : ℕ) (d : D) → below Q id (Q.apply c e d) ≡ below Q id d
  below-apply id c e d =
      ap (select _) (rows_of-apply id c e d)
      ∙ select-ext (rows_of Q id d) (λ j. ap (begins (row_id id)) (id-apply L j c e d))

  children_of-toggle_folder :
      (id : Text) (d : D) → children_of Q id (toggle_folder Q id d) ≡ children_of Q id d
  children_of-toggle_folder id = toggle_folder-moves Q (children_of Q id) (children_of-apply id) id

  below-toggle_folder : (id : Text) (d : D) → below Q id (toggle_folder Q id d) ≡ below Q id d
  below-toggle_folder id = toggle_folder-moves Q (below Q id) (below-apply id) id

  first_visible-cons :
      (d : D) (e : ℕ) (es xs : List ℕ) → xs ≡ e ∷ es → first_visible Q d xs ≡ (Q.read d e).visible
  first_visible-cons d e es xs h = ap (first_visible Q d) h

  -- The first click shows the children.
  visible-open_folder :
      (id : Text) (d : D) (j : ℕ)
      → IsClosed Q id d
      → (Q.read (toggle_folder Q id d) j).visible
        ≡ (if mem j (children_of Q id d) then true else (Q.read d j).visible)
  visible-open_folder id d j ((e, es, h), in_below, hidden) =
      visible-toggle_folder L id d j
      ∙ rw (first_visible-cons d e es _ h ∙ hidden e (in_below e (ap (mem e) h ∙ ground arith)))
          refl

  first_visible-open_folder :
      (id : Text) (d : D)
      → IsClosed Q id d
      → first_visible Q (toggle_folder Q id d) (children_of Q id (toggle_folder Q id d)) ≡ true
  first_visible-open_folder id d closed =
      let (e, es, h) = closed.0 in
      first_visible-cons (toggle_folder Q id d) e es _ (children_of-toggle_folder id d ∙ h)
      ∙ visible-open_folder id d e closed
      ∙ ap (λ xs. if mem e xs then true else (Q.read d e).visible) h
      ∙ ground arith

  -- The second click hides them.
  visible-close_folder :
      (id : Text) (d : D) (j : ℕ)
      → IsClosed Q id d
      → (Q.read (toggle_folder Q id (toggle_folder Q id d)) j).visible ≡ (Q.read d j).visible
  visible-close_folder id d j closed =
      let d' = toggle_folder Q id d in
      visible-toggle_folder L id d' j
      ∙ rw (first_visible-open_folder id d closed) refl
      ∙ ap₂ (λ xs v. if mem j xs then false else v) (below-toggle_folder id d)
          (visible-open_folder id d j closed)
      ∙ elim (Bool-cases (mem j (below Q id d))) [
        | inl h ↦ rw h (sym (closed.2 j h))
        | inr h ↦ rw h (elim (Bool-cases (mem j (children_of Q id d))) [
          | inl g ↦ absurd (ground (arith, closed.1 j g))
          | inr g ↦ rw g refl
        ])
      ]

  -- With jQuery's laws, for a folder that is closed, which is to say that it has children, that
  -- the rows of its children are among those whose id begins with its own, and that none of these
  -- is visible: a first click shows each of its children and leaves every other element as visible
  -- as it was, and behind a second click each element is as visible as it was before the first.
  pub toggle_folder-twice :
      (id : Text) (d : D) (j : ℕ)
      → IsClosed Q id d
      → ((Q.read (toggle_folder Q id d) j).visible
          ≡ (if mem j (children_of Q id d) then true else (Q.read d j).visible))
        × ((Q.read (toggle_folder Q id (toggle_folder Q id d)) j).visible ≡ (Q.read d j).visible)
  toggle_folder-twice id d j closed =
      (visible-open_folder id d j closed, visible-close_folder id d j closed)
