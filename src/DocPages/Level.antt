-- ===== src/DocPages/Level.antt =====
-- docs/html/dynsections.js: `toggleLevel` shows the rows down to a depth.
use cring.Prelude.{
  ℕ, ◌+◌, List, [], ◌∷◌, ◌≡◌, refl, sym, ap, subst, ◌∙◌, Bool, true, false, arith, Bool-cases, inl,
  inr,
}
use cring.Prelude.{◌==◌, ltb, leb, if◌then◌else◌}
use cring.DocPages.Query.{Query, QueryLaws, Change, show, hide}
use cring.DocPages.Folder.{set_icon, level_row, level_rows, toggle_level, depth}
use cring.DocPages.Changes.{mem, Keeps, Sets, all-Keeps, apply-Sets}
use cring.DocPages.Moves.{id-apply, level_row-moves, level_rows-moves}
use cring.DocPages.Stripes.{IsDistinct, IsStriped}
use cring.DocPages.Striped.{update_stripes-IsStriped}

module _ {D : Type 0} {Q : Query D} (L : QueryLaws Q) where
  id-level_row :
      (j level row : ℕ) (d : D) → (Q.read (level_row Q level row d) j).id ≡ (Q.read d j).id
  id-level_row j = level_row-moves Q (λ d. (Q.read d j).id) (id-apply L j)

  visible-set_icon :
      (c : Change) (es : List ℕ) (d : D) (j : ℕ)
      → Keeps (λ e. e.visible) c
      → (Q.read (set_icon Q c es d) j).visible ≡ (Q.read d j).visible
  unfolding set_icon
  visible-set_icon c es d j k =
      all-Keeps L (λ e. e.visible) _ _ _ j k
      ∙ all-Keeps L (λ e. e.visible) _ _ _ j (λ e. refl)
      ∙ all-Keeps L (λ e. e.visible) _ _ _ j (λ e. refl)

  -- What a round does to the visibility of its row, behind changes that leave it.
  visible-row :
      (level row : ℕ) (d d' : D) (j : ℕ) (c : Change) (b : Bool)
      → Sets (λ e. e.visible) b c
      → b ≡ leb (depth (Q.read d row).id) (level + 1)
      → (Q.read d' j).visible ≡ (Q.read d j).visible
      → (Q.read (Q.apply c row d') j).visible
        ≡ (if row == j then leb (depth (Q.read d j).id) (level + 1) else (Q.read d j).visible)
  visible-row level row d d' j c b s v k =
      apply-Sets L (λ e. e.visible) c b row d' j s ∙ elim (Bool-cases (row == j)) [
        | inl h ↦
            rw h (v ∙ ap (λ (t : ℕ). leb (depth (Q.read d t).id) (level + 1)) (ground (arith)))
        | inr h ↦ rw h k
      ]

  -- A row is shown or hidden, by its depth, and nothing else is.
  visible-level_row :
      (level row : ℕ) (d : D) (j : ℕ)
      → (Q.read (level_row Q level row d) j).visible
        ≡ (if row == j then leb (depth (Q.read d j).id) (level + 1) else (Q.read d j).visible)
  unfolding level_row
  visible-level_row level row d j =
      let id = (Q.read d row).id in
      elim (Bool-cases (ltb (depth id) (level + 1))) [
        | inl h ↦ rw h (
            visible-row level row d _ j show true (λ e. refl) (ground arith)
              (all-Keeps L (λ e. e.visible) _ _ _ j (λ e. refl)
                ∙ visible-set_icon _ _ d j (λ e. refl)))
        | inr h ↦ rw h (elim (Bool-cases (depth id == level + 1)) [
          | inl g ↦ rw g (
              visible-row level row d _ j show true (λ e. refl) (ground arith)
                (all-Keeps L (λ e. e.visible) _ _ _ j (λ e. refl)
                  ∙ visible-set_icon _ _ d j (λ e. refl)))
          | inr g ↦ rw g (visible-row level row d d j hide false (λ e. refl) (ground arith) refl)
        ])
      ]

  visible-level_rows :
      (level : ℕ) (rows : List ℕ) (d : D) (j : ℕ)
      → (Q.read (level_rows Q level rows d) j).visible
        ≡ (if mem j rows then leb (depth (Q.read d j).id) (level + 1) else (Q.read d j).visible)
  unfolding level_rows
  visible-level_rows level [] d j = refl
  visible-level_rows level (row ∷ rows) d j =
      visible-level_rows level rows (level_row Q level row d) j
      ∙ rw (id-level_row j level row d, visible-level_row level row d j) (ground arith)

  -- With jQuery's laws and on a table without a row twice, `toggleLevel(level)` shows the rows
  -- whose id has at most `level + 1` underscores and hides the other rows, leaves what is no row
  -- of the table, and the stripes are those of the rows that are then visible.
  pub toggle_level-visible :
      (level : ℕ) (d : D)
      → IsDistinct (Q.directory_rows d)
      → ((j : ℕ)
          → (Q.read (toggle_level Q level d) j).visible ≡ (
              if mem j (Q.directory_rows d)
              then leb (depth (Q.read d j).id) (level + 1)
              else (Q.read d j).visible))
        × IsStriped Q (toggle_level Q level d)
  unfolding toggle_level
  toggle_level-visible level d u =
      let d' = level_rows Q level (Q.directory_rows d) d in
      let striped = update_stripes-IsStriped L d' (
        subst IsDistinct
          (sym (
            level_rows-moves Q Q.directory_rows L.directory_rows_apply level (Q.directory_rows d)
              d))
          u) in
      ((λ j. striped.1 j ∙ visible-level_rows level (Q.directory_rows d) d j), striped.0)
