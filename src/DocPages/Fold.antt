-- ===== src/DocPages/Fold.antt =====
-- docs/html/dynsections.js: `toggleFolder` shows the children of a folder, or hides all that is below it.
use cring.Prelude.{
  ℕ, List, [], ◌∷◌, ◌≡◌, refl, sym, ap, ap₂, subst, ◌∙◌, Bool, true, false, Bool-cases, inl, inr,
}
use cring.Prelude.{if◌then◌else◌}
use cring.DocSearch.Text.{Text, begins}
use cring.DocPages.Query.{Query, QueryLaws, ClassName, iconfopen, iconfclosed}
use cring.DocPages.Sections.{select, first_visible}
use cring.DocPages.Folder.{
  right_arrow, turn_spans, hide_folder, show_folder, toggle_folder, row_id, is_child,
}
use cring.DocPages.Changes.{mem, all-Keeps, all-Sets}
use cring.DocPages.Moves.{id-apply, turn_spans-moves, toggle_folder-moves}
use cring.DocPages.Stripes.{IsDistinct, IsStriped, visible-update_stripes}
use cring.DocPages.Striped.{update_stripes-IsStriped}
use cring.DocPages.Moves.{update_stripes-moves}

pub select-ext : {p q : ℕ → Bool} (es : List ℕ) → ((e : ℕ) → p e ≡ q e) → select p es ≡ select q es
select-ext [] h = refl
select-ext {p = p} {q = q} (e ∷ es) h = rw (h e, select-ext {p = p} {q = q} es h) refl

module _ {D : Type 0} (Q : Query D) where
  -- The rows behind that of a folder, and of these the children of the folder and all that is below it.
  abbrev pub rows_of : (id : Text) → D → List ℕ
  rows_of id d = Q.next_rows d (Q.with_id d (row_id id))

  abbrev pub children_of : (id : Text) → D → List ℕ
  children_of id d = select (λ e. is_child id (Q.read d e).id) (rows_of id d)

  abbrev pub below : (id : Text) → D → List ℕ
  below id d = select (λ e. begins (row_id id) (Q.read d e).id) (rows_of id d)

module _ {D : Type 0} {Q : Query D} (L : QueryLaws Q) where
  visible-turn_spans :
      (from to : ClassName) (html : Text) (spans : List ℕ) (d : D) (j : ℕ)
      → (Q.read (turn_spans Q from to html spans d) j).visible ≡ (Q.read d j).visible
  unfolding turn_spans
  visible-turn_spans from to html spans d j =
      all-Keeps L (λ e. e.visible) _ _ _ j (λ e. refl)
      ∙ all-Keeps L (λ e. e.visible) _ _ _ j (λ e. refl)
      ∙ all-Keeps L (λ e. e.visible) _ _ _ j (λ e. refl)

  visible-hide_folder :
      (id : Text) (d : D) (j : ℕ)
      → (Q.read (hide_folder Q id (Q.with_id d (row_id id)) (rows_of Q id d) d) j).visible
        ≡ (if mem j (below Q id d) then false else (Q.read d j).visible)
  unfolding hide_folder
  visible-hide_folder id d j =
      let spans = Q.find_spans d (Q.with_id d (row_id id)) in
      let same_id : (e : ℕ)
          → (Q.read (turn_spans Q iconfopen iconfclosed right_arrow spans d) e).id
            ≡ (Q.read d e).id =
        λ e.
          turn_spans-moves Q (λ d'. (Q.read d' e).id) (id-apply L e) iconfopen iconfclosed
            right_arrow spans d in
      all-Sets L (λ e. e.visible) _ _ _ false j (λ e. refl)
      ∙ ap₂ (λ es v. if mem j es then false else v)
          (select-ext (rows_of Q id d) λ e. ap (begins (row_id id)) (same_id e))
          (visible-turn_spans iconfopen iconfclosed right_arrow spans d j)

  visible-show_folder :
      (current child_rows : List ℕ) (d : D) (j : ℕ)
      → (Q.read (show_folder Q current child_rows d) j).visible
        ≡ (if mem j child_rows then true else (Q.read d j).visible)
  unfolding show_folder
  visible-show_folder current child_rows d j =
      all-Sets L (λ e. e.visible) _ _ _ true j (λ e. refl)
      ∙ ap (λ v. if mem j child_rows then true else v)
          (visible-turn_spans _ _ _ _ _ j ∙ visible-turn_spans _ _ _ _ d j)

  IsStriped-toggle_folder :
      (id : Text) (d : D) → IsDistinct (Q.directory_rows d) → IsStriped Q (toggle_folder Q id d)
  unfolding toggle_folder
  IsStriped-toggle_folder id d u =
      let moves = toggle_folder-moves Q Q.directory_rows L.directory_rows_apply id d in
      (update_stripes-IsStriped L _ (
        subst IsDistinct
          (sym moves ∙ update_stripes-moves Q Q.directory_rows L.directory_rows_apply _) u)).0

  pub visible-toggle_folder :
      (id : Text) (d : D) (j : ℕ)
      → (Q.read (toggle_folder Q id d) j).visible ≡ (
          if first_visible Q d (children_of Q id d)
          then (if mem j (below Q id d) then false else (Q.read d j).visible)
          else (if mem j (children_of Q id d) then true else (Q.read d j).visible))
  unfolding toggle_folder
  visible-toggle_folder id d j =
      visible-update_stripes L _ j ∙ elim (Bool-cases (first_visible Q d (children_of Q id d))) [
        | inl h ↦ rw h (visible-hide_folder id d j)
        | inr h ↦ rw h (visible-show_folder _ _ d j)
      ]

  -- With jQuery's laws and on a table without a row twice, `toggleFolder(id)` hides the rows
  -- behind the folder's whose id begins with its own if its first child is visible, and shows its
  -- children otherwise; no other element is shown or hidden, and the stripes are those of the rows
  -- that are then visible.
  pub toggle_folder-visible :
      (id : Text) (d : D)
      → IsDistinct (Q.directory_rows d)
      → ((j : ℕ)
          → (Q.read (toggle_folder Q id d) j).visible ≡ (
              if first_visible Q d (children_of Q id d)
              then (if mem j (below Q id d) then false else (Q.read d j).visible)
              else (if mem j (children_of Q id d) then true else (Q.read d j).visible)))
        × IsStriped Q (toggle_folder Q id d)
  toggle_folder-visible id d u = (visible-toggle_folder id d, IsStriped-toggle_folder id d u)
