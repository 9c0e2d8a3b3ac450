-- ===== src/DocPages/Moves.antt =====
-- What no single change moves, such as a selection or the id of an element, no handler of
-- docs/html/dynsections.js moves.
use cring.Prelude.{ℕ, ◌+◌, List, [], ◌∷◌, ◌≡◌, refl, ◌∙◌, Bool-cases, inl, inr}
use cring.Prelude.{◌==◌, ltb}
use cring.DocSearch.Text.{Text}
use cring.DocPages.Query.{
  Query, QueryLaws, Change, show, hide, css_none, css_table_row, add_class, remove_class, set_html,
  set_src, ClassName,
}
use cring.DocPages.Sections.{select, first_visible, update_stripes}
use cring.DocPages.Folder.{
  set_icon, level_row, level_rows, depth, turn_spans, hide_folder, show_folder, toggle_level,
  toggle_folder, row_id, is_child,
}
use cring.DocPages.Changes.{all-moves, apply-Keeps, Keeps}

-- A change leaves the id.
pub changed-id : (c : Change) → Keeps (λ e. e.id) c
changed-id show e = refl
changed-id hide e = refl
changed-id css_none e = refl
changed-id css_table_row e = refl
changed-id (add_class c) e = refl
changed-id (remove_class c) e = refl
changed-id (set_html t) e = refl
changed-id (set_src t) e = refl

pub id-apply :
    {D : Type 0} {Q : Query D} (L : QueryLaws Q) (j : ℕ) (c : Change) (e : ℕ) (d : D)
    → (Q.read (Q.apply c e d) j).id ≡ (Q.read d j).id
id-apply L j c e d = apply-Keeps L (λ e. e.id) c e d j (changed-id c)

module _ {D A : Type 0} (Q : Query D) (look : D → A)
    (same : (c : Change) (e : ℕ) (d : D) → look (Q.apply c e d) ≡ look d) where
  pub update_stripes-moves : (d : D) → look (update_stripes Q d) ≡ look d
  unfolding update_stripes
  update_stripes-moves d = all-moves Q look same _ _ _ ∙ all-moves Q look same _ _ _

  set_icon-moves : (c : Change) (es : List ℕ) (d : D) → look (set_icon Q c es d) ≡ look d
  unfolding set_icon
  set_icon-moves c es d =
      all-moves Q look same _ _ _ ∙ all-moves Q look same _ _ _ ∙ all-moves Q look same _ _ _

  pub level_row-moves : (level row : ℕ) (d : D) → look (level_row Q level row d) ≡ look d
  unfolding level_row
  level_row-moves level row d =
      let id = (Q.read d row).id in
      elim (Bool-cases (ltb (depth id) (level + 1))) [
        | inl h ↦ rw h (same _ _ _ ∙ all-moves Q look same _ _ _ ∙ set_icon-moves _ _ _)
        | inr h ↦ rw h (elim (Bool-cases (depth id == level + 1)) [
          | inl g ↦ rw g (same _ _ _ ∙ all-moves Q look same _ _ _ ∙ set_icon-moves _ _ _)
          | inr g ↦ rw g (same _ _ _)
        ])
      ]

  pub level_rows-moves :
      (level : ℕ) (rows : List ℕ) (d : D) → look (level_rows Q level rows d) ≡ look d
  unfolding level_rows
  level_rows-moves level [] d = refl
  level_rows-moves level (row ∷ rows) d =
      level_rows-moves level rows _ ∙ level_row-moves level row d

  pub toggle_level-moves : (level : ℕ) (d : D) → look (toggle_level Q level d) ≡ look d
  unfolding toggle_level
  toggle_level-moves level d = update_stripes-moves _ ∙ level_rows-moves level _ d

  pub turn_spans-moves :
      (from to : ClassName) (html : Text) (spans : List ℕ) (d : D)
      → look (turn_spans Q from to html spans d) ≡ look d
  unfolding turn_spans
  turn_spans-moves from to html spans d =
      all-moves Q look same _ _ _ ∙ all-moves Q look same _ _ _ ∙ all-moves Q look same _ _ _

  pub hide_folder-moves :
      (id : Text) (current rows : List ℕ) (d : D) → look (hide_folder Q id current rows d) ≡ look d
  unfolding hide_folder
  hide_folder-moves id current rows d = all-moves Q look same _ _ _ ∙ turn_spans-moves _ _ _ _ d

  pub show_folder-moves :
      (current child_rows : List ℕ) (d : D) → look (show_folder Q current child_rows d) ≡ look d
  unfolding show_folder
  show_folder-moves current child_rows d =
      all-moves Q look same _ _ _ ∙ turn_spans-moves _ _ _ _ _ ∙ turn_spans-moves _ _ _ _ d

  pub toggle_folder-moves : (id : Text) (d : D) → look (toggle_folder Q id d) ≡ look d
  unfolding toggle_folder
  toggle_folder-moves id d =
      let rows = Q.next_rows d (Q.with_id d (row_id id)) in
      elim (Bool-cases (first_visible Q d (select (λ e. is_child id (Q.read d e).id) rows))) [
        | inl h ↦ rw h (update_stripes-moves _ ∙ hide_folder-moves id _ _ d)
        | inr h ↦ rw h (update_stripes-moves _ ∙ show_folder-moves _ _ d)
      ]
