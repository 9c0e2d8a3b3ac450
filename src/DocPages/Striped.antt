-- ===== src/DocPages/Striped.antt =====
-- docs/html/dynsections.js: `updateStripes` on a table without a row twice.
use cring.Prelude.{ℕ, ◌≡◌, sym, ap, ◌∙◌, true}
use cring.DocPages.Query.{Query, QueryLaws}
use cring.DocPages.Sections.{update_stripes}
use cring.DocPages.Moves.{update_stripes-moves}
use cring.DocPages.Stripes.{
  IsDistinct, IsStriped, stripes, map-ext, evens_of-update_stripes, visible-update_stripes,
}

module _ {D : Type 0} {Q : Query D} (L : QueryLaws Q) where
  -- With jQuery's laws and on a table without a row twice, `updateStripes` marks each second one
  -- of the rows that are visible, from the first on, and no other row, and it shows and hides
  -- nothing.
  pub update_stripes-IsStriped :
      (d : D)
      → IsDistinct (Q.directory_rows d)
      → IsStriped Q (update_stripes Q d)
        × ((j : ℕ) → (Q.read (update_stripes Q d) j).visible ≡ (Q.read d j).visible)
  update_stripes-IsStriped d u = (
    rw (update_stripes-moves Q Q.directory_rows L.directory_rows_apply d) (
        evens_of-update_stripes L d u
        ∙ ap (stripes true) (map-ext (Q.directory_rows d) λ e. sym (visible-update_stripes L d e))),
    visible-update_stripes L d,
  )
