-- ===== src/DocPages/Folder.antt =====
-- docs/html/dynsections.js: folding the rows of a directory.

use cring.Prelude.{ℕ, zero, suc, ◌+◌, List, [], ◌∷◌, Bool, true, false, ◌&&◌}
use cring.Prelude.{◌==◌, if◌then◌else◌, ltb, leb, count}
use cring.DocSearch.Text.{Text, begins, fold_case}
use cring.DocPages.Query.{
  ClassName, Query, Change, show, hide, add_class, remove_class, set_html, iconfopen, iconfclosed,
  arrow,
}
use cring.DocPages.Sections.{select, all, first_visible, update_stripes}

abbrev pub down_arrow : Text
down_arrow = b'&' ∷ b'#' ∷ b'9' ∷ b'6' ∷ b'6' ∷ b'0' ∷ b';' ∷ []

abbrev pub right_arrow : Text
right_arrow = b'&' ∷ b'#' ∷ b'9' ∷ b'6' ∷ b'5' ∷ b'8' ∷ b';' ∷ []

-- `id.substring(n)`
abbrev pub drop : ℕ → Text → Text
drop zero t = t
drop (suc n) [] = []
drop (suc n) (c ∷ t) = drop n t

-- `id.split('_').length - 1`
abbrev pub depth : Text → ℕ
depth id = count b'_' id

abbrev pub row_id : Text → Text
row_id id = b'r' ∷ b'o' ∷ b'w' ∷ b'_' ∷ id

abbrev pub is_digit : ℕ → Bool
is_digit c = leb b'0' c && leb c b'9'

-- Behind the id: one digit or more, an underscore, and the end; `some_digit` says that one has been read.
abbrev pub is_number : (some_digit : Bool) → Text → Bool
is_number b [] = false
is_number b (c ∷ []) = b && c == b'_'
is_number b (c ∷ d ∷ t) = is_digit c && is_number true (d ∷ t)

-- The expression ignores case.
abbrev pub matches : (pattern text : Text) → Bool
matches [] t = is_number false t
matches (p ∷ ps) [] = false
matches (p ∷ ps) (c ∷ t) = fold_case c == fold_case p && matches ps t

-- `this.id.match(new RegExp('^row_' + id + '\\d+_$', "i"))`, for an id that stands for itself in an
-- expression, as the digits and underscores do that the pages pass.
unfoldable pub is_child : (id : Text) → Text → Bool
is_child id text = matches (row_id id) text

module _ {D : Type 0} (Q : Query D) where
  -- `removeClass('iconfopen iconfclosed').addClass(…)`
  unfoldable pub set_icon : Change → List ℕ → D → D
  set_icon c es d =
      all Q c es (all Q (remove_class iconfclosed) es (all Q (remove_class iconfopen) es d))

  -- A round of the loop of `toggleLevel`.
  unfoldable pub level_row : (level row : ℕ) → D → D
  level_row level row d =
      let id = (Q.read d row).id in
      let i = Q.with_id d (b'i' ∷ b'm' ∷ b'g' ∷ drop 3 id) in
      let a = Q.with_id d (b'a' ∷ b'r' ∷ b'r' ∷ drop 3 id) in
      if ltb (depth id) (level + 1)
      then Q.apply show row (all Q (set_html down_arrow) a (set_icon (add_class iconfopen) i d))
      else if depth id == level + 1
      then Q.apply show row (all Q (set_html right_arrow) a (set_icon (add_class iconfclosed) i d))
      else Q.apply hide row d

  unfoldable pub level_rows : (level : ℕ) → List ℕ → D → D
  level_rows level [] d = d
  level_rows level (row ∷ rows) d = level_rows level rows (level_row level row d)

  unfoldable pub toggle_level : (level : ℕ) → D → D
  toggle_level level d = update_stripes Q (level_rows level (Q.directory_rows d) d)

  -- The spans with the one icon get the other, and those with an arrow the new one.
  unfoldable pub turn_spans : (from to : ClassName) (html : Text) → List ℕ → D → D
  turn_spans from to html spans d =
      let icons = select (λ e. (Q.read d e).has from) spans in
      let d' = all Q (add_class to) icons (all Q (remove_class from) icons d) in
      all Q (set_html html) (select (λ e. (Q.read d' e).has arrow) spans) d'

  unfoldable pub hide_folder : (id : Text) (current rows : List ℕ) → D → D
  hide_folder id current rows d =
      let d' = turn_spans iconfopen iconfclosed right_arrow (Q.find_spans d current) d in
      all Q hide (select (λ e. begins (row_id id) (Q.read d' e).id) rows) d'

  unfoldable pub show_folder : (current child_rows : List ℕ) → D → D
  show_folder current child_rows d =
      let d' = turn_spans iconfclosed iconfopen down_arrow (Q.find_spans d current) d in
      let d'' = turn_spans iconfopen iconfclosed right_arrow (Q.find_spans d' child_rows) d' in
      all Q show child_rows d''

  unfoldable pub toggle_folder : (id : Text) → D → D
  toggle_folder id d =
      let current = Q.with_id d (row_id id) in
      let rows = Q.next_rows d current in
      let child_rows = select (λ e. is_child id (Q.read d e).id) rows in
      update_stripes Q (
        if first_visible Q d child_rows
        then hide_folder id current rows d
        else show_folder current child_rows d)
