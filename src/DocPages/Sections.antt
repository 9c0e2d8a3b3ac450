-- ===== src/DocPages/Sections.antt =====
-- docs/html/dynsections.js: the sections that a click opens and closes, and the stripes of a table.

use cring.Prelude.{ℕ, ◌-◌, List, [], ◌∷◌, ◌++◌, Option, none, some, Bool, false, ◌||◌}
use cring.Prelude.{if◌then◌else◌, length, take}
use cring.DocSearch.Text.{Text}
use cring.DocPages.Query.{
  Query, Change, show, hide, css_none, css_table_row, add_class, remove_class, set_src, even,
  opened, closed,
}

-- How a handler ends: it returns, or the `TypeError` of a method of `undefined` leaves it.
pub data Ended (D : Type 0) : Type 0 where
  returned : D → Ended D
  threw : D → Ended D

abbrev pub open_png : Text
open_png = b'o' ∷ b'p' ∷ b'e' ∷ b'n' ∷ b'.' ∷ b'p' ∷ b'n' ∷ b'g' ∷ []

abbrev pub closed_png : Text
closed_png = b'c' ∷ b'l' ∷ b'o' ∷ b's' ∷ b'e' ∷ b'd' ∷ b'.' ∷ b'p' ∷ b'n' ∷ b'g' ∷ []

-- `src.substring(0, src.length - n) + name`
abbrev pub renamed : ℕ → Text → Text → Text
renamed n name src = take (length src - n) src ++ name

-- The elements for which a test holds, in order.
abbrev pub select : (ℕ → Bool) → List ℕ → List ℕ
select p [] = []
select p (e ∷ es) = if p e then e ∷ select p es else select p es

-- Each second element, from the first on: `:even`.
abbrev pub evens : List ℕ → List ℕ
evens [] = []
evens (e ∷ []) = e ∷ []
evens (e ∷ f ∷ es) = e ∷ evens es

module _ {D : Type 0} (Q : Query D) where
  -- A change of a selection.
  unfoldable pub all : Change → List ℕ → D → D
  all c [] d = d
  all c (e ∷ es) d = all c es (Q.apply c e d)

  -- `is(':visible')` of a selection: one of its elements is.
  abbrev pub any_visible : D → List ℕ → Bool
  any_visible d [] = false
  any_visible d (e ∷ es) = (Q.read d e).visible || any_visible d es

  -- `filter(':first').is(':visible')`
  abbrev pub first_visible : D → List ℕ → Bool
  first_visible d [] = false
  first_visible d (e ∷ es) = (Q.read d e).visible

  -- `attr('src')` of a selection: that of its first element, `none` for `undefined`.
  abbrev pub src_of : D → List ℕ → Option Text
  src_of d [] = none
  src_of d (e ∷ es) = (Q.read d e).src

  unfoldable pub set_image : List ℕ → (Text → Text) → Option Text → D → Ended D
  set_image es f none d = threw d
  set_image es f (some src) d = returned (all (set_src (f src)) es d)

  -- What the two branches of `toggleVisibility` do to the three selections and the link.
  unfoldable pub close_section : (link : ℕ) (summary content : List ℕ) → D → D
  close_section link summary content d =
      Q.apply (remove_class opened) link
        (Q.apply (add_class closed) link (all show summary (all hide content d)))

  unfoldable pub open_section : (link : ℕ) (summary content : List ℕ) → D → D
  open_section link summary content d =
      Q.apply (add_class opened) link
        (Q.apply (remove_class closed) link (all hide summary (all show content d)))

  unfoldable pub toggle_visibility : (link : ℕ) → D → Ended D
  toggle_visibility link d =
      let base = (Q.read d link).id in
      let summary =
        Q.with_id d (base ++ (b'-' ∷ b's' ∷ b'u' ∷ b'm' ∷ b'm' ∷ b'a' ∷ b'r' ∷ b'y' ∷ [])) in
      let content =
        Q.with_id d (base ++ (b'-' ∷ b'c' ∷ b'o' ∷ b'n' ∷ b't' ∷ b'e' ∷ b'n' ∷ b't' ∷ [])) in
      let trigger =
        Q.with_id d (base ++ (b'-' ∷ b't' ∷ b'r' ∷ b'i' ∷ b'g' ∷ b'g' ∷ b'e' ∷ b'r' ∷ [])) in
      let src = src_of d trigger in
      if any_visible d content
      then set_image trigger (renamed 8 closed_png) src (close_section link summary content d)
      else set_image trigger (renamed 10 open_png) src (open_section link summary content d)

  unfoldable pub toggle_inherit : (id : Text) → D → Ended D
  toggle_inherit id d =
      let rows = Q.inherit_rows d id in
      let img = Q.header_images d id in
      let src = src_of d img in
      if first_visible d rows
      then set_image img (renamed 8 closed_png) src (all css_none rows d)
      else set_image img (renamed 10 open_png) src (all css_table_row rows d)

  unfoldable pub update_stripes : D → D
  update_stripes d =
      let rows = Q.directory_rows d in
      let d' = all (remove_class even) rows d in
      all (add_class even) (evens (select (λ e. (Q.read d' e).visible) rows)) d'
