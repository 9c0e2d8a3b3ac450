-- ===== src/DocSearch/Box/Search.antt =====
-- search.js: `SearchBox.Search`, which opens the page of results of the search field's value.
use cring.Prelude.{
  ℕ, suc, List, [], ◌∷◌, ◌++◌, Option, none, some, pos, ◌+ℤ◌, ◌-ℤ◌, Bool, true, false, ◌&&◌,
}
use cring.Prelude.{◌==◌, if◌then◌else◌, leb, take, get_elem?}
use cring.DocSearch.Text.{Text, hex, strip_leading}
use cring.DocSearch.Rows.{block, inline_block}
use cring.DocSearch.Box.State.{Box, Layout, get_x_pos, get_y_pos}
use cring.DocSearch.Box.Display.{is_block}

-- What the page has around the box. `to_lower_case` and `escape` are the calls of those names,
-- `above_one` is the comparison of a string with the number 1, `sections` and `section_names` are
-- `indexSectionsWithContent` and `indexSectionNames` of the generated `searchdata.js`.
pub record Site : Type 0 where
  pub to_lower_case : Text → Text
  pub escape : Text → Text
  pub above_one : Text → Bool
  pub sections : List Text
  pub section_names : List Text
  pub search_box : Layout
  pub search_select : Layout
  pub client_width : ℕ
  pub popup_width : ℕ
  pub select_window_width : ℕ

-- How a call ends: it returns, or the `TypeError` of a property of `undefined` leaves it.
pub data Ended : Type 0 where
  returned : Box → Ended
  threw : Box → Ended

abbrev pub prefix_of : Text → Text → Bool
prefix_of [] t = true
prefix_of (c ∷ s) [] = false
prefix_of (c ∷ s) (d ∷ t) = c == d && prefix_of s t

-- `t.indexOf(s)`, with `none` for -1.
unfoldable pub index_of : Text → Text → Option ℕ
index_of s [] = if prefix_of s [] then some 0 else none
index_of s (c ∷ t) =
    let later = index_of s t in
    if prefix_of s (c ∷ t) then some 0 else elim later [ none ↦ none | some i ↦ some (suc i) ]

-- `charCodeAt(0)`; the bounds hold of no `NaN`.
abbrev pub is_high_surrogate : Text → Bool
is_high_surrogate [] = false
is_high_surrogate (c ∷ s) = leb 0xD800 c && leb c 0xDBFF

unfoldable pub idx_char : Site → (search_value : Text) → Text
idx_char site v =
    if is_high_surrogate (site.to_lower_case v) && site.above_one v
    then take 2 v
    else site.to_lower_case (take 1 v)

-- The elements of `indexSectionNames` are used behind those of `indexSectionsWithContent`, which has as
-- many; a missing one is printed as `undefined`.
abbrev pub name_text : Option Text → Text
name_text (some n) = n
name_text none = b'u' ∷ b'n' ∷ b'd' ∷ b'e' ∷ b'f' ∷ b'i' ∷ b'n' ∷ b'e' ∷ b'd' ∷ []

abbrev pub no_matches : Text
no_matches = b'/' ∷ b'n' ∷ b'o' ∷ b'm' ∷ b'a' ∷ b't' ∷ b'c' ∷ b'h' ∷ b'e' ∷ b's' ∷ []

unfoldable pub results_page : Site → Box → Option ℕ → Text
results_page site b (some i) =
    b.results_path
    ++ (b'/' ∷ name_text (get_elem? site.section_names b.search_index)
        ++ (b'_' ∷ hex i i ++ b.extension))
results_page site b none = b.results_path ++ (no_matches ++ b.extension)

unfoldable pub results_location : Site → Box → Text → Option ℕ → Text
unfolding results_page
results_location site b v (some i) = results_page site b (some i) ++ (b'?' ∷ site.escape v)
results_location site b v none = results_page site b none

unfoldable pub show_results : Site → Box → Box
unfolding get_x_pos get_y_pos
show_results site b =
    let w = b.results_window in
    if is_block w.display
    then b
    else if b.inside_frame
    then record b {
      close_button = inline_block;
      results_window = record w {
        relative = true;
        display = block;
        width = pos site.client_width -ℤ pos 8;
      };
      results_width = pos site.client_width -ℤ pos 8;
    }
    else record b {
      close_button = inline_block;
      results_window = record w {
        display = block;
        left = get_x_pos site.search_box +ℤ pos 150 -ℤ pos site.popup_width;
        top = get_y_pos site.search_box +ℤ pos 20;
      };
    }

unfoldable pub search_section : Site → Box → (search_value section : Text) → Box
unfolding idx_char index_of results_page results_location show_results
search_section site b v section =
    let idx = index_of (idx_char site v) section in
    let shown = show_results site (record b { results_location = results_location site b v idx }) in
    record shown { last_search_value = v; last_results_page = results_page site b idx }

-- The timer of `keyTimeout` is forgotten here, it is not cleared.
unfoldable pub search : Site → Box → Ended
unfolding search_section
search site b =
    let b' = record b { key_timeout = 0 } in
    elim (get_elem? site.sections b.search_index) [
      | none ↦ threw b'
      | some section ↦ returned (search_section site b' (strip_leading b.field_value) section)
    ]
