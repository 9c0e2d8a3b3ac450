-- ===== src/Tests/DocResults.antt =====
-- search.js on the results of a small `searchData`, and on a drawn page of two rows.
use cring.Prelude.{
  ℕ, ◌+◌, ◌≡◌, refl, List, [], ◌∷◌, map, Option, none, some, Bool, true, false, arith, not, ◌&&◌,
  leb, ◌==◌, if◌then◌else◌, get_elem?, length,
}
use cring.DocSearch.Text.{Text}
use cring.DocSearch.Rows.{unset, block, Results, search_key, search_results}
use cring.DocSearch.Page.{
  ElementId, item, child, row, Node, Page, on_page, value, find_child_element,
}
use cring.DocSearch.Drawn.{IsDrawn, find_child_element-IsDrawn}
use cring.DocSearch.Create.{sr_id, Place, Datum, Drawn, create_result, create_results, rows_of}
use cring.DocSearch.CreateSearch.{displays, shown_if, search_results-create_results}
use cring.DocSearch.CreateLinks.{target, child_links, numbered, create_results-numbered}

abbrev here : Place
here = record { url = b'a' ∷ b'.' ∷ b'h' ∷ b't' ∷ b'm' ∷ b'l' ∷ []; in_parent = true; scope = [] }

-- Two places for `ab`, one for `c`.
abbrev search_data : List Datum
search_data =
    record { id = b'a' ∷ b'b' ∷ []; name = b'a' ∷ b'b' ∷ []; places = here ∷ here ∷ [] }
    ∷ record { id = b'c' ∷ []; name = b'c' ∷ []; places = here ∷ [] }
    ∷ []

-- A letter of ASCII in lower case.
abbrev lower : Text → Text
lower [] = []
lower (c ∷ t) = (if upper c then c + 32 else c) ∷ lower t
  where
    upper : ℕ → Bool
    upper c = (leb b'A' c) && (leb c b'Z')

abbrev same : Text → Text
same t = t

abbrev drawn_results : Results
drawn_results = record {
  rows = rows_of (create_results 0 search_data);
  searching = block;
  no_matches = unset;
  last_match_count = 0;
}

lower_sr : (id : Text) → lower (sr_id id) ≡ b's' ∷ b'r' ∷ b'_' ∷ lower id
lower_sr id = refl

search_results-create_results_example :
    displays (search_results lower same drawn_results (b'a' ∷ []) []).rows
    ≡ map (shown_if lower same lower_sr (search_key lower same (b'a' ∷ []) [])) search_data
search_results-create_results_example =
    search_results-create_results lower same lower_sr search_data drawn_results (b'a' ∷ []) [] refl

abbrev first_drawn : Drawn
first_drawn = create_result 0 (b'a' ∷ b'b' ∷ []) (b'a' ∷ b'b' ∷ []) (here ∷ here ∷ [])

first_at : get_elem? (create_results 0 search_data) 0 ≡ some first_drawn
unfolding create_results
first_at = refl

create_results-numbered_example :
    map target (first_drawn.link ∷ child_links first_drawn.below)
    ≡ numbered 0 (length (child_links first_drawn.below))
create_results-numbered_example = create_results-numbered search_data 0 first_drawn first_at

-- Row 7 is at address 1, with its entry at 2, the link at 3 and the children at 4.
abbrev node : ℕ → Node
node a = record {
  id = row 7;
  is_div = not (a == 3);
  is_children = a == 4;
  first_child = if a == 1 then some 2 else if a == 2 then some 3 else none;
  next_sibling = if a == 3 then some 4 else none;
  parent = if a == 2 then some 1 else if a == 1 then none else some 2;
  display = unset;
}

abbrev element : ElementId → Option ℕ
element (item n) = none
element (child i j) = none
element (row n) = if n == 7 then some 1 else none

abbrev page : Page
page = record { nodes = node; get_element = element; focus = on_page; close_results = false }

page-IsDrawn : IsDrawn page (row 7) 4
page-IsDrawn = record {
  top = 1;
  entry = 2;
  link = 3;
  found = refl;
  first = refl;
  entry_apart = refl;
  entry_div = refl;
  entry_class = refl;
  entry_first = refl;
  entry_next = refl;
  entry_parent = refl;
  top_self = refl;
  link_apart = refl;
  link_div = refl;
  link_next = refl;
  below_apart = refl;
  below_next = refl;
  below_parent = refl;
}

find_child_element-IsDrawn_example : find_child_element 5 page (row 7) ≡ value (some 4)
find_child_element-IsDrawn_example =
    find_child_element-IsDrawn page-IsDrawn 5 true (omega arith) refl refl
