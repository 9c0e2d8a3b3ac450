-- ===== src/Tests/DocSearch.antt =====
-- search.js on a small page: two results, the first with an id of two letters, and a small index.
use cring.Prelude.{
  ℕ, zero, suc, ◌<◌, ◌≡◌, ◌≢◌, ◌↔◌, refl, List, [], ◌∷◌, ◌++◌, map, Option, none, some, pos, negsuc,
  inc, true, false, arith,
}
use cring.Prelude.{◌==◌, if◌then◌else◌}
use cring.DocSearch.Text.{Text, hex, hex_digit, begins}
use cring.DocSearch.Id.{convert_to_id, begins-convert_to_id}
use cring.DocSearch.Rows.{
  Display, unset, block, hidden, Results, match_row, match_rows, search_results, search_key,
  revealed, shown_count, search_results-revealed,
}
use cring.DocSearch.Keys.{KeyState, process_all, down, press, presses, always, process_all-down}
use cring.DocSearch.Page.{ElementId, item, child, row, Node, Page, on_page, value}
use cring.DocSearch.Nav.{nav_next}
use cring.DocSearch.NavVisible.{walked, IsHidden, nav_next-IsEnd}
use cring.DocSearch.Box.State.{Box, SelectChild, search_timer, field_focused}
use cring.DocSearch.Box.Display.{on_search_field_focus}
use cring.DocSearch.Text.{strip_leading}
use cring.DocSearch.Box.Search.{returned, idx_char, results_location, Site, search, threw}
use cring.DocSearch.Box.Events.{search_box, on_search_field_change}
use cring.DocSearch.Box.Timers.{timers, timer_of, IsTimed}
use cring.DocSearch.Box.Typing.{field_change-cancels}
use cring.DocSearch.Box.Life.{
  box_of, BoxReach, here, next, field_focus, field_typed, field_change, BoxReach-IsTimed,
}
use cring.DocSearch.Box.Index.{IsFirst, search-opens}
use cring.DocSearch.Box.Reset.{IsReset, escape-IsReset}

abbrev a_b : Text
a_b = b'a' ∷ b' ' ∷ b'b' ∷ []

convert_to_id_run : convert_to_id a_b ≡ b'a' ∷ b'_' ∷ b'2' ∷ b'0' ∷ b'b' ∷ []
unfolding convert_to_id hex hex_digit
convert_to_id_run = refl

begins-convert_to_id_example :
    (begins (convert_to_id (b'a' ∷ [])) (convert_to_id a_b) ≡ true)
    ↔ ((rest : Text) × (a_b ≡ (b'a' ∷ []) ++ rest))
begins-convert_to_id_example = begins-convert_to_id (b'a' ∷ []) a_b

abbrev same : Text → Text
same t = t

-- The rows `sr0_ab` and `sr1_c`, and a div that is no result.
abbrev results : Results
results = record {
  rows =
      record {
        id = b's' ∷ b'r' ∷ b'0' ∷ b'_' ∷ b'a' ∷ b'b' ∷ [];
        is_result = true;
        display = unset;
      }
      ∷ record { id = b's' ∷ b'r' ∷ b'1' ∷ b'_' ∷ b'c' ∷ []; is_result = true; display = unset }
      ∷ record { id = []; is_result = false; display = unset }
      ∷ [];
  searching = block;
  no_matches = unset;
  last_match_count = 0;
}

abbrev letter_a : Text
letter_a = b' ' ∷ b'a' ∷ b' ' ∷ []

search_results_run : (search_results same same results letter_a []).last_match_count ≡ 1
unfolding search_results match_rows match_row begins search_key convert_to_id
search_results_run = refl

search_results-revealed_example :
    let after = search_results same same results letter_a [] in
    (after.rows ≡ map (revealed same same (search_key same same letter_a [])) results.rows)
    × (after.last_match_count ≡ shown_count same same after.rows)
    × (after.no_matches ≡ (if shown_count same same after.rows == 0 then block else hidden))
    × (after.searching ≡ hidden)
search_results-revealed_example = search_results-revealed same same results letter_a []

abbrev fresh_keys : KeyState
fresh_keys = record { last_key = 0; repeat_on = false }

process_all-down_example :
    (process_all fresh_keys (down 40 ∷ press ∷ presses 2)).0 ≡ true ∷ false ∷ always true 2
process_all-down_example = process_all-down fresh_keys 40 2 (λ h. ground arith)

-- The address of the row of a result is 1 for a hidden row and 2 for a shown one; 10, 11 and 12 are the
-- links of the results 0, 1 and 2.
abbrev plain : Display → Option ℕ → Node
plain d p = record {
  id = row 0;
  is_div = true;
  is_children = false;
  first_child = none;
  next_sibling = none;
  parent = p;
  display = d;
}

abbrev node : ℕ → Node
node a =
    if a == 1
    then plain hidden none
    else if a == 2
    then plain block none
    else if a == 3
    then plain unset (some 1)
    else if a == 4
    then plain unset (some 2)
    else plain unset (some (if a == 12 then 4 else 3))

abbrev element : ElementId → Option ℕ
element (item (pos n)) =
    if n == 0 then some 10 else if n == 1 then some 11 else if n == 2 then some 12 else none
element (item (negsuc n)) = none
element (child i j) = none
element (row n) = none

abbrev page : Page
page = record { nodes = node; get_element = element; focus = on_page; close_results = false }

IsHidden-next : (j : ℕ) → j < 2 → IsHidden page (walked inc (pos 0) j)
IsHidden-next zero lt = (10, refl, refl)
IsHidden-next (suc zero) lt = (11, refl, refl)
IsHidden-next (suc (suc j)) lt = absurd (omega arith)

nav_next-IsEnd_example : nav_next 3 page (pos 0) ≡ value (some 12)
nav_next-IsEnd_example =
    nav_next-IsEnd 3 2 page (pos 0) (some 12) (omega arith) IsHidden-next (refl, refl)

abbrev filter : SelectChild
filter = record { is_item = true; marked = false }

abbrev path : Text
path = b's' ∷ b'e' ∷ b'a' ∷ b'r' ∷ b'c' ∷ b'h' ∷ []

abbrev label : Text
label = b'S' ∷ b'e' ∷ b'a' ∷ b'r' ∷ b'c' ∷ b'h' ∷ []

abbrev children : List SelectChild
children = filter ∷ record { is_item = false; marked = false } ∷ filter ∷ []

abbrev box : Box
box = search_box path false label [] letter_a children

-- The first section has `a` and `b`; the page's strings are as they are written.
abbrev site : Site
site = record {
  to_lower_case = same;
  escape = same;
  above_one = λ t. false;
  sections = (b'a' ∷ b'b' ∷ []) ∷ [];
  section_names = (b'n' ∷ []) ∷ [];
  search_box = record { width = 0; height = 0; ancestors = [] };
  search_select = record { width = 0; height = 0; ancestors = [] };
  client_width = 100;
  popup_width = 50;
  select_window_width = 20;
}

abbrev active : Box
active = record box {
  search_active = true;
  key_timeout = 1;
  next_timer = 1;
  pending = (1, search_timer) ∷ [];
  focus = field_focused;
}

escape-IsReset_example :
    let after = on_search_field_change site active (record { key_code = 27; shift_key = false }) in
    IsReset after × (after.key_timeout ≡ 0) × (after.pending ≡ []) × (after.focus ≢ field_focused)
escape-IsReset_example = escape-IsReset site active false

-- The page of the letter `a` is `search/n_0.html`; the filter behind the last one has no section.
search_runs :
    ((box_of (search site active)).results_location
      ≡ b's' ∷ b'e' ∷ b'a' ∷ b'r' ∷ b'c' ∷ b'h' ∷ b'/' ∷ b'n' ∷ b'_' ∷ b'0' ∷ b'.' ∷ b'h' ∷ b't'
        ∷ b'm' ∷ b'l' ∷ b'?' ∷ b'a' ∷ b' ' ∷ [])
    × (search site (record active { search_index = 1 })
        ≡ threw (record active { search_index = 1; key_timeout = 0 }))
unfolding search search_box hex hex_digit
search_runs = (refl, refl)

-- The field gets the focus and the text `a`, and a key sets a search.
abbrev typed : Box
typed =
    on_search_field_change site (record (on_search_field_focus box true) { field_value = letter_a })
      (record { key_code = 65; shift_key = false })

typed_reached : BoxReach site box typed
typed_reached =
    next (next (next here (field_focus box true)) (field_typed _ letter_a))
      (field_change _ (record { key_code = 65; shift_key = false }))

BoxReach-IsTimed_example : IsTimed (timers typed)
BoxReach-IsTimed_example = BoxReach-IsTimed site path false label [] letter_a children typed_reached

typed_waits : typed.key_timeout ≡ 1
unfolding on_search_field_change on_search_field_focus search_box
typed_waits = refl

field_change-cancels_example :
    (timer_of typed.key_timeout typed.pending ≡ some search_timer)
    × (timer_of typed.key_timeout
          (on_search_field_change site typed (record { key_code = 66; shift_key = false })).pending
        ≡ none)
field_change-cancels_example =
    field_change-cancels site typed (record { key_code = 66; shift_key = false })
      (BoxReach-IsTimed site path false label [] letter_a children typed_reached)
      (λ e. ground (arith, typed_waits))

search-opens_example :
    (c : Box) × (o : Option ℕ) × (search site active ≡ returned c)
    × IsFirst (idx_char site (strip_leading active.field_value)) (b'a' ∷ b'b' ∷ []) o
    × (c.results_location ≡ results_location site active (strip_leading active.field_value) o)
    × (c.results_window.display ≡ block)
    × (c.last_search_value ≡ strip_leading active.field_value)
unfolding search_box
search-opens_example = search-opens site active (b'a' ∷ b'b' ∷ []) refl
