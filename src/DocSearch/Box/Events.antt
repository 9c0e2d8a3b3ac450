-- ===== src/DocSearch/Box/Events.antt =====
-- search.js: the constructor of `SearchBox`, and its handlers of the field's and the filter's events.
use cring.Prelude.{
  ℕ, suc, ◌+◌, ◌-◌, List, [], ◌∷◌, ◌++◌, Option, none, some, pos, Bool, true, false, not, ◌&&◌,
  ◌||◌,
}
use cring.Prelude.{◌==◌, if◌then◌else◌, ltb}
use cring.DocSearch.Text.{Text, same_text, is_empty, strip_all}
use cring.DocSearch.Rows.{hidden}
use cring.DocSearch.Box.State.{
  Box, Window, SelectChild, Timer, search_timer, close_timer, field_focused, child_focused,
  none_focused, add_timer, clear_timer,
}
use cring.DocSearch.Box.Display.{
  hide_results, activate, move_focus, blur_from, close_selection_window, on_search_select_show,
  select_item_count, select_item_set,
}
use cring.DocSearch.Box.Search.{Site, Ended, returned, threw, search}

abbrev html : Text
html = b'.' ∷ b'h' ∷ b't' ∷ b'm' ∷ b'l' ∷ []

-- The constructor, in a page whose elements are as the generated page has them at first.
unfoldable pub search_box :
    (results_path : Text) (in_frame : Bool) (label extension field_value : Text)
    (children : List SelectChild)
    → Box
search_box path in_frame label ext value children = record {
  results_path = path;
  extension = if is_empty ext then html else ext;
  search_label = label;
  inside_frame = in_frame;
  key_timeout = 0;
  hide_timeout = 0;
  last_search_value = [];
  last_results_page = [];
  search_index = 0;
  search_active = false;
  field_value = value;
  box_is_active = false;
  close_button = hidden;
  select_window = closed;
  results_window = closed;
  results_width = pos 0;
  results_location = [];
  select_children = children;
  focus = none_focused;
  take_focus_messages = 0;
  next_timer = 0;
  pending = [];
}
  where
    closed : Window
    closed = record { display = hidden; left = pos 0; top = pos 0; width = pos 0; relative = false }

pub record KeyPress : Type 0 where
  pub key_code : ℕ
  pub shift_key : Bool

unfoldable pub kill_timer : Box → Box
kill_timer b =
    if b.key_timeout == 0 then b else record (clear_timer b b.key_timeout) { key_timeout = 0 }

-- The place of the first child whose class is `SelectItem`.
abbrev pub first_item : ℕ → List SelectChild → Option ℕ
first_item i [] = none
first_item i (c ∷ cs) = let rest = first_item (suc i) cs in if c.is_item then some i else rest

abbrev pub focus_child : Box → Option ℕ → Box
unfolding move_focus
focus_child b none = b
focus_child b (some i) = move_focus b (child_focused i)

-- The end of `OnSearchFieldChange`, which compares the field's value to the last one.
unfoldable pub update_search : Box → Box
update_search b =
    let v = strip_all b.field_value in
    if same_text v b.last_search_value
    then b
    else if is_empty v
    then record (hide_results b) { last_search_value = [] }
    else (let b' = add_timer b search_timer in record b' { key_timeout = b'.next_timer })

unfoldable pub escape_field : Box → Box
unfolding activate blur_from
escape_field b =
    activate (record (hide_results (blur_from b.focus b)) { last_search_value = [] }) false

unfoldable pub select_from_field : Site → Box → Box
unfolding on_search_select_show
select_from_field site b =
    let shown = on_search_select_show site.search_select site.select_window_width b in
    focus_child shown (first_item 0 shown.select_children)

-- `take_focus` is posted to the frame of the results.
abbrev pub post_take_focus : Box → Box
post_take_focus b = record b { take_focus_messages = suc b.take_focus_messages }

unfoldable pub on_search_field_change : Site → Box → KeyPress → Box
unfolding kill_timer select_from_field update_search escape_field
on_search_field_change site b e =
    let killed = kill_timer b in
    if e.key_code == 40 || e.key_code == 13
    then (if e.shift_key
        then select_from_field site killed
        else update_search (post_take_focus killed))
    else if e.key_code == 27
    then escape_field killed
    else update_search killed

unfoldable pub on_select_item : Site → Box → (id : ℕ) → Ended
unfolding select_item_set search
on_select_item site b id =
    let b' = select_item_set (record b { search_index = id }) id in
    if not (is_empty (strip_all b'.field_value)) && b'.search_active
    then search site b'
    else returned b'

-- The items that `init_search` makes of `indexSectionLabels`.
abbrev pub label_items : List Text → List SelectChild
label_items [] = []
label_items (l ∷ ls) = record { is_item = true; marked = false } ∷ label_items ls

unfoldable pub init_search : Site → Box → (labels : List Text) → Ended
unfolding on_select_item
init_search site b labels =
    on_select_item site (record b { select_children = b.select_children ++ label_items labels }) 0

unfoldable pub choose_item : Site → Ended → Ended
unfolding close_selection_window move_focus
choose_item site (returned b) = returned (move_focus (close_selection_window b) field_focused)
choose_item site (threw b) = threw b

unfoldable pub on_search_select_key : Site → Box → KeyPress → Ended
unfolding on_select_item select_item_count choose_item
on_search_select_key site b e =
    if e.key_code == 40 && ltb b.search_index (select_item_count b)
    then on_select_item site b (b.search_index + 1)
    else if e.key_code == 38 && ltb 0 b.search_index
    then on_select_item site b (b.search_index - 1)
    else if e.key_code == 13 || e.key_code == 27
    then choose_item site (on_select_item site b b.search_index)
    else returned b

-- The browser runs a pending timer, which is then no longer pending.
unfoldable pub run_timer : Site → Box → ℕ × Timer → Ended
unfolding search close_selection_window
run_timer site b (id, search_timer) = search site (clear_timer b id)
run_timer site b (id, close_timer) = returned (close_selection_window (clear_timer b id))
