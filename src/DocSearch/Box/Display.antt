-- ===== src/DocSearch/Box/Display.antt =====
-- search.js: opening and closing what a `SearchBox` shows.
use cring.Prelude.{ℕ, ◌+◌, List, [], ◌∷◌, pos, ◌+ℤ◌, ◌-ℤ◌, Bool, true, false, ◌||◌}
use cring.Prelude.{◌==◌, if◌then◌else◌}
use cring.DocSearch.Text.{same_text}
use cring.DocSearch.Rows.{Display, block, hidden}
use cring.DocSearch.Box.State.{
  Box, Window, Layout, SelectChild, Focused, field_focused, child_focused, none_focused, get_x_pos,
  get_y_pos, clear_timer, close_timer, add_timer,
}

abbrev pub is_block : Display → Bool
is_block block = true
is_block _ = false

abbrev pub hide_results : Box → Box
hide_results b = record b {
  results_window = record (b.results_window) { display = hidden };
  close_button = hidden;
}

unfoldable pub activate : Box → (is_active : Bool) → Box
activate b is_active =
    if is_active || is_block b.results_window.display
    then (let opened = record b { box_is_active = true } in
        if same_text b.field_value b.search_label
        then record opened { field_value = []; search_active = true }
        else opened)
    else record b {
      box_is_active = false;
      field_value = b.search_label;
      search_active = false;
      last_search_value = [];
      last_results_page = [];
    }

-- The handler of the field's `onfocus` and `onblur`.
unfoldable pub on_search_field_focus : Box → (is_active : Bool) → Box
unfolding activate
on_search_field_focus b is_active = activate b is_active

-- `focus()` and `blur()` call the field's handlers where the focus changes.
unfoldable pub move_focus_from : (from to : Focused) → Box → Box
unfolding on_search_field_focus
move_focus_from field_focused field_focused b = b
move_focus_from field_focused (child_focused n) b = record (on_search_field_focus b false) {
  focus = child_focused n;
}
move_focus_from field_focused none_focused b = record (on_search_field_focus b false) {
  focus = none_focused;
}
move_focus_from (child_focused n) field_focused b = record (on_search_field_focus b true) {
  focus = field_focused;
}
move_focus_from (child_focused n) (child_focused m) b = record b { focus = child_focused m }
move_focus_from (child_focused n) none_focused b = record b { focus = none_focused }
move_focus_from none_focused field_focused b = record (on_search_field_focus b true) {
  focus = field_focused;
}
move_focus_from none_focused (child_focused n) b = record b { focus = child_focused n }
move_focus_from none_focused none_focused b = b

unfoldable pub move_focus : Box → Focused → Box
unfolding move_focus_from
move_focus b to = move_focus_from b.focus to b

-- `blur()` of the field, which does nothing if the field does not have the focus.
unfoldable pub blur_from : Focused → Box → Box
unfolding on_search_field_focus
blur_from field_focused b = record (on_search_field_focus b false) { focus = none_focused }
blur_from (child_focused n) b = b
blur_from none_focused b = b

unfoldable pub close_results_window : Box → Box
unfolding activate
close_results_window b = activate (hide_results b) false

unfoldable pub close_selection_window : Box → Box
close_selection_window b = record b {
  select_window = record (b.select_window) { display = hidden };
}

-- `select` is the layout of the button; `popup_width` the width of the list once it is shown.
unfoldable pub place_select : (select : Layout) (popup_width : ℕ) → Box → Window
unfolding get_x_pos get_y_pos
place_select select popup_width b =
    if b.inside_frame
    then record (b.select_window) {
      display = block;
      left = get_x_pos select +ℤ pos (select.width + 6) -ℤ pos popup_width;
      top = get_y_pos select +ℤ pos select.height;
    }
    else record (b.select_window) {
      display = block;
      left = get_x_pos select;
      top = get_y_pos select +ℤ pos select.height;
    }

unfoldable pub on_search_select_show : (select : Layout) (popup_width : ℕ) → Box → Box
unfolding place_select
on_search_select_show select popup_width b =
    let shown = record b { select_window = place_select select popup_width b } in
    if b.hide_timeout == 0
    then shown
    else record (clear_timer shown b.hide_timeout) { hide_timeout = 0 }

unfoldable pub on_search_select_hide : Box → Box
on_search_select_hide b =
    let b' = add_timer b close_timer in record b' { hide_timeout = b'.next_timer }

unfoldable pub count_items : List SelectChild → ℕ
count_items [] = 0
count_items (c ∷ cs) = (if c.is_item then 1 else 0) + count_items cs

unfoldable pub select_item_count : Box → ℕ
unfolding count_items
select_item_count b = count_items b.select_children

-- The loop with its counter `j`: the item with number `id` gets the bullet, the others lose it.
unfoldable pub mark_items : (id j : ℕ) → List SelectChild → List SelectChild
mark_items id j [] = []
mark_items id j (c ∷ cs) =
    (if c.is_item then record c { marked = j == id } else c)
    ∷ mark_items id (if c.is_item then j + 1 else j) cs

unfoldable pub select_item_set : Box → (id : ℕ) → Box
unfolding mark_items
select_item_set b id = record b { select_children = mark_items id 0 b.select_children }
