-- ===== src/DocSearch/Box/Reset.antt =====
-- search.js: what the Escape key, `CloseResultsWindow` and the field's focus leave of a search.
use cring.Prelude.{◌≡◌, refl, sym, ap, ◌∙◌, [], ◌≢◌, Bool, false, arith}
use cring.Prelude.{◌==◌, if◌then◌else◌}
use cring.DocSearch.Rows.{hidden}
use cring.DocSearch.Box.State.{Box, Focused, field_focused, child_focused, none_focused, without}
use cring.DocSearch.Box.Display.{
  hide_results, activate, blur_from, on_search_field_focus, close_results_window,
}
use cring.DocSearch.Box.Search.{Site}
use cring.DocSearch.Box.Events.{kill_timer, escape_field, on_search_field_change}
use cring.DocSearch.Box.Timers.{Timers, timers-escape_field}

-- What is shown and kept of a search is gone: no window, no text, no last search. The timers are not
-- spoken of.
pub record IsReset (b : Box) : Type 0 where
  pub window : b.results_window.display ≡ hidden
  pub button : b.close_button ≡ hidden
  pub text : b.field_value ≡ b.search_label
  pub inactive : b.search_active ≡ false
  pub box_inactive : b.box_is_active ≡ false
  pub value : b.last_search_value ≡ []
  pub page : b.last_results_page ≡ []

escape_field-IsReset : (b : Box) → IsReset (escape_field b)
unfolding escape_field activate
escape_field-IsReset b = record {
  window = refl;
  button = refl;
  text = refl;
  inactive = refl;
  box_inactive = refl;
  value = refl;
  page = refl;
}

close_results_window-IsReset : (b : Box) → IsReset (close_results_window b)
unfolding close_results_window activate
close_results_window-IsReset b = record {
  window = refl;
  button = refl;
  text = refl;
  inactive = refl;
  box_inactive = refl;
  value = refl;
  page = refl;
}

activate-focus : (b : Box) (is_active : Bool) → (activate b is_active).focus ≡ b.focus
unfolding activate
activate-focus b is_active = ground arith

blur-focus : (o : Focused) (b : Box) → o ≡ b.focus → (blur_from o b).focus ≢ field_focused
unfolding blur_from
blur-focus field_focused b e h = ground arith
blur-focus (child_focused n) b e h = ground arith
blur-focus none_focused b e h = ground arith

activate-key_timeout :
    (b : Box) (is_active : Bool) → (activate b is_active).key_timeout ≡ b.key_timeout
unfolding activate
activate-key_timeout b is_active = ground arith

blur-key_timeout : (o : Focused) (b : Box) → (blur_from o b).key_timeout ≡ b.key_timeout
unfolding blur_from on_search_field_focus
blur-key_timeout field_focused b = activate-key_timeout b false
blur-key_timeout (child_focused n) b = refl
blur-key_timeout none_focused b = refl

escape_field-focus : (b : Box) → (escape_field b).focus ≢ field_focused
unfolding escape_field
escape_field-focus b h = blur-focus b.focus b refl (
    sym (
      activate-focus (record (hide_results (blur_from b.focus b)) { last_search_value = [] }) false)
    ∙ h)

escape_field-key_timeout : (b : Box) → (escape_field b).key_timeout ≡ b.key_timeout
unfolding escape_field activate
escape_field-key_timeout b = blur-key_timeout b.focus b

kill_timer-key_timeout : (b : Box) → (kill_timer b).key_timeout ≡ 0
unfolding kill_timer
kill_timer-key_timeout b = ground arith

kill_timer-pending :
    (b : Box)
    → (kill_timer b).pending
      ≡ (if b.key_timeout == 0 then b.pending else without b.key_timeout b.pending)
unfolding kill_timer
kill_timer-pending b = ground arith

-- Escape in the search field, whatever the box was doing, hides the results, puts the label back,
-- forgets the last search, clears the timer whose number `keyTimeout` holds, if it is not 0, and no
-- other timer, sets `keyTimeout` to 0, and takes the focus off the field.
pub escape-IsReset :
    (site : Site) (b : Box) (shift : Bool)
    → let after = on_search_field_change site b (record { key_code = 27; shift_key = shift }) in
      IsReset after
      × (after.key_timeout ≡ 0)
      × (after.pending
          ≡ (if b.key_timeout == 0 then b.pending else without b.key_timeout b.pending))
      × (after.focus ≢ field_focused)
unfolding on_search_field_change
escape-IsReset site b shift = (
  escape_field-IsReset (kill_timer b),
  escape_field-key_timeout (kill_timer b) ∙ kill_timer-key_timeout b,
  ap (λ (t : Timers). t.pending) (timers-escape_field (kill_timer b)) ∙ kill_timer-pending b,
  escape_field-focus (kill_timer b),
)
