-- ===== src/DocSearch/Box/State.antt =====
-- search.js: what a `SearchBox` keeps, and the parts of the page that it works on.
use cring.Prelude.{ℕ, suc, List, [], ◌∷◌, ℤ, pos, ◌+ℤ◌, Bool}
use cring.Prelude.{◌==◌, if◌then◌else◌}
use cring.DocSearch.Text.{Text}
use cring.DocSearch.Rows.{Display}

-- An element as `getXPos` and `getYPos` see it: `ancestors` has the offsets of the element and of its
-- offset parents below `document.body`.
pub record Offset : Type 0 where
  pub left : ℤ
  pub top : ℤ

pub record Layout : Type 0 where
  pub width : ℕ
  pub height : ℕ
  pub ancestors : List Offset

module _ (side : Offset → ℤ) where
  unfoldable pub sum_offsets : ℤ → List Offset → ℤ
  sum_offsets x [] = x
  sum_offsets x (o ∷ os) = sum_offsets (x +ℤ side o) os

unfoldable pub get_x_pos : Layout → ℤ
unfolding sum_offsets
get_x_pos l = if l.width == 0 then pos 0 else sum_offsets (λ o. o.left) (pos 0) l.ancestors

unfoldable pub get_y_pos : Layout → ℤ
unfolding sum_offsets
get_y_pos l = if l.width == 0 then pos 0 else sum_offsets (λ o. o.top) (pos 0) l.ancestors

-- The style of one of the two windows.
pub record Window : Type 0 where
  pub display : Display
  pub left : ℤ
  pub top : ℤ
  pub width : ℤ
  pub relative : Bool

-- A child of the list of filters; `marked` is its bullet, if its class is `SelectItem`.
pub record SelectChild : Type 0 where
  pub is_item : Bool
  pub marked : Bool

pub data Timer : Type 0 where
  search_timer close_timer : Timer

pub data Focused : Type 0 where
  field_focused : Focused
  child_focused : ℕ → Focused
  none_focused : Focused

-- `pending` are the timers that have been set, have not been cleared, and have not run.
pub record Box : Type 0 where
  pub results_path : Text
  pub extension : Text
  pub search_label : Text
  pub inside_frame : Bool
  pub key_timeout : ℕ
  pub hide_timeout : ℕ
  pub last_search_value : Text
  pub last_results_page : Text
  pub search_index : ℕ
  pub search_active : Bool
  pub field_value : Text
  pub box_is_active : Bool
  pub close_button : Display
  pub select_window : Window
  pub results_window : Window
  pub results_width : ℤ
  pub results_location : Text
  pub select_children : List SelectChild
  pub focus : Focused
  pub take_focus_messages : ℕ
  pub next_timer : ℕ
  pub pending : List (ℕ × Timer)

-- `setTimeout` answers with a number that is not 0.
abbrev pub add_timer : Box → Timer → Box
add_timer b t = record b {
  pending = (suc b.next_timer, t) ∷ b.pending;
  next_timer = suc b.next_timer;
}

abbrev pub without : ℕ → List (ℕ × Timer) → List (ℕ × Timer)
without id [] = []
without id ((j, t) ∷ ts) = if j == id then without id ts else (j, t) ∷ without id ts

-- `clearTimeout`
abbrev pub clear_timer : Box → ℕ → Box
clear_timer b id = record b { pending = without id b.pending }
