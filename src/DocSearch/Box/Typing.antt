-- ===== src/DocSearch/Box/Typing.antt =====
-- search.js: what the handlers of the search field do to the timers.
use cring.Prelude.{
  ℕ, suc, ◌≤◌, ◌≡◌, ◌≢◌, sym, subst, inl, inr, ◌∷◌, Option, none, some, arith, ◌==◌, ◌||◌,
  Bool-cases,
}
use cring.DocSearch.Text.{is_empty, same_text, strip_all}
use cring.DocSearch.Box.State.{Box, search_timer, child_focused, without}
use cring.DocSearch.Box.Display.{move_focus, on_search_select_show}
use cring.DocSearch.Box.Search.{Site}
use cring.DocSearch.Box.Events.{
  KeyPress, kill_timer, update_search, select_from_field, focus_child, first_item, post_take_focus,
  on_search_field_change,
}
use cring.DocSearch.Box.Timers.{
  Timers, timers, timer_of, IsTimed, clear_any, add_key, clear_hide, timers-move_focus,
  timers-escape_field, timer_of-without-none, timer_of-without_self,
}

abbrev pub with_search : Timers → Timers
with_search t = record t {
  key = suc t.newest;
  newest = suc t.newest;
  pending = (suc t.newest, search_timer) ∷ t.pending;
}

abbrev pub without_hide : Timers → Timers
without_hide t = record t { hide = 0; pending = without t.hide t.pending }

-- What holds of the timers once the field's own has been cleared still holds behind the handler, if it
-- holds behind the setting of a search and the clearing of the other timer.
module _ (P : Timers → Type 0) (set_search : (t : Timers) → P t → P (with_search t))
    (clear : (t : Timers) → P t → P (without_hide t)) where
  update_search-keeps : (b : Box) → P (timers b) → P (timers (update_search b))
  unfolding update_search
  update_search-keeps b v =
      elim (Bool-cases (same_text (strip_all b.field_value) b.last_search_value)) [
        | inl e ↦ rw e v
        | inr e ↦ elim (Bool-cases (is_empty (strip_all b.field_value))) [
          | inl f ↦ rw (e, f) v
          | inr f ↦ rw (e, f) (set_search (timers b) v)
        ]
      ]

  pub show-keeps :
      (site : Site) (b : Box)
      → P (timers b)
      → P (timers (on_search_select_show site.search_select site.select_window_width b))
  unfolding on_search_select_show
  show-keeps site b v = elim (Bool-cases (b.hide_timeout == 0)) [
    | inl e ↦ rw e v
    | inr e ↦ rw e (clear (timers b) v)
  ]

  focus_child-keeps : (b : Box) (o : Option ℕ) → P (timers b) → P (timers (focus_child b o))
  unfolding move_focus
  focus_child-keeps b none v = v
  focus_child-keeps b (some i) v = subst P (sym (timers-move_focus b.focus (child_focused i) b)) v

  select_from_field-keeps :
      (site : Site) (b : Box) → P (timers b) → P (timers (select_from_field site b))
  unfolding select_from_field
  select_from_field-keeps site b v =
      let shown = on_search_select_show site.search_select site.select_window_width b in
      focus_child-keeps shown (first_item 0 shown.select_children) (show-keeps site b v)

  pub field_change-keeps :
      (site : Site) (b : Box) (e : KeyPress)
      → P (timers (kill_timer b))
      → P (timers (on_search_field_change site b e))
  unfolding on_search_field_change
  field_change-keeps site b e w = elim (Bool-cases (e.key_code == 40 || e.key_code == 13)) [
    | inl down ↦ elim (Bool-cases e.shift_key) [
      | inl shift ↦ rw (down, shift) (select_from_field-keeps site (kill_timer b) w)
      | inr plain ↦ rw (down, plain) (update_search-keeps (post_take_focus (kill_timer b)) w)
    ]
    | inr other ↦ elim (Bool-cases (e.key_code == 27)) [
      | inl escape ↦ rw (other, escape) (subst P (sym (timers-escape_field (kill_timer b))) w)
      | inr plain ↦ rw (other, plain) (update_search-keeps (kill_timer b) w)
    ]
  ]

kill_timer-IsTimed : (b : Box) → IsTimed (timers b) → IsTimed (timers (kill_timer b))
unfolding kill_timer
kill_timer-IsTimed b v = elim (Bool-cases (b.key_timeout == 0)) [
  | inl e ↦ rw e v
  | inr e ↦ rw e (clear_any b.key_timeout v)
]

pub field_change-IsTimed :
    (site : Site) (b : Box) (e : KeyPress)
    → IsTimed (timers b)
    → IsTimed (timers (on_search_field_change site b e))
field_change-IsTimed site b e v =
    field_change-keeps IsTimed (λ t. add_key) (λ t. clear_hide) site b e (kill_timer-IsTimed b v)

-- The timer `k` is neither pending nor one to come.
abbrev IsGone : ℕ → Timers → Type 0
IsGone k t = (timer_of k t.pending ≡ none) × (k ≤ t.newest)

key_le : (t : Timers) → IsTimed t → t.key ≤ t.newest
key_le t v = elim v.key [ inl e ↦ omega (arith, e) | inr e ↦ ground (arith, v.unused t.key) ]

kill_timer-IsGone :
    (b : Box)
    → IsTimed (timers b)
    → b.key_timeout ≢ 0
    → IsGone b.key_timeout (timers (kill_timer b))
unfolding kill_timer
kill_timer-IsGone b v ne = elim (Bool-cases (b.key_timeout == 0)) [
  | inl e ↦ absurd (ground arith)
  | inr e ↦ rw e (timer_of-without_self b.key_timeout b.pending, key_le (timers b) v)
]

-- With the timers' invariant, if `keyTimeout` is not 0 then it is the number of a search that waits, and
-- any key in the search field cancels that search: behind the handler no timer of this number is
-- pending, whatever else the key did. Nothing is said of a search whose number has been forgotten.
pub field_change-cancels :
    (site : Site) (b : Box) (e : KeyPress)
    → IsTimed (timers b)
    → b.key_timeout ≢ 0
    → (timer_of b.key_timeout b.pending ≡ some search_timer)
      × (timer_of b.key_timeout (on_search_field_change site b e).pending ≡ none)
field_change-cancels site b e v ne = (
  elim v.key [ inl z ↦ absurd (ne z) | inr w ↦ w ],
  (field_change-keeps (IsGone b.key_timeout) (λ t g. (ground (arith, g.0, g.1), omega (arith, g.1)))
      (λ t g. (timer_of-without-none t.hide b.key_timeout t.pending g.0, g.1)) site b e
      (kill_timer-IsGone b v ne)).0,
)
