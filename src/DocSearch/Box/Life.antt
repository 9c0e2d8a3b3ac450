-- ===== src/DocSearch/Box/Life.antt =====
-- search.js: all that happens to a `SearchBox`, one event of the page after the other.
use cring.Prelude.{
  ℕ, ◌≡◌, refl, sym, subst, ◌⊎◌, inl, inr, List, some, Bool, false, arith, ltb, not, ◌-◌, ◌+◌, ◌&&◌,
  ◌==◌, ◌||◌, Bool-cases, Option-cases, get_elem?,
}
use cring.DocSearch.Text.{Text, is_empty, strip_all, strip_leading}
use cring.DocSearch.Box.State.{
  Box, SelectChild, Timer, search_timer, close_timer, clear_timer, field_focused,
}
use cring.DocSearch.Box.Display.{
  hide_results, on_search_field_focus, move_focus, close_results_window, close_selection_window,
  on_search_select_show, on_search_select_hide, select_item_set, select_item_count,
}
use cring.DocSearch.Box.Search.{
  Site, Ended, returned, threw, search, search_section, results_location, index_of, idx_char,
}
use cring.DocSearch.Box.Events.{
  KeyPress, search_box, on_search_field_change, on_select_item, choose_item, on_search_select_key,
  run_timer,
}
use cring.DocSearch.Box.Typing.{show-keeps, field_change-IsTimed}
use cring.DocSearch.Box.Timers.{
  Timers, timers, timer_of, IsTimed, no_key, clear_any, clear_close, add_key, add_hide, clear_hide,
  timers-activate, timers-move_focus, timers-show_results,
}

abbrev pub box_of : Ended → Box
box_of (returned b) = b
box_of (threw b) = b

-- An event of the page, and the box behind its handler. A call that throws leaves what it has done.
pub data BoxStep (site : Site) : Box → Box → Type 0 where
  field_focus : (b : Box) (is_active : Bool) → BoxStep site b (on_search_field_focus b is_active)
  field_change : (b : Box) (e : KeyPress) → BoxStep site b (on_search_field_change site b e)
  field_typed : (b : Box) (text : Text) → BoxStep site b (record b { field_value = text })
  select_show :
      (b : Box)
      → BoxStep site b (on_search_select_show site.search_select site.select_window_width b)
  select_hide : (b : Box) → BoxStep site b (on_search_select_hide b)
  select_item : (b : Box) (id : ℕ) → BoxStep site b (box_of (on_select_item site b id))
  select_key : (b : Box) (e : KeyPress) → BoxStep site b (box_of (on_search_select_key site b e))
  close_results : (b : Box) → BoxStep site b (close_results_window b)
  timer :
      (b : Box) (id : ℕ) (t : Timer)
      → timer_of id b.pending ≡ some t
      → BoxStep site b (box_of (run_timer site b (id, t)))

pub data BoxReach (site : Site) (b : Box) : Box → Type 0 where
  here : BoxReach site b b
  next : {c d : Box} → BoxReach site b c → BoxStep site c d → BoxReach site b d

abbrev IsBoxTimed : Box → Type 0
IsBoxTimed b = IsTimed (timers b)

kept : {s t : Timers} → t ≡ s → IsTimed s → IsTimed t
kept e v = subst IsTimed (sym e) v

section-timers :
    (site : Site) (b : Box) (v section : Text) → timers (search_section site b v section) ≡ timers b
unfolding search_section
section-timers site b v section =
    timers-show_results site (record b {
      results_location = results_location site b v (index_of (idx_char site v) section);
    })

search-timers :
    (site : Site) (b : Box) → timers (box_of (search site b)) ≡ record (timers b) { key = 0 }
unfolding search
search-timers site b = elim (Option-cases (get_elem? site.sections b.search_index)) [
  | inl e ↦ rw (box_of, e) refl
  | inr (section, e) ↦
      rw (box_of, e)
        (section-timers site (record b { key_timeout = 0 }) (strip_leading b.field_value) section)
]

select_item-timers :
    (site : Site) (b : Box) (id : ℕ)
    → (timers (box_of (on_select_item site b id)) ≡ timers b)
      ⊎ (timers (box_of (on_select_item site b id)) ≡ record (timers b) { key = 0 })
unfolding on_select_item select_item_set
select_item-timers site b id =
    let b' = select_item_set (record b { search_index = id }) id in
    elim (Bool-cases (not (is_empty (strip_all b'.field_value)) && b'.search_active)) [
      | inl e ↦ inr (rw e (search-timers site b'))
      | inr e ↦ inl (rw e refl)
    ]

select_item-IsTimed :
    (site : Site) (b : Box) (id : ℕ) → IsBoxTimed b → IsBoxTimed (box_of (on_select_item site b id))
select_item-IsTimed site b id v = elim (select_item-timers site b id) [
  | inl e ↦ kept e v
  | inr e ↦ kept e (no_key v)
]

choose_item-IsTimed :
    (site : Site) (e : Ended) → IsBoxTimed (box_of e) → IsBoxTimed (box_of (choose_item site e))
unfolding choose_item close_selection_window move_focus
choose_item-IsTimed site (returned b) v =
    kept (timers-move_focus b.focus field_focused (close_selection_window b)) v
choose_item-IsTimed site (threw b) v = v

select_key-IsTimed :
    (site : Site) (b : Box) (e : KeyPress)
    → IsBoxTimed b
    → IsBoxTimed (box_of (on_search_select_key site b e))
unfolding on_search_select_key
select_key-IsTimed site b e v =
    elim (Bool-cases (e.key_code == 40 && ltb b.search_index (select_item_count b))) [
      | inl down ↦ rw down (select_item-IsTimed site b (b.search_index + 1) v)
      | inr not_down ↦ elim (Bool-cases (e.key_code == 38 && ltb 0 b.search_index)) [
        | inl up ↦ rw (not_down, up) (select_item-IsTimed site b (b.search_index - 1) v)
        | inr not_up ↦ elim (Bool-cases (e.key_code == 13 || e.key_code == 27)) [
          | inl chosen ↦
              rw (not_down, not_up, chosen)
                (choose_item-IsTimed site (on_select_item site b b.search_index)
                  (select_item-IsTimed site b b.search_index v))
          | inr other ↦ rw (not_down, not_up, other) v
        ]
      ]
    ]

run_timer-IsTimed :
    (site : Site) (b : Box) (id : ℕ) (t : Timer)
    → timer_of id b.pending ≡ some t
    → IsBoxTimed b
    → IsBoxTimed (box_of (run_timer site b (id, t)))
unfolding run_timer close_selection_window
run_timer-IsTimed site b id search_timer e v =
    kept (search-timers site (clear_timer b id)) (clear_any id v)
run_timer-IsTimed site b id close_timer e v = clear_close id (λ f. ground arith) v

-- Every event keeps the invariant of the timers.
BoxStep-IsTimed : {site : Site} {b c : Box} → BoxStep site b c → IsBoxTimed b → IsBoxTimed c
unfolding on_search_field_focus on_search_select_hide close_results_window
BoxStep-IsTimed (field_focus b is_active) v = kept (timers-activate b is_active) v
BoxStep-IsTimed {site} (field_change b e) v = field_change-IsTimed site b e v
BoxStep-IsTimed (field_typed b text) v = v
BoxStep-IsTimed {site} (select_show b) v =
    show-keeps IsTimed (λ t. add_key) (λ t. clear_hide) site b v
BoxStep-IsTimed (select_hide b) v = add_hide v
BoxStep-IsTimed {site} (select_item b id) v = select_item-IsTimed site b id v
BoxStep-IsTimed {site} (select_key b e) v = select_key-IsTimed site b e v
BoxStep-IsTimed (close_results b) v = kept (timers-activate (hide_results b) false) v
BoxStep-IsTimed {site} (timer b id t e) v = run_timer-IsTimed site b id t e v

-- In every state that a new `SearchBox` comes to, `keyTimeout` is 0 or the number of a search that
-- waits, `hideTimeout` is not the number of one, and the numbers of the timers to come are unused.
pub BoxReach-IsTimed :
    (site : Site) (path : Text) (in_frame : Bool) (label extension value : Text)
    (children : List SelectChild) {c : Box}
    → BoxReach site (search_box path in_frame label extension value children) c
    → IsTimed (timers c)
unfolding search_box
BoxReach-IsTimed site path in_frame label extension value children here = record {
  key = inl refl;
  hide = λ e. ground arith;
  hide_le = omega arith;
  unused = λ j lt. refl;
  zero_unused = refl;
}
BoxReach-IsTimed site path in_frame label extension value children (next r s) =
    BoxStep-IsTimed s (BoxReach-IsTimed site path in_frame label extension value children r)
