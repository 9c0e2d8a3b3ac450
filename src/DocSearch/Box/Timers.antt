-- ===== src/DocSearch/Box/Timers.antt =====
-- search.js: the timers of a `SearchBox`, over all that can happen to it.
use cring.Prelude.{
  ℕ, suc, ◌≤◌, ◌<◌, ◌≡◌, ◌≢◌, refl, sym, ap, subst, ◌∙◌, ◌⊎◌, inl, inr, List, [], ◌∷◌, Option, none,
  some, Bool, true, false, arith, ℕ_discrete, ◌==◌, if◌then◌else◌,
}
use cring.DocSearch.Box.State.{
  Box, Timer, search_timer, close_timer, Focused, field_focused, child_focused, none_focused,
  without,
}
use cring.DocSearch.Box.Display.{
  activate, hide_results, on_search_field_focus, move_focus_from, blur_from,
}
use cring.DocSearch.Box.Search.{Site, show_results}
use cring.DocSearch.Box.Events.{escape_field}

-- What a box keeps of its timers.
pub record Timers : Type 0 where
  pub key : ℕ
  pub hide : ℕ
  pub newest : ℕ
  pub pending : List (ℕ × Timer)

abbrev pub timers : Box → Timers
timers b = record {
  key = b.key_timeout;
  hide = b.hide_timeout;
  newest = b.next_timer;
  pending = b.pending;
}

abbrev pub timer_of : ℕ → List (ℕ × Timer) → Option Timer
timer_of j [] = none
timer_of j ((i, t) ∷ ts) = if i == j then some t else timer_of j ts

-- `keyTimeout` is 0 or a search that waits, `hideTimeout` is no such search, and the numbers of the
-- timers to come are new; no timer has the number 0.
pub record IsTimed (t : Timers) : Type 0 where
  pub key : (t.key ≡ 0) ⊎ (timer_of t.key t.pending ≡ some search_timer)
  pub hide : timer_of t.hide t.pending ≢ some search_timer
  pub hide_le : t.hide ≤ t.newest
  pub unused : (j : ℕ) → t.newest < j → timer_of j t.pending ≡ none
  pub zero_unused : timer_of 0 t.pending ≡ none

pub timer_of-without_self : (j : ℕ) (ts : List (ℕ × Timer)) → timer_of j (without j ts) ≡ none
timer_of-without_self j [] = refl
timer_of-without_self j ((i, t) ∷ ts) = ground (arith, timer_of-without_self j ts)

timer_of-without_other :
    (i j : ℕ) (ts : List (ℕ × Timer)) → i ≢ j → timer_of j (without i ts) ≡ timer_of j ts
timer_of-without_other i j [] ne = refl
timer_of-without_other i j ((k, t) ∷ ts) ne = ground (arith, timer_of-without_other i j ts ne)

-- Clearing one timer leaves no other without its entry.
pub timer_of-without-none :
    (i j : ℕ) (ts : List (ℕ × Timer)) → timer_of j ts ≡ none → timer_of j (without i ts) ≡ none
timer_of-without-none i j ts e = elim (ℕ_discrete i j) [
  | yes p ↦ subst (λ k. timer_of j (without k ts) ≡ none) (sym p) (timer_of-without_self j ts)
  | no ne ↦ timer_of-without_other i j ts ne ∙ e
]

pub timers-activate : (b : Box) (is_active : Bool) → timers (activate b is_active) ≡ timers b
unfolding activate
timers-activate b is_active = ground arith

pub timers-move_focus : (o p : Focused) (b : Box) → timers (move_focus_from o p b) ≡ timers b
unfolding move_focus_from on_search_field_focus
timers-move_focus field_focused field_focused b = refl
timers-move_focus field_focused (child_focused n) b = timers-activate b false
timers-move_focus field_focused none_focused b = timers-activate b false
timers-move_focus (child_focused n) field_focused b = timers-activate b true
timers-move_focus (child_focused n) (child_focused k) b = refl
timers-move_focus (child_focused n) none_focused b = refl
timers-move_focus none_focused field_focused b = timers-activate b true
timers-move_focus none_focused (child_focused n) b = refl
timers-move_focus none_focused none_focused b = refl

timers-blur : (o : Focused) (b : Box) → timers (blur_from o b) ≡ timers b
unfolding blur_from on_search_field_focus
timers-blur field_focused b = timers-activate b false
timers-blur (child_focused n) b = refl
timers-blur none_focused b = refl

pub timers-escape_field : (b : Box) → timers (escape_field b) ≡ timers b
unfolding escape_field
timers-escape_field b =
    timers-activate (record (hide_results (blur_from b.focus b)) { last_search_value = [] }) false
    ∙ timers-blur b.focus b

pub timers-show_results : (site : Site) (b : Box) → timers (show_results site b) ≡ timers b
unfolding show_results
timers-show_results site b = ground arith

not_search :
    (i : ℕ) (t : Timers)
    → timer_of t.hide t.pending ≢ some search_timer
    → timer_of t.hide (without i t.pending) ≢ some search_timer
not_search i t h = elim (ℕ_discrete i t.hide) [
  | yes p ↦ λ e. ground (
    arith,
    timer_of-without_self t.hide t.pending,
    ap (λ k. timer_of t.hide (without k t.pending)) p,
  )
  | no ne ↦ λ e. h (sym (timer_of-without_other i t.hide t.pending ne) ∙ e)
]

key_left :
    (i : ℕ) (t : Timers)
    → timer_of i t.pending ≢ some search_timer
    → (t.key ≡ 0) ⊎ (timer_of t.key t.pending ≡ some search_timer)
    → (t.key ≡ 0) ⊎ (timer_of t.key (without i t.pending) ≡ some search_timer)
key_left i t ne (inl e) = inl e
key_left i t ne (inr e) = inr (
    timer_of-without_other i t.key t.pending
      (λ p. ne (subst (λ k. timer_of k t.pending ≡ some search_timer) (sym p) e))
    ∙ e)

-- The search that waits is forgotten.
pub no_key : {t : Timers} → IsTimed t → IsTimed (record t { key = 0 })
no_key v = record {
  key = inl refl;
  hide = v.hide;
  hide_le = v.hide_le;
  unused = v.unused;
  zero_unused = v.zero_unused;
}

-- A timer is cleared, or has run, and the search that waits is forgotten.
pub clear_any :
    {t : Timers} (i : ℕ) → IsTimed t → IsTimed (record t { key = 0; pending = without i t.pending })
clear_any {t} i v = record {
  key = inl refl;
  hide = not_search i t v.hide;
  hide_le = v.hide_le;
  unused = λ j lt. timer_of-without-none i j t.pending (v.unused j lt);
  zero_unused = timer_of-without-none i 0 t.pending v.zero_unused;
}

-- A timer that is no search is cleared, or has run.
pub clear_close :
    {t : Timers} (i : ℕ)
    → timer_of i t.pending ≢ some search_timer
    → IsTimed t
    → IsTimed (record t { pending = without i t.pending })
clear_close {t} i ne v = record {
  key = key_left i t ne v.key;
  hide = not_search i t v.hide;
  hide_le = v.hide_le;
  unused = λ j lt. timer_of-without-none i j t.pending (v.unused j lt);
  zero_unused = timer_of-without-none i 0 t.pending v.zero_unused;
}

-- A search is set, where none waits.
pub add_key :
    {t : Timers}
    → IsTimed t
    → IsTimed (record t {
      key = suc t.newest;
      newest = suc t.newest;
      pending = (suc t.newest, search_timer) ∷ t.pending;
    })
add_key {t} v = record {
  key = inr (ground arith);
  hide = λ e. ground (arith, v.hide_le, v.hide);
  hide_le = omega (arith, v.hide_le);
  unused = λ j lt. ground (arith, v.unused j);
  zero_unused = ground (arith, v.zero_unused);
}

-- The closing of the list of filters is set.
pub add_hide :
    {t : Timers}
    → IsTimed t
    → IsTimed (record t {
      hide = suc t.newest;
      newest = suc t.newest;
      pending = (suc t.newest, close_timer) ∷ t.pending;
    })
add_hide {t} v = record {
  key = elim v.key [ inl e ↦ inl e | inr e ↦ inr (ground (arith, v.unused t.key)) ];
  hide = λ e. ground arith;
  hide_le = omega arith;
  unused = λ j lt. ground (arith, v.unused j);
  zero_unused = ground (arith, v.zero_unused);
}

-- The closing is cleared, which is no search.
pub clear_hide :
    {t : Timers} → IsTimed t → IsTimed (record t { hide = 0; pending = without t.hide t.pending })
clear_hide {t} v =
    let w = clear_close t.hide v.hide v in
    record {
      key = w.key;
      hide = λ e. ground (arith, w.zero_unused);
      hide_le = omega arith;
      unused = w.unused;
      zero_unused = w.zero_unused;
    }
