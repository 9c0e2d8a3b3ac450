-- ===== src/Executor/Schedule.antt =====
-- lib/Executor.h: how the executor goes from one frame to the next.
use cring.Prelude.{ℕ, zero, suc, ◌+◌, ◌-◌, ◌%◌, Option, none, some, Bool, false}
use cring.Prelude.{get_or, set, update, ◌==◌, if◌then◌else◌}
use cring.Executor.Frame.{Executor, Context, get_current_frame, get_last_frame, main_frame}
use cring.Executor.Frame.{suspended, finished}

-- The executor after the switch, and the frame whose context is resumed.
pub record Switch (R : Type 0) : Type 0 where
  pub to : ℕ
  pub after : Executor R

-- How `manage_async_finish` ends: by a switch, or by returning, upon which `execute` returns too
-- and `uc_link` resumes the main frame.
pub data Finish (R : Type 0) : Type 0 where
  switched : Switch R → Finish R
  returned : Executor R → Finish R

module _ {R : Type 0} where
  abbrev pub is_ready_at : Executor R → ℕ → Bool
  is_ready_at ex f = (ex.memory f).is_ready

  abbrev pub set_ready : Executor R → ℕ → Bool → Executor R
  set_ready ex f b = record ex {
    memory = update ex.memory f (record (ex.memory f) { is_ready = b });
  }

  -- `swapcontext(&from->exe, …)`: what runs is saved in the frame `from`.
  abbrev pub save : Executor R → ℕ → Context → Executor R
  save ex from c = record ex {
    memory = update ex.memory from (record (ex.memory from) { exe = c });
  }

  -- `++current; current %= size`
  abbrev pub advance : Executor R → Executor R
  advance ex = record ex { current = (ex.current + 1) % ex.size }

  -- `fuel` bounds the rounds of the loop; `none` says that it ran out.
  unfoldable pub next_ready : ℕ → Executor R → Option (Executor R)
  unfolding get_current_frame
  next_ready zero ex = none
  next_ready (suc fuel) ex =
      let ex' = advance ex in
      let rest = next_ready fuel ex' in
      if is_ready_at ex' (get_current_frame ex') then some ex' else rest

  -- `size` rounds visit every frame; the frame returned is the new current one.
  unfoldable pub move_to_next_ready_frame : Executor R → Option (Executor R)
  move_to_next_ready_frame ex = next_ready ex.size ex

  -- `swapcontext(&from->exe, &to->exe)`
  abbrev pub swap_context : Executor R → (from : ℕ) → Context → (to : ℕ) → Switch R
  swap_context ex from c to = record { to = to; after = save ex from c }

  unfoldable pub suspend_frame : (stack current : ℕ) → Executor R → Option (Switch R)
  suspend_frame stack current ex = elim (move_to_next_ready_frame (set_ready ex current false)) [
    | none ↦ none
    | some ex' ↦ some (swap_context ex' current (suspended stack) (get_current_frame ex'))
  ]

  -- The context that is saved is that of the task on the stack `stack`.
  unfoldable pub suspend_current_frame : (stack : ℕ) → Executor R → Option (Switch R)
  suspend_current_frame stack ex = suspend_frame stack (get_current_frame ex) ex

  -- `none` for the NULL that is returned if the current frame is the last.
  unfoldable pub swap_current_frame_with_last_frame : Executor R → Option ℕ × Executor R
  unfolding get_current_frame get_last_frame
  swap_current_frame_with_last_frame ex =
      let current = get_current_frame ex in
      let last = get_last_frame ex in
      if last == current
      then (none, ex)
      else let frames = set (set ex.frames (ex.size - 1) current) ex.current last in
        (some (get_or frames ex.current 0), record ex { frames = frames })

  -- `move_to_next_ready_frame` has come to `ex`, from the frame `done` that is given up.
  unfoldable pub leave : (stack done : ℕ) → Executor R → Finish R
  leave stack done ex =
      let next = get_current_frame ex in
      if next == main_frame ex
      then returned ex
      else switched (swap_context ex done (finished stack) next)

  -- The swap has put the frame `moved` in the place of the current one.
  unfoldable pub after_swap : (stack moved : ℕ) → Executor R → Option (Finish R)
  after_swap stack moved ex =
      let done = get_or ex.frames ex.size 0 in
      if is_ready_at ex moved
      then some (switched (swap_context ex done (finished stack) moved))
      else elim (move_to_next_ready_frame ex) [
        | none ↦ none
        | some ex' ↦ some (leave stack done ex')
      ]

  unfoldable pub manage_async_finish : (stack : ℕ) → Executor R → Option (Finish R)
  manage_async_finish stack ex =
      let (current, ex1) = swap_current_frame_with_last_frame ex in
      let ex2 = record ex1 { size = ex1.size - 1 } in
      elim current [ none ↦ some (returned ex2) | some moved ↦ after_swap stack moved ex2 ]
