-- ===== src/Executor/Run.antt =====
-- src/Executor.c: `run`, and the program as a system of the loop, the tasks and the ring.
use cring.Prelude.{ℕ, ◌≡◌, Option, none, some, is_neg, leb}
use cring.Prelude.{◌==◌, if◌then◌else◌}
use cring.IoContext.Uring.{Uring, Operation}
use cring.IoContext.Process.{process}
use cring.Executor.Frame.{
  Executor, Context, blank, entry, in_run, suspended, finished, get_current_frame,
}
use cring.Executor.Schedule.{
  Switch, swap_context, move_to_next_ready_frame, Finish, switched, returned, manage_async_finish,
}
use cring.Executor.Async.{run_callback, Effect, returns, suspends, async_call, async_exec}

abbrev pub batch_size : ℕ
batch_size = 1024

-- Where the thread is: before `run` is called, at the head of its loop, behind the `swapcontext` of
-- the loop, in the function of the task whose stack is that frame's, behind the end of a task that
-- is resumed once more, in a context that nothing has filled, or behind `run`.
pub data Control : Type 0 where
  setup at_head resumed : Control
  in_task : (stack : ℕ) → Control
  past_end : (stack : ℕ) → Control
  lost stopped : Control

-- `setcontext`. A task that `async_exec` has prepared starts on the stack of its frame.
unfoldable pub resume : Context → Control
resume blank = lost
resume (entry stack) = in_task stack
resume in_run = resumed
resume (suspended stack) = in_task stack
resume (finished stack) = past_end stack

pub record System (R : Type 0) : Type 0 where
  pub exec : Executor R
  pub control : Control

module _ {R : Type 0} where
  -- Control goes to the context of the frame that is switched to.
  abbrev pub enter : Switch R → System R
  enter s = record { exec = s.after; control = resume (s.after.memory s.to).exe }

  -- `move_to_next_ready_frame` has come to `ex`, from the frame `current`.
  unfoldable pub go_on : (current : ℕ) → Executor R → System R
  go_on current ex =
      let next = get_current_frame ex in
      if next == current
      then record { exec = ex; control = resumed }
      else enter (swap_context ex current in_run next)

  -- The head of the loop of `run`, down to behind `swapcontext`.
  unfoldable pub run_head : Executor R → Option (System R)
  run_head ex = elim (move_to_next_ready_frame ex) [
    | none ↦ none
    | some ex' ↦ some (go_on (get_current_frame ex) ex')
  ]

  -- `init_executor` has set `uc_link` of every frame to the context of the frame at address 0.
  unfoldable pub finish : Finish R → System R
  finish (switched s) = enter s
  finish (returned ex) = record { exec = ex; control = resume (ex.memory 0).exe }

  unfoldable pub effect : (stack : ℕ) → Effect R → System R
  effect stack (returns ret ex) = record { exec = ex; control = in_task stack }
  effect stack (suspends s) = enter s

module _ {R S : Type 0} (U : Uring R S) where
  -- The rest of the loop of `run`.
  unfoldable pub run_tail : Executor R → System R
  run_tail ex =
      if leb ex.size 1
      then record { exec = ex; control = stopped }
      else let (ret, ioc, memory) = process U run_callback ex.ioc batch_size ex.memory in
        let ex' = record ex { ioc = ioc; memory = memory } in
        if is_neg ret
        then record { exec = ex'; control = stopped }
        else record { exec = ex'; control = at_head }

  -- A step of the program. What a task calls next, and when it ends, is up to the task.
  pub data Step : System R → System R → Type 0 where
    spawn_first :
        (ex : Executor R)
        → Step
            (record { exec = ex; control = setup })
            (record { exec = (async_exec ex).1; control = setup })
    call_run :
        (ex : Executor R)
        → Step (record { exec = ex; control = setup }) (record { exec = ex; control = at_head })
    head :
        {ex : Executor R} {s : System R}
        → run_head ex ≡ some s
        → Step (record { exec = ex; control = at_head }) s
    rest : (ex : Executor R) → Step (record { exec = ex; control = resumed }) (run_tail ex)
    spawn :
        (ex : Executor R) (f : ℕ)
        → Step
            (record { exec = ex; control = in_task f })
            (record { exec = (async_exec ex).1; control = in_task f })
    call :
        {ex : Executor R} {f : ℕ} (op : Operation) {e : Effect R}
        → async_call U f ex op ≡ some e
        → Step (record { exec = ex; control = in_task f }) (effect f e)
    end :
        {ex : Executor R} {f : ℕ} {d : Finish R}
        → manage_async_finish f ex ≡ some d
        → Step (record { exec = ex; control = in_task f }) (finish d)

  pub data Reach (s : System R) : System R → Type 0 where
    here : Reach s s
    next : {t u : System R} → Reach s t → Step t u → Reach s u
