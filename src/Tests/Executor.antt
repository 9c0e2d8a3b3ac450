-- ===== src/Tests/Executor.antt =====
-- An executor of four frames on the simulated ring: two tasks, from `init_executor` on.
use cring.Prelude.{
  ℕ, ◌<◌, ◌≤◌, ◌≡◌, ◌≢◌, refl, arith, [], ◌∷◌, none, some, pos, Bool, true, false, update,
}
use cring.Align.{align32pow2}
use cring.Align.Power.{IsLeastPower}
use cring.IoContext.Uring.{Operation}
use cring.IoContext.Token.{IoContext}
use cring.IoContext.Lifetime.{init_io_context, zero_context}
use cring.IoContext.Simulated.{Ring, simulated}
use cring.IoContext.Request.{request}
use cring.IoContext.Process.{complete}
use cring.Executor.Async.{run_callback}
use cring.Executor.Waiting.{callback_of, IsAwake, request-complete-wakes}
use cring.Executor.Frame.{
  Executor, Frame, Context, Callback, blank, entry, in_run, get_current_frame,
}
use cring.Executor.Schedule.{
  set_ready, save, move_to_next_ready_frame, next_ready, manage_async_finish,
}
use cring.Executor.Async.{async_call, async_exec, await}
use cring.Executor.Cycle.{IsNextReady, move_to_next_ready_frame-IsNextReady}
use cring.Executor.Fair.{turns, turns-reach, batches, batches-IsCalm, IsValid-IsWaiting}
use cring.Executor.Run.{
  System, setup, at_head, in_task, past_end, lost, Reach, run_head, go_on, resume, spawn_first,
  call_run, head, here, next,
}
use cring.Executor.Setup.{Allocations, Freed, init_executor, free_executor, zero_executor}
use cring.Executor.Invariant.Defs.{IsValid, frame_at}
use cring.Executor.Invariant.Program.{Step-IsValid, Reach-IsValid}
use cring.Executor.Lifecycle.{
  init_executor-IsValid, running_is_current, control_is_safe, run_head_ends, task_ends,
  free_executor-base,
}

abbrev allocated : Allocations
allocated = record { table = true; tokens = true; frames = true; stacks = true; memory = true }

abbrev zeroed : Executor Ring
zeroed = zero_executor simulated

abbrev frame_of : Context → Bool → Frame
frame_of c b = record { exe = c; result = pos 0; is_ready = b }

abbrev ioc : IoContext Callback ℕ Ring
ioc = record (zero_context simulated Callback ℕ) {
  capacity = 2;
  tail = 2;
  available_tokens = 0 ∷ 1 ∷ [];
  ring = record { space = 2; res = pos 7; queue = [] };
}

abbrev made : Executor Ring
made = record zeroed {
  ioc = ioc;
  capacity = 4;
  size = 1;
  frames = 0 ∷ 1 ∷ 2 ∷ 3 ∷ [];
  memory = update zeroed.memory 0 (frame_of blank true);
}

init_run : init_executor simulated allocated (some zeroed) 3 1 ≡ (pos 0, some made)
unfolding init_executor init_io_context align32pow2
init_run = refl

abbrev start : System Ring
start = record { exec = made; control = setup }

init_executor-IsValid_example : IsValid start × (made.size ≡ 1) × IsLeastPower 4 made.capacity
init_executor-IsValid_example =
    init_executor-IsValid simulated allocated zeroed 3 1 (omega arith) init_run

start-IsValid : IsValid start
start-IsValid = (init_executor-IsValid simulated allocated zeroed 3 1 (omega arith) init_run).0

-- Two tasks are started.
abbrev two : Executor Ring
two = record made {
  size = 3;
  memory = update (update made.memory 1 (frame_of (entry 1) true)) 2 (frame_of (entry 2) true);
}

two_spawned : (async_exec (async_exec made).1).1 ≡ two
unfolding async_exec
two_spawned = refl

two_reached : Reach simulated start (record { exec = two; control = at_head })
unfolding async_exec
two_reached = next (next (next here (spawn_first made)) (spawn_first _)) (call_run two)

Step-IsValid_example : IsValid (record { exec = (async_exec made).1; control = setup })
Step-IsValid_example = Step-IsValid simulated (spawn_first made) start-IsValid

-- The first of them runs.
abbrev first_runs : Executor Ring
first_runs = save (record two { current = 1 }) 0 in_run

first_reached : Reach simulated start (record { exec = first_runs; control = in_task 1 })
unfolding run_head move_to_next_ready_frame next_ready get_current_frame go_on resume
first_reached = next two_reached (head refl)

running_is_current_example : (0 < 1) × (1 < 3) × (frame_at first_runs 1 ≡ 1)
running_is_current_example = running_is_current simulated start-IsValid first_reached

control_is_safe_example : (in_task 1 ≢ past_end 2) × (in_task 1 ≢ lost)
control_is_safe_example = control_is_safe simulated start-IsValid first_reached 2

run_head_ends_example : run_head two ≢ none
run_head_ends_example = run_head_ends simulated start-IsValid two_reached

task_ends_example :
    (async_call simulated 1 first_runs (Operation.read (pos 5) 64 16) ≢ none)
    × (manage_async_finish 1 first_runs ≢ none)
task_ends_example = task_ends simulated start-IsValid first_reached (Operation.read (pos 5) 64 16)

free_executor-base_example :
    (freed : Freed) × ((free_executor simulated (some first_runs)).1 ≡ some freed)
    × (freed.stack ≡ 0)
    × (freed.frame ≡ 0)
free_executor-base_example = free_executor-base simulated start-IsValid first_reached

-- With the second task waiting, the frame behind the first one is the main frame.
abbrev second_waits : Executor Ring
second_waits = set_ready first_runs 2 false

move_to_next_ready_frame-IsNextReady_example :
    (found : Executor Ring) × (move_to_next_ready_frame second_waits ≡ some found)
    × IsNextReady second_waits found
move_to_next_ready_frame-IsNextReady_example =
    move_to_next_ready_frame-IsNextReady second_waits 0 (omega arith) refl

-- Behind the first task the second one is ready, at index 2.
turns-reach_example :
    (n : ℕ) × (n ≤ 3)
    × (found : Executor Ring) × (turns (λ k. 1) (batches simulated) n first_runs ≡ some found)
    × (found.current ≡ 2)
turns-reach_example =
    turns-reach 2 (λ k. 1) (batches simulated) first_runs (batches-IsCalm simulated 2)
      (IsValid-IsWaiting 2 (Reach-IsValid simulated start-IsValid first_reached) (omega arith) refl)

-- The first task reads; its completion has the result 7.
abbrev read_op : Operation
read_op = Operation.read (pos 5) 64 16

request-complete-wakes_example :
    (async_call simulated 9 first_runs read_op ≡ (
      let (ret, ioc) =
        request simulated first_runs.ioc read_op
          (some (callback_of read_op))
          (some (get_current_frame first_runs)) in
      await simulated 9 ret (record first_runs { ioc = ioc })))
    × (let (ret, ioc) =
          request simulated first_runs.ioc read_op (some (callback_of read_op)) (some 1) in
        let (ioc', memory') =
          complete simulated run_callback (some 1) (pos 7) (ioc, first_runs.memory) in
        IsAwake simulated (record first_runs { ioc = ioc'; memory = memory' }) 1 read_op (pos 7))
request-complete-wakes_example =
    request-complete-wakes simulated 9 read_op 1 (pos 7) first_runs (omega arith) refl
      first_runs.memory
