-- ===== src/Executor/Async.antt =====
-- lib/Executor.h and src/Executor.c: what a task calls, and the callbacks of its requests.
use cring.Prelude.{ℕ, ◌+◌, Option, none, some, ℤ, pos, minus_one, is_neg, true, leb}
use cring.Prelude.{get_or, update, if◌then◌else◌}
use cring.IoContext.Uring.{Uring, Operation}
use cring.IoContext.Process.{Call, with_result, plain}
use cring.IoContext.Request.{request_wait, request_accept, request_read, request_write}
use cring.Executor.Frame.{Executor, Frame, entry, Callback, get_current_frame}
use cring.Executor.Frame.{read_fn, write_fn, wait_fn, accept_fn}
use cring.Executor.Schedule.{Switch, suspend_current_frame}

-- A callback with the frame `f` as its `data`.
unfoldable pub wake_with : ℕ → ℤ → (ℕ → Frame) → ℕ → Frame
wake_with f res memory = update memory f (record (memory f) { result = res; is_ready = true })

unfoldable pub wake : ℕ → (ℕ → Frame) → ℕ → Frame
wake f memory = update memory f (record (memory f) { is_ready = true })

-- A NULL callback or frame is never handed to a request by the executor: nothing is modelled of it.
-- `wait_fn` takes no result.
unfoldable pub run_callback : Option Callback → Call ℕ → (ℕ → Frame) → ℕ → Frame
unfolding wake_with wake
run_callback (some read_fn) (with_result length (some f)) memory = wake_with f length memory
run_callback (some write_fn) (with_result length (some f)) memory = wake_with f length memory
run_callback (some accept_fn) (with_result fd (some f)) memory = wake_with f fd memory
run_callback (some wait_fn) (plain (some f)) memory = wake f memory
run_callback _ _ memory = memory

-- What an asynchronous call does: it returns at once with an error, or the task is suspended and
-- another frame runs.
pub data Effect (R : Type 0) : Type 0 where
  returns : ℤ → Executor R → Effect R
  suspends : Switch R → Effect R

module _ {R S : Type 0} (U : Uring R S) where
  -- The end that the four calls share: an error is returned, or the current frame is suspended.
  unfoldable pub await : (stack : ℕ) → ℤ → Executor R → Option (Effect R)
  await stack ret ex =
      if is_neg ret
      then some (returns ret ex)
      else elim (suspend_current_frame stack ex) [ none ↦ none | some s ↦ some (suspends s) ]

  unfoldable pub async_wait : (stack : ℕ) → Executor R → (ts : ℕ) → Option (Effect R)
  async_wait stack ex ts =
      let (ret, ioc) = request_wait U ex.ioc ts (some wait_fn) (some (get_current_frame ex)) in
      await stack ret (record ex { ioc = ioc })

  unfoldable pub async_accept : (stack : ℕ) → Executor R → (fd : ℤ) → Option (Effect R)
  async_accept stack ex fd =
      let (ret, ioc) = request_accept U ex.ioc fd (some accept_fn) (some (get_current_frame ex)) in
      await stack ret (record ex { ioc = ioc })

  unfoldable pub async_read :
      (stack : ℕ) → Executor R → (fd : ℤ) (buffer size : ℕ) → Option (Effect R)
  async_read stack ex fd buffer size =
      let (ret, ioc) =
        request_read U ex.ioc fd buffer size (some read_fn) (some (get_current_frame ex)) in
      await stack ret (record ex { ioc = ioc })

  unfoldable pub async_write :
      (stack : ℕ) → Executor R → (fd : ℤ) (buffer size : ℕ) → Option (Effect R)
  async_write stack ex fd buffer size =
      let (ret, ioc) =
        request_write U ex.ioc fd buffer size (some write_fn) (some (get_current_frame ex)) in
      await stack ret (record ex { ioc = ioc })

  -- The call for an operation of the ring.
  unfoldable pub async_call : (stack : ℕ) → Executor R → Operation → Option (Effect R)
  async_call stack ex (Operation.timeout ts) = async_wait stack ex ts
  async_call stack ex (Operation.accept fd) = async_accept stack ex fd
  async_call stack ex (Operation.read fd buffer size) = async_read stack ex fd buffer size
  async_call stack ex (Operation.write fd buffer size) = async_write stack ex fd buffer size

-- What the call returns once the task goes on, which it made in the frame `f`.
unfoldable pub async_return : {R : Type 0} → Executor R → (f : ℕ) → Operation → ℤ
async_return ex f (Operation.timeout ts) = pos 0
async_return ex f (Operation.accept fd) = (ex.memory f).result
async_return ex f (Operation.read fd buffer size) = (ex.memory f).result
async_return ex f (Operation.write fd buffer size) = (ex.memory f).result

-- The function and its argument are the task's own: only the frame that they run on matters here.
unfoldable pub async_exec : {R : Type 0} → Executor R → ℤ × Executor R
async_exec ex =
    if leb ex.capacity ex.size
    then (minus_one, ex)
    else let f = get_or ex.frames ex.size 0 in
      (
        pos 0,
        record ex {
          size = ex.size + 1;
          memory = update ex.memory f (record (ex.memory f) { exe = entry f; is_ready = true });
        },
      )
