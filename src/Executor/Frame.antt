-- ===== src/Executor/Frame.antt =====
-- lib/Executor.h: frames and the executor. A frame's address is its index in the block that
-- `init_executor` allocates; a task's stack is named by the frame whose memory it is.
use cring.Prelude.{ℕ, ◌-◌, List, ℤ, Bool, get_or}
use cring.IoContext.Token.{IoContext}

-- What an `ucontext_t` holds, by the place in the source where it was filled: by `getcontext` in
-- `init_executor`, by `makecontext` in `async_exec`, or by `swapcontext` in `run`, in
-- `suspend_current_frame` or in `manage_async_finish`. `stack` is the frame whose stack was running.
pub data Context : Type 0 where
  blank : Context
  entry : (stack : ℕ) → Context
  in_run : Context
  suspended : (stack : ℕ) → Context
  finished : (stack : ℕ) → Context

pub record Frame : Type 0 where
  pub exe : Context
  pub result : ℤ
  pub is_ready : Bool

-- `read_fn`, `write_fn`, `wait_fn` and `accept_fn`, which the executor gives to the requests.
pub data Callback : Type 0 where
  read_fn write_fn wait_fn accept_fn : Callback

-- The memory of the frames is apart from the executor's fields, since callbacks write it alone.
pub record Executor (R : Type 0) : Type 0 where
  pub ioc : IoContext Callback ℕ R
  pub current : ℕ
  pub size : ℕ
  pub capacity : ℕ
  pub frames : List ℕ
  pub memory : ℕ → Frame

module _ {R : Type 0} where
  unfoldable pub get_last_frame : Executor R → ℕ
  get_last_frame ex = get_or ex.frames (ex.size - 1) 0

  unfoldable pub get_current_frame : Executor R → ℕ
  get_current_frame ex = get_or ex.frames ex.current 0

  unfoldable pub main_frame : Executor R → ℕ
  main_frame ex = get_or ex.frames 0 0
