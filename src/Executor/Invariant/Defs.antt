-- ===== src/Executor/Invariant/Defs.antt =====
-- The invariant of the executor and of the program.
use cring.Prelude.{ℕ, ◌≤◌, ◌<◌, ◌≡◌, ◌≢◌, ◌⊎◌, get_or, length, true}
use cring.Executor.Frame.{Executor, Context, entry, in_run, suspended}
use cring.Executor.Schedule.{is_ready_at}
use cring.Executor.Run.{Control, setup, at_head, resumed, in_task, past_end, lost, stopped, System}

-- A context that resumes the task on the stack of `f`.
abbrev pub IsOwn : ℕ → Context → Type 0
IsOwn f (entry g) = g ≡ f
IsOwn f (suspended g) = g ≡ f
IsOwn f _ = ⊥

module _ {R : Type 0} where
  abbrev pub frame_at : Executor R → ℕ → ℕ
  frame_at ex i = get_or ex.frames i 0

  abbrev pub exe_at : Executor R → ℕ → Context
  exe_at ex f = (ex.memory f).exe

  -- The main frame is the first in the table, no frame stands twice in it, and it is ready.
  pub record IsTable (ex : Executor R) : Type 0 where
    pub table : length ex.frames ≡ ex.capacity
    pub some_size : 0 < ex.size
    pub fits : ex.size ≤ ex.capacity
    pub main : frame_at ex 0 ≡ 0
    pub distinct :
        (i j : ℕ) → i < ex.capacity → j < ex.capacity → frame_at ex i ≡ frame_at ex j → i ≡ j
    pub main_ready : is_ready_at ex 0 ≡ true

  -- Each scheduled task but that at index `but` is saved in its own frame.
  abbrev pub IsSaved : Executor R → ℕ → Type 0
  IsSaved ex but =
      (i : ℕ) → 0 < i → i < ex.size → i ≢ but → IsOwn (frame_at ex i) (exe_at ex (frame_at ex i))

  -- In the loop of `run` the current frame is the main frame; or, when the last task in the table has
  -- just ended, the frame of that task, and the main frame still holds the loop's context.
  abbrev pub IsInLoop : Executor R → Type 0
  IsInLoop ex =
      (ex.current ≡ 0) ⊎ ((ex.current ≡ ex.size) × (ex.size < ex.capacity) × (exe_at ex 0 ≡ in_run))

  pub record IsRunning (ex : Executor R) (f : ℕ) : Type 0 where
    pub pos : 0 < ex.current
    pub in_size : ex.current < ex.size
    pub own : frame_at ex ex.current ≡ f
    pub loop : exe_at ex 0 ≡ in_run
    pub saved : IsSaved ex ex.current

  -- Control is in the loop of `run` or in the task of the current frame, never in a task that has ended
  -- or in a context that nothing has filled.
  abbrev pub IsPlaced : Executor R → Control → Type 0
  IsPlaced ex setup = (ex.current ≡ 0) × IsSaved ex 0
  IsPlaced ex at_head = IsInLoop ex × IsSaved ex 0
  IsPlaced ex resumed = IsInLoop ex × IsSaved ex 0
  IsPlaced ex (in_task f) = IsRunning ex f
  IsPlaced ex (past_end f) = ⊥
  IsPlaced ex lost = ⊥
  IsPlaced ex stopped = Unit {0}

  pub record IsValid (s : System R) : Type 0 where
    pub table : IsTable s.exec
    pub placed : IsPlaced s.exec s.control
