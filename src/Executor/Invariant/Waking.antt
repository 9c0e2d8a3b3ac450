-- ===== src/Executor/Invariant/Waking.antt =====
-- What callbacks do to the frames keeps the invariant of the table and of the saved contexts.
use cring.Prelude.{ℕ, ◌≡◌, inl, inr, ◌∙◌, Option, some, ℤ, true, arith}
use cring.IoContext.Process.{Call, with_result, plain}
use cring.IoContext.Token.{IoContext}
use cring.Executor.Frame.{Executor, Frame, Callback, read_fn, write_fn, wait_fn, accept_fn}
use cring.Executor.Async.{wake, wake_with, run_callback}
use cring.Executor.Invariant.Defs.{frame_at, IsTable, IsSaved, IsInLoop}

-- Callbacks leave the contexts alone and make no frame wait.
pub record Woken (before after : ℕ → Frame) : Type 0 where
  pub exe : (f : ℕ) → (after f).exe ≡ (before f).exe
  pub ready : (f : ℕ) → (before f).is_ready ≡ true → (after f).is_ready ≡ true

pub wake-Woken : (m w : ℕ → Frame) (f : ℕ) → Woken m w → Woken m (wake f w)
unfolding wake
wake-Woken m w f k = record {
  exe = λ g. ground (arith, k.exe g);
  ready = λ g r. ground (arith, k.ready g);
}

pub wake_with-Woken : (m w : ℕ → Frame) (f : ℕ) (n : ℤ) → Woken m w → Woken m (wake_with f n w)
unfolding wake_with
wake_with-Woken m w f n k = record {
  exe = λ g. ground (arith, k.exe g);
  ready = λ g r. ground (arith, k.ready g);
}

pub run_callback-Woken :
    (m : ℕ → Frame) (cb : Option Callback) (c : Call ℕ) (w : ℕ → Frame)
    → Woken m w
    → Woken m (run_callback cb c w)
unfolding run_callback
run_callback-Woken m (some read_fn) (with_result n (some f)) w k = wake_with-Woken m w f n k
run_callback-Woken m (some write_fn) (with_result n (some f)) w k = wake_with-Woken m w f n k
run_callback-Woken m (some accept_fn) (with_result n (some f)) w k = wake_with-Woken m w f n k
run_callback-Woken m (some wait_fn) (plain (some f)) w k = wake-Woken m w f k
run_callback-Woken m _ _ w k = k

module _ {R : Type 0} where
  -- Another context for the requests, and memory that only callbacks have written.
  abbrev pub processed : Executor R → IoContext Callback ℕ R → (ℕ → Frame) → Executor R
  processed ex ioc memory = record ex { ioc = ioc; memory = memory }

  pub processed-IsTable :
      {ex : Executor R} (ioc : IoContext Callback ℕ R) {memory : ℕ → Frame}
      → Woken ex.memory memory
      → IsTable ex
      → IsTable (processed ex ioc memory)
  processed-IsTable ioc w t = record {
    table = t.table;
    some_size = t.some_size;
    fits = t.fits;
    main = t.main;
    distinct = t.distinct;
    main_ready = w.ready 0 t.main_ready;
  }

  pub processed-IsSaved :
      (ex : Executor R) (ioc : IoContext Callback ℕ R) {memory : ℕ → Frame} (but : ℕ)
      → Woken ex.memory memory
      → IsSaved ex but
      → IsSaved (processed ex ioc memory) but
  processed-IsSaved ex ioc but w saved i gt lt ne = rw (w.exe (frame_at ex i)) (saved i gt lt ne)

  pub processed-IsInLoop :
      (ex : Executor R) (ioc : IoContext Callback ℕ R) {memory : ℕ → Frame}
      → Woken ex.memory memory
      → IsInLoop ex
      → IsInLoop (processed ex ioc memory)
  processed-IsInLoop ex ioc w (inl e) = inl e
  processed-IsInLoop ex ioc w (inr (e, l, c)) = inr (e, l, w.exe 0 ∙ c)
