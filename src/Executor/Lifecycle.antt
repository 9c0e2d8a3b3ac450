-- ===== src/Executor/Lifecycle.antt =====
-- src/Executor.c: the program from `init_executor` to `free_executor`.
use cring.Prelude.{
  ℕ, ◌+◌, ◌%◌, ◌^◌, ◌<◌, ◌≡◌, ◌≢◌, refl, sym, subst, List, [], ◌∷◌, none, some, pos, arith,
}
use cring.Prelude.{get_or, length, length-range_from, get_or-range_from}
use cring.Align.{align32pow2}
use cring.Align.Power.{IsLeastPower, align32pow2-IsLeastPower}
use cring.IoContext.Uring.{Uring, Operation}
use cring.IoContext.Token.{IoContext}
use cring.Executor.Frame.{Executor, Callback}
use cring.Executor.Schedule.{manage_async_finish}
use cring.Executor.Async.{async_call}
use cring.Executor.Run.{System, Control, setup, at_head, in_task, past_end, lost, Reach, run_head}
use cring.Executor.Setup.{
  Allocations, Freed, init_executor, free_executor, free_frames, ready_executor, frame_capacity,
}
use cring.Executor.Invariant.Defs.{IsPlaced, IsValid, frame_at}
use cring.Executor.Invariant.Steps.{run_head-total}
use cring.Executor.Invariant.Ends.{manage-result}
use cring.Executor.Invariant.Program.{Reach-IsValid, async_call-result}

module _ {R S : Type 0} (U : Uring R S) where
  init_executor-ok :
      (a : Allocations) (old : Executor R) (count capacity : ℕ) {ex : Executor R}
      → init_executor U a (some old) count capacity ≡ (pos 0, some ex)
      → (0 < count) × (ex ≡ ready_executor U ex.ioc (frame_capacity U count))
  unfolding init_executor
  init_executor-ok a old count capacity e = ground arith

  ready_executor-IsValid :
      (ioc : IoContext Callback ℕ R) (n : ℕ)
      → 0 < n
      → IsValid (record { exec = ready_executor U ioc n; control = setup })
  unfolding ready_executor
  ready_executor-IsValid ioc n lt = record {
    table = record {
      table = length-range_from 0 n;
      some_size = omega arith;
      fits = lt;
      main = get_or-range_from 0 n 0 lt;
      distinct =
          λ i j li lj e. omega (arith, e, get_or-range_from 0 n i li, get_or-range_from 0 n j lj);
      main_ready = refl;
    };
    placed = (refl, λ i gt le ne. absurd (omega arith));
  }

  -- For count < 2^31, whenever `init_executor` returns 0 the executor has the invariant, one scheduled
  -- frame, and a table whose size is the least power of two above the count.
  pub init_executor-IsValid :
      (a : Allocations) (old : Executor R) (count capacity : ℕ) {ex : Executor R}
      → count < 2 ^ 31
      → init_executor U a (some old) count capacity ≡ (pos 0, some ex)
      → IsValid (record { exec = ex; control = setup })
        × (ex.size ≡ 1)
        × IsLeastPower (count + 1) ex.capacity
  unfolding ready_executor
  init_executor-IsValid a old count capacity {ex} lt e =
      let (gt, eq) = init_executor-ok a old count capacity e in
      let width : (count + 1) % 2 ^ 64 % 2 ^ 32 ≡ count + 1 = omega arith in
      let p : IsLeastPower (count + 1) (frame_capacity U count) =
        subst (λ x. IsLeastPower (count + 1) (align32pow2 x)) (sym width)
          (align32pow2-IsLeastPower (count + 1) (omega arith) (omega arith)) in
      let v = ready_executor-IsValid ex.ioc (frame_capacity U count) (omega (arith, p.above)) in
      subst
        (λ x.
          IsValid (record { exec = x; control = setup })
          × (x.size ≡ 1)
          × IsLeastPower (count + 1) x.capacity)
        (sym eq) (v, refl, p)

  -- In a state that the program reaches from one with the invariant, a running task is that of the
  -- current frame, which is scheduled and is not the main frame.
  pub running_is_current :
      {s : System R} {ex : Executor R} {f : ℕ}
      → IsValid s
      → Reach U s (record { exec = ex; control = in_task f })
      → (0 < ex.current) × (ex.current < ex.size) × (frame_at ex ex.current ≡ f)
  running_is_current v r = let p = (Reach-IsValid U v r).placed in (p.pos, p.in_size, p.own)

  -- From a state with the invariant the program reaches no state in which control has gone back to a
  -- task that has ended, or into a context that nothing has filled.
  pub control_is_safe :
      {s s' : System R}
      → IsValid s
      → Reach U s s'
      → (f : ℕ) → (s'.control ≢ past_end f) × (s'.control ≢ lost)
  control_is_safe {s} {s'} v r f = (λ e. not_there e, λ e. not_there e)
    where
      not_there : {c : Control} → s'.control ≡ c → IsPlaced s'.exec c
      not_there e = subst (IsPlaced s'.exec) e (Reach-IsValid U v r).placed

  -- The search for a ready frame ends: at the head of the loop of `run`, in a state that the program
  -- reaches from one with the invariant, it finds a frame.
  pub run_head_ends :
      {s : System R} {ex : Executor R}
      → IsValid s
      → Reach U s (record { exec = ex; control = at_head })
      → run_head ex ≢ none
  run_head_ends v r = run_head-total (Reach-IsValid U v r).table

  -- In a task, in a state that the program reaches from one with the invariant, every asynchronous call
  -- and the end of the task have a result: each search for a ready frame ends.
  pub task_ends :
      {s : System R} {ex : Executor R} {f : ℕ}
      → IsValid s
      → Reach U s (record { exec = ex; control = in_task f })
      → (op : Operation) → (async_call U f ex op ≢ none) × (manage_async_finish f ex ≢ none)
  task_ends {s} {ex} {f} v r op = (call_ends, finish_ends)
    where
      v' : IsValid (record { exec = ex; control = in_task f })
      v' = Reach-IsValid U v r

      call_ends : async_call U f ex op ≢ none
      call_ends stuck = let (d, eq, _) = async_call-result U op v'.table v'.placed in cc

      finish_ends : manage_async_finish f ex ≢ none
      finish_ends stuck = let (d, eq, _) = manage-result v'.table v'.placed in cc

  -- In every state that the program reaches from one with the invariant, `free_executor` passes the
  -- first stack and the first frame to `free`: the bases of the blocks that `init_executor` allocated.
  pub free_executor-base :
      {s s' : System R}
      → IsValid s
      → Reach U s s'
      → (freed : Freed) × ((free_executor U (some s'.exec)).1 ≡ some freed)
        × (freed.stack ≡ 0)
        × (freed.frame ≡ 0)
  unfolding free_executor
  free_executor-base {s} {s'} v r =
      let t = (Reach-IsValid U v r).table in
      by_table s'.exec.frames (omega (arith, t.table, t.some_size, t.fits)) t.main
    where
      by_table :
          (fs : List ℕ)
          → 0 < length fs
          → get_or fs 0 0 ≡ 0
          → (freed : Freed) × ((free_frames U fs s'.exec).1 ≡ some freed)
            × (freed.stack ≡ 0)
            × (freed.frame ≡ 0)
      by_table [] lt e = absurd (omega arith)
      by_table (f ∷ fs) lt e = (_, refl, e, e)
