-- ===== src/Executor/Invariant/Program.antt =====
-- The invariant holds in every state that the program reaches.
use cring.Prelude.{ℕ, ◌≡◌, inl, inr, refl, subst, ◌∙◌, some, ℤ, is_neg}
use cring.Prelude.{leb, Bool-cases, Option-cases}
use cring.IoContext.Uring.{Uring, Operation}
use cring.IoContext.Process.{process}
use cring.IoContext.Callbacks.{process-keeps}
use cring.IoContext.Token.{IoContext}
use cring.Executor.Frame.{Executor, Frame, Callback}
use cring.Executor.Schedule.{suspend_current_frame}
use cring.Executor.Async.{
  run_callback, Effect, returns, suspends, await, async_wait, async_accept, async_read, async_write,
  async_call,
}
use cring.Executor.Run.{
  resumed, System, Step, Reach, effect, finish, run_tail, batch_size, spawn_first, call_run, head,
  rest, spawn, call, end, here, next,
}
use cring.Executor.Invariant.Defs.{IsTable, IsRunning, IsPlaced, IsValid}
use cring.Executor.Invariant.Steps.{run_head-IsValid, suspend-IsValid, suspend-total}
use cring.Executor.Invariant.Ends.{manage-result}
use cring.Executor.Invariant.Waking.{
  Woken, run_callback-Woken, processed-IsTable, processed-IsSaved, processed-IsInLoop,
}
use cring.Executor.Invariant.Spawning.{async_exec-Spawn, Spawn-first-IsValid, Spawn-IsValid}

module _ {R S : Type 0} (U : Uring R S) where
  -- An asynchronous call is a request, followed by `await`.
  async_call-await :
      (f : ℕ) (ex : Executor R) (op : Operation)
      → (ret : ℤ) × (ioc : IoContext Callback ℕ R) × (async_call U f ex op
          ≡ await U f ret (record ex { ioc = ioc }))
  unfolding async_call async_wait async_accept async_read async_write
  async_call-await f ex (Operation.timeout ts) = (_, _, refl)
  async_call-await f ex _ = (_, _, refl)

  other_ioc-IsTable :
      {ex : Executor R} (ioc : IoContext Callback ℕ R)
      → IsTable ex
      → IsTable (record ex { ioc = ioc })
  other_ioc-IsTable ioc t = record {
    table = t.table;
    some_size = t.some_size;
    fits = t.fits;
    main = t.main;
    distinct = t.distinct;
    main_ready = t.main_ready;
  }

  other_ioc-IsRunning :
      {ex : Executor R} {f : ℕ} (ioc : IoContext Callback ℕ R)
      → IsRunning ex f
      → IsRunning (record ex { ioc = ioc }) f
  other_ioc-IsRunning ioc r = record {
    pos = r.pos;
    in_size = r.in_size;
    own = r.own;
    loop = r.loop;
    saved = r.saved;
  }

  await-result :
      {ex : Executor R} (f : ℕ) (ret : ℤ)
      → IsTable ex
      → IsRunning ex f
      → (e : Effect R) × (await U f ret ex ≡ some e) × IsValid (effect f e)
  unfolding await effect
  await-result {ex} f ret t r = elim (Bool-cases (is_neg ret)) [
    | inl failed ↦ (returns ret ex, rw failed, record { table = t; placed = r })
    | inr sent ↦ elim (Option-cases (suspend_current_frame f ex)) [
      | inl stuck ↦ absurd (suspend-total t r stuck)
      | inr (s, e) ↦ (suspends s, rw (sent, e), suspend-IsValid t r e)
    ]
  ]

  pub async_call-result :
      {ex : Executor R} {f : ℕ} (op : Operation)
      → IsTable ex
      → IsRunning ex f
      → (e : Effect R) × (async_call U f ex op ≡ some e) × IsValid (effect f e)
  async_call-result {ex} {f} op t r =
      let (ret, ioc, eq) = async_call-await f ex op in
      let (e, eq', v) = await-result f ret (other_ioc-IsTable ioc t) (other_ioc-IsRunning ioc r) in
      (e, eq ∙ eq', v)

  run_tail-IsValid : {ex : Executor R} → IsTable ex → IsPlaced ex resumed → IsValid (run_tail U ex)
  unfolding run_tail
  run_tail-IsValid {ex} t (h, saved) = elim (Bool-cases (leb ex.size 1)) [
    | inl alone ↦ rw alone (record { table = t; placed = tt })
    | inr more ↦ elim (Bool-cases (is_neg ret)) [
      | inl failed ↦ rw (more, failed) (record { table = processed-IsTable ioc w t; placed = tt })
      | inr fine ↦
          rw (more, fine)
            (record {
              table = processed-IsTable ioc w t;
              placed = (processed-IsInLoop ex ioc w h, processed-IsSaved ex ioc 0 w saved);
            })
    ]
  ]
    where
      out : ℤ × IoContext Callback ℕ R × (ℕ → Frame)
      out = process U run_callback ex.ioc batch_size ex.memory

      ret : ℤ
      ret = out.0

      ioc : IoContext Callback ℕ R
      ioc = out.1

      w : Woken ex.memory out.2
      w =
          process-keeps U run_callback (Woken ex.memory) (run_callback-Woken ex.memory) ex.ioc
            batch_size ex.memory (record { exe = λ f. refl; ready = λ f r. r })

  -- Every step of the program keeps the invariant.
  pub Step-IsValid : {s s' : System R} → Step U s s' → IsValid s → IsValid s'
  Step-IsValid (spawn_first ex) v = Spawn-first-IsValid (async_exec-Spawn ex) v.table v.placed
  Step-IsValid (call_run ex) v = record { table = v.table; placed = (inl v.placed.0, v.placed.1) }
  Step-IsValid (head e) v = run_head-IsValid v.table v.placed.0 v.placed.1 e
  Step-IsValid (rest ex) v = run_tail-IsValid v.table v.placed
  Step-IsValid (spawn ex f) v = Spawn-IsValid (async_exec-Spawn ex) v.table v.placed
  Step-IsValid (call {ex = ex} {f = f} op {e = e} eq) v =
      let (e', eq', v') = async_call-result op v.table v.placed in
      let same : e' ≡ e = cc in subst (λ x. IsValid (effect f x)) same v'
  Step-IsValid (end {d = d} eq) v =
      let (d', eq', v') = manage-result v.table v.placed in
      let same : d' ≡ d = cc in subst (λ x. IsValid (finish x)) same v'

  -- In every state that the program reaches from a valid one the invariant holds: control is in the loop
  -- of `run` or in the task of the current frame, and the waiting tasks are saved in their frames.
  pub Reach-IsValid : {s s' : System R} → IsValid s → Reach U s s' → IsValid s'
  Reach-IsValid v here = v
  Reach-IsValid v (next r st) = Step-IsValid st (Reach-IsValid v r)
