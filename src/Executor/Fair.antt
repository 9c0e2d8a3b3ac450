-- ===== src/Executor/Fair.antt =====
-- lib/Executor.h and src/Executor.c: a frame that is ready gets its turn, however the others are woken.
use cring.Prelude.{
  ℕ, zero, suc, ◌+◌, ◌-◌, ◌%◌, ◌≤◌, ◌<◌, ◌≡◌, refl, sym, ap, ◌∙◌, Option, none, some, true, false,
  arith, Bool-cases, inl, inr,
}
use cring.Prelude.{get_or, ◌==◌}
use native.Mathlib.Nat.{mod-add-mod, mod-eq_of_lt}
use cring.IoContext.Uring.{Uring}
use cring.IoContext.Process.{process}
use cring.IoContext.Callbacks.{process-keeps}
use cring.Executor.Frame.{Executor}
use cring.Executor.Schedule.{is_ready_at}
use cring.Executor.Async.{run_callback}
use cring.Executor.Run.{batch_size, in_task}
use cring.Executor.Invariant.Defs.{IsTable, IsValid}
use cring.Executor.Cycle.{reach_index}
use cring.Executor.Invariant.Waking.{Woken, run_callback-Woken}
use cring.Executor.Turn.{turn, IsWaiting, NextTurn, turn-NextTurn}

-- Between two turns something runs that may wake frames and change what it likes.
abbrev pub Meanwhile : Type 0 → Type 0
Meanwhile R = ℕ → Executor R → Executor R

module _ {R : Type 0} where
  -- It spawns and ends no task, and leaves the frame at index `i` ready.
  pub record IsCalm (i : ℕ) (run : Meanwhile R) : Type 0 where
    pub keeps_current : (n : ℕ) (ex : Executor R) → (run n ex).current ≡ ex.current
    pub keeps_size : (n : ℕ) (ex : Executor R) → (run n ex).size ≡ ex.size
    pub keeps_frames : (n : ℕ) (ex : Executor R) → (run n ex).frames ≡ ex.frames
    pub keeps_ready :
        (n : ℕ) (ex : Executor R)
        → is_ready_at ex (get_or ex.frames i 0) ≡ true
        → is_ready_at (run n ex) (get_or ex.frames i 0) ≡ true

  -- `n` times something runs, and the current frame then leaves, a task from a stack of its own.
  abbrev pub turns : (stacks : ℕ → ℕ) → Meanwhile R → (n : ℕ) → Executor R → Option (Executor R)
  turns stacks run zero ex = some ex
  turns stacks run (suc n) ex = elim (turn (stacks 0) (run 0 ex)) [
    | none ↦ none
    | some after ↦ turns (λ k. stacks (suc k)) (λ k. run (suc k)) n after
  ]

  IsWaiting-run :
      {i : ℕ} {run : Meanwhile R} {ex : Executor R} (n : ℕ)
      → IsCalm i run
      → IsWaiting i ex
      → IsWaiting i (run n ex)
  IsWaiting-run {i = i} {run = run} {ex = ex} n c w = record {
    scheduled = omega (arith, w.scheduled, c.keeps_size n ex);
    inside = omega (arith, w.inside, c.keeps_size n ex, c.keeps_current n ex);
    alone = λ j lt o. rw (c.keeps_frames n ex) (w.alone j (omega (arith, lt, c.keeps_size n ex)) o);
    ready = rw (c.keeps_frames n ex) (c.keeps_ready n ex w.ready);
  }

  IsCalm-later : {i : ℕ} {run : Meanwhile R} → IsCalm i run → IsCalm i (λ k. run (suc k))
  IsCalm-later c = record {
    keeps_current = λ n. c.keeps_current (suc n);
    keeps_size = λ n. c.keeps_size (suc n);
    keeps_frames = λ n. c.keeps_frames (suc n);
    keeps_ready = λ n. c.keeps_ready (suc n);
  }

  -- At most `d` turns reach an executor at which frame `i` is the current one.
  Reached : (i d : ℕ) (stacks : ℕ → ℕ) (run : Meanwhile R) (ex : Executor R) → Type 0
  Reached i d stacks run ex =
      (n : ℕ) × (n ≤ d)
      × (found : Executor R) × (turns stacks run n ex ≡ some found)
      × (found.current ≡ i)

  Reached-later :
      {i d : ℕ} (stacks : ℕ → ℕ) (run : Meanwhile R) {ex : Executor R}
      (t : NextTurn i (stacks 0) d (run 0 ex))
      → Reached i (d - t.distance) (λ k. stacks (suc k)) (λ k. run (suc k)) t.after
      → Reached i d stacks run ex
  unfolding Reached
  Reached-later stacks run t (n, le, found, e, q) = (
    suc n,
    omega (arith, le, t.near),
    found,
    ap
          (λ o. elim o [
            | none ↦ none
            | some after ↦ turns (λ k. stacks (suc k)) (λ k. run (suc k)) n after
          ])
          t.switched
        ∙ e,
    q,
  )

  -- The turn has brought frame `i` nearer.
  NextTurn-there :
      {i stack d : ℕ} {ex : Executor R} (t : NextTurn i stack d ex)
      → (ex.current + d) % ex.size ≡ i
      → (t.after.current + (d - t.distance)) % t.after.size ≡ i
  NextTurn-there {i = i} {d = d} {ex = ex} t there =
      rw (t.now_at, t.same_size)
        (mod-add-mod (ex.current + t.distance) ex.size (d - t.distance)
          ∙ ap (λ (n : ℕ). n % ex.size) (omega (arith, t.near))
          ∙ there)

  reached :
      (i bound d : ℕ) (stacks : ℕ → ℕ) (run : Meanwhile R) (ex : Executor R)
      → IsCalm i run
      → IsWaiting i ex
      → (ex.current + d) % ex.size ≡ i
      → d ≤ bound
      → Reached i d stacks run ex
  unfolding Reached
  reached i zero zero stacks run ex c w there le = (
    0,
    omega arith,
    ex,
    refl,
    sym (mod-eq_of_lt w.inside) ∙ ap (λ (n : ℕ). n % ex.size) (omega arith) ∙ there,
  )
  reached i zero (suc d) stacks run ex c w there le = absurd (omega arith)
  reached i (suc bound) d stacks run ex c w there le = elim (Bool-cases (ex.current == i)) [
    | inl here ↦ (0, omega arith, ex, refl, ground arith)
    | inr other ↦
        let there' : ((run 0 ex).current + d) % (run 0 ex).size ≡ i =
          rw (c.keeps_current 0 ex, c.keeps_size 0 ex) there in
        let t =
          turn-NextTurn (stacks 0) d (run 0 ex) (IsWaiting-run 0 c w)
            (rw (c.keeps_current 0 ex) other) there' in
        Reached-later stacks run t (
          reached i bound (d - t.distance) (λ k. stacks (suc k)) (λ k. run (suc k)) t.after
            (IsCalm-later c) t.waits (NextTurn-there t there') (omega (arith, t.near)))
  ]

  -- A frame is scheduled and ready, its address stands once among the scheduled ones, and the
  -- current index is in range. Then, whatever runs between the turns, as long as it spawns and
  -- ends no task and leaves that frame ready, the frame becomes the current one after at most as
  -- many turns as there are scheduled frames, and each of these turns returns.
  pub turns-reach :
      (i : ℕ) (stacks : ℕ → ℕ) (run : Meanwhile R) (ex : Executor R)
      → IsCalm i run
      → IsWaiting i ex
      → (n : ℕ) × (n ≤ ex.size)
        × (found : Executor R) × (turns stacks run n ex ≡ some found)
        × (found.current ≡ i)
  unfolding Reached
  turns-reach i stacks run ex c w =
      let (d, pos, le, there) = reach_index ex.current ex.size i w.scheduled in
      let (n, near, found, e, q) = reached i d d stacks run ex c w there (omega arith) in
      (n, omega arith, found, e, q)

-- What `run` does between the turns: a batch of completions.
abbrev pub batches : {R S : Type 0} → Uring R S → Meanwhile R
batches U n ex =
    let (ret, ioc, memory) = process U run_callback ex.ioc batch_size ex.memory in
    record ex { ioc = ioc; memory = memory }

-- The callbacks make no frame wait, so `run` is calm for each frame.
pub batches-IsCalm : {R S : Type 0} (U : Uring R S) (i : ℕ) → IsCalm i (batches U)
batches-IsCalm U i = record {
  keeps_current = λ n ex. refl;
  keeps_size = λ n ex. refl;
  keeps_frames = λ n ex. refl;
  keeps_ready = λ n ex r.
      (process-keeps U run_callback (Woken ex.memory) (run_callback-Woken ex.memory) ex.ioc
          batch_size ex.memory (record { exe = λ f. refl; ready = λ f q. q })).ready
        (get_or ex.frames i 0) r;
}

module _ {R : Type 0} where
  -- Two places hold the same address only if they are one.
  apart_in :
      (ex : Executor R) (i j : ℕ)
      → IsTable ex
      → i < ex.size
      → j < ex.size
      → (j == i) ≡ false
      → (get_or ex.frames j 0 == get_or ex.frames i 0) ≡ false
  apart_in ex i j t li lj o = elim (Bool-cases (get_or ex.frames j 0 == get_or ex.frames i 0)) [
    | inl same ↦
        let e : j ≡ i =
          t.distinct j i (omega (arith, t.fits)) (omega (arith, t.fits)) (ground arith) in
        absurd (ground arith)
    | inr other ↦ other
  ]

  -- While a task runs, every frame that is ready waits as the theorem asks.
  pub IsValid-IsWaiting :
      {ex : Executor R} {f : ℕ} (i : ℕ)
      → IsValid (record { exec = ex; control = in_task f })
      → i < ex.size
      → is_ready_at ex (get_or ex.frames i 0) ≡ true
      → IsWaiting i ex
  IsValid-IsWaiting {ex = ex} i v lt r = record {
    scheduled = lt;
    inside = v.placed.in_size;
    alone = λ j lj o. apart_in ex i j v.table lt lj o;
    ready = r;
  }
