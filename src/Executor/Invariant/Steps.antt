-- ===== src/Executor/Invariant/Steps.antt =====
-- A switch from the loop of `run` or from a task that waits keeps the invariant.
use cring.Prelude.{ℕ, ◌<◌, ◌≡◌, ◌≢◌, inl, inr, sym, subst, ap, ◌∙◌, none, some, false, arith}
use cring.Prelude.{◌==◌, Bool-cases, Option-cases, ℕ_discrete, ==_iff}
use cring.Executor.Frame.{Executor, Context, get_current_frame, suspended, in_run}
use cring.Executor.Schedule.{
  suspend_frame, suspend_current_frame, set_ready, save, move_to_next_ready_frame, swap_context,
  Switch,
}
use cring.Executor.Run.{System, enter, run_head, go_on}
use cring.Executor.Invariant.Defs.{
  IsOwn, frame_at, exe_at, IsTable, IsSaved, IsInLoop, IsRunning, IsValid,
}
use cring.Executor.Invariant.Moves.{
  move-Moved, move-total, frame_at-ne-zero, save-IsTable, current-IsTable, landed,
}

module _ {R : Type 0} where
  -- A context saved in a frame `f` that is not scheduled, or is the main frame, leaves the tasks saved.
  pub save-IsSaved :
      (ex : Executor R) (f : ℕ) (c : Context) (but : ℕ)
      → ((i : ℕ) → 0 < i → i < ex.size → frame_at ex i ≢ f)
      → IsSaved ex but
      → IsSaved (save ex f c) but
  save-IsSaved ex f c but apart saved i pos lt ne =
      let own = saved i pos lt ne in
      let other = apart i pos lt in
      let kept : exe_at (save ex f c) (frame_at ex i) ≡ exe_at ex (frame_at ex i) = ground arith in
      rw kept own

  -- What is saved in the loop of `run`: in the main frame, or in the frame of a task that has ended.
  loop-apart :
      {ex : Executor R}
      → IsTable ex
      → IsInLoop ex
      → (i : ℕ) → 0 < i
      → i < ex.size
      → frame_at ex i ≢ frame_at ex ex.current
  loop-apart {ex} t h i pos lt same = by_case h
    where
      by_case : IsInLoop ex → ⊥
      by_case (inl e) =
          let eq : i ≡ ex.current =
            t.distinct i ex.current (omega (arith, t.fits)) (omega (arith, t.fits)) same in
          omega arith
      by_case (inr (e, l, _)) =
          let eq : i ≡ ex.current =
            t.distinct i ex.current (omega (arith, t.fits)) (omega arith) same in
          omega arith

  loop-below : {ex : Executor R} → IsTable ex → IsInLoop ex → ex.current < ex.capacity
  loop-below t (inl e) = omega (arith, t.some_size, t.fits)
  loop-below t (inr (e, l, _)) = omega arith

  loop-saved :
      {ex : Executor R} (k : ℕ)
      → IsTable ex
      → IsInLoop ex
      → exe_at (save (record ex { current = k }) (frame_at ex ex.current) in_run) 0 ≡ in_run
  loop-saved {ex} k t (inl e) =
      let at_main : frame_at ex ex.current ≡ 0 = ap (frame_at ex) e ∙ t.main in ground arith
  loop-saved k t (inr (e, l, kept)) = ground arith

  -- From the loop the switch goes to the next ready frame, or the loop goes on.
  go_on-IsValid :
      {ex : Executor R} (k : ℕ)
      → IsTable ex
      → IsInLoop ex
      → IsSaved ex 0
      → k < ex.size
      → IsValid (go_on (frame_at ex ex.current) (record ex { current = k }))
  unfolding go_on get_current_frame
  go_on-IsValid {ex} k t h saved lt = elim (Bool-cases (frame_at ex k == frame_at ex ex.current)) [
    | inl same ↦ rw same (record {
      table = current-IsTable k t;
      placed = (
        at_zero h (
            t.distinct k ex.current (omega (arith, t.fits)) (loop-below t h) ((==_iff _ _).0 same)),
        saved,
      );
    })
    | inr other ↦ rw other (
        landed (save-IsTable (frame_at ex ex.current) in_run (current-IsTable k t)) lt
          (loop-saved k t h)
          (save-IsSaved (record ex { current = k }) (frame_at ex ex.current) in_run 0
            (loop-apart t h) saved))
  ]
    where
      at_zero : IsInLoop ex → k ≡ ex.current → IsInLoop (record ex { current = k })
      at_zero (inl e) eq = inl (eq ∙ e)
      at_zero (inr (e, _, _)) eq = absurd (omega arith)

  pub run_head-IsValid :
      {ex : Executor R} {s : System R}
      → IsTable ex
      → IsInLoop ex
      → IsSaved ex 0
      → run_head ex ≡ some s
      → IsValid s
  unfolding run_head get_current_frame
  run_head-IsValid {ex} {s} t h saved e = elim (Option-cases (move_to_next_ready_frame ex)) [
    | inl none_ready ↦ absurd (move-total ex t.some_size t.main t.main_ready none_ready)
    | inr (ex', moved) ↦
        let m = move-Moved t.some_size t.main t.main_ready moved in
        let eq : go_on (frame_at ex ex.current) ex' ≡ s = ground (arith, moved) in
        subst IsValid (ap (go_on (frame_at ex ex.current)) (sym m.at) ∙ eq)
          (go_on-IsValid m.index t h saved m.in_size)
  ]

  set_ready-IsTable :
      {ex : Executor R} (f : ℕ) → f ≢ 0 → IsTable ex → IsTable (set_ready ex f false)
  set_ready-IsTable f ne t = record {
    table = t.table;
    some_size = t.some_size;
    fits = t.fits;
    main = t.main;
    distinct = t.distinct;
    main_ready = ground (arith, t.main_ready);
  }

  -- The task of the current frame is saved in it.
  suspend-IsSaved :
      {ex : Executor R} {f : ℕ} (k : ℕ)
      → IsTable ex
      → IsRunning ex f
      → IsSaved (save (record (set_ready ex f false) { current = k }) f (suspended f)) 0
  suspend-IsSaved {ex} {f} k t r i pos lt _ = elim (ℕ_discrete i ex.current) [
    | yes e ↦
        let here : frame_at ex i ≡ f = ap (frame_at ex) e ∙ r.own in
        let own : IsOwn (frame_at ex i) (suspended f) = sym here in rw here (ground arith)
    | no ne ↦
        let own = r.saved i pos lt ne in
        let other : frame_at ex i ≢ f = λ e. ne (
          t.distinct i ex.current (omega (arith, t.fits)) (omega (arith, t.fits, r.in_size))
            (e ∙ sym r.own)) in
        let kept : exe_at (save (record (set_ready ex f false) { current = k }) f (suspended f))
              (frame_at ex i)
            ≡ exe_at ex (frame_at ex i) =
          ground arith in
        rw kept own
  ]

  pub running-ne-zero : {ex : Executor R} {f : ℕ} → IsTable ex → IsRunning ex f → f ≢ 0
  running-ne-zero {ex} t r e =
      frame_at-ne-zero t ex.current r.pos (omega (arith, r.in_size, t.fits)) (r.own ∙ e)

  parked : ℕ → Executor R → Switch R
  parked f ex = swap_context ex f (suspended f) (frame_at ex ex.current)

  suspend-parked :
      (ex : Executor R) {ex' : Executor R} (f : ℕ)
      → frame_at ex ex.current ≡ f
      → move_to_next_ready_frame (set_ready ex f false) ≡ some ex'
      → suspend_current_frame f ex ≡ some (parked f ex')
  unfolding suspend_current_frame suspend_frame get_current_frame parked
  suspend-parked ex {ex'} f own moved = ap (λ c. suspend_frame f c ex) own ∙ ground (arith, moved)

  pub suspend-IsValid :
      {ex : Executor R} {f : ℕ} {s : Switch R}
      → IsTable ex
      → IsRunning ex f
      → suspend_current_frame f ex ≡ some s
      → IsValid (enter s)
  unfolding parked
  suspend-IsValid {ex} {f} {s} t r e =
      elim (Option-cases (move_to_next_ready_frame (set_ready ex f false))) [
        | inl none_ready ↦
            absurd (move-total (set_ready ex f false) t.some_size t.main t'.main_ready none_ready)
        | inr (ex', moved) ↦
            let m = move-Moved t.some_size t.main t'.main_ready moved in
            let eq : parked f ex' ≡ s = cc (suspend-parked ex f r.own moved) in
            subst (λ sw. IsValid (enter sw)) (ap (parked f) (sym m.at) ∙ eq)
              (there m.index m.in_size)
      ]
    where
      ne : f ≢ 0
      ne = running-ne-zero t r

      t' : IsTable (set_ready ex f false)
      t' = set_ready-IsTable f ne t

      there :
          (k : ℕ)
          → k < ex.size
          → IsValid (enter (parked f (record (set_ready ex f false) { current = k })))
      there k lt =
          landed (save-IsTable f (suspended f) (current-IsTable k t')) lt
            (ground (arith, ne, r.loop)) (suspend-IsSaved k t r)

  -- A running task that waits finds a frame to go to.
  pub suspend-total :
      {ex : Executor R} {f : ℕ} → IsTable ex → IsRunning ex f → suspend_current_frame f ex ≢ none
  suspend-total {ex} {f} t r e =
      elim (Option-cases (move_to_next_ready_frame (set_ready ex f false))) [
        | inl none_ready ↦
            move-total (set_ready ex f false) t.some_size t.main
              (set_ready-IsTable f (running-ne-zero t r) t).main_ready none_ready
        | inr (ex', moved) ↦ absurd (cc (suspend-parked ex f r.own moved))
      ]

  pub run_head-total : {ex : Executor R} → IsTable ex → run_head ex ≢ none
  unfolding run_head
  run_head-total {ex} t e = elim (Option-cases (move_to_next_ready_frame ex)) [
    | inl none_ready ↦ move-total ex t.some_size t.main t.main_ready none_ready
    | inr (ex', moved) ↦ absurd (ground (arith, moved))
  ]
