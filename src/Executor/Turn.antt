-- ===== src/Executor/Turn.antt =====
-- lib/Executor.h and src/Executor.c: how the current frame is left, and how far that goes.
use cring.Prelude.{
  ℕ, zero, suc, ◌+◌, ◌%◌, ◌≤◌, ◌<◌, ◌≡◌, refl, ap, ◌∙◌, Option, none, some, true, false, arith,
  Bool-cases, inl, inr,
}
use cring.Prelude.{get_or, update, ◌==◌, if◌then◌else◌, dec_lt}
use native.Mathlib.Nat.{mod-lt, mod-eq_of_lt}
use cring.Executor.Frame.{
  Executor, Frame, Context, get_current_frame, main_frame, suspended, in_run,
}
use cring.Executor.Schedule.{
  Switch, is_ready_at, set_ready, save, swap_context, move_to_next_ready_frame, suspend_frame,
  suspend_current_frame,
}
use cring.Executor.Run.{System, go_on, run_head}
use cring.Executor.Cycle.{ahead, IsNextReady, move_to_next_ready_frame-IsNextReady}

update-other : (f : ℕ → Frame) (i j : ℕ) (v : Frame) → (i == j) ≡ false → update f i v j ≡ f j
update-other f i j v h = rw h refl

module _ {R : Type 0} where
  -- The main frame leaves by the head of `run`'s loop, and a task by its suspension.
  abbrev pub after_head : Option (System R) → Option (Executor R)
  after_head none = none
  after_head (some s) = some s.exec

  abbrev pub after_switch : Option (Switch R) → Option (Executor R)
  after_switch none = none
  after_switch (some s) = some s.after

  abbrev pub turn : (stack : ℕ) → Executor R → Option (Executor R)
  turn stack ex =
      if get_current_frame ex == main_frame ex
      then after_head (run_head ex)
      else after_switch (suspend_current_frame stack ex)

  -- The frame at index `i` is scheduled and ready, and has no other place in the table.
  pub record IsWaiting (i : ℕ) (ex : Executor R) : Type 0 where
    pub scheduled : i < ex.size
    pub inside : ex.current < ex.size
    pub alone :
        (j : ℕ)
        → j < ex.size
        → (j == i) ≡ false
        → (get_or ex.frames j 0 == get_or ex.frames i 0) ≡ false
    pub ready : is_ready_at ex (get_or ex.frames i 0) ≡ true

  -- Giving up its own readiness, another frame leaves that of frame `i`.
  IsWaiting-set_ready :
      {i : ℕ} (ex : Executor R)
      → IsWaiting i ex
      → (ex.current == i) ≡ false
      → IsWaiting i (set_ready ex (get_current_frame ex) false)
  unfolding get_current_frame
  IsWaiting-set_ready {i = i} ex w other = record {
    scheduled = w.scheduled;
    inside = w.inside;
    alone = w.alone;
    ready =
        ap (λ (f : Frame). f.is_ready)
          (update-other ex.memory (get_current_frame ex) (get_or ex.frames i 0) _
            (w.alone ex.current w.inside other))
        ∙ w.ready;
  }

  IsWaiting-ahead : {i : ℕ} (e : ℕ) (ex : Executor R) → IsWaiting i ex → IsWaiting i (ahead ex e)
  IsWaiting-ahead e ex w = record {
    scheduled = w.scheduled;
    inside = mod-lt (ex.current + e) (omega (arith, w.scheduled));
    alone = w.alone;
    ready = w.ready;
  }

  -- A context that is saved changes no readiness.
  ready-save :
      (ex : Executor R) (f g : ℕ) (c : Context) → is_ready_at (save ex f c) g ≡ is_ready_at ex g
  ready-save ex f g c = elim (Bool-cases (f == g)) [
    | inl same ↦ ground arith
    | inr other ↦ ground arith
  ]

  IsWaiting-save :
      {i : ℕ} (ex : Executor R) (f : ℕ) (c : Context) → IsWaiting i ex → IsWaiting i (save ex f c)
  IsWaiting-save {i = i} ex f c w = record {
    scheduled = w.scheduled;
    inside = w.inside;
    alone = w.alone;
    ready = ready-save ex f (get_or ex.frames i 0) c ∙ w.ready;
  }

  -- The next frame that is ready is at most as far ahead as frame `i`.
  distance-le :
      {i : ℕ} (d : ℕ) (ex found : Executor R)
      → IsWaiting i ex
      → (ex.current == i) ≡ false
      → (ex.current + d) % ex.size ≡ i
      → (n : IsNextReady ex found) → n.distance ≤ d
  unfolding get_current_frame
  distance-le {i = i} d ex found w other there n = elim (dec_lt d n.distance) [
    | yes lt ↦ absurd (
        let seen : is_ready_at ex (get_or ex.frames ((ex.current + d) % ex.size) 0) ≡ false =
          n.first d (behind d there) lt in
        ground (arith, w.ready, rw there at seen))
    | no ge ↦ omega arith
  ]
    where
      behind : (k : ℕ) → (ex.current + k) % ex.size ≡ i → 0 < k
      behind zero e = absurd (ground (arith, mod-eq_of_lt w.inside, e))
      behind (suc k) e = omega arith

  -- A turn of another frame, with frame `i` at distance `d`.
  pub record NextTurn (i stack d : ℕ) (ex : Executor R) : Type 0 where
    pub distance : ℕ
    pub near : (0 < distance) × (distance ≤ d)
    pub after : Executor R
    pub switched : turn stack ex ≡ some after
    pub waits : IsWaiting i after
    pub same_size : after.size ≡ ex.size
    pub now_at : after.current ≡ (ex.current + distance) % ex.size

  suspended_to : (stack current : ℕ) → Option (Executor R) → Option (Switch R)
  suspended_to stack current o = elim o [
    | none ↦ none
    | some ex ↦ some (swap_context ex current (suspended stack) (get_current_frame ex))
  ]

  suspend_current_frame-some :
      (stack : ℕ) (ex found : Executor R)
      → move_to_next_ready_frame (set_ready ex (get_current_frame ex) false) ≡ some found
      → after_switch (suspend_current_frame stack ex)
        ≡ some (save found (get_current_frame ex) (suspended stack))
  unfolding suspend_current_frame suspend_frame suspended_to
  suspend_current_frame-some stack ex found h =
      ap (λ o. after_switch (suspended_to stack (get_current_frame ex) o)) h

  gone_on : (current : ℕ) → Option (Executor R) → Option (System R)
  gone_on current o = elim o [ none ↦ none | some ex ↦ some (go_on current ex) ]

  run_head-some :
      (ex found : Executor R)
      → move_to_next_ready_frame ex ≡ some found
      → after_head (run_head ex) ≡ some (go_on (get_current_frame ex) found).exec
  unfolding run_head gone_on
  run_head-some ex found h = ap (λ o. after_head (gone_on (get_current_frame ex) o)) h

  -- Behind the head of the loop the frame's context is saved, or nothing has changed.
  go_on-waits :
      {i : ℕ} (current : ℕ) (ex : Executor R)
      → IsWaiting i ex
      → IsWaiting i (go_on current ex).exec
        × ((go_on current ex).exec.size ≡ ex.size)
        × ((go_on current ex).exec.current ≡ ex.current)
  unfolding go_on
  go_on-waits current ex w = elim (Bool-cases (get_current_frame ex == current)) [
    | inl same ↦ rw same (w, refl, refl)
    | inr other ↦ rw other (IsWaiting-save ex current in_run w, refl, refl)
  ]

  suspension-NextTurn :
      {i : ℕ} (stack d : ℕ) (ex : Executor R)
      → IsWaiting i ex
      → (ex.current == i) ≡ false
      → (ex.current + d) % ex.size ≡ i
      → (get_current_frame ex == main_frame ex) ≡ false
      → NextTurn i stack d ex
  suspension-NextTurn {i = i} stack d ex w other there task =
      let ex' = set_ready ex (get_current_frame ex) false in
      let w' = IsWaiting-set_ready ex w other in
      let (found, e, n) = move_to_next_ready_frame-IsNextReady ex' i w.scheduled w'.ready in
      record {
        distance = n.distance;
        near = (n.near.0, distance-le d ex' found w' other there n);
        after = save (ahead ex' n.distance) (get_current_frame ex) (suspended stack);
        switched = rw task (
            suspend_current_frame-some stack ex found e
            ∙ ap (λ x. some (save x (get_current_frame ex) (suspended stack))) n.at);
        waits = IsWaiting-save _ _ _ (IsWaiting-ahead n.distance ex' w');
        same_size = refl;
        now_at = refl;
      }

  head-NextTurn :
      {i : ℕ} (stack d : ℕ) (ex : Executor R)
      → IsWaiting i ex
      → (ex.current == i) ≡ false
      → (ex.current + d) % ex.size ≡ i
      → (get_current_frame ex == main_frame ex) ≡ true
      → NextTurn i stack d ex
  head-NextTurn {i = i} stack d ex w other there main =
      let (found, e, n) = move_to_next_ready_frame-IsNextReady ex i w.scheduled w.ready in
      let (waits, size, current) =
        go_on-waits (get_current_frame ex) (ahead ex n.distance)
          (IsWaiting-ahead n.distance ex w) in
      record {
        distance = n.distance;
        near = (n.near.0, distance-le d ex found w other there n);
        after = (go_on (get_current_frame ex) (ahead ex n.distance)).exec;
        switched =
            rw main (
              run_head-some ex found e ∙ ap (λ x. some (go_on (get_current_frame ex) x).exec) n.at);
        waits = waits;
        same_size = size;
        now_at = current;
      }

  -- Whichever frame is left, the next one is not behind frame `i`.
  pub turn-NextTurn :
      {i : ℕ} (stack d : ℕ) (ex : Executor R)
      → IsWaiting i ex
      → (ex.current == i) ≡ false
      → (ex.current + d) % ex.size ≡ i
      → NextTurn i stack d ex
  turn-NextTurn stack d ex w other there =
      elim (Bool-cases (get_current_frame ex == main_frame ex)) [
        | inl main ↦ head-NextTurn stack d ex w other there main
        | inr task ↦ suspension-NextTurn stack d ex w other there task
      ]
