-- ===== src/Executor/Invariant/Moves.antt =====
-- Changes of the executor that keep its table, and switches that go to a frame that may be resumed.
use cring.Prelude.{
  ℕ, ◌+◌, ◌%◌, ◌<◌, ◌≡◌, ◌≢◌, inl, refl, sym, subst, ap, ◌∙◌, none, some, true, arith,
}
use cring.Prelude.{◌==◌, if◌then◌else◌, ℕ_discrete}
use native.Mathlib.Nat.{mod-lt}
use cring.Executor.Frame.{
  Executor, Context, get_current_frame, entry, suspended, in_run, blank, finished,
}
use cring.Executor.Schedule.{is_ready_at, save, move_to_next_ready_frame}
use cring.Executor.Cycle.{move_to_next_ready_frame-IsNextReady, ahead}
use cring.Executor.Run.{resume, in_task}
use cring.Executor.Invariant.Defs.{IsOwn, frame_at, exe_at, IsTable, IsSaved, IsValid}

IsOwn-resume : (f : ℕ) (c : Context) → IsOwn f c → resume c ≡ in_task f
unfolding resume
IsOwn-resume f (entry g) e = ap in_task e
IsOwn-resume f (suspended g) e = ap in_task e
IsOwn-resume f blank e = absurd e
IsOwn-resume f in_run e = absurd e
IsOwn-resume f (finished g) e = absurd e

module _ {R : Type 0} where
  -- What `move_to_next_ready_frame` changes: the index, which comes to a ready frame.
  pub record Moved (ex ex' : Executor R) : Type 0 where
    pub index : ℕ
    pub in_size : index < ex.size
    pub at : ex' ≡ record ex { current = index }
    pub ready : is_ready_at ex (frame_at ex index) ≡ true

  pub move-Moved :
      {ex ex' : Executor R}
      → 0 < ex.size
      → frame_at ex 0 ≡ 0
      → is_ready_at ex 0 ≡ true
      → move_to_next_ready_frame ex ≡ some ex'
      → Moved ex ex'
  unfolding get_current_frame
  move-Moved {ex} {ex'} lt main r e =
      let (found, e', n) = move_to_next_ready_frame-IsNextReady ex 0 lt (rw main r) in
      let same : found ≡ ex' = cc in
      let at_found : ex' ≡ ahead ex n.distance = sym same ∙ n.at in
      record {
        index = (ex.current + n.distance) % ex.size;
        in_size = mod-lt _ lt;
        at = at_found;
        ready = subst (λ f. is_ready_at f (get_current_frame f) ≡ true) n.at n.ready;
      }

  pub move-total :
      (ex : Executor R)
      → 0 < ex.size
      → frame_at ex 0 ≡ 0
      → is_ready_at ex 0 ≡ true
      → move_to_next_ready_frame ex ≢ none
  move-total ex lt main r e =
      let (found, e', n) = move_to_next_ready_frame-IsNextReady ex 0 lt (rw main r) in cc

  -- A frame of the table that is not at index 0 is not the main frame.
  pub frame_at-ne-zero :
      {ex : Executor R} → IsTable ex → (i : ℕ) → 0 < i → i < ex.capacity → frame_at ex i ≢ 0
  frame_at-ne-zero t i pos lt e =
      let same : i ≡ 0 = t.distinct i 0 lt (omega arith) (e ∙ sym t.main) in omega arith

  pub exe_at-save :
      (ex : Executor R) (f : ℕ) (c : Context) (g : ℕ)
      → exe_at (save ex f c) g ≡ (if f == g then c else exe_at ex g)
  exe_at-save ex f c g = ground arith

  pub save-IsTable : {ex : Executor R} (f : ℕ) (c : Context) → IsTable ex → IsTable (save ex f c)
  save-IsTable f c t = record {
    table = t.table;
    some_size = t.some_size;
    fits = t.fits;
    main = t.main;
    distinct = t.distinct;
    main_ready = ground (arith, t.main_ready);
  }

  pub current-IsTable : {ex : Executor R} (c : ℕ) → IsTable ex → IsTable (record ex { current = c })
  current-IsTable c t = record {
    table = t.table;
    some_size = t.some_size;
    fits = t.fits;
    main = t.main;
    distinct = t.distinct;
    main_ready = t.main_ready;
  }

  -- A switch to the current frame, once all contexts are saved, goes to the loop of `run` or to the
  -- task of that frame.
  pub landed :
      {ex : Executor R}
      → IsTable ex
      → ex.current < ex.size
      → exe_at ex 0 ≡ in_run
      → IsSaved ex 0
      → IsValid (record { exec = ex; control = resume (exe_at ex (frame_at ex ex.current)) })
  unfolding resume
  landed {ex} t lt loop saved = elim (ℕ_discrete ex.current 0) [
    | yes e ↦
        let at_main : exe_at ex (frame_at ex ex.current) ≡ in_run =
          ap (λ i. exe_at ex (frame_at ex i)) e ∙ ap (exe_at ex) t.main ∙ loop in
        rw at_main (record { table = t; placed = (inl e, saved) })
    | no ne ↦
        let pos : 0 < ex.current = omega arith in
        rw (IsOwn-resume (frame_at ex ex.current) _ (saved ex.current pos lt ne)) (record {
          table = t;
          placed = record {
            pos = pos;
            in_size = lt;
            own = refl;
            loop = loop;
            saved = λ i p l _. saved i p l (omega arith);
          };
        })
  ]
