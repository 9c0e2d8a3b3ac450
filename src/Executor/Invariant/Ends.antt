-- ===== src/Executor/Invariant/Ends.antt =====
-- The end of a task keeps the invariant.
use cring.Prelude.{ℕ, ◌-◌, ◌<◌, ◌≡◌, inl, inr, sym, subst, ap, ◌∙◌, some, true, false, arith}
use cring.Prelude.{◌==◌, Bool-cases, Option-cases, ℕ_discrete, ==_iff}
use cring.Executor.Frame.{Executor, get_current_frame, main_frame, finished}
use cring.Executor.Schedule.{
  is_ready_at, move_to_next_ready_frame, swap_context, Switch, Finish, switched, returned, leave,
  after_swap, manage_async_finish, swap_current_frame_with_last_frame,
}
use cring.Executor.Run.{enter, resume, finish}
use cring.Executor.Invariant.Defs.{frame_at, IsTable, IsRunning, IsValid}
use cring.Executor.Invariant.Moves.{move-Moved, move-total, save-IsTable, current-IsTable, landed}
use cring.Executor.Invariant.Steps.{save-IsSaved, running-ne-zero}
use cring.Executor.Invariant.Shortened.{
  shortened, IsInner, shortened-IsTable, shortened-IsSaved, shortened-apart, frame_at-done,
}

module _ {R : Type 0} where
  module _ {ex : Executor R} {f : ℕ} (t : IsTable ex) (r : IsRunning ex f)
      (inner : IsInner ex) where
    -- A switch from the ended task to the frame at index `k` of the shortened table.
    switch-IsValid :
        (k : ℕ)
        → k < ex.size - 1
        → IsValid (
            enter (
              swap_context
                (record (shortened ex) { current = k })
                f
                (finished f)
                (frame_at (shortened ex) k)))
    switch-IsValid k lt =
        landed (save-IsTable f (finished f) (current-IsTable k (shortened-IsTable t r inner))) lt
          (ground (arith, running-ne-zero t r, r.loop))
          (save-IsSaved (record (shortened ex) { current = k }) f (finished f) 0
            (shortened-apart t r inner) (shortened-IsSaved t r inner))

    leave-IsValid :
        (k : ℕ)
        → k < ex.size - 1
        → IsValid (finish (leave f f (record (shortened ex) { current = k })))
    unfolding leave finish get_current_frame main_frame resume
    leave-IsValid k lt =
        elim (Bool-cases (frame_at (shortened ex) k == frame_at (shortened ex) 0)) [
          | inl same ↦
              let t' = shortened-IsTable t r inner in
              let at_zero : k ≡ 0 =
                t'.distinct k 0 (omega (arith, t.fits)) (omega (arith, t.fits))
                  ((==_iff _ _).0 same) in
              rw (same, r.loop)
                (record {
                  table = current-IsTable k t';
                  placed = (inl at_zero, shortened-IsSaved t r inner);
                })
          | inr other ↦ rw other (switch-IsValid k lt)
        ]

  manage-last :
      (f : ℕ) (ex : Executor R)
      → (frame_at ex (ex.size - 1) == frame_at ex ex.current) ≡ true
      → manage_async_finish f ex ≡ some (returned (record ex { size = ex.size - 1 }))
  unfolding manage_async_finish swap_current_frame_with_last_frame
  manage-last f ex e = ground arith

  manage-inner :
      (f : ℕ) (ex : Executor R)
      → (frame_at ex (ex.size - 1) == frame_at ex ex.current) ≡ false
      → manage_async_finish f ex ≡ after_swap f (frame_at (shortened ex) ex.current) (shortened ex)
  unfolding manage_async_finish swap_current_frame_with_last_frame
  manage-inner f ex e = ground arith

  last-IsValid :
      {ex : Executor R} {f : ℕ}
      → IsTable ex
      → IsRunning ex f
      → (frame_at ex (ex.size - 1) == frame_at ex ex.current) ≡ true
      → IsValid (finish (returned (record ex { size = ex.size - 1 })))
  unfolding finish resume
  last-IsValid {ex} t r e =
      let last : ex.size - 1 ≡ ex.current =
        t.distinct (ex.size - 1) ex.current (omega (arith, t.fits, t.some_size))
          (omega (arith, t.fits, r.in_size)) ((==_iff _ _).0 e) in
      rw r.loop (record {
        table = record {
          table = t.table;
          some_size = omega (arith, r.pos, last);
          fits = omega (arith, t.fits);
          main = t.main;
          distinct = t.distinct;
          main_ready = t.main_ready;
        };
        placed = (
          inr (sym last, omega (arith, t.fits, t.some_size), r.loop),
          λ i pos lt _. r.saved i pos (omega arith) (omega (arith, last)),
        );
      })

  IsInner-of-other :
      {ex : Executor R} {f : ℕ}
      → IsTable ex
      → IsRunning ex f
      → (frame_at ex (ex.size - 1) == frame_at ex ex.current) ≡ false
      → IsInner ex
  IsInner-of-other {ex} t r e = elim (ℕ_discrete (ex.size - 1) ex.current) [
    | yes same ↦
        let eq = ap (frame_at ex) same in
        let t' = (==_iff (frame_at ex (ex.size - 1)) (frame_at ex ex.current)).1 eq in absurd (cc)
    | no ne ↦ omega (arith, r.in_size)
  ]

  -- The two ways on, once the table is shortened.
  after_swap-ready :
      (f moved : ℕ) (ex : Executor R)
      → is_ready_at ex moved ≡ true
      → after_swap f moved ex
        ≡ some (switched (swap_context ex (frame_at ex ex.size) (finished f) moved))
  unfolding after_swap
  after_swap-ready f moved ex e = ground arith

  after_swap-waiting :
      (f moved : ℕ) (ex : Executor R) {ex' : Executor R}
      → is_ready_at ex moved ≡ false
      → move_to_next_ready_frame ex ≡ some ex'
      → after_swap f moved ex ≡ some (leave f (frame_at ex ex.size) ex')
  unfolding after_swap
  after_swap-waiting f moved ex e e' = ground arith

  switched-IsValid : (s : Switch R) → IsValid (enter s) → IsValid (finish (switched s))
  unfolding finish
  switched-IsValid s v = v

  -- What `manage_async_finish` comes to, and that it keeps the invariant.
  pub manage-result :
      {ex : Executor R} {f : ℕ}
      → IsTable ex
      → IsRunning ex f
      → (d : Finish R) × (manage_async_finish f ex ≡ some d) × IsValid (finish d)
  manage-result {ex} {f} t r =
      elim (Bool-cases (frame_at ex (ex.size - 1) == frame_at ex ex.current)) [
        | inl last ↦ (
          returned (record ex { size = ex.size - 1 }),
          manage-last f ex last,
          last-IsValid t r last,
        )
        | inr other ↦ inner_case (IsInner-of-other t r other) (manage-inner f ex other)
      ]
    where
      moved : ℕ
      moved = frame_at (shortened ex) ex.current

      inner_case :
          IsInner ex
          → manage_async_finish f ex ≡ after_swap f moved (shortened ex)
          → (d : Finish R) × (manage_async_finish f ex ≡ some d) × IsValid (finish d)
      inner_case inner start = elim (Bool-cases (is_ready_at (shortened ex) moved)) [
        | inl ready ↦ (
          switched (swap_context (shortened ex) f (finished f) moved),
          start
              ∙ after_swap-ready f moved (shortened ex) ready
              ∙ ap (λ g. some (switched (swap_context (shortened ex) g (finished f) moved)))
                  (frame_at-done t r inner),
          switched-IsValid _ (switch-IsValid t r inner ex.current (omega arith)),
        )
        | inr waiting ↦ elim (Option-cases (move_to_next_ready_frame (shortened ex))) [
          | inl none_ready ↦
              absurd (move-total (shortened ex) t'.some_size t'.main t'.main_ready none_ready)
          | inr (ex', e) ↦
              let m = move-Moved t'.some_size t'.main t'.main_ready e in
              (
                leave f f ex',
                start
                    ∙ after_swap-waiting f moved (shortened ex) waiting e
                    ∙ ap (λ g. some (leave f g ex')) (frame_at-done t r inner),
                subst (λ y. IsValid (finish (leave f f y))) (sym m.at)
                    (leave-IsValid t r inner m.index m.in_size),
              )
        ]
      ]
        where
          t' : IsTable (shortened ex)
          t' = shortened-IsTable t r inner
