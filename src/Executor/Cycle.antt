-- ===== src/Executor/Cycle.antt =====
-- lib/Executor.h: the search for the next ready frame ends, at the first one in cyclic order.
use cring.Prelude.{
  ℕ, zero, suc, ◌+◌, ◌-◌, ◌%◌, ◌≤◌, ◌<◌, ◌≡◌, refl, sym, subst, ap, ◌∙◌, Option, none, some, true,
  false, arith,
}
use cring.Prelude.{get_or, Bool-cases, inl, inr, dec_lt}
use native.Mathlib.Nat.{mod-add-mod, mod-lt, mod-eq_of_lt, add-mod_right}
use cring.Executor.Frame.{Executor, get_current_frame}
use cring.Executor.Schedule.{is_ready_at, advance, next_ready, move_to_next_ready_frame}

-- Some number of rounds brings the loop to the frame at index `i`.
pub reach_index : (c s i : ℕ) → i < s → (d : ℕ) × (0 < d) × (d ≤ s) × ((c + d) % s ≡ i)
reach_index c s i lt = elim (dec_lt (c % s) i) [
  | yes below ↦
      let e : c % s + (i - c % s) ≡ i = omega arith in
      (
        i - c % s,
        omega arith,
        omega arith,
        by_mod (i - c % s) (ap (λ n. n % s) e ∙ mod-eq_of_lt lt),
      )
  | no above ↦
      let e : c % s + (i + s - c % s) ≡ i + s = omega (arith, rest) in
      (
        i + s - c % s,
        omega (arith, rest),
        omega arith,
        by_mod (i + s - c % s) (ap (λ n. n % s) e ∙ add-mod_right i s ∙ mod-eq_of_lt lt),
      )
]
  where
    rest : c % s < s
    rest = mod-lt c (omega arith)

    by_mod : (d : ℕ) → (c % s + d) % s ≡ i → (c + d) % s ≡ i
    by_mod d e = sym (mod-add-mod c s d) ∙ e

module _ {R : Type 0} where
  -- The frame that is `k` places behind the current one, going round at `size`.
  abbrev pub ahead : Executor R → ℕ → Executor R
  ahead ex k = record ex { current = (ex.current + k) % ex.size }

  -- `found` is the executor at the first ready frame behind the current one.
  pub record IsNextReady (ex found : Executor R) : Type 0 where
    pub distance : ℕ
    pub near : (0 < distance) × (distance ≤ ex.size)
    pub at : found ≡ ahead ex distance
    pub ready : is_ready_at found (get_current_frame found) ≡ true
    pub first :
        (k : ℕ) → 0 < k → k < distance → is_ready_at ex (get_current_frame (ahead ex k)) ≡ false

  ahead-advance : (ex : Executor R) (k : ℕ) → ahead (advance ex) k ≡ ahead ex (suc k)
  ahead-advance ex k =
      ap (λ c. record ex { current = c }) (regroup ∙ ap (λ n. n % ex.size) (omega arith))
    where
      regroup : ((ex.current + 1) % ex.size + k) % ex.size ≡ (ex.current + 1 + k) % ex.size
      regroup = mod-add-mod (ex.current + 1) ex.size k

  advance-ahead : (ex : Executor R) → advance ex ≡ ahead ex 1
  advance-ahead ex = refl

  -- What `fuel` rounds of the loop find.
  data Found (fuel : ℕ) (ex : Executor R) : Option (Executor R) → Type 0 where
    nothing :
        ((k : ℕ) → 0 < k → k ≤ fuel → is_ready_at ex (get_current_frame (ahead ex k)) ≡ false)
        → Found fuel ex none
    after :
        (d : ℕ)
        → 0 < d
        → d ≤ fuel
        → is_ready_at ex (get_current_frame (ahead ex d)) ≡ true
        → ((k : ℕ) → 0 < k → k < d → is_ready_at ex (get_current_frame (ahead ex k)) ≡ false)
        → Found fuel ex (some (ahead ex d))

  not_before :
      (ex : Executor R) (k : ℕ)
      → is_ready_at ex (get_current_frame (ahead ex 1)) ≡ false
      → ((j : ℕ)
          → 0 < j
          → suc j ≡ k
          → is_ready_at ex (get_current_frame (ahead (advance ex) j)) ≡ false)
      → 0 < k
      → is_ready_at ex (get_current_frame (ahead ex k)) ≡ false
  not_before ex zero a b lt = elim lt [ ]
  not_before ex (suc zero) a b lt = a
  not_before ex (suc (suc k)) a b lt =
      subst (λ e. is_ready_at ex (get_current_frame e) ≡ false) (ahead-advance ex (suc k))
        (b (suc k) (omega arith) refl)

  step-Found :
      (fuel : ℕ) (ex : Executor R) (o : Option (Executor R))
      → is_ready_at ex (get_current_frame (ahead ex 1)) ≡ false
      → Found fuel (advance ex) o
      → Found (suc fuel) ex o
  step-Found fuel ex none a (nothing f) =
      nothing (λ k lt le. not_before ex k a (λ j lt' e. f j lt' (omega arith)) lt)
  step-Found fuel ex (some y) a (after d lt le r f) =
      subst (λ e. Found (suc fuel) ex (some e)) (sym (ahead-advance ex d))
        (after (suc d) (omega arith) (omega arith)
          (subst (λ e. is_ready_at ex (get_current_frame e) ≡ true) (ahead-advance ex d) r)
          (λ k lt' le'. not_before ex k a (λ j lt'' e. f j lt'' (omega arith)) lt'))

  next_ready-Found : (fuel : ℕ) (ex : Executor R) → Found fuel ex (next_ready fuel ex)
  unfolding next_ready
  next_ready-Found zero ex = nothing (λ k lt le. absurd (omega arith))
  next_ready-Found (suc fuel) ex =
      elim (Bool-cases (is_ready_at ex (get_current_frame (ahead ex 1)))) [
        | inl r ↦ rw r (after 1 (omega arith) (omega arith) r (λ k lt le. absurd (omega arith)))
        | inr n ↦ rw n (step-Found fuel ex _ n (next_ready-Found fuel (advance ex)))
      ]

  Found-ready :
      (ex : Executor R) (o : Option (Executor R))
      → Found ex.size ex o
      → (i : ℕ) → i < ex.size
      → is_ready_at ex (get_or ex.frames i 0) ≡ true
      → (found : Executor R) × (o ≡ some found) × IsNextReady ex found
  Found-ready ex none (nothing f) i lt r = absurd (clash (reach_index ex.current ex.size i lt))
    where
      clash : (d : ℕ) × (0 < d) × (d ≤ ex.size) × ((ex.current + d) % ex.size ≡ i) → ⊥
      clash (d, pos, le, e) =
          let not_ready : is_ready_at ex (get_or ex.frames i 0) ≡ false =
            subst (λ j. is_ready_at ex (get_or ex.frames j 0) ≡ false) e
              (unfold get_current_frame in f d pos le) in
          cc
  Found-ready ex (some y) (after d lt le r first) i _ _ = (
    ahead ex d,
    refl,
    record { distance = d; near = (lt, le); at = refl; ready = r; first = first },
  )

  -- If some scheduled frame is ready, `move_to_next_ready_frame` ends, at the first ready frame behind
  -- the current one in cyclic order.
  pub move_to_next_ready_frame-IsNextReady :
      (ex : Executor R) (i : ℕ)
      → i < ex.size
      → is_ready_at ex (get_or ex.frames i 0) ≡ true
      → (found : Executor R) × (move_to_next_ready_frame ex ≡ some found) × IsNextReady ex found
  unfolding move_to_next_ready_frame
  move_to_next_ready_frame-IsNextReady ex i lt r =
      Found-ready ex (next_ready ex.size ex) (next_ready-Found ex.size ex) i lt r
