-- ===== src/IoContext/Answer.antt =====
-- src/IOContext.c: what `process` delivers and returns.
use cring.Prelude.{
  ℕ, zero, suc, ◌≤◌, ◌<◌, ◌≡◌, refl, List, [], ◌∷◌, Option, arith, ℤ, pos, negsuc, is_neg, min,
}
use cring.Prelude.{length, Bool-cases, ◌==◌, inl, inr, true, ◌⊎◌}
use cring.IoContext.Uring.{Uring, UringLaws, Cqe}
use cring.IoContext.Token.{IoContext, Token}
use cring.IoContext.Process.{
  Call, finish_batch, wait_one, wait_one_result, collect, collected, process, clamp, max_batch_size,
}
use cring.IoContext.Batch.{deliver, complete_all-deliver}

module _ {R S : Type 0} (U : Uring R S) where
  -- What the loop of `process` runs over: the completions that it peeks, or the one that it waits for.
  abbrev pub found_in : List Cqe → R → List Cqe
  found_in [] ring = (U.wait_cqe ring).1 ∷ []
  found_in (c ∷ cs) ring = c ∷ cs

  abbrev pub found : {C D : Type 0} → IoContext C D R → ℕ → List Cqe
  found ioc batch =
      let (cs, ring) = U.peek_batch (U.submit ioc.ring).1 (clamp batch) in found_in cs ring

module _ {C D R S W : Type 0} (U : Uring R S) (call : Option C → Call D → W → W) where
  -- A result of at least 0 counts the completions `cs`, all delivered; an error delivers nothing.
  pub record Answer (tokens : ℕ → Token C D) (w : W) (cs : List Cqe) (most : ℕ)
      (r : ℤ × IoContext C D R × W) : Type 0 where
    pub counted :
        (n : ℕ)
        → r.0 ≡ pos n
        → (n ≡ length cs) × (0 < n) × (n ≤ most) × (r.2 ≡ deliver U call tokens cs w)
    pub failed : is_neg r.0 ≡ true → r.2 ≡ w

  finish_batch-Answer :
      (c : Cqe) (cs : List Cqe) (ioc : IoContext C D R) (w : W) (most : ℕ)
      → length (c ∷ cs) ≤ most
      → Answer ioc.tokens w (c ∷ cs) most (finish_batch U call (c ∷ cs) ioc w)
  unfolding finish_batch
  finish_batch-Answer c cs ioc w most le = record {
    counted = λ n e.
        let n_eq : n ≡ length (c ∷ cs) = cc in
        (n_eq, omega arith, omega arith, complete_all-deliver U call (c ∷ cs) ioc w);
    failed = λ e. cc;
  }

  module _ (L : UringLaws U) where
    wait_one-Answer :
        (ioc : IoContext C D R) (w : W) (most : ℕ)
        → 1 ≤ most
        → Answer ioc.tokens w ((U.wait_cqe ioc.ring).1 ∷ []) most (wait_one U call ioc w)
    unfolding wait_one
    wait_one-Answer ioc w most le = by_result (U.wait_cqe ioc.ring).0 (L.waited_sign ioc.ring)
      where
        waited : IoContext C D R
        waited = record ioc { ring = (U.wait_cqe ioc.ring).2 }

        by_result :
            (e : ℤ)
            → (e ≡ pos 0) ⊎ (is_neg e ≡ true)
            → Answer ioc.tokens w
                ((U.wait_cqe ioc.ring).1 ∷ [])
                most
                (wait_one_result U call e (U.wait_cqe ioc.ring).1 waited w)
        by_result (pos zero) s = finish_batch-Answer (U.wait_cqe ioc.ring).1 [] waited w most le
        by_result (pos (suc e)) (inl s) = absurd (cc)
        by_result (pos (suc e)) (inr s) = absurd (cc)
        by_result (negsuc e) s = record { counted = λ n s'. absurd (cc); failed = λ s'. refl }

    collect-Answer :
        (ioc : IoContext C D R) (batch : ℕ) (w : W)
        → 0 < batch
        → let (cs, ring) = U.peek_batch ioc.ring batch in
          Answer ioc.tokens w (found_in U cs ring) batch (collect U call ioc batch w)
    unfolding collect
    collect-Answer ioc batch w lt =
        by_batch (U.peek_batch ioc.ring batch).0 (L.peeked_le ioc.ring batch)
      where
        peeked : IoContext C D R
        peeked = record ioc { ring = (U.peek_batch ioc.ring batch).1 }

        by_batch :
            (cs : List Cqe)
            → length cs ≤ batch
            → Answer ioc.tokens w (found_in U cs peeked.ring) batch (collected U call cs peeked w)
        by_batch [] le = wait_one-Answer peeked w batch lt
        by_batch (c ∷ cs) le = finish_batch-Answer c cs peeked w batch le

    process-Answer :
        (ioc : IoContext C D R) (batch : ℕ) (w : W)
        → 0 < batch
        → Answer ioc.tokens w
            (found U ioc batch)
            (min batch max_batch_size)
            (process U call ioc batch w)
    unfolding process
    process-Answer ioc batch w lt = elim (Bool-cases (batch == 0)) [
      | inl none_asked ↦ absurd (ground arith)
      | inr asked ↦ elim (Bool-cases (is_neg (U.submit ioc.ring).0)) [
        | inl failed ↦
            rw (asked, failed) (record { counted = λ n e. absurd (cc); failed = λ e. refl })
        | inr sent ↦
            rw (asked, sent, ← clamp_min) (collect-Answer submitted (clamp batch) w (ground arith))
      ]
    ]
      where
        submitted : IoContext C D R
        submitted = record ioc { ring = (U.submit ioc.ring).1 }

        clamp_min : clamp batch ≡ min batch max_batch_size
        clamp_min = ground arith

    -- On a ring with the laws of io_uring and with a batch that is not 0, a result of `process` that is
    -- at least 0 is the number of completions found, at least 1 and at most the smaller of the batch
    -- and 1024, and exactly these completions have gone to the callbacks of their tokens, in order.
    pub process-deliver :
        (ioc : IoContext C D R) (batch : ℕ) (w : W) {n : ℕ}
        → 0 < batch
        → (process U call ioc batch w).0 ≡ pos n
        → (n ≡ length (found U ioc batch))
          × (0 < n)
          × (n ≤ min batch max_batch_size)
          × ((process U call ioc batch w).2 ≡ deliver U call ioc.tokens (found U ioc batch) w)
    process-deliver ioc batch w {n} lt e = (process-Answer ioc batch w lt).counted n e

    -- On a ring with the laws of io_uring and with a batch that is not 0, when `process` returns an
    -- error no callback has run.
    pub process_failed :
        (ioc : IoContext C D R) (batch : ℕ) (w : W)
        → 0 < batch
        → is_neg (process U call ioc batch w).0 ≡ true
        → (process U call ioc batch w).2 ≡ w
    process_failed ioc batch w lt e = (process-Answer ioc batch w lt).failed e
