-- ===== src/IoContext/Batch.antt =====
-- src/IOContext.c: what `process` delivers, what it returns, and that it loses no token.
use cring.Prelude.{
  ℕ, zero, suc, ◌≡◌, refl, sym, subst, ◌∙◌, ap₂, List, [], ◌∷◌, ◌++◌, Option, none, some, ℤ, pos,
  negsuc, is_neg,
}
use cring.Prelude.{length, Bool-cases, ◌==◌, inl, inr}
use cring.IoContext.Uring.{Uring, UringLaws, Cqe, Same, users, with_user}
use cring.IoContext.Token.{IoContext, Token}
use cring.IoContext.Process.{
  Call, dispatch, complete, complete_all, finish_batch, wait_one, wait_one_result, collect,
  collected, process, clamp,
}
use cring.IoContext.Balance.{
  IsBalanced, IsBalanced-Same, release_token-IsBalanced, release_token-fixed,
}

module _ {C D R S W : Type 0} (U : Uring R S) (call : Option C → Call D → W → W) where
  deliver_one : (ℕ → Token C D) → Option ℕ → ℤ → W → W
  deliver_one tokens none res w = w
  deliver_one tokens (some t) res w = dispatch U call (tokens t) res w

  -- The completions in order, each handed to the callback of the token that it carries.
  unfoldable pub deliver : (ℕ → Token C D) → List Cqe → W → W
  unfolding deliver_one
  deliver tokens [] w = w
  deliver tokens (c ∷ cs) w = deliver tokens cs (deliver_one tokens c.user_data c.res w)

  -- What the loop leaves alone.
  record Kept (before after : IoContext C D R) : Type 0 where
    ring : after.ring ≡ before.ring
    tokens : after.tokens ≡ before.tokens
    capacity : after.capacity ≡ before.capacity

  complete-Kept :
      (u : Option ℕ) (res : ℤ) (ioc : IoContext C D R) (w : W)
      → Kept ioc (complete U call u res (ioc, w)).0
  unfolding complete
  complete-Kept none res ioc w = record { ring = refl; tokens = refl; capacity = refl }
  complete-Kept (some t) res ioc w =
      let (r, ts, cap) = release_token-fixed ioc (some t) in
      record { ring = r; tokens = ts; capacity = cap }

  complete-deliver_one :
      (u : Option ℕ) (res : ℤ) (ioc : IoContext C D R) (w : W)
      → (complete U call u res (ioc, w)).1 ≡ deliver_one ioc.tokens u res w
  unfolding complete deliver_one
  complete-deliver_one none res ioc w = refl
  complete-deliver_one (some t) res ioc w = refl

  complete-IsBalanced :
      (u : Option ℕ) (res : ℤ) (ioc : IoContext C D R) (w : W) (cs : List Cqe) (out : List ℕ)
      → IsBalanced ioc (with_user u (users cs) ++ out)
      → IsBalanced (complete U call u res (ioc, w)).0 (users cs ++ out)
  unfolding complete
  complete-IsBalanced none res ioc w cs out b = b
  complete-IsBalanced (some t) res ioc w cs out b = release_token-IsBalanced b

  complete_all-Kept :
      (cs : List Cqe) (ioc : IoContext C D R) (w : W) → Kept ioc (complete_all U call cs (ioc, w)).0
  unfolding complete_all
  complete_all-Kept [] ioc w = record { ring = refl; tokens = refl; capacity = refl }
  complete_all-Kept (c ∷ cs) ioc w =
      let (ioc', w') = complete U call c.user_data c.res (ioc, w) in
      let k = complete-Kept c.user_data c.res ioc w in
      let ks = complete_all-Kept cs ioc' w' in
      record {
        ring = ks.ring ∙ k.ring;
        tokens = ks.tokens ∙ k.tokens;
        capacity = ks.capacity ∙ k.capacity;
      }

  pub complete_all-deliver :
      (cs : List Cqe) (ioc : IoContext C D R) (w : W)
      → (complete_all U call cs (ioc, w)).1 ≡ deliver ioc.tokens cs w
  unfolding complete_all deliver
  complete_all-deliver [] ioc w = refl
  complete_all-deliver (c ∷ cs) ioc w =
      let (ioc', w') = complete U call c.user_data c.res (ioc, w) in
      complete_all-deliver cs ioc' w'
      ∙ ap₂ (λ ts v. deliver ts cs v) (complete-Kept c.user_data c.res ioc w).tokens
          (complete-deliver_one c.user_data c.res ioc w)

  complete_all-IsBalanced :
      (cs : List Cqe) (ioc : IoContext C D R) (w : W) (out : List ℕ)
      → IsBalanced ioc (users cs ++ out)
      → IsBalanced (complete_all U call cs (ioc, w)).0 out
  unfolding complete_all
  complete_all-IsBalanced [] ioc w out b = b
  complete_all-IsBalanced (c ∷ cs) ioc w out b =
      let (ioc', w') = complete U call c.user_data c.res (ioc, w) in
      complete_all-IsBalanced cs ioc' w' out (complete-IsBalanced c.user_data c.res ioc w cs out b)

  -- `finish_batch` on the completions `cs` of a ring whose consumption gives their tokens back.
  finish_batch-IsBalanced :
      (L : UringLaws U) (cs : List Cqe) (ioc : IoContext C D R) (w : W)
      → Same (users cs ++ L.inflight (U.cq_advance ioc.ring (length cs))) (L.inflight ioc.ring)
      → IsBalanced ioc (L.inflight ioc.ring)
      → let (ret, ioc', w') = finish_batch U call cs ioc w in IsBalanced ioc' (L.inflight ioc'.ring)
  unfolding finish_batch
  finish_batch-IsBalanced L cs ioc w s b =
      let p = complete_all-IsBalanced cs ioc w _ (IsBalanced-Same s b) in
      let e = (complete_all-Kept cs ioc w).ring in
      let q =
        subst
          (λ r.
            IsBalanced (complete_all U call cs (ioc, w)).0
              (L.inflight (U.cq_advance r (length cs))))
          (sym e) p in
      record { table = q.table; room = q.room; once = q.once }

  module _ (L : UringLaws U) where
    IsBalanced-ring :
        (ioc : IoContext C D R) (ring : R)
        → Same (L.inflight ring) (L.inflight ioc.ring)
        → IsBalanced ioc (L.inflight ioc.ring)
        → IsBalanced (record ioc { ring = ring }) (L.inflight ring)
    IsBalanced-ring ioc ring s b =
        let p = IsBalanced-Same s b in record { table = p.table; room = p.room; once = p.once }

    wait_one-IsBalanced :
        (ioc : IoContext C D R) (w : W)
        → IsBalanced ioc (L.inflight ioc.ring)
        → let (ret, ioc', w') = wait_one U call ioc w in IsBalanced ioc' (L.inflight ioc'.ring)
    unfolding wait_one
    wait_one-IsBalanced ioc w b = by_result (U.wait_cqe ioc.ring).0 refl
      where
        waited : IoContext C D R
        waited = record ioc { ring = (U.wait_cqe ioc.ring).2 }

        still : IsBalanced waited (L.inflight waited.ring)
        still = IsBalanced-ring ioc waited.ring (L.waited ioc.ring) b

        by_result :
            (e : ℤ)
            → (U.wait_cqe ioc.ring).0 ≡ e
            → let (ret, ioc', w') = wait_one_result U call e (U.wait_cqe ioc.ring).1 waited w in
              IsBalanced ioc' (L.inflight ioc'.ring)
        by_result (pos zero) e =
            finish_batch-IsBalanced L ((U.wait_cqe ioc.ring).1 ∷ []) waited w
              (L.consumed_one ioc.ring e) still
        by_result (pos (suc n)) e = still
        by_result (negsuc n) e = still

    collect-IsBalanced :
        (ioc : IoContext C D R) (batch : ℕ) (w : W)
        → IsBalanced ioc (L.inflight ioc.ring)
        → let (ret, ioc', w') = collect U call ioc batch w in IsBalanced ioc' (L.inflight ioc'.ring)
    unfolding collect
    collect-IsBalanced ioc batch w b =
        by_batch (U.peek_batch ioc.ring batch).0 (L.consumed_batch ioc.ring batch)
      where
        peeked : IoContext C D R
        peeked = record ioc { ring = (U.peek_batch ioc.ring batch).1 }

        still : IsBalanced peeked (L.inflight peeked.ring)
        still = IsBalanced-ring ioc peeked.ring (L.peeked ioc.ring batch) b

        by_batch :
            (cs : List Cqe)
            → Same
                (users cs ++ L.inflight (U.cq_advance peeked.ring (length cs)))
                (L.inflight peeked.ring)
            → let (ret, ioc', w') = collected U call cs peeked w in
              IsBalanced ioc' (L.inflight ioc'.ring)
        by_batch [] s = wait_one-IsBalanced peeked w still
        by_batch (c ∷ cs) s = finish_batch-IsBalanced L (c ∷ cs) peeked w s still

    -- On a ring with the laws of io_uring, `process` keeps every token either in the pool or in flight,
    -- once, whatever it returns, if it was so before.
    pub process-IsBalanced :
        (ioc : IoContext C D R) (batch : ℕ) (w : W)
        → IsBalanced ioc (L.inflight ioc.ring)
        → let (ret, ioc', w') = process U call ioc batch w in IsBalanced ioc' (L.inflight ioc'.ring)
    unfolding process
    process-IsBalanced ioc batch w b = elim (Bool-cases (batch == 0)) [
      | inl none_asked ↦ rw none_asked b
      | inr asked ↦ elim (Bool-cases (is_neg (U.submit ioc.ring).0)) [
        | inl failed ↦ rw (asked, failed) still
        | inr sent ↦ rw (asked, sent) (collect-IsBalanced submitted (clamp batch) w still)
      ]
    ]
      where
        submitted : IoContext C D R
        submitted = record ioc { ring = (U.submit ioc.ring).1 }

        still : IsBalanced submitted (L.inflight submitted.ring)
        still = IsBalanced-ring ioc submitted.ring (L.submitted ioc.ring) b
