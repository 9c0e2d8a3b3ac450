-- ===== src/IoContext/Callbacks.antt =====
-- src/IOContext.c: what every callback keeps, `process` keeps.
use cring.Prelude.{
  ℕ, zero, suc, List, [], ◌∷◌, Option, none, some, ℤ, pos, negsuc, is_neg, Bool-cases, inl, inr,
  ◌==◌,
}
use cring.IoContext.Uring.{Uring, Cqe}
use cring.IoContext.Token.{IoContext, RequestType}
use cring.IoContext.Process.{
  Call, dispatch, complete, complete_all, finish_batch, wait_one, wait_one_result, collect,
  collected, process, clamp,
}

module _ {C D R S W : Type 0} (U : Uring R S) (call : Option C → Call D → W → W) (P : W → Type 0)
    (keeps : (cb : Option C) (c : Call D) (w : W) → P w → P (call cb c w)) where
  by_type :
      (ty : RequestType) (fd : ℤ) (cb : Option C) (arg : Option D) (res : ℤ) (w : W)
      → P w
      → P (dispatch U call (record { fd = fd; type = ty; cb = cb; arg = arg }) res w)
  unfolding dispatch
  by_type RequestType.unset fd cb arg res w p = p
  by_type RequestType.accept fd cb arg res w p = keeps cb _ w p
  by_type RequestType.read fd cb arg res w p = keeps cb _ w p
  by_type RequestType.write fd cb arg res w p = keeps cb _ w p
  by_type RequestType.wait fd cb arg res w p = keeps cb _ w p

  complete-keeps :
      (u : Option ℕ) (res : ℤ) (ioc : IoContext C D R) (w : W)
      → P w
      → P (complete U call u res (ioc, w)).1
  unfolding complete
  complete-keeps none res ioc w p = p
  complete-keeps (some t) res ioc w p =
      by_type (ioc.tokens t).type (ioc.tokens t).fd (ioc.tokens t).cb (ioc.tokens t).arg res w p

  complete_all-keeps :
      (cs : List Cqe) (ioc : IoContext C D R) (w : W) → P w → P (complete_all U call cs (ioc, w)).1
  unfolding complete_all
  complete_all-keeps [] ioc w p = p
  complete_all-keeps (c ∷ cs) ioc w p =
      let (ioc', w') = complete U call c.user_data c.res (ioc, w) in
      complete_all-keeps cs ioc' w' (complete-keeps c.user_data c.res ioc w p)

  finish_batch-keeps :
      (cs : List Cqe) (ioc : IoContext C D R) (w : W) → P w → P (finish_batch U call cs ioc w).2
  unfolding finish_batch
  finish_batch-keeps cs ioc w p = complete_all-keeps cs ioc w p

  wait_one_result-keeps :
      (e : ℤ) (c : Cqe) (ioc : IoContext C D R) (w : W)
      → P w
      → P (wait_one_result U call e c ioc w).2
  unfolding wait_one_result
  wait_one_result-keeps (pos zero) c ioc w p = finish_batch-keeps (c ∷ []) ioc w p
  wait_one_result-keeps (pos (suc e)) c ioc w p = p
  wait_one_result-keeps (negsuc e) c ioc w p = p

  collected-keeps :
      (cs : List Cqe) (ioc : IoContext C D R) (w : W) → P w → P (collected U call cs ioc w).2
  unfolding collected wait_one
  collected-keeps [] ioc w p = wait_one_result-keeps (U.wait_cqe ioc.ring).0 _ _ w p
  collected-keeps (c ∷ cs) ioc w p = finish_batch-keeps (c ∷ cs) ioc w p

  collect-keeps :
      (ioc : IoContext C D R) (batch : ℕ) (w : W) → P w → P (collect U call ioc batch w).2
  unfolding collect
  collect-keeps ioc batch w p = collected-keeps (U.peek_batch ioc.ring batch).0 _ w p

  -- A property of the caller's state that every callback keeps holds after `process`.
  pub process-keeps :
      (ioc : IoContext C D R) (batch : ℕ) (w : W) → P w → P (process U call ioc batch w).2
  unfolding process
  process-keeps ioc batch w p = elim (Bool-cases (batch == 0)) [
    | inl none_asked ↦ rw none_asked p
    | inr asked ↦ elim (Bool-cases (is_neg (U.submit ioc.ring).0)) [
      | inl failed ↦ rw (asked, failed) p
      | inr sent ↦
          rw (asked, sent)
            (collect-keeps (record ioc { ring = (U.submit ioc.ring).1 }) (clamp batch) w p)
    ]
  ]
