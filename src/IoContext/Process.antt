-- ===== src/IoContext/Process.antt =====
-- src/IOContext.c: `process`, which hands each completion to its callback and frees its token.
use cring.Prelude.{ℕ, zero, suc, List, [], ◌∷◌, Option, none, some, ℤ, pos, negsuc, is_neg}
use cring.Prelude.{◌==◌, ltb, if◌then◌else◌, length}
use cring.IoContext.Uring.{Uring, Cqe}
use cring.IoContext.Token.{Token, IoContext, unset, accept, read, write, wait}
use cring.IoContext.Pool.{release_token}

abbrev pub max_batch_size : ℕ
max_batch_size = 1024

abbrev pub clamp : ℕ → ℕ
clamp batch = if ltb max_batch_size batch then max_batch_size else batch

-- How a callback is called: `accept_cb`, `read_cb` and `write_cb` get the result, `wait_cb` does not.
pub data Call (D : Type 0) : Type 0 where
  with_result : ℤ → Option D → Call D
  plain : Option D → Call D

-- `call` is what a callback does to the caller's state `W`.
module _ {C D R S W : Type 0} (U : Uring R S) (call : Option C → Call D → W → W) where
  -- The `switch` on the token's type.
  unfoldable pub dispatch : Token C D → ℤ → W → W
  dispatch token res w = elim token.type [
    | accept ↦ call token.cb (with_result res token.arg) w
    | read ↦ call token.cb (with_result res token.arg) w
    | write ↦ call token.cb (with_result res token.arg) w
    | wait ↦ call token.cb (plain token.arg) w
    | unset ↦ w
  ]

  -- One round of the loop over the completions, for its `user_data` and `res`.
  unfoldable pub complete : Option ℕ → ℤ → IoContext C D R × W → IoContext C D R × W
  complete none res st = st
  complete (some t) res (ioc, w) = (release_token ioc (some t), dispatch (ioc.tokens t) res w)

  unfoldable pub complete_all : List Cqe → IoContext C D R × W → IoContext C D R × W
  complete_all [] st = st
  complete_all (c ∷ cs) st = complete_all cs (complete c.user_data c.res st)

  -- The loop, and `io_uring_cq_advance`.
  unfoldable pub finish_batch : List Cqe → IoContext C D R → W → ℤ × IoContext C D R × W
  finish_batch cs ioc w =
      let (ioc', w') = complete_all cs (ioc, w) in
      (pos (length cs), record ioc' { ring = U.cq_advance ioc'.ring (length cs) }, w')

  -- `io_uring_wait_cqe` has returned `ret`, and `c` if that is 0.
  unfoldable pub wait_one_result : ℤ → Cqe → IoContext C D R → W → ℤ × IoContext C D R × W
  wait_one_result (pos zero) c ioc w = finish_batch (c ∷ []) ioc w
  wait_one_result (pos (suc e)) c ioc w = (pos (suc e), ioc, w)
  wait_one_result (negsuc e) c ioc w = (negsuc e, ioc, w)

  unfoldable pub wait_one : IoContext C D R → W → ℤ × IoContext C D R × W
  unfolding wait_one_result
  wait_one ioc w =
      let (ret, c, ring) = U.wait_cqe ioc.ring in
      wait_one_result ret c (record ioc { ring = ring }) w

  -- `io_uring_peek_batch_cqe` has found `cs`.
  unfoldable pub collected : List Cqe → IoContext C D R → W → ℤ × IoContext C D R × W
  collected [] ioc w = wait_one ioc w
  collected (c ∷ cs) ioc w = finish_batch (c ∷ cs) ioc w

  unfoldable pub collect : IoContext C D R → ℕ → W → ℤ × IoContext C D R × W
  unfolding collected
  collect ioc batch w =
      let (cs, ring) = U.peek_batch ioc.ring batch in collected cs (record ioc { ring = ring }) w

  unfoldable pub process : IoContext C D R → ℕ → W → ℤ × IoContext C D R × W
  process ioc batch w =
      if batch == 0
      then (pos 0, ioc, w)
      else let (ret, ring) = U.submit ioc.ring in
        let ioc' = record ioc { ring = ring } in
        if is_neg ret then (ret, ioc', w) else collect ioc' (clamp batch) w
