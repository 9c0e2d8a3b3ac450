-- ===== src/Executor/Waiting.antt =====
-- lib/Executor.h, src/Executor.c and src/IOContext.c: from an asynchronous call to what it returns.
use cring.Prelude.{ℕ, ◌<◌, ◌≡◌, refl, some, ℤ, pos, true, arith, ==_self}
use cring.IoContext.Uring.{Uring, Operation}
use cring.IoContext.Token.{Token}
use cring.IoContext.Balance.{top}
use cring.IoContext.Pool.{release_token}
use cring.IoContext.Process.{dispatch, complete}
use cring.IoContext.Request.{request, request_wait, request_accept, request_read, request_write}
use cring.IoContext.Requests.{stamped, accepted, request-accepted}
use cring.Executor.Frame.{
  Executor, Frame, Callback, read_fn, write_fn, wait_fn, accept_fn, get_current_frame,
}
use cring.Executor.Async.{
  run_callback, wake, wake_with, async_return, async_call, async_wait, async_accept, async_read,
  async_write, await,
}

-- The callback that the asynchronous call of an operation hands over.
abbrev pub callback_of : Operation → Callback
callback_of (Operation.timeout ts) = wait_fn
callback_of (Operation.accept fd) = accept_fn
callback_of (Operation.read fd buffer size) = read_fn
callback_of (Operation.write fd buffer size) = write_fn

module _ {R S : Type 0} (U : Uring R S) where
  -- Each of the four calls is a request with that callback for the current frame, and then the end
  -- that they share.
  async_call-request :
      (stack : ℕ) (ex : Executor R) (op : Operation)
      → async_call U stack ex op ≡ (
          let (ret, ioc) =
            request U ex.ioc op (some (callback_of op)) (some (get_current_frame ex)) in
          await U stack ret (record ex { ioc = ioc }))
  unfolding async_call async_wait async_accept async_read async_write request request_wait
      request_accept request_read request_write
  async_call-request stack ex (Operation.timeout ts) = refl
  async_call-request stack ex (Operation.accept fd) = refl
  async_call-request stack ex (Operation.read fd buffer size) = refl
  async_call-request stack ex (Operation.write fd buffer size) = refl

-- What a call returns whose completion has the result `res`: a wait answers 0, the others the result.
abbrev pub answer : Operation → ℤ → ℤ
answer (Operation.timeout ts) res = pos 0
answer _ res = res

module _ {R S : Type 0} (U : Uring R S) where
  abbrev pub IsAwake : Executor R → ℕ → Operation → ℤ → Type 0
  IsAwake ex f op res = ((ex.memory f).is_ready ≡ true) × (async_return ex f op ≡ answer op res)

  dispatch-wakes :
      (op : Operation) (old : Token Callback ℕ) (f : ℕ) (res : ℤ) (ex : Executor R)
      → IsAwake
          (record ex {
            memory =
                dispatch {R = R} U run_callback
                  (stamped op (some (callback_of op)) (some f) old)
                  res
                  ex.memory;
          })
          f
          op
          res
  unfolding dispatch run_callback async_return wake wake_with
  dispatch-wakes (Operation.timeout ts) old f res ex = (ground arith, refl)
  dispatch-wakes (Operation.accept fd) old f res ex = (ground arith, ground arith)
  dispatch-wakes (Operation.read fd b n) old f res ex = (ground arith, ground arith)
  dispatch-wakes (Operation.write fd b n) old f res ex = (ground arith, ground arith)

  complete-wakes :
      (op : Operation) (f : ℕ) (res : ℤ) (ex : Executor R) {sqe : S} {ring : R}
      → 0 < ex.ioc.tail
      → U.get_sqe ex.ioc.ring ≡ some (sqe, ring)
      → (memory : ℕ → Frame)
      → let (ret, ioc) = request U ex.ioc op (some (callback_of op)) (some f) in
        let (ioc', memory') = complete U run_callback (some (top ex.ioc)) res (ioc, memory) in
        IsAwake (record ex { ioc = ioc'; memory = memory' }) f op res
  unfolding complete
  complete-wakes op f res ex {sqe} {ring} lt e memory =
      let ioc = accepted U op (some (callback_of op)) (some f) ex.ioc sqe ring in
      let after = record ex { ioc = release_token ioc (some (top ex.ioc)); memory = memory } in
      rw (request-accepted U op (some (callback_of op)) (some f) ex.ioc lt e)
        (rw (==_self (top ex.ioc)) (dispatch-wakes op (ex.ioc.tokens (top ex.ioc)) f res after))

  -- The asynchronous call of an operation is the request for the current frame with the callback of the
  -- operation, and then the end that the calls share. And when a token and an entry are free, and the
  -- operation is requested with that callback for a frame `f`, then the completion of the token that was
  -- on top, with any result and from any later memory of the frames, makes the frame ready, and the call
  -- returns 0 for a wait and the result of the completion for the others.
  pub request-complete-wakes :
      (stack : ℕ) (op : Operation) (f : ℕ) (res : ℤ) (ex : Executor R) {sqe : S} {ring : R}
      → 0 < ex.ioc.tail
      → U.get_sqe ex.ioc.ring ≡ some (sqe, ring)
      → (memory : ℕ → Frame)
      → (async_call U stack ex op ≡ (
          let (ret, ioc) =
            request U ex.ioc op (some (callback_of op)) (some (get_current_frame ex)) in
          await U stack ret (record ex { ioc = ioc })))
        × (let (ret, ioc) = request U ex.ioc op (some (callback_of op)) (some f) in
            let (ioc', memory') = complete U run_callback (some (top ex.ioc)) res (ioc, memory) in
            IsAwake (record ex { ioc = ioc'; memory = memory' }) f op res)
  request-complete-wakes stack op f res ex lt e memory =
      (async_call-request U stack ex op, complete-wakes op f res ex lt e memory)
