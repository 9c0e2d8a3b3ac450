-- ===== src/IoContext/Request.antt =====
-- src/IOContext.c: the four requests.
use cring.Prelude.{ℕ, Option, none, some, ℤ, pos, minus_one, update}
use cring.IoContext.Uring.{Uring, Operation}
use cring.IoContext.Token.{RequestType, Token, IoContext}
use cring.IoContext.Pool.{get_token, release_token}

module _ {C D R S : Type 0} (U : Uring R S) where
  -- `io_uring_prep_*`, the token's fields, and `io_uring_sqe_set_data`.
  fill_entry : IoContext C D R → S → R → ℕ → Operation → Token C D → IoContext C D R
  fill_entry ioc sqe ring t op token = record ioc {
    ring = U.set_data sqe t (U.prep sqe op ring);
    tokens = update ioc.tokens t token;
  }

  unfoldable pub request_wait :
      IoContext C D R → (ts : ℕ) → Option C → Option D → ℤ × IoContext C D R
  unfolding fill_entry
  request_wait ioc ts cb arg =
      let (token, ioc') = get_token ioc in
      elim token [
        | none ↦ (minus_one, ioc')
        | some t ↦ elim (U.get_sqe ioc'.ring) [
          | none ↦ (minus_one, release_token ioc' (some t))
          | some (sqe, ring) ↦ (
            pos 0,
            fill_entry ioc' sqe ring t (Operation.timeout ts)
                (record (ioc'.tokens t) { type = RequestType.wait; cb = cb; arg = arg }),
          )
        ]
      ]

  unfoldable pub request_accept :
      IoContext C D R → (fd : ℤ) → Option C → Option D → ℤ × IoContext C D R
  unfolding fill_entry
  request_accept ioc fd cb arg =
      let (token, ioc') = get_token ioc in
      elim token [
        | none ↦ (minus_one, ioc')
        | some t ↦ elim (U.get_sqe ioc'.ring) [
          | none ↦ (minus_one, release_token ioc' (some t))
          | some (sqe, ring) ↦ (
            pos 0,
            fill_entry ioc' sqe ring t (Operation.accept fd)
                (record { fd = fd; type = RequestType.accept; cb = cb; arg = arg }),
          )
        ]
      ]

  unfoldable pub request_read :
      IoContext C D R → (fd : ℤ) (buffer size : ℕ) → Option C → Option D → ℤ × IoContext C D R
  unfolding fill_entry
  request_read ioc fd buffer size cb arg =
      let (token, ioc') = get_token ioc in
      elim token [
        | none ↦ (minus_one, ioc')
        | some t ↦ elim (U.get_sqe ioc'.ring) [
          | none ↦ (minus_one, release_token ioc' (some t))
          | some (sqe, ring) ↦ (
            pos 0,
            fill_entry ioc' sqe ring t (Operation.read fd buffer size)
                (record { fd = fd; type = RequestType.read; cb = cb; arg = arg }),
          )
        ]
      ]

  unfoldable pub request_write :
      IoContext C D R → (fd : ℤ) (buffer size : ℕ) → Option C → Option D → ℤ × IoContext C D R
  unfolding fill_entry
  request_write ioc fd buffer size cb arg =
      let (token, ioc') = get_token ioc in
      elim token [
        | none ↦ (minus_one, ioc')
        | some t ↦ elim (U.get_sqe ioc'.ring) [
          | none ↦ (minus_one, release_token ioc' (some t))
          | some (sqe, ring) ↦ (
            pos 0,
            fill_entry ioc' sqe ring t (Operation.write fd buffer size)
                (record { fd = fd; type = RequestType.write; cb = cb; arg = arg }),
          )
        ]
      ]

  -- The request for an operation of the ring.
  unfoldable pub request : IoContext C D R → Operation → Option C → Option D → ℤ × IoContext C D R
  request ioc (Operation.timeout ts) cb arg = request_wait ioc ts cb arg
  request ioc (Operation.accept fd) cb arg = request_accept ioc fd cb arg
  request ioc (Operation.read fd buffer size) cb arg = request_read ioc fd buffer size cb arg
  request ioc (Operation.write fd buffer size) cb arg = request_write ioc fd buffer size cb arg
