-- ===== src/IoContext/Requests.antt =====
-- src/IOContext.c: what the four requests do, on every branch.
use cring.Prelude.{ℕ, ◌<◌, ◌≡◌, List, Option, none, some, arith, ℤ, pos, minus_one}
use cring.Prelude.{update, dec_lt, Option-cases, inl, inr}
use cring.IoContext.Uring.{Uring, UringLaws, Operation}
use cring.IoContext.Token.{IoContext, Token, RequestType}
use cring.IoContext.Pool.{release_token}
use cring.IoContext.Request.{request, request_wait, request_accept, request_read, request_write}
use cring.IoContext.Balance.{IsBalanced, top, popped, get_token-empty, get_token-pos}
use cring.IoContext.Balance.{release_token-popped, pop-IsBalanced, IsBalanced-Same}

module _ {C D : Type 0} where
  -- What a request leaves in its token; `request_wait` does not write the descriptor.
  abbrev pub stamped : Operation → Option C → Option D → Token C D → Token C D
  stamped (Operation.timeout ts) cb arg old = record old {
    type = RequestType.wait;
    cb = cb;
    arg = arg;
  }
  stamped (Operation.accept fd) cb arg old = record {
    fd = fd;
    type = RequestType.accept;
    cb = cb;
    arg = arg;
  }
  stamped (Operation.read fd b n) cb arg old = record {
    fd = fd;
    type = RequestType.read;
    cb = cb;
    arg = arg;
  }
  stamped (Operation.write fd b n) cb arg old = record {
    fd = fd;
    type = RequestType.write;
    cb = cb;
    arg = arg;
  }

-- The context once the entry `sqe` carries the token on top.
abbrev pub accepted :
    {C D R S : Type 0}
    → Uring R S
    → Operation
    → Option C
    → Option D
    → IoContext C D R
    → S
    → R
    → IoContext C D R
accepted U op cb arg ioc sqe ring = record (popped ioc) {
  ring = U.set_data sqe (top ioc) (U.prep sqe op ring);
  tokens = update ioc.tokens (top ioc) (stamped op cb arg (ioc.tokens (top ioc)));
}

module _ {C D R S : Type 0} (U : Uring R S) where
  pub request-empty :
      (op : Operation) (cb : Option C) (arg : Option D) (ioc : IoContext C D R)
      → ioc.tail ≡ 0
      → request U ioc op cb arg ≡ (minus_one, ioc)
  unfolding request request_wait request_accept request_read request_write
  request-empty (Operation.timeout ts) cb arg ioc e = ground (arith, get_token-empty ioc e)
  request-empty _ cb arg ioc e = ground (arith, get_token-empty ioc e)

  pub request-refused :
      (op : Operation) (cb : Option C) (arg : Option D) (ioc : IoContext C D R)
      → 0 < ioc.tail
      → U.get_sqe ioc.ring ≡ none
      → request U ioc op cb arg ≡ (minus_one, release_token (popped ioc) (some (top ioc)))
  unfolding request request_wait request_accept request_read request_write
  request-refused (Operation.timeout ts) cb arg ioc lt e = ground (arith, get_token-pos ioc lt)
  request-refused _ cb arg ioc lt e = ground (arith, get_token-pos ioc lt)

  pub request-accepted :
      (op : Operation) (cb : Option C) (arg : Option D) (ioc : IoContext C D R) {sqe : S} {ring : R}
      → 0 < ioc.tail
      → U.get_sqe ioc.ring ≡ some (sqe, ring)
      → request U ioc op cb arg ≡ (pos 0, accepted U op cb arg ioc sqe ring)
  unfolding request request_wait request_accept request_read request_write
  request-accepted (Operation.timeout ts) cb arg ioc lt e = ground (arith, get_token-pos ioc lt)
  request-accepted _ cb arg ioc lt e = ground (arith, get_token-pos ioc lt)

  -- The three ways a request can go.
  pub data Outcome (op : Operation) (cb : Option C) (arg : Option D) (ioc : IoContext C D R)
      : ℤ × IoContext C D R → Type 0 where
    no_token : ioc.tail ≡ 0 → Outcome op cb arg ioc (minus_one, ioc)
    no_entry : 0 < ioc.tail → U.get_sqe ioc.ring ≡ none → Outcome op cb arg ioc (minus_one, ioc)
    queued :
        (sqe : S) (ring : R)
        → 0 < ioc.tail
        → U.get_sqe ioc.ring ≡ some (sqe, ring)
        → Outcome op cb arg ioc (pos 0, accepted U op cb arg ioc sqe ring)

  -- Each request, on a balanced context, either returns -1 and leaves the context as it was (no token
  -- or no entry), or returns 0 with the token on top stamped and carried by a new entry.
  pub request-Outcome :
      (op : Operation) (cb : Option C) (arg : Option D) {ioc : IoContext C D R} {out : List ℕ}
      → IsBalanced ioc out
      → Outcome op cb arg ioc (request U ioc op cb arg)
  request-Outcome op cb arg {ioc} b = elim (dec_lt 0 ioc.tail) [
    | yes lt ↦ elim (Option-cases (U.get_sqe ioc.ring)) [
      | inl e ↦ rw (request-refused op cb arg ioc lt e, release_token-popped b lt) (no_entry lt e)
      | inr ((sqe, ring), e) ↦ rw (request-accepted op cb arg ioc lt e) (queued sqe ring lt e)
    ]
    | no ge ↦ let e : ioc.tail ≡ 0 = omega arith in rw (request-empty op cb arg ioc e) (no_token e)
  ]

  module _ (L : UringLaws U) where
    Outcome-IsBalanced :
        (op : Operation) {cb : Option C} {arg : Option D} {ioc : IoContext C D R}
        {r : ℤ × IoContext C D R}
        → Outcome op cb arg ioc r
        → IsBalanced ioc (L.inflight ioc.ring)
        → IsBalanced r.1 (L.inflight r.1.ring)
    Outcome-IsBalanced op (no_token e) b = b
    Outcome-IsBalanced op (no_entry lt e) b = b
    Outcome-IsBalanced op {ioc = ioc} (queued sqe ring lt e) b =
        let p = IsBalanced-Same (L.filled ioc.ring ring sqe op (top ioc) e) (pop-IsBalanced b lt) in
        record { table = p.table; room = p.room; once = p.once }

    -- On a ring with the laws of io_uring, a request keeps every token either in the pool or in flight,
    -- once, if it was so before.
    pub request-IsBalanced :
        (op : Operation) (cb : Option C) (arg : Option D) {ioc : IoContext C D R}
        → IsBalanced ioc (L.inflight ioc.ring)
        → let (ret, ioc') = request U ioc op cb arg in IsBalanced ioc' (L.inflight ioc'.ring)
    request-IsBalanced op cb arg b = Outcome-IsBalanced op (request-Outcome op cb arg b) b
