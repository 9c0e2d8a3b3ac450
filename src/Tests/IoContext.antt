-- ===== src/Tests/IoContext.antt =====
-- A context of two tokens on the simulated ring.
use cring.Prelude.{
  ℕ, ◌≤◌, ◌<◌, ◌≡◌, refl, arith, List, [], ◌∷◌, Option, none, some, ℤ, pos, minus_one, true, min,
  length,
}
use cring.Align.{align32pow2}
use cring.IoContext.Uring.{Operation}
use cring.IoContext.Token.{IoContext}
use cring.IoContext.Pool.{get_token, release_token}
use cring.IoContext.Request.{request, request_read, request_wait}
use cring.IoContext.Process.{
  Call, with_result, plain, process, collect, wait_one, finish_batch, complete_all, complete,
  dispatch, max_batch_size,
}
use cring.IoContext.Lifetime.{init_io_context, free_io_context, zero_context}
use cring.IoContext.Balance.{IsBalanced}
use cring.IoContext.Abstract.{BagRun, empty, PoolCall, get_one, give_back, got, gave, free_tokens}
use cring.IoContext.Refines.{IsLegal, events-BagRun}
use cring.IoContext.Requests.{Outcome, request-Outcome, request-IsBalanced, accepted}
use cring.IoContext.Batch.{deliver, process-IsBalanced}
use cring.IoContext.Answer.{found, process-deliver, process_failed}
use cring.IoContext.Ownership.{IsFresh, init_io_context-IsFresh, free_io_context-drained}
use cring.IoContext.Simulated.{Ring, simulated, simulated-UringLaws}

-- The caller's state: the results that its callbacks have seen, the last one first.
abbrev log : Option ℕ → Call ℕ → List ℤ → List ℤ
log cb (with_result n arg) seen = n ∷ seen
log cb (plain arg) seen = pos 0 ∷ seen

abbrev zeroed : IoContext ℕ ℕ Ring
zeroed = zero_context simulated ℕ ℕ

abbrev fresh : IoContext ℕ ℕ Ring
fresh = record zeroed {
  capacity = 2;
  tail = 2;
  available_tokens = 0 ∷ 1 ∷ [];
  ring = record { space = 2; res = pos 7; queue = [] };
}

made : init_io_context simulated ℕ ℕ true true (some zeroed) 1 ≡ (pos 0, some fresh)
unfolding init_io_context align32pow2
made = refl

init_io_context-IsFresh_example : IsFresh simulated simulated-UringLaws 1 fresh
init_io_context-IsFresh_example =
    init_io_context-IsFresh simulated simulated-UringLaws true true zeroed 1 (omega arith) made

fresh-IsBalanced : IsBalanced fresh []
unfolding simulated-UringLaws
fresh-IsBalanced = init_io_context-IsFresh_example.balanced

-- All tokens are taken, one comes back and is taken again, and then none is left.
abbrev calls : List PoolCall
calls = get_one ∷ get_one ∷ give_back 1 ∷ get_one ∷ get_one ∷ []

calls-IsLegal : IsLegal calls fresh []
unfolding get_token release_token
calls-IsLegal = (0 ∷ [], record { len = refl; often = λ a. omega arith }, tt)

events-BagRun_example :
    BagRun
      (got (some 1) ∷ got (some 0) ∷ gave 1 ∷ got (some 1) ∷ got none ∷ [])
      (free_tokens fresh)
      empty
unfolding get_token release_token
events-BagRun_example = events-BagRun calls fresh-IsBalanced calls-IsLegal

abbrev read_op : Operation
read_op = Operation.read (pos 5) 64 16

request-Outcome_example :
    Outcome simulated read_op
      (some 3)
      (some 9)
      fresh
      (request simulated fresh read_op (some 3) (some 9))
request-Outcome_example = request-Outcome simulated read_op (some 3) (some 9) fresh-IsBalanced

-- The context once token 1 carries a read, and once token 0 carries a timeout besides.
abbrev busy : IoContext ℕ ℕ Ring
busy = accepted simulated read_op (some 3) (some 9) fresh tt fresh.ring

abbrev drained : IoContext ℕ ℕ Ring
drained = accepted simulated (Operation.timeout 80) (some 4) (some 9) busy tt busy.ring

first_request : request simulated fresh read_op (some 3) (some 9) ≡ (pos 0, busy)
unfolding request request_read get_token
first_request = refl

second_request : request simulated busy (Operation.timeout 80) (some 4) (some 9) ≡ (pos 0, drained)
unfolding request request_wait get_token
second_request = refl

third_request : request simulated drained read_op (some 3) (some 9) ≡ (minus_one, drained)
unfolding request request_read get_token
third_request = refl

request-IsBalanced_example : IsBalanced busy (1 ∷ [])
unfolding simulated-UringLaws request request_read get_token
request-IsBalanced_example =
    request-IsBalanced simulated simulated-UringLaws read_op (some 3) (some 9) {ioc = fresh}
      fresh-IsBalanced

busy-IsBalanced : IsBalanced busy (1 ∷ [])
unfolding simulated-UringLaws request request_read get_token
busy-IsBalanced =
    request-IsBalanced simulated simulated-UringLaws read_op (some 3) (some 9) {ioc = fresh}
      fresh-IsBalanced

drained-IsBalanced : IsBalanced drained (1 ∷ 0 ∷ [])
unfolding simulated-UringLaws request request_wait get_token
drained-IsBalanced =
    request-IsBalanced simulated simulated-UringLaws (Operation.timeout 80) (some 4) (some 9)
      {ioc = busy} busy-IsBalanced

-- Both completions are delivered in order: the read's result, and the timeout without one.
drained-process : process simulated log drained 8 [] ≡ (
  pos 2,
  record drained {
    tail = 2;
    available_tokens = 1 ∷ 0 ∷ [];
    ring = record { space = 2; res = pos 7; queue = [] };
  },
  pos 0 ∷ pos 7 ∷ [],
)
unfolding process collect finish_batch complete_all complete dispatch release_token
drained-process = refl

process-IsBalanced_example : IsBalanced (process simulated log drained 8 []).1 []
unfolding simulated-UringLaws process collect finish_batch complete_all complete dispatch
    release_token
process-IsBalanced_example =
    process-IsBalanced simulated log simulated-UringLaws drained 8 [] drained-IsBalanced

process-deliver_example :
    (2 ≡ length (found simulated drained 8))
    × (0 < 2)
    × (2 ≤ min 8 max_batch_size)
    × ((process simulated log drained 8 []).2
        ≡ deliver simulated log drained.tokens (found simulated drained 8) [])
unfolding process collect finish_batch complete_all complete dispatch release_token
process-deliver_example =
    process-deliver simulated log simulated-UringLaws drained 8 [] (omega arith) refl

process_failed_example : (process simulated log fresh 8 (pos 1 ∷ [])).2 ≡ pos 1 ∷ []
unfolding process collect wait_one
process_failed_example =
    process_failed simulated log simulated-UringLaws fresh 8 (pos 1 ∷ []) (omega arith) refl

-- With both tokens out, token 1 comes back first, and its address goes to `free`.
free_io_context-drained_example :
    (free_io_context simulated ℕ ℕ (some (release_token drained (some 1)))).1 ≡ some 1
free_io_context-drained_example = free_io_context-drained simulated 1 drained-IsBalanced refl
