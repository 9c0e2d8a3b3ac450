-- ===== src/IoContext/Uring.antt =====
-- liburing as the context uses it: the calls are a parameter, and so is the kernel behind them.
use cring.Prelude.{
  ◌⊎◌, true, ℕ, ◌≤◌, ◌≡◌, List, [], ◌∷◌, ◌++◌, Option, none, some, ℤ, pos, is_neg, length,
}
use cring.Prelude.{count, false}

-- What the `io_uring_prep_*` calls of the source write into an entry. Descriptors are C ints;
-- buffers and `struct __kernel_timespec` are passed on by address.
pub data Operation : Type 0 where
  timeout : (ts : ℕ) → Operation
  accept : (fd : ℤ) → Operation
  read : (fd : ℤ) (buffer size : ℕ) → Operation
  write : (fd : ℤ) (buffer size : ℕ) → Operation

-- `struct io_uring_cqe`: `user_data` is the address of a token, or NULL.
pub record Cqe : Type 0 where
  pub res : ℤ
  pub user_data : Option ℕ

-- A ring of type `R` hands out entries of type `S`.
pub record Uring (R S : Type 0) : Type 0 where
  pub zeroed : R
  pub queue_init : ℕ → ℤ × R
  pub queue_exit : R → R
  pub get_sqe : R → Option (S × R)
  pub prep : S → Operation → R → R
  pub set_data : S → ℕ → R → R
  pub submit : R → ℤ × R
  pub peek_batch : R → ℕ → List Cqe × R
  pub wait_cqe : R → ℤ × Cqe × R
  pub cq_advance : R → ℕ → R

abbrev pub with_user : Option ℕ → List ℕ → List ℕ
with_user none ts = ts
with_user (some t) ts = t ∷ ts

-- The tokens that a row of completions carries.
abbrev pub users : List Cqe → List ℕ
users [] = []
users (c ∷ cs) = with_user c.user_data (users cs)

-- The same items, as often.
pub record Same (xs ys : List ℕ) : Type 0 where
  pub len : length xs ≡ length ys
  pub often : (a : ℕ) → count a xs ≡ count a ys

-- What io_uring promises: an entry's `user_data` comes back in one completion, and no other does.
-- `inflight r` lists the tokens of the entries that are filled and whose completion is not consumed.
pub record UringLaws {R S : Type 0} (U : Uring R S) : Type 0 where
  pub inflight : R → List ℕ
  pub fresh : (n : ℕ) → is_neg (U.queue_init n).0 ≡ false → inflight (U.queue_init n).1 ≡ []
  pub filled :
      (r r' : R) (s : S) (op : Operation) (t : ℕ)
      → U.get_sqe r ≡ some (s, r')
      → Same (inflight (U.set_data s t (U.prep s op r'))) (t ∷ inflight r)
  pub submitted : (r : R) → Same (inflight (U.submit r).1) (inflight r)
  pub peeked : (r : R) (n : ℕ) → Same (inflight (U.peek_batch r n).1) (inflight r)
  pub peeked_le : (r : R) (n : ℕ) → length (U.peek_batch r n).0 ≤ n
  pub waited : (r : R) → Same (inflight (U.wait_cqe r).2) (inflight r)
  pub waited_sign : (r : R) → ((U.wait_cqe r).0 ≡ pos 0) ⊎ (is_neg (U.wait_cqe r).0 ≡ true)
  pub consumed_batch :
      (r : R) (n : ℕ)
      → let (cs, r') = U.peek_batch r n in
        Same (users cs ++ inflight (U.cq_advance r' (length cs))) (inflight r')
  pub consumed_one :
      (r : R)
      → (U.wait_cqe r).0 ≡ pos 0
      → let (e, c, r') = U.wait_cqe r in
        Same (users (c ∷ []) ++ inflight (U.cq_advance r' 1)) (inflight r')
