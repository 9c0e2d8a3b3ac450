-- ===== src/IoContext/Simulated.antt =====
-- A ring that completes each request at once: it shows that the laws of liburing can hold together.
use cring.Prelude.{
  ℕ, zero, suc, ◌≤◌, ◌≡◌, ◌⊎◌, refl, sym, subst, ap, ◌∙◌, List, [], ◌∷◌, ◌++◌, none, some, ℤ, pos,
  negsuc, is_neg, inl, inr, arith,
}
use cring.Prelude.{length, take, ltb, if◌then◌else◌, true, length-append, count-append}
use cring.IoContext.Uring.{Uring, UringLaws, Cqe, Same, users}

-- The tokens of the entries that are filled and not consumed, oldest first; every result is `res`.
pub record Ring : Type 0 where
  pub space : ℕ
  pub res : ℤ
  pub queue : List ℕ

abbrev pub completions : ℤ → List ℕ → List Cqe
completions res [] = []
completions res (t ∷ ts) = record { res = res; user_data = some t } ∷ completions res ts

abbrev pub drop : ℕ → List ℕ → List ℕ
drop zero ts = ts
drop (suc n) [] = []
drop (suc n) (t ∷ ts) = drop n ts

abbrev no_cqe : Cqe
no_cqe = record { res = pos 0; user_data = none }

abbrev oldest : List ℕ → Ring → ℤ × Cqe × Ring
oldest [] r = (negsuc 10, no_cqe, r)
oldest (t ∷ ts) r = (pos 0, record { res = r.res; user_data = some t }, r)

abbrev consume : Ring → ℕ → Ring
consume r n = record r { queue = drop n r.queue }

-- Its entries carry nothing: `set_data` queues the token.
abbrev pub simulated : Uring Ring (Unit {0})
simulated = record {
  zeroed = record { space = 0; res = pos 0; queue = [] };
  queue_init = λ n. (pos 0, record { space = n; res = pos 7; queue = [] });
  queue_exit = λ r. r;
  get_sqe = λ r. if ltb (length r.queue) r.space then some (tt, r) else none;
  prep = λ s op r. r;
  set_data = λ s t r. record r { queue = r.queue ++ (t ∷ []) };
  submit = λ r. (pos (length r.queue), r);
  peek_batch = λ r n. (take n (completions r.res r.queue), r);
  wait_cqe = λ r. oldest r.queue r;
  cq_advance = consume;
}

pub Same-self : (xs : List ℕ) → Same xs xs
Same-self xs = record { len = refl; often = λ a. refl }

pub Same-last : (xs : List ℕ) (t : ℕ) → Same (xs ++ (t ∷ [])) (t ∷ xs)
Same-last xs t = record {
  len = omega (arith, length-append xs (t ∷ []));
  often = λ a. omega (arith, count-append a xs (t ∷ []));
}

pub length-take_le : (n : ℕ) (xs : List Cqe) → length (take n xs) ≤ n
length-take_le zero xs = omega arith
length-take_le (suc n) [] = omega arith
length-take_le (suc n) (x ∷ xs) = omega (arith, length-take_le n xs)

pub users-take :
    (res : ℤ) (n : ℕ) (q : List ℕ)
    → users (take n (completions res q)) ++ drop (length (take n (completions res q))) q ≡ q
users-take res zero q = refl
users-take res (suc n) [] = refl
users-take res (suc n) (t ∷ q) = ap (λ ts. t ∷ ts) (users-take res n q)

pub oldest-sign :
    (q : List ℕ) (r : Ring) → ((oldest q r).0 ≡ pos 0) ⊎ (is_neg (oldest q r).0 ≡ true)
oldest-sign [] r = inr refl
oldest-sign (t ∷ q) r = inl refl

pub oldest-ring : (q : List ℕ) (r : Ring) → (oldest q r).2 ≡ r
oldest-ring [] r = refl
oldest-ring (t ∷ q) r = refl

pub oldest-used :
    (q : List ℕ) (r : Ring) → (oldest q r).0 ≡ pos 0 → users ((oldest q r).1 ∷ []) ++ drop 1 q ≡ q
oldest-used [] r e = absurd (cc)
oldest-used (t ∷ q) r e = refl

pub Same-of_eq : {xs ys : List ℕ} → xs ≡ ys → Same xs ys
Same-of_eq {xs} e = subst (Same xs) e (Same-self xs)

pub get_sqe-same : (r r' : Ring) (s : Unit {0}) → simulated.get_sqe r ≡ some (s, r') → r ≡ r'
get_sqe-same r r' s e = ground arith

-- The laws hold of it together.
unfoldable pub simulated-UringLaws : UringLaws simulated
simulated-UringLaws = record {
  inflight = λ r. r.queue;
  fresh = λ n e. refl;
  filled = λ r r' s op t e.
      subst (λ x. Same (x.queue ++ (t ∷ [])) (t ∷ r.queue)) (get_sqe-same r r' s e)
        (Same-last r.queue t);
  submitted = λ r. Same-self r.queue;
  peeked = λ r n. Same-self r.queue;
  peeked_le = λ r n. length-take_le n (completions r.res r.queue);
  waited = λ r. Same-of_eq (ap (λ x. x.queue) (oldest-ring r.queue r));
  waited_sign = λ r. oldest-sign r.queue r;
  consumed_batch = λ r n. Same-of_eq (users-take r.res n r.queue);
  consumed_one = λ r e. Same-of_eq (
      ap (λ (x : Ring). users ((oldest r.queue r).1 ∷ []) ++ drop 1 x.queue) (oldest-ring r.queue r)
      ∙ oldest-used r.queue r e
      ∙ sym (ap (λ (x : Ring). x.queue) (oldest-ring r.queue r)));
}
