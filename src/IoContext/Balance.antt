-- ===== src/IoContext/Balance.antt =====
-- Every token is in the pool or in flight, once: what the calls on a context keep.
use cring.Prelude.{ℕ, ◌+◌, ◌-◌, ◌<◌, ◌≡◌, refl, ◌∙◌, List, ◌∷◌, Option, none, some, arith}
use cring.Prelude.{get_or, set, take, length, count, ltb, if◌then◌else◌}
use cring.Prelude.{length-set, count-take-pred, count-take-set, set-get_or, dec_lt, ap₂}
use cring.IoContext.Uring.{Same}
use cring.IoContext.Token.{IoContext}
use cring.IoContext.Pool.{get_token, release_token}

-- `out` lists the tokens that are not in the pool.
pub record IsBalanced {C D R : Type 0} (ioc : IoContext C D R) (out : List ℕ) : Type 0 where
  pub table : length ioc.available_tokens ≡ ioc.capacity
  pub room : ioc.tail + length out ≡ ioc.capacity
  pub once :
      (a : ℕ)
      → count a (take ioc.tail ioc.available_tokens) + count a out
        ≡ (if ltb a ioc.capacity then 1 else 0)

module _ {C D R : Type 0} where
  abbrev pub top : IoContext C D R → ℕ
  top ioc = get_or ioc.available_tokens (ioc.tail - 1) 0

  abbrev pub popped : IoContext C D R → IoContext C D R
  popped ioc = record ioc { tail = ioc.tail - 1 }

  -- Only how often a token is out matters.
  pub IsBalanced-Same :
      {ioc : IoContext C D R} {out out' : List ℕ}
      → Same out' out
      → IsBalanced ioc out
      → IsBalanced ioc out'
  IsBalanced-Same s b = record {
    table = b.table;
    room = omega (arith, b.room, s.len);
    once = λ a. omega (arith, b.once a, s.often a);
  }

  pub get_token-empty : (ioc : IoContext C D R) → ioc.tail ≡ 0 → get_token ioc ≡ (none, ioc)
  unfolding get_token
  get_token-empty ioc e = ground arith

  pub get_token-pos :
      (ioc : IoContext C D R) → 0 < ioc.tail → get_token ioc ≡ (some (top ioc), popped ioc)
  unfolding get_token
  get_token-pos ioc lt = ground arith

  release_token-null : (ioc : IoContext C D R) → release_token ioc none ≡ ioc
  unfolding release_token
  release_token-null ioc = refl

  pub release_token-room :
      (ioc : IoContext C D R) (t : ℕ)
      → ioc.tail < ioc.capacity
      → release_token ioc (some t)
        ≡ record ioc { available_tokens = set ioc.available_tokens ioc.tail t; tail = ioc.tail + 1 }
  unfolding release_token
  release_token-room ioc t lt = ground arith

  -- `get_token` on a pool that is not empty moves the token on top to those that are out.
  pub pop-IsBalanced :
      {ioc : IoContext C D R} {out : List ℕ}
      → IsBalanced ioc out
      → 0 < ioc.tail
      → IsBalanced (popped ioc) (top ioc ∷ out)
  pop-IsBalanced {ioc} b lt = record {
    table = b.table;
    room = omega (arith, b.room);
    once = λ a. omega (
      arith,
      b.once a,
      b.table,
      b.room,
      count-take-pred a ioc.available_tokens ioc.tail lt (omega (arith, b.room, b.table)),
    );
  }

  -- A token that is out finds room in the pool.
  pub release_token-IsBalanced :
      {ioc : IoContext C D R} {out : List ℕ} {t : ℕ}
      → IsBalanced ioc (t ∷ out)
      → IsBalanced (release_token ioc (some t)) out
  release_token-IsBalanced {ioc} {out} {t} b =
      rw (release_token-room ioc t (omega (arith, b.room))) (record {
        table = length-set ioc.available_tokens ioc.tail t ∙ b.table;
        room = omega (arith, b.room);
        once = λ a. omega (
          arith,
          b.once a,
          count-take-set a ioc.available_tokens ioc.tail t (omega (arith, b.room, b.table)),
        );
      })

  -- Giving the token on top straight back leaves the context as it was.
  pub release_token-popped :
      {ioc : IoContext C D R} {out : List ℕ}
      → IsBalanced ioc out
      → 0 < ioc.tail
      → release_token (popped ioc) (some (top ioc)) ≡ ioc
  release_token-popped {ioc} {out} b lt =
      release_token-room (popped ioc) (top ioc) (omega (arith, b.room))
      ∙ ap₂ (λ n xs. record ioc { tail = n; available_tokens = xs }) back
          (set-get_or ioc.available_tokens (ioc.tail - 1) 0)
    where
      back : ioc.tail - 1 + 1 ≡ ioc.tail
      back = omega arith

  -- On a balanced context, releasing what `get_token` has returned, a token or NULL, undoes the call.
  pub release_token-get_token :
      {ioc : IoContext C D R} {out : List ℕ}
      → IsBalanced ioc out
      → let (token, ioc') = get_token ioc in release_token ioc' token ≡ ioc
  release_token-get_token {ioc} b = elim (dec_lt 0 ioc.tail) [
    | yes lt ↦ rw (get_token-pos ioc lt) (release_token-popped b lt)
    | no ge ↦
        let e : ioc.tail ≡ 0 = omega arith in rw (get_token-empty ioc e) (release_token-null ioc)
  ]

  -- `release_token` writes the pool alone.
  pub release_token-fixed :
      (ioc : IoContext C D R) (t : Option ℕ)
      → let ioc' = release_token ioc t in
        (ioc'.ring ≡ ioc.ring) × (ioc'.tokens ≡ ioc.tokens) × (ioc'.capacity ≡ ioc.capacity)
  unfolding release_token
  release_token-fixed ioc none = (refl, refl, refl)
  release_token-fixed ioc (some t) = ground arith
