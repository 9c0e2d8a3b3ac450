-- ===== src/IoContext/Refines.antt =====
-- lib/IOContext.h: the table of tokens implements the bag.
use cring.Prelude.{ℕ, ◌<◌, ◌≡◌, refl, sym, ap, subst, ◌∙◌, List, [], ◌∷◌, Option, none, some, arith}
use cring.Prelude.{take, dec_lt, count-take-pred, count-take-set}
use mathlib.Core.Quot
use mathlib.Core.Quot.{Quot}
use cring.IoContext.Uring.{Same}
use cring.IoContext.Token.{IoContext}
use cring.IoContext.Pool.{get_token, release_token}
use cring.IoContext.Balance.{
  IsBalanced, IsBalanced-Same, top, popped, get_token-empty, get_token-pos, release_token-room,
  pop-IsBalanced, release_token-IsBalanced,
}
use cring.IoContext.Abstract.{
  put, empty, PoolCall, got, get_one, give_back, BagRun, free_tokens, events, after_calls,
}

-- A caller gives back only what is out.
abbrev pub taken : Option ℕ → List ℕ → List ℕ
taken none out = out
taken (some t) out = t ∷ out

module _ {C D R : Type 0} where
  abbrev pub IsLegal : List PoolCall → IoContext C D R → List ℕ → Type 0
  IsLegal [] ioc out = Unit {0}
  IsLegal (get_one ∷ cs) ioc out = let (t, ioc') = get_token ioc in IsLegal cs ioc' (taken t out)
  IsLegal (give_back t ∷ cs) ioc out =
      (rest : List ℕ) × Same (t ∷ rest) out × IsLegal cs (release_token ioc (some t)) rest

  free_tokens-popped :
      {ioc : IoContext C D R} {out : List ℕ}
      → IsBalanced ioc out
      → 0 < ioc.tail
      → free_tokens ioc ≡ put (top ioc) (free_tokens (popped ioc))
  free_tokens-popped {ioc} b lt = Quot.sound λ a.
      omega
        (arith, count-take-pred a ioc.available_tokens ioc.tail lt (omega (arith, b.room, b.table)))

  free_tokens-empty : (ioc : IoContext C D R) → ioc.tail ≡ 0 → free_tokens ioc ≡ empty
  free_tokens-empty ioc e = ap (λ (n : ℕ). Quot.mk (take n ioc.available_tokens)) e

  free_tokens-release_token :
      {ioc : IoContext C D R} {out : List ℕ} {t : ℕ}
      → IsBalanced ioc (t ∷ out)
      → free_tokens (release_token ioc (some t)) ≡ put t (free_tokens ioc)
  free_tokens-release_token {ioc} {out} {t} b =
      ap free_tokens (release_token-room ioc t (omega (arith, b.room)))
      ∙ Quot.sound
          λ a. count-take-set a ioc.available_tokens ioc.tail t (omega (arith, b.room, b.table))

  -- The run from a call of `get_token` on that has given `g`.
  abbrev GetRun : List PoolCall → IoContext C D R → Option ℕ × IoContext C D R → Type 0
  GetRun cs ioc g =
      BagRun (got g.0 ∷ events cs g.1) (free_tokens ioc) (free_tokens (after_calls cs g.1))

  -- On a balanced context, whatever calls of `get_token` and `release_token` a caller makes that gives
  -- back only tokens that are out, what it sees is a run of a bag of tokens, from the free tokens before to
  -- those behind: it gets a token that is free, and NULL only if none is.
  pub events-BagRun :
      (cs : List PoolCall) {ioc : IoContext C D R} {out : List ℕ}
      → IsBalanced ioc out
      → IsLegal cs ioc out
      → BagRun (events cs ioc) (free_tokens ioc) (free_tokens (after_calls cs ioc))
  events-BagRun [] b l = refl
  events-BagRun (get_one ∷ cs) {ioc = ioc} {out = out} b l = elim (dec_lt 0 ioc.tail) [
    | yes lt ↦ subst (GetRun cs ioc) (sym (get_token-pos ioc lt)) (
      free_tokens (popped ioc),
      free_tokens-popped b lt,
      events-BagRun cs (pop-IsBalanced b lt) (rw (get_token-pos ioc lt) at l),
    )
    | no ge ↦
        let e : ioc.tail ≡ 0 = omega arith in
        subst (GetRun cs ioc) (sym (get_token-empty ioc e))
          (free_tokens-empty ioc e, events-BagRun cs b (rw (get_token-empty ioc e) at l))
  ]
  events-BagRun (give_back t ∷ cs) {ioc = ioc} b l =
      let out = IsBalanced-Same l.1 b in
      subst
        (λ x.
          BagRun (events cs (release_token ioc (some t))) x
            (free_tokens (after_calls cs (release_token ioc (some t)))))
        (free_tokens-release_token out) (events-BagRun cs (release_token-IsBalanced out) l.2)
