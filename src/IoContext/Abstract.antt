-- ===== src/IoContext/Abstract.antt =====
-- lib/IOContext.h: the pool as a bag of tokens, which forgets where in the table they stand.
use cring.Prelude.{ℕ, ◌≡◌, List, [], ◌∷◌, Option, none, some, arith}
use cring.Prelude.{count, take}
use mathlib.Core.Quot
use mathlib.Core.Quot.{Quot, Quot-set}
use cring.IoContext.Token.{IoContext}
use cring.IoContext.Pool.{get_token, release_token}

-- Two lists have the same tokens, as often.
abbrev pub AreSame : List ℕ → List ℕ → Type 0
AreSame xs ys = (a : ℕ) → count a xs ≡ count a ys

abbrev pub Bag : Type 0
Bag = Quot AreSame

abbrev pub empty : Bag
empty = Quot.mk []

pub AreSame-cons : (t : ℕ) (xs ys : List ℕ) → AreSame xs ys → AreSame (t ∷ xs) (t ∷ ys)
AreSame-cons t xs ys h a = omega (arith, h a)

abbrev pub put : ℕ → Bag → Bag
put t = Quot.lift Quot-set (λ xs. Quot.mk (t ∷ xs)) (λ xs ys h. Quot.sound (AreSame-cons t xs ys h))

-- What a caller does with the pool, and what it sees.
pub data PoolCall : Type 0 where
  get_one : PoolCall
  give_back : ℕ → PoolCall

pub data PoolEvent : Type 0 where
  got : Option ℕ → PoolEvent
  gave : ℕ → PoolEvent

-- The specification: a pool gives any token that it has, and none only if it is empty.
abbrev pub BagRun : List PoolEvent → Bag → Bag → Type 0
BagRun [] b b' = b ≡ b'
BagRun (got (some t) ∷ es) b b' = (c : Bag) × (b ≡ put t c) × BagRun es c b'
BagRun (got none ∷ es) b b' = (b ≡ empty) × BagRun es b b'
BagRun (gave t ∷ es) b b' = BagRun es (put t b) b'

module _ {C D R : Type 0} where
  abbrev pub free_tokens : IoContext C D R → Bag
  free_tokens ioc = Quot.mk (take ioc.tail ioc.available_tokens)

  -- The calls one behind the other: what the caller sees, and the context in the end.
  abbrev pub events : List PoolCall → IoContext C D R → List PoolEvent
  events [] ioc = []
  events (get_one ∷ cs) ioc = let (t, ioc') = get_token ioc in got t ∷ events cs ioc'
  events (give_back t ∷ cs) ioc = gave t ∷ events cs (release_token ioc (some t))

  abbrev pub after_calls : List PoolCall → IoContext C D R → IoContext C D R
  after_calls [] ioc = ioc
  after_calls (get_one ∷ cs) ioc = let (t, ioc') = get_token ioc in after_calls cs ioc'
  after_calls (give_back t ∷ cs) ioc = after_calls cs (release_token ioc (some t))
