-- ===== src/IoContext/Ownership.antt =====
-- src/IOContext.c: a context is made balanced, and what `free_io_context` frees.
use cring.Prelude.{
  ℕ, zero, suc, ◌+◌, ◌-◌, ◌%◌, ◌^◌, ◌≤◌, ◌<◌, ◌≡◌, ◌≢◌, refl, sym, subst, ◌∙◌, ap, List, [], ◌∷◌,
  Option, none, some, arith, ℤ, pos, minus_one, is_neg,
}
use cring.Prelude.{
  Bool, Bool-cases, inl, inr, true, false, ◌==◌, if◌then◌else◌, dec_lt, take-length,
  length-range_from, count-range_from, take, count, get_or, get_elem?, range_from, length,
  get_or-set_self, get_or-set,
}
use cring.Prelude
use cring.Align.{align32pow2}
use cring.Align.Power.{IsLeastPower, align32pow2-IsLeastPower}
use cring.IoContext.Uring.{Uring, UringLaws}
use cring.IoContext.Token.{IoContext}
use cring.IoContext.Pool.{release_token}
use cring.IoContext.Lifetime.{init_io_context, free_io_context, filled_context, table_capacity}
use cring.IoContext.Balance.{IsBalanced, release_token-room}

module _ {C D R S : Type 0} (U : Uring R S) where
  filled_context-IsBalanced :
      (n : ℕ) (ring : R) → IsBalanced (record (filled_context U C D n) { ring = ring }) []
  unfolding filled_context
  filled_context-IsBalanced n ring = record {
    table = length-range_from 0 n;
    room = omega arith;
    once = λ a. ground (arith, count-range_from a 0 n, ap (count a) whole);
  }
    where
      whole : take n (range_from 0 n) ≡ range_from 0 n
      whole =
          subst (λ m. take m (range_from 0 n) ≡ range_from 0 n) (length-range_from 0 n)
            (take-length (range_from 0 n))

  -- A context that `init_io_context` has made: its size is the least power of two above the request,
  -- all tokens are in the pool, and each is there once.
  pub record IsFresh (L : UringLaws U) (capacity : ℕ) (ioc : IoContext C D R) : Type 0 where
    pub size : IsLeastPower (capacity + 1) ioc.capacity
    pub full : ioc.tail ≡ ioc.capacity
    pub balanced : IsBalanced ioc (L.inflight ioc.ring)
    pub base : get_or ioc.available_tokens 0 0 ≡ 0

  init_io_context-ok :
      (table_ok tokens_ok : Bool) (old : IoContext C D R) (capacity : ℕ) {ioc : IoContext C D R}
      → init_io_context U C D table_ok tokens_ok (some old) capacity ≡ (pos 0, some ioc)
      → (0 < capacity)
        × (is_neg (U.queue_init (table_capacity U C D capacity)).0 ≡ false)
        × (ioc ≡ record (filled_context U C D (table_capacity U C D capacity)) {
          ring = (U.queue_init (table_capacity U C D capacity)).1;
        })
  unfolding init_io_context
  init_io_context-ok table_ok tokens_ok old capacity e = ground arith

  IsFresh-context :
      (L : UringLaws U) (capacity n : ℕ)
      → IsLeastPower (capacity + 1) n
      → is_neg (U.queue_init n).0 ≡ false
      → IsFresh L capacity (record (filled_context U C D n) { ring = (U.queue_init n).1 })
  unfolding filled_context
  IsFresh-context L capacity n p ok = record {
    size = p;
    full = refl;
    balanced = rw (L.fresh n ok) (
        let b = filled_context-IsBalanced n (U.queue_init n).1 in
        record { table = b.table; room = b.room; once = b.once });
    base = base n;
  }
    where
      base : (n : ℕ) → get_or (range_from 0 n) 0 0 ≡ 0
      base zero = refl
      base (suc n) = refl

  -- For capacity < 2^31, `init_io_context` makes a fresh context whenever it returns 0.
  pub init_io_context-IsFresh :
      (L : UringLaws U) (table_ok tokens_ok : Bool) (old : IoContext C D R) (capacity : ℕ)
      {ioc : IoContext C D R}
      → capacity < 2 ^ 31
      → init_io_context U C D table_ok tokens_ok (some old) capacity ≡ (pos 0, some ioc)
      → IsFresh L capacity ioc
  init_io_context-IsFresh L table_ok tokens_ok old capacity {ioc} lt e =
      let (some_asked, ok, eq) = init_io_context-ok table_ok tokens_ok old capacity e in
      let width : (capacity + 1) % 2 ^ 64 % 2 ^ 32 ≡ capacity + 1 = omega arith in
      let p : IsLeastPower (capacity + 1) (table_capacity U C D capacity) =
        subst (λ x. IsLeastPower (capacity + 1) (align32pow2 x)) (sym width)
          (align32pow2-IsLeastPower (capacity + 1) (omega arith) (omega arith)) in
      subst (IsFresh L capacity) (sym eq)
        (IsFresh-context L capacity (table_capacity U C D capacity) p ok)

  -- What `free_io_context` passes to `free` is the base of the token block exactly when the lowest
  -- slot of the pool holds the first token. A pool that is not drained keeps it there.
  pub release_token-base :
      (ioc : IoContext C D R) (t : ℕ)
      → 0 < ioc.tail
      → get_or (release_token ioc (some t)).available_tokens 0 0 ≡ get_or ioc.available_tokens 0 0
  unfolding release_token
  release_token-base ioc t lt = ground (arith, above ioc.available_tokens ioc.tail t)
    where
      above : (xs : List ℕ) (i v : ℕ) → 0 < i → get_or (Prelude.set xs i v) 0 0 ≡ get_or xs 0 0
      above [] i v h = refl
      above (x ∷ xs) zero v h = elim h [ ]
      above (x ∷ xs) (suc i) v h = refl

  -- Once every token has been handed out, the first one released takes the lowest slot, and
  -- `free_io_context` passes that token's address to `free`: for a token other than the first, an
  -- address inside the block.
  pub free_io_context-drained :
      {ioc : IoContext C D R} {out : List ℕ} (t : ℕ)
      → IsBalanced ioc (t ∷ out)
      → ioc.tail ≡ 0
      → (free_io_context U C D (some (release_token ioc (some t)))).1 ≡ some t
  unfolding free_io_context
  free_io_context-drained {ioc} t b e = rw (release_token-room ioc t (omega (arith, b.room))) (
      subst (λ i. get_elem? (Prelude.set ioc.available_tokens i t) 0 ≡ some t) (sym e)
        (first ioc.available_tokens (omega (arith, b.room, b.table))))
    where
      first : (xs : List ℕ) → 0 < length xs → get_elem? (Prelude.set xs 0 t) 0 ≡ some t
      first [] lt = elim lt [ ]
      first (x ∷ xs) lt = refl
