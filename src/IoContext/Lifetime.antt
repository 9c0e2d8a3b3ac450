-- ===== src/IoContext/Lifetime.antt =====
-- src/IOContext.c: `init_io_context` and `free_io_context`.
use cring.Prelude.{
  ℕ, ◌+◌, ◌%◌, ◌^◌, [], Option, none, some, ℤ, pos, minus_one, is_neg, Bool, not, ◌||◌,
}
use cring.Prelude.{◌==◌, if◌then◌else◌, get_elem?, range_from}
use cring.Align.{align32pow2}
use cring.IoContext.Uring.{Uring}
use cring.IoContext.Token.{IoContext, zero_token}

module _ {R S : Type 0} (U : Uring R S) (C D : Type 0) where
  -- `memset(ioc, 0, sizeof *ioc)`
  abbrev pub zero_context : IoContext C D R
  zero_context = record {
    tail = 0;
    ring = U.zeroed;
    capacity = 0;
    available_tokens = [];
    tokens = λ _. zero_token C D;
  }

  -- The result, the address that `free(ioc->available_tokens[0])` is given, and the context after.
  -- The argument is `none` for NULL. The test of that pointer is behind its use: where there is no table,
  -- the source reads through NULL, and no address is given here.
  unfoldable pub free_io_context :
      Option (IoContext C D R) → ℤ × Option ℕ × Option (IoContext C D R)
  free_io_context none = (minus_one, none, none)
  free_io_context (some ioc) = (pos 0, get_elem? ioc.available_tokens 0, some zero_context)

  -- The fields once the two arrays are there; `capacity` is a `size_t`, and the parameter of
  -- `align32pow2` is 32 bits wide.
  abbrev pub table_capacity : ℕ → ℕ
  table_capacity capacity = align32pow2 ((capacity + 1) % 2 ^ 64 % 2 ^ 32)

  unfoldable pub filled_context : ℕ → IoContext C D R
  filled_context n = record zero_context {
    capacity = n;
    tail = n;
    available_tokens = range_from 0 n;
  }

  -- `table_ok` and `tokens_ok` say whether the two `calloc` calls succeed. The answer of a failed
  -- allocation leaves the sizes behind, as the source does. It leaves `available_tokens` behind too, which
  -- is NULL or, when only the tokens were not to be had, the address of the table just freed: either is
  -- written as the empty table here, since nothing may be read through it.
  unfoldable pub init_io_context :
      (table_ok tokens_ok : Bool)
      → Option (IoContext C D R)
      → (capacity : ℕ) → ℤ × Option (IoContext C D R)
  unfolding filled_context free_io_context
  init_io_context table_ok tokens_ok none capacity = (minus_one, none)
  init_io_context table_ok tokens_ok (some ioc) capacity =
      if capacity == 0
      then (minus_one, some ioc)
      else let n = table_capacity capacity in
        if not tokens_ok || not table_ok
        then (minus_one, some (record zero_context { capacity = n; tail = n }))
        else let (ret, ring) = U.queue_init n in
          let ready = record (filled_context n) { ring = ring } in
          if is_neg ret then (minus_one, (free_io_context (some ready)).2) else (pos 0, some ready)
