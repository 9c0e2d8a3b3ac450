-- ===== src/IoContext/Pool.antt =====
-- lib/IOContext.h: `get_token` and `release_token`, a stack of token addresses.
use cring.Prelude.{ℕ, ◌+◌, ◌-◌, Option, none, some}
use cring.Prelude.{get_or, set, ◌==◌, if◌then◌else◌}
use cring.IoContext.Token.{IoContext}

module _ {C D R : Type 0} where
  -- The index is in range wherever `IsBalanced` holds.
  unfoldable pub get_token : IoContext C D R → Option ℕ × IoContext C D R
  get_token ioc =
      if ioc.tail == 0
      then (none, ioc)
      else (some (get_or ioc.available_tokens (ioc.tail - 1) 0), record ioc { tail = ioc.tail - 1 })

  put_token : IoContext C D R → ℕ → IoContext C D R
  put_token ioc t = if ioc.tail == ioc.capacity then ioc else record ioc {
    available_tokens = set ioc.available_tokens ioc.tail t;
    tail = ioc.tail + 1;
  }

  -- The argument is `none` for NULL.
  unfoldable pub release_token : IoContext C D R → Option ℕ → IoContext C D R
  unfolding put_token
  release_token ioc none = ioc
  release_token ioc (some t) = put_token ioc t
