-- ===== src/IoContext/Token.antt =====
-- lib/IOContext.h: tokens and the context. A token's address is its index in the block that
-- `init_io_context` allocates.
use cring.Prelude.{ℕ, List, Option, none, ℤ, pos}

-- `enum RequestType`; `unset` is the 0 that `calloc` leaves in a token.
pub data RequestType : Type 0 where
  unset accept read write wait : RequestType

-- `cb` and `arg` (the `data` of the source) are NULL or a value of the caller's.
pub record Token (C D : Type 0) : Type 0 where
  pub fd : ℤ
  pub type : RequestType
  pub cb : Option C
  pub arg : Option D

-- An empty `available_tokens` stands for NULL. `tokens` is the memory that its pointers lead to.
pub record IoContext (C D R : Type 0) : Type 0 where
  pub tail : ℕ
  pub ring : R
  pub capacity : ℕ
  pub available_tokens : List ℕ
  pub tokens : ℕ → Token C D

abbrev pub zero_token : (C D : Type 0) → Token C D
zero_token C D = record { fd = pos 0; type = unset; cb = none; arg = none }
