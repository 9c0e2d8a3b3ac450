-- ===== src/Executor/Setup.antt =====
-- src/Executor.c: `init_executor` and `free_executor`.
use cring.Prelude.{
  ℕ, zero, suc, ◌+◌, ◌%◌, ◌^◌, List, [], ◌∷◌, Option, none, some, ℤ, pos, minus_one, is_neg, Bool,
  true, false, not, ◌||◌,
}
use cring.Prelude.{◌==◌, if◌then◌else◌, range_from, update}
use cring.Align.{align32pow2}
use cring.IoContext.Uring.{Uring}
use cring.IoContext.Token.{IoContext}
use cring.IoContext.Lifetime.{init_io_context, free_io_context, zero_context}
use cring.Executor.Frame.{Executor, Frame, blank, Callback}

-- Which of the allocations succeed: the two of `init_io_context` and the three of `init_executor`.
pub record Allocations : Type 0 where
  pub table : Bool
  pub tokens : Bool
  pub frames : Bool
  pub stacks : Bool
  pub memory : Bool

-- The addresses that `free_executor` passes to `free`: of a stack, of a frame and, within
-- `free_io_context`, of a token.
pub record Freed : Type 0 where
  pub stack : ℕ
  pub frame : ℕ
  pub token : Option ℕ

module _ {R S : Type 0} (U : Uring R S) where
  abbrev zero_frame : Frame
  zero_frame = record { exe = blank; result = pos 0; is_ready = false }

  -- `memset(executor, 0, sizeof *executor)`
  abbrev pub zero_executor : Executor R
  zero_executor = record {
    ioc = zero_context U Callback ℕ;
    current = 0;
    size = 0;
    capacity = 0;
    frames = [];
    memory = λ _. zero_frame;
  }

  abbrev pub frame_capacity : ℕ → ℕ
  frame_capacity count = align32pow2 ((count + 1) % 2 ^ 64 % 2 ^ 32)

  -- The loop over the frames, and the fields below it.
  unfoldable pub ready_executor : IoContext Callback ℕ R → ℕ → Executor R
  ready_executor ioc n = record zero_executor {
    ioc = ioc;
    capacity = n;
    frames = range_from 0 n;
    size = 1;
    current = 0;
    memory = update (λ _. zero_frame) 0 (record { exe = blank; result = pos 0; is_ready = true });
  }

  -- The table as `calloc` gives it, with `k` entries that are NULL: `n` stands for NULL, as the frames of a
  -- table of `n` entries have the addresses below `n`.
  abbrev null_frames : (n k : ℕ) → List ℕ
  null_frames n zero = []
  null_frames n (suc k) = n ∷ null_frames n k

  -- Behind `init_io_context`, which has made `ioc`. When an allocation fails, the table stays in the
  -- executor, if it was made: its entries are then still NULL.
  unfoldable pub init_frames :
      Allocations → IoContext Callback ℕ R → (count : ℕ) → ℤ × Option (Executor R)
  unfolding ready_executor
  init_frames a ioc count =
      let n = frame_capacity count in
      if not a.stacks || not a.frames || not a.memory
      then (
        minus_one,
        some (record zero_executor {
          ioc = ioc;
          capacity = n;
          frames = if a.frames then null_frames n n else [];
        }),
      )
      else (pos 0, some (ready_executor ioc n))

  unfoldable pub init_executor :
      Allocations → Option (Executor R) → (count capacity : ℕ) → ℤ × Option (Executor R)
  unfolding init_frames
  init_executor a none count capacity = (minus_one, none)
  init_executor a (some ex) count capacity =
      if count == 0
      then (minus_one, some ex)
      else let (ret, ioc) =
          init_io_context U Callback ℕ a.table a.tokens (some zero_executor.ioc) capacity in
        elim ioc [
          | none ↦ (minus_one, some zero_executor)
          | some ioc' ↦
              if is_neg ret
              then (minus_one, some (record zero_executor { ioc = ioc' }))
              else init_frames a ioc' count
        ]

  -- The part behind the test for NULL, for the table of frames: `frames[0]->exe.uc_stack.ss_sp` is the
  -- stack of that frame. Where the first entry is NULL, behind a failed allocation of `init_executor`, the
  -- source reads through it: what is written for that table is no claim on the code.
  unfoldable pub free_frames : List ℕ → Executor R → ℤ × Option Freed × Option (Executor R)
  unfolding free_io_context
  free_frames [] ex = (minus_one, none, some zero_executor)
  free_frames (f ∷ fs) ex = (
    pos 0,
    some (record { stack = f; frame = f; token = (free_io_context U Callback ℕ (some ex.ioc)).1 }),
    some zero_executor,
  )

  -- The argument is `none` for NULL.
  unfoldable pub free_executor : Option (Executor R) → ℤ × Option Freed × Option (Executor R)
  unfolding free_frames
  free_executor none = (minus_one, none, none)
  free_executor (some ex) = free_frames ex.frames ex
