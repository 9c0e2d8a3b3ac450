-- ===== src/Executor/Invariant/Shortened.antt =====
-- The table that the end of a task leaves.
use cring.Prelude.{ℕ, suc, ◌-◌, ◌<◌, ◌≡◌, ◌≢◌, sym, ap, ◌∙◌, arith}
use cring.Prelude.{set, get_or-set, length-set, ◌==◌, if◌then◌else◌}
use cring.Executor.Frame.{Executor}
use cring.Executor.Invariant.Defs.{frame_at, IsTable, IsSaved, IsRunning}

module _ {R : Type 0} where
  -- The table with the current frame and the last one exchanged, one frame shorter.
  abbrev pub shortened : Executor R → Executor R
  shortened ex = record ex {
    frames =
        set (set ex.frames (ex.size - 1) (frame_at ex ex.current)) ex.current
          (frame_at ex (ex.size - 1));
    size = ex.size - 1;
  }

  -- Where the frame at index `i` of the shortened table stood.
  abbrev pub origin : Executor R → ℕ → ℕ
  origin ex i = if i == ex.current then ex.size - 1 else if i == ex.size - 1 then ex.current else i

  pub frame_at-shortened :
      {ex : Executor R} {f : ℕ}
      → IsTable ex
      → IsRunning ex f
      → (i : ℕ) → frame_at (shortened ex) i ≡ frame_at ex (origin ex i)
  frame_at-shortened {ex} t r i = ground (
    arith,
    get_or-set (set ex.frames (ex.size - 1) (frame_at ex ex.current)) ex.current i
        (frame_at ex (ex.size - 1)) 0,
    get_or-set ex.frames (ex.size - 1) i (frame_at ex ex.current) 0,
    length-set ex.frames (ex.size - 1) (frame_at ex ex.current),
    t.table,
    t.fits,
    r.in_size,
    r.pos,
  )

  -- The task that ends is not the last of the table.
  abbrev pub IsInner : Executor R → Type 0
  IsInner ex = suc ex.current < ex.size

  pub shortened-IsTable :
      {ex : Executor R} {f : ℕ} → IsTable ex → IsRunning ex f → IsInner ex → IsTable (shortened ex)
  shortened-IsTable {ex} t r inner = record {
    table =
        length-set (set ex.frames (ex.size - 1) (frame_at ex ex.current)) ex.current _
        ∙ length-set ex.frames (ex.size - 1) _
        ∙ t.table;
    some_size = omega arith;
    fits = omega (arith, t.fits);
    main = frame_at-shortened t r 0 ∙ ap (frame_at ex) first ∙ t.main;
    distinct = λ i j li lj e. apart i j li lj (
        t.distinct (origin ex i) (origin ex j) (below i li) (below j lj)
          (sym (frame_at-shortened t r i) ∙ e ∙ frame_at-shortened t r j));
    main_ready = t.main_ready;
  }
    where
      first : origin ex 0 ≡ 0
      first = ground (arith, r.pos)

      below : (i : ℕ) → i < ex.capacity → origin ex i < ex.capacity
      below i lt = ground (arith, t.fits)

      apart : (i j : ℕ) → i < ex.capacity → j < ex.capacity → origin ex i ≡ origin ex j → i ≡ j
      apart i j li lj e = ground arith

  pub shortened-IsSaved :
      {ex : Executor R} {f : ℕ}
      → IsTable ex
      → IsRunning ex f
      → IsInner ex
      → IsSaved (shortened ex) 0
  shortened-IsSaved {ex} t r inner i pos lt _ =
      rw (frame_at-shortened t r i)
        (r.saved (origin ex i) (ground (arith, r.pos)) (ground arith) (ground arith))

  -- The frame of the task that ends is behind the table.
  pub shortened-apart :
      {ex : Executor R} {f : ℕ}
      → IsTable ex
      → IsRunning ex f
      → IsInner ex
      → (i : ℕ) → 0 < i
      → i < ex.size - 1
      → frame_at (shortened ex) i ≢ f
  shortened-apart {ex} {f} t r inner i pos lt e =
      let same : origin ex i ≡ ex.current =
        t.distinct (origin ex i) ex.current (ground (arith, t.fits)) (omega (arith, t.fits))
          (sym (frame_at-shortened t r i) ∙ e ∙ sym r.own) in
      ground arith

  pub frame_at-done :
      {ex : Executor R} {f : ℕ}
      → IsTable ex
      → IsRunning ex f
      → IsInner ex
      → frame_at (shortened ex) (ex.size - 1) ≡ f
  frame_at-done {ex} t r inner =
      frame_at-shortened t r (ex.size - 1) ∙ ap (frame_at ex) back ∙ r.own
    where
      back : origin ex (ex.size - 1) ≡ ex.current
      back = ground arith
