-- ===== src/Executor/Invariant/Spawning.antt =====
-- `async_exec` keeps the invariant.
use cring.Prelude.{ℕ, ◌+◌, ◌≤◌, ◌<◌, ◌≡◌, ◌≢◌, inl, inr, refl, ap, ◌∙◌, ℤ, pos, negsuc, true, arith}
use cring.Prelude.{leb, Bool-cases, update, ℕ_discrete}
use cring.Executor.Frame.{Executor, entry}
use cring.Executor.Async.{async_exec}
use cring.Executor.Run.{setup, in_task}
use cring.Executor.Invariant.Defs.{frame_at, exe_at, IsTable, IsSaved, IsRunning, IsPlaced, IsValid}
use cring.Executor.Invariant.Moves.{frame_at-ne-zero}

module _ {R : Type 0} where
  -- `async_exec` with room for one more frame.
  abbrev pub spawned : Executor R → Executor R
  spawned ex =
      let f = frame_at ex ex.size in
      record ex {
        size = ex.size + 1;
        memory = update ex.memory f (record (ex.memory f) { exe = entry f; is_ready = true });
      }

  pub data Spawn (ex : Executor R) : ℤ × Executor R → Type 0 where
    full : ex.capacity ≤ ex.size → Spawn ex (negsuc 0, ex)
    room : ex.size < ex.capacity → Spawn ex (pos 0, spawned ex)

  -- `async_exec` refuses a full table, and otherwise schedules the next frame of the table.
  pub async_exec-Spawn : (ex : Executor R) → Spawn ex (async_exec ex)
  unfolding async_exec
  async_exec-Spawn ex = elim (Bool-cases (leb ex.capacity ex.size)) [
    | inl no_room ↦ rw no_room (full (ground arith))
    | inr more ↦ rw more (room (ground arith))
  ]

  pub spawned-IsTable :
      {ex : Executor R} → IsTable ex → ex.size < ex.capacity → IsTable (spawned ex)
  spawned-IsTable t lt = record {
    table = t.table;
    some_size = omega arith;
    fits = omega arith;
    main = t.main;
    distinct = t.distinct;
    main_ready = ground (arith, t.main_ready);
  }

  pub spawned-IsSaved :
      {ex : Executor R} (but : ℕ)
      → IsTable ex
      → ex.size < ex.capacity
      → IsSaved ex but
      → IsSaved (spawned ex) but
  spawned-IsSaved {ex} but t lt saved i gt le ne = elim (ℕ_discrete i ex.size) [
    | yes e ↦
        let started : exe_at (spawned ex) (frame_at ex ex.size) ≡ entry (frame_at ex ex.size) =
          ground arith in
        rw (ap (frame_at ex) e, started) refl
    | no old ↦
        let own = saved i gt (omega arith) ne in
        let other : frame_at ex i ≢ frame_at ex ex.size =
          λ e. old (t.distinct i ex.size (omega (arith, t.fits)) lt e) in
        let kept : exe_at (spawned ex) (frame_at ex i) ≡ exe_at ex (frame_at ex i) = ground arith in
        rw kept own
  ]

  pub spawned-loop :
      {ex : Executor R} → IsTable ex → ex.size < ex.capacity → exe_at (spawned ex) 0 ≡ exe_at ex 0
  spawned-loop {ex} t lt = ground (arith, frame_at-ne-zero t ex.size t.some_size lt)

  pub Spawn-first-IsValid :
      {ex : Executor R} {r : ℤ × Executor R}
      → Spawn ex r
      → IsTable ex
      → IsPlaced ex setup
      → IsValid (record { exec = r.1; control = setup })
  Spawn-first-IsValid (full le) t p = record { table = t; placed = p }
  Spawn-first-IsValid (room lt) t (e, saved) = record {
    table = spawned-IsTable t lt;
    placed = (e, spawned-IsSaved 0 t lt saved);
  }

  pub Spawn-IsValid :
      {ex : Executor R} {f : ℕ} {r : ℤ × Executor R}
      → Spawn ex r
      → IsTable ex
      → IsRunning ex f
      → IsValid (record { exec = r.1; control = in_task f })
  Spawn-IsValid (full le) t p = record { table = t; placed = p }
  Spawn-IsValid {ex} (room lt) t p = record {
    table = spawned-IsTable t lt;
    placed = record {
      pos = p.pos;
      in_size = omega (arith, p.in_size);
      own = p.own;
      loop = spawned-loop t lt ∙ p.loop;
      saved = spawned-IsSaved ex.current t lt p.saved;
    };
  }
