-- ===== src/DocSearch/Keys.antt =====
-- search.js: `ProcessKeys`, which suppresses the first repetition of a key.
use cring.Prelude.{ℕ, zero, suc, ◌≡◌, ◌≢◌, refl, ap, List, [], ◌∷◌, Bool, true, false, not, arith}
use cring.Prelude.{◌==◌, if◌then◌else◌}

pub data EventType : Type 0 where
  key_down key_press key_up other_event : EventType

pub record KeyEvent : Type 0 where
  pub type : EventType
  pub key_code : ℕ

pub record KeyState : Type 0 where
  pub last_key : ℕ
  pub repeat_on : Bool

-- `this.lastKey!=0` at the end, unless a key press returns early.
unfoldable pub process_keys : KeyState → KeyEvent → Bool × KeyState
process_keys s e = elim e.type [
  | key_down ↦
      let s' = record s { repeat_on = false; last_key = e.key_code } in (not (s'.last_key == 0), s')
  | key_press ↦
      if s.repeat_on
      then (not (s.last_key == 0), s)
      else (false, record s { repeat_on = if s.last_key == 0 then s.repeat_on else true })
  | key_up ↦ (false, record s { last_key = 0; repeat_on = false })
  | other_event ↦ (not (s.last_key == 0), s)
]

-- The answers of a row of events, and the state behind it.
unfoldable pub process_all : KeyState → List KeyEvent → List Bool × KeyState
process_all s [] = ([], s)
process_all s (e ∷ es) =
    let (b, s') = process_keys s e in let (bs, t) = process_all s' es in (b ∷ bs, t)

abbrev pub press : KeyEvent
press = record { type = key_press; key_code = 0 }

abbrev pub presses : ℕ → List KeyEvent
presses zero = []
presses (suc n) = press ∷ presses n

abbrev pub always : Bool → ℕ → List Bool
always b zero = []
always b (suc n) = b ∷ always b n

abbrev pub down : ℕ → KeyEvent
down k = record { type = key_down; key_code = k }

abbrev pub up : KeyEvent
up = record { type = key_up; key_code = 0 }

held :
    (k n : ℕ)
    → k ≢ 0
    → (process_all (record { last_key = k; repeat_on = true }) (presses n)).0 ≡ always true n
unfolding process_all process_keys
held k zero ne = refl
held k (suc n) ne = ground (arith, held k n)

released :
    (n : ℕ)
    → (process_all (record { last_key = 0; repeat_on = false }) (presses n)).0 ≡ always false n
unfolding process_all process_keys
released zero = refl
released (suc n) = ap (λ bs. false ∷ bs) (released n)

-- While a key other than 0 is held, in whatever state it went down: the key going down is let through,
-- the first press behind it is not, and every further press is.
pub process_all-down :
    (s : KeyState) (k n : ℕ)
    → k ≢ 0
    → (process_all s (down k ∷ press ∷ presses n)).0 ≡ true ∷ false ∷ always true n
unfolding process_all process_keys
process_all-down s k n ne = ground (arith, held k n)

-- Once a key has come up, nothing is let through until a key goes down.
pub process_all-up :
    (s : KeyState) (n : ℕ) → (process_all s (up ∷ presses n)).0 ≡ always false (suc n)
unfolding process_all process_keys
process_all-up s n = ap (λ bs. false ∷ bs) (released n)
