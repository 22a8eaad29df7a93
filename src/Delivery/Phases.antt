-- ===== src/Delivery/Phases.antt =====
-- The contract of the delivery, told without the handlers of routers/roast_reservations.py: what a
-- reservation is for the bots, and how it may go on.
use rollpig_cloud.Base.{ℕ, Option, none, some}
use rollpig_cloud.Store.{
  Status, pending, ready, processing, prepared, sending, completed, Outcome, RoastReservation,
}

-- A reservation waits for its fire, is free to be taken, is held by the bot with a token, is under
-- way to the group, or has arrived; all the while with the outcome that has been fixed, if one has.
pub data Phase : Type 0 where
  waiting free : Option Outcome → Phase
  held under_way finished : (token : Option ℕ) → Option Outcome → Phase

-- What may happen. A holder may lose the reservation to another claim; an outcome is fixed where none
-- is, and before the message leaves; a message that is under way has no way back.
pub data Allowed : Phase → Phase → Type 0 where
  fire : (o : Option Outcome) → Allowed (waiting o) (free o)
  take : (token : ℕ) (o : Option Outcome) → Allowed (free o) (held (some token) o)
  retake :
      (old : Option ℕ) (token : ℕ) (o : Option Outcome) → Allowed (held old o) (held (some token) o)
  settle : (token : Option ℕ) (o : Outcome) → Allowed (held token none) (held token (some o))
  give_back : (token : Option ℕ) (o : Option Outcome) → Allowed (held token o) (free o)
  send : (token : Option ℕ) (o : Outcome) → Allowed (held token (some o)) (under_way token (some o))
  finish : (token : Option ℕ) (o : Option Outcome) → Allowed (under_way token o) (finished token o)

pub data Route : Phase → Phase → Type 0 where
  here : (p : Phase) → Route p p
  next : (p q r : Phase) → Allowed p q → Route q r → Route p r

abbrev pub phase : Status → Option ℕ → Option Outcome → Phase
phase pending token o = waiting o
phase ready token o = free o
phase processing token o = held token o
phase prepared token o = held token o
phase sending token o = under_way token o
phase completed token o = finished token o

abbrev pub phase_of : RoastReservation → Phase
phase_of r = phase r.status r.claim_token r.outcome_snapshot
