-- ===== src/Delivery/Lifecycle.antt =====
-- The lifecycle of a reservation: the moves that the handlers make, and what every run of them keeps.
use rollpig_cloud.Base.{ℕ, ◌≡◌, refl, ◌∙◌, Bool, true, not, ◌&&◌, ◌||◌, some, List, is_some, arith}
use rollpig_cloud.Store.{
  Status, pending, ready, processing, prepared, sending, completed, is_pending, is_sending,
  is_completed, Outcome, RoastReservation, Participant,
}
use rollpig_cloud.Reservation.{activate_reservation}
use rollpig_cloud.Delivery.{
  save_outcome_row, mark_sending_row, complete_row, release_row, freeze_outcome, claim_row,
  is_claimable,
}

-- One move of a row. `amends` stands for every change of the other columns.
pub data Moves : RoastReservation → RoastReservation → Type 0 where
  amends :
      (r r' : RoastReservation)
      → r'.status ≡ r.status
      → r'.claim_token ≡ r.claim_token
      → r'.outcome_snapshot ≡ r.outcome_snapshot
      → r'.active_slot ≡ r.active_slot
      → r'.completed_at ≡ r.completed_at
      → Moves r r'
  starts :
      (pig now : ℕ) (notify : Bool) (members : List Participant) (r : RoastReservation)
      → is_pending r.status ≡ true
      → Moves r (activate_reservation pig notify members now r).1
  claims :
      (supports_prepared : Bool) (token now : ℕ) (r : RoastReservation)
      → is_claimable now r ≡ true
      → Moves r (claim_row supports_prepared token now r)
  freezes :
      (token : ℕ) (outcome : Outcome) (is_new : Bool) (r r' : RoastReservation)
      → freeze_outcome token outcome r ≡ some (is_new, r')
      → Moves r r'
  saves :
      (token : ℕ) (outcome : Outcome) (r r' : RoastReservation)
      → save_outcome_row token outcome r ≡ some r'
      → Moves r r'
  sends : (token : ℕ) (r r' : RoastReservation) → mark_sending_row token r ≡ some r' → Moves r r'
  completes :
      (now token : ℕ) (r r' : RoastReservation) → complete_row now token r ≡ some r' → Moves r r'
  releases : (token : ℕ) (r r' : RoastReservation) → release_row token r ≡ some r' → Moves r r'

-- Any number of moves.
pub data Runs : RoastReservation → RoastReservation → Type 0 where
  done : (r : RoastReservation) → Runs r r
  step : (r r' r'' : RoastReservation) → Moves r r' → Runs r' r'' → Runs r r''

-- The message may have been sent.
abbrev pub has_sent : Status → Bool
has_sent status = is_sending status || is_completed status

-- What the columns hold in each status.
abbrev pub is_consistent : RoastReservation → Bool
is_consistent r = elim r.status [
  | pending ↦ r.active_slot && not (is_some r.claim_token) && not (is_some r.outcome_snapshot)
  | ready ↦ r.active_slot && not (is_some r.claim_token)
  | processing ↦ r.active_slot && is_some r.claim_token && not (is_some r.outcome_snapshot)
  | prepared ↦ r.active_slot && is_some r.claim_token && is_some r.outcome_snapshot
  | sending ↦ r.active_slot && is_some r.claim_token && is_some r.outcome_snapshot
  | completed ↦
      not r.active_slot
      && is_some r.claim_token
      && is_some r.outcome_snapshot
      && is_some r.completed_at
]

Moves-consistent :
    (r r' : RoastReservation) → Moves r r' → is_consistent r ≡ true → is_consistent r' ≡ true
unfolding activate_reservation claim_row is_claimable freeze_outcome save_outcome_row
    mark_sending_row complete_row release_row
Moves-consistent r r' (amends _ _ p q o a c) h = ground arith
Moves-consistent r _ (starts pig now notify members _ p) h = ground arith
Moves-consistent r _ (claims sp token now _ p) h = ground arith
Moves-consistent r r' (freezes token outcome new _ _ p) h = ground arith
Moves-consistent r r' (saves token outcome _ _ p) h = ground arith
Moves-consistent r r' (sends token _ _ p) h = ground arith
Moves-consistent r r' (completes now token _ _ p) h = ground arith
Moves-consistent r r' (releases token _ _ p) h = ground arith

-- In every run of moves, the columns fit the status if they did at the start.
pub Runs-consistent :
    (r r' : RoastReservation) → Runs r r' → is_consistent r ≡ true → is_consistent r' ≡ true
Runs-consistent r _ (done _) h = h
Runs-consistent r _ (step _ r' r'' move run) h =
    Runs-consistent r' r'' run (Moves-consistent r r' move h)

Moves-sent :
    (r r' : RoastReservation)
    → Moves r r'
    → has_sent r.status ≡ true
    → (has_sent r'.status ≡ true) × (r'.claim_token ≡ r.claim_token)
unfolding activate_reservation claim_row is_claimable freeze_outcome save_outcome_row
    mark_sending_row complete_row release_row
Moves-sent r r' (amends _ _ p q o a c) h = ground arith
Moves-sent r _ (starts pig now notify members _ p) h = ground arith
Moves-sent r _ (claims sp token now _ p) h = ground arith
Moves-sent r r' (freezes token outcome new _ _ p) h = ground arith
Moves-sent r r' (saves token outcome _ _ p) h = ground arith
Moves-sent r r' (sends token _ _ p) h = ground arith
Moves-sent r r' (completes now token _ _ p) h = ground arith
Moves-sent r r' (releases token _ _ p) h = ground arith

-- Once the message of a reservation may have been sent, no run of moves hands the reservation to
-- another sender: it stays `sending` or `completed`, under the same claim token.
pub Runs-sent :
    (r r' : RoastReservation)
    → Runs r r'
    → has_sent r.status ≡ true
    → (has_sent r'.status ≡ true) × (r'.claim_token ≡ r.claim_token)
Runs-sent r _ (done _) h = (h, refl)
Runs-sent r _ (step _ r' r'' move run) h =
    let sent = Moves-sent r r' move h in
    let rest = Runs-sent r' r'' run sent.0 in (rest.0, rest.1 ∙ sent.1)

Moves-frozen :
    (r r' : RoastReservation) (o : Outcome)
    → Moves r r'
    → r.outcome_snapshot ≡ some o
    → r'.outcome_snapshot ≡ some o
unfolding activate_reservation claim_row is_claimable freeze_outcome save_outcome_row
    mark_sending_row complete_row release_row
Moves-frozen r r' o (amends _ _ p q s a c) h = ground arith
Moves-frozen r _ o (starts pig now notify members _ p) h = ground arith
Moves-frozen r _ o (claims sp token now _ p) h = h
Moves-frozen r r' o (freezes token outcome new _ _ p) h = ground arith
Moves-frozen r r' o (saves token outcome _ _ p) h = ground arith
Moves-frozen r r' o (sends token _ _ p) h = ground arith
Moves-frozen r r' o (completes now token _ _ p) h = ground arith
Moves-frozen r r' o (releases token _ _ p) h = ground arith

-- An outcome that has been saved is never replaced, whatever is claimed, released, retried or
-- completed afterwards.
pub Runs-frozen :
    (r r' : RoastReservation) (o : Outcome)
    → Runs r r'
    → r.outcome_snapshot ≡ some o
    → r'.outcome_snapshot ≡ some o
Runs-frozen r _ o (done _) h = h
Runs-frozen r _ o (step _ r' r'' move run) h = Runs-frozen r' r'' o run (Moves-frozen r r' o move h)
