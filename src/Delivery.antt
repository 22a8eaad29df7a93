-- ===== src/Delivery.antt =====
-- routers/roast_reservations.py: the delivery of a reservation, from its claim to its completion.
pub mod Claim
pub mod Waiting
pub mod Settle
pub mod Finish
pub mod Lifecycle
pub mod Follow
pub mod Handlers
pub mod Claimed
pub mod Served
pub mod Handover
pub mod Retry
pub mod Batch
pub mod Told
pub mod Phases
pub mod Refined
use rollpig_cloud.Base.{
  ℕ, ◌+◌, Bool, true, false, not, ◌&&◌, ◌||◌, Option, none, some, List, [], ◌∷◌, ltb, leb, ◌==◌,
  if◌then◌else◌, is_some, is_value, is_set, find,
}
use rollpig_cloud.Store.{
  is_super, Status, pending, ready, processing, prepared, sending, completed, is_pending, is_ready,
  is_processing, is_prepared, is_sending, is_completed, EventType, success, backfire, bot_backfire,
  other_event, Outcome, RoastReservation, Session,
}
use rollpig_cloud.Reservation.{ReservationItem, reservation_to_schema, has_id, save}

pub record MutationResponse : Type 0 where
  pub ok : Bool
  pub reservation : Option ReservationItem
  pub event_recorded : Bool

abbrev pub refused : MutationResponse
refused = record { ok = false; reservation = none; event_recorded = false }

-- `RoastReservationMutationRequest`
pub record MutationRequest : Type 0 where
  pub reservation_id : ℕ
  pub claim_token : ℕ

abbrev pub event_type_eq : EventType → EventType → Bool
event_type_eq success success = true
event_type_eq backfire backfire = true
event_type_eq bot_backfire bot_backfire = true
event_type_eq (other_event a) (other_event b) = a == b
event_type_eq _ _ = false

-- `row.outcome_snapshot == req.outcome_snapshot`
abbrev pub outcome_eq : Outcome → Outcome → Bool
outcome_eq a b = event_type_eq a.event_type b.event_type && a.details == b.details

-- The row with the id: `scalar_one_or_none`.
abbrev pub locked : ℕ → Session → Option RoastReservation
locked id s = find (has_id id) s.reservations

-- The answer to a request and the commit of the changed row; nothing is committed on a refusal.
abbrev pub commit_row : Session → Option RoastReservation → MutationResponse × Session
commit_row s none = (refused, s)
commit_row s (some r) =
    let s' = save r s in
    (
      record { ok = true; reservation = some (reservation_to_schema s' r); event_recorded = false },
      s',
    )

abbrev pub change {ℓ} : {A : Type ℓ} → (A → Option A) → Option A → Option A
change f none = none
change f (some a) = f a

-- What `save_outcome` does to the row.
pub save_outcome_row : ℕ → Outcome → RoastReservation → Option RoastReservation
save_outcome_row token outcome r =
    let sent = (if is_processing r.status then record r { status = sending } else r) in
    if is_value r.claim_token token
      && (is_processing r.status || is_sending r.status || is_completed r.status)
    then elim r.outcome_snapshot [
      | none ↦
          if is_processing r.status
          then some (record r { outcome_snapshot = some outcome; status = sending })
          else none
      | some saved ↦ if outcome_eq saved outcome then some sent else none
    ]
    else none

-- What `mark_sending` does to the row.
pub mark_sending_row : ℕ → RoastReservation → Option RoastReservation
mark_sending_row token r =
    if is_value r.claim_token token
      && (is_prepared r.status || is_sending r.status || is_completed r.status)
      && is_some r.outcome_snapshot
    then some (if is_prepared r.status then record r { status = sending } else r)
    else none

-- What `complete` does to the row.
unfoldable pub complete_row : ℕ → ℕ → RoastReservation → Option RoastReservation
complete_row now token r =
    if is_value r.claim_token token && (is_sending r.status || is_completed r.status)
    then some (
        if is_completed r.status
        then r
        else record r { status = completed; active_slot = false; completed_at = some now })
    else none

-- What `release` does to the row.
pub release_row : ℕ → RoastReservation → Option RoastReservation
release_row token r =
    if is_value r.claim_token token && (is_processing r.status || is_prepared r.status)
    then some (record r { status = ready; claim_token = none; claimed_at = none })
    else none

-- The part of `_prepare_outcome_once` that concerns the row's snapshot and status: the row, and
-- whether the snapshot is new.
unfoldable pub freeze_outcome : ℕ → Outcome → RoastReservation → Option (Bool × RoastReservation)
freeze_outcome token outcome r =
    let kept = (if is_processing r.status then record r { status = prepared } else r) in
    if is_value r.claim_token token
      && (is_processing r.status
          || is_prepared r.status
          || is_sending r.status
          || is_completed r.status)
    then elim r.outcome_snapshot [
      | none ↦
          if is_processing r.status
          then some (true, record r { outcome_snapshot = some outcome; status = prepared })
          else none
      | some saved ↦ if outcome_eq saved outcome then some (false, kept) else none
    ]
    else none

-- What `claim` does to a row that it hands out.
pub claim_row : Bool → ℕ → ℕ → RoastReservation → RoastReservation
claim_row supports_prepared token now r = record r {
  status =
      if is_some r.outcome_snapshot
      then if supports_prepared then prepared else sending
      else processing;
  claim_token = some token;
  claimed_at = some now;
}

-- `ROAST_RESERVATION_CLAIM_TIMEOUT`, in seconds.
abbrev pub claim_timeout : ℕ
claim_timeout = 300

-- Before `now - ROAST_RESERVATION_CLAIM_TIMEOUT`, or NULL.
abbrev is_stale : ℕ → Option ℕ → Bool
is_stale now none = true
is_stale now (some at) = ltb (at + claim_timeout) now

-- A claim may take the row: it is ready, or its claim is stale and nothing has been sent.
unfoldable pub is_claimable : ℕ → RoastReservation → Bool
is_claimable now r =
    is_ready r.status
    || ((is_processing r.status || is_prepared r.status) && is_stale now r.claimed_at)
