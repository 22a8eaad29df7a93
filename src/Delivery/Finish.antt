-- ===== src/Delivery/Finish.antt =====
-- routers/roast_reservations.py, `mark_sending`, `complete` and `release`.
use rollpig_cloud.Base.{ℕ, Bool, true, false, Option, none, some}
use rollpig_cloud.Store.{RoastReservation, Session}
use rollpig_cloud.Reservation.{ReservationItem, reservation_to_schema, save}
use rollpig_cloud.Events.{EventCreateRequest, bind_reservation_event, record_roast_event}
use rollpig_cloud.Delivery.{
  MutationRequest, MutationResponse, refused, locked, commit_row, change, mark_sending_row,
  complete_row, release_row,
}

-- POST /sending
unfoldable pub mark_sending : MutationRequest → Session → MutationResponse × Session
unfolding mark_sending_row
mark_sending req s =
    commit_row s (change (mark_sending_row req.claim_token) (locked req.reservation_id s))

-- POST /release
unfoldable pub release : MutationRequest → Session → MutationResponse × Session
unfolding release_row
release req s = commit_row s (change (release_row req.claim_token) (locked req.reservation_id s))

-- The event that comes with a completion, recorded under the reservation's identity.
abbrev pub record_completion :
    ℕ → Option EventCreateRequest → ReservationItem → Session → Bool × Session
record_completion today none item s = (false, s)
record_completion today (some event) item s =
    record_roast_event today (bind_reservation_event item event) (some item) s

unfoldable pub finish :
    ℕ → Option EventCreateRequest → Session → Option RoastReservation → MutationResponse × Session
unfolding record_roast_event bind_reservation_event
finish today event s none = (refused, s)
finish today event s (some r) =
    let s' = save r s in
    let item = reservation_to_schema s' r in
    let (recorded, s'') = record_completion today event item s' in
    (record { ok = true; reservation = some item; event_recorded = recorded }, s'')

-- POST /complete; `today` is `rollpig_today()`.
unfoldable pub complete :
    ℕ → ℕ → MutationRequest → Option EventCreateRequest → Session → MutationResponse × Session
unfolding complete_row finish
complete today now req event s =
    finish today event s (change (complete_row now req.claim_token) (locked req.reservation_id s))
