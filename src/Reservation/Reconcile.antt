-- ===== src/Reservation/Reconcile.antt =====
-- services/reservations.py: the reconciliation of a target's reservations with its roll, and the
-- route POST /prepare of routers/roast_reservations.py.
use rollpig_cloud.Base.{
  ℕ, Bool, true, false, not, ◌&&◌, Option, none, some, ◌==◌, if◌then◌else◌, is_some, find, update,
  sum_by, select,
}
use rollpig_cloud.Store.{is_pending, RoastReservation, Session, Env}
use rollpig_cloud.Progress.{find_roll, present}
use rollpig_cloud.Reservation.{
  PrepareRequest, PrepareResponse, PrepareStatus, reservation_created, reservation_joined,
  reservation_upgraded, already_joined, ReservationItem, reservation_to_schema, has_id, activate_in,
}
use rollpig_cloud.Reservation.Create.{prepare_reservation}

abbrev pub waits_for : ℕ → ℕ → RoastReservation → Bool
waits_for date target r = r.date_str == date && r.target_id == target && is_pending r.status

-- One row of the reconciliation.
unfoldable pub reconcile_row : ℕ → ℕ → ℕ → Session → RoastReservation → RoastReservation
reconcile_row pig handled now s r =
    if r.reservation_id == handled
    then record (activate_in pig false now s r).1 { waiting_notice = none }
    else (activate_in pig true now s r).1

-- `activate_target_reservations`: how many reservations were started, and the session.
unfoldable pub activate_target_reservations : ℕ → ℕ → ℕ → ℕ → ℕ → Session → ℕ × Session
unfolding reconcile_row
activate_target_reservations date target pig handled now s =
    let waiting = select (waits_for date target) s.reservations in
    let started = sum_by (λ r. if (activate_in pig true now s r).0 then 1 else 0) waiting in
    let roll = find_roll date target s in
    if is_some roll && not (is_some (present roll)) then (0, s) else (
      started,
      record s {
        reservations =
            update (waits_for date target) (reconcile_row pig handled now s) s.reservations;
      },
    )

-- `activate_if_target_already_rolled`
unfoldable pub activate_if_target_already_rolled : ℕ → ℕ → ℕ → ℕ → Session → ℕ × Session
unfolding activate_target_reservations
activate_if_target_already_rolled date target handled now s =
    elim (present (find_roll date target s)) [
      | none ↦ (0, s)
      | some roll ↦ activate_target_reservations date target roll.pig_id handled now s
    ]

abbrev pub reconciles : PrepareStatus → Bool
reconciles reservation_created = true
reconciles reservation_joined = true
reconciles reservation_upgraded = true
reconciles already_joined = true
reconciles _ = false

-- The snapshot in the answer, read again by its id.
abbrev reread : Session → Option ReservationItem → Option ReservationItem
reread s none = none
reread s (some item) = elim (find (has_id item.reservation_id) s.reservations) [
  | none ↦ some item
  | some r ↦ some (reservation_to_schema s r)
]

abbrev pub id_of_item : Option ReservationItem → ℕ
id_of_item none = 0
id_of_item (some item) = item.reservation_id

-- What the route does once the reservation is committed.
unfoldable pub after_commit :
    Env → PrepareRequest → PrepareResponse × Session → PrepareResponse × Session
unfolding activate_if_target_already_rolled
after_commit env req (response, s) =
    let s' =
      (activate_if_target_already_rolled req.date_str req.target_id
        (id_of_item response.reservation) env.now s).1 in
    if reconciles response.status
    then (record response { reservation = reread s' response.reservation }, s')
    else (response, s)

abbrev pub commit {ℓ κ} : {A : Type ℓ} {B : Type κ} → Option A → (A → B) → Option B
commit none f = none
commit (some a) f = some (f a)

-- POST /prepare. A transaction that meets an IntegrityError is rolled back and run once more, on the
-- same session, so it fails again: `none` is the RuntimeError that follows.
unfoldable pub prepare : Env → PrepareRequest → ℕ → Session → Option (PrepareResponse × Session)
unfolding prepare_reservation after_commit
prepare env req clock s = commit (prepare_reservation env req none clock s) (after_commit env req)
