-- ===== src/Reservation/Fire.antt =====
-- Members, their fire, and the start of a reservation (`_activate_reservation`).
use mathlib.Core.List.{append-nil}
use rollpig_cloud.Base.{
  ℕ, ◌+◌, ◌≡◌, refl, Bool, true, false, not, ◌||◌, List, [], ◌∷◌, map, ◌==◌, if◌then◌else◌, select,
  length, arith, select-append, length-append,
}
use rollpig_cloud.Store.{is_pending, RoastReservation, Participant, Session, Env}
use rollpig_cloud.Reservation.{
  PrepareRequest, is_member, participants_of, can_start, activate_reservation,
  update_delivery_capability,
}
use rollpig_cloud.Reservation.Join.{enrol, double_contribution, start_if_arrived, new_member}

-- A reservation that has left `pending` has what it takes to start.
abbrev pub is_fired : List Participant → RoastReservation → Bool
is_fired members r = is_pending r.status || can_start r members

abbrev pub IsFiredIn : Session → RoastReservation → Type 0
IsFiredIn s r = is_fired (participants_of r.reservation_id s) r ≡ true

-- What an operation on one row does not touch.
pub record SameScope (r r' : RoastReservation) : Type 0 where
  pub same_id : r'.reservation_id ≡ r.reservation_id
  pub same_date : r'.date_str ≡ r.date_str
  pub same_group : r'.group_id ≡ r.group_id
  pub same_target : r'.target_id ≡ r.target_id
  pub same_slot : r'.active_slot ≡ r.active_slot

-- What activation does to a row that is pending.
pub activate_reservation-starts :
    (pig : ℕ) (notify : Bool) (members : List Participant) (now : ℕ) (r : RoastReservation)
    → is_pending r.status ≡ true
    → let (started, r') = activate_reservation pig notify members now r in
      (started ≡ can_start r members)
      × (is_pending r'.status ≡ not started)
      × (is_fired members r' ≡ true)
      × (r'.target_pig_id ≡ pig)
      × SameScope r r'
unfolding activate_reservation
activate_reservation-starts pig notify members now r h = ground arith

started_row :
    (pig : ℕ) (notify : Bool) (env : Env) (s : Session) (r : RoastReservation)
    → is_pending r.status ≡ true
    → let r' = start_if_arrived pig notify env s r in
      (is_fired (participants_of r.reservation_id s) r' ≡ true) × SameScope r r'
started_row pig notify env s r h =
    ground (
      arith,
      activate_reservation-starts pig notify (participants_of r.reservation_id s) env.now r h,
    )

pub start_if_arrived-fired :
    (pig : ℕ) (notify : Bool) (env : Env) (s : Session) (r : RoastReservation)
    → is_pending r.status ≡ true
    → let r' = start_if_arrived pig notify env s r in IsFiredIn s r' × SameScope r r'
start_if_arrived-fired pig notify env s r h =
    let both = started_row pig notify env s r h in (rw both.1.same_id both.0, both.1)

pub update_delivery_capability-keeps :
    (r : RoastReservation) (req : PrepareRequest)
    → let r' = update_delivery_capability r req in
      (r'.status ≡ r.status)
      × (r'.protection_required ≡ r.protection_required)
      × (r'.force_mode ≡ r.force_mode)
      × SameScope r r'
unfolding update_delivery_capability
update_delivery_capability-keeps r req = ground arith

module _ (req : PrepareRequest) (id : ℕ) where
  double-other :
      (other : ℕ) (rows : List Participant)
      → (other == id) ≡ false
      → select (is_member other) (map (double_contribution id req.attacker_id) rows)
        ≡ select (is_member other) rows
  double-other other [] h = refl
  double-other other (p ∷ rows) h = ground (arith, double-other other rows h)

  double-length :
      (rows : List Participant)
      → length (select (is_member id) (map (double_contribution id req.attacker_id) rows))
        ≡ length (select (is_member id) rows)
  double-length [] = refl
  double-length (p ∷ rows) = ground (arith, double-length rows)

  -- The members of the other reservations stay, and one member is added unless it was there.
  pub enrol-members :
      (other : ℕ) (m boosted : Bool) (rows : List Participant)
      → ((other == id) ≡ false
          → select (is_member other) (enrol req id m boosted rows) ≡ select (is_member other) rows)
        × (length (select (is_member id) (enrol req id m boosted rows))
            ≡ length (select (is_member id) rows) + (if m then 0 else 1))
  unfolding enrol
  enrol-members other m boosted rows =
      let member = new_member id req (if boosted then 2 else 1) in
      (
        λ h. ground (
          arith,
          double-other other rows h,
          select-append (is_member other) rows (member ∷ []),
          append-nil (select (is_member other) rows),
        ),
        ground (
          arith,
          double-length rows,
          select-append (is_member id) rows (member ∷ []),
          length-append (select (is_member id) rows) (member ∷ []),
        ),
      )
