-- ===== src/Granting/Synced.antt =====
-- Waiting reservations after their target's protection has changed.
use rollpig_cloud.Base.{
  ℕ, ◌≡◌, refl, ap, ◌∙◌, inl, inr, Bool, true, not, ◌&&◌, List, ◌==◌, arith, is_set, Bool-cases,
}
use rollpig_cloud.Protection.{GroupProtection}
use rollpig_cloud.Store.{is_pending, RoastReservation, Participant, Session}
use rollpig_cloud.Reservation.{activate_reservation, can_start, participants_of}
use rollpig_cloud.Reservation.Fire.{is_fired, activate_reservation-starts}
use rollpig_cloud.Granting.{required_now, tell_again, retarget, restart}

tell_again-kept :
    (previous : ℕ) (members : List Participant) (r : RoastReservation)
    → let r' = tell_again previous r in
      (r'.protection_required ≡ r.protection_required)
      × (is_pending r'.status ≡ is_pending r.status)
      × (is_fired members r' ≡ is_fired members r)
unfolding tell_again
tell_again-kept previous members r =
    elim (Bool-cases (is_pending r.status && not (previous == r.protection_required))) [
      | inl e ↦ rw (e, tell_again) (refl, refl, refl)
      | inr e ↦ rw (e, tell_again) (refl, refl, refl)
    ]

activate_reservation-required :
    (pig : ℕ) (notify : Bool) (members : List Participant) (now : ℕ) (r : RoastReservation)
    → (activate_reservation pig notify members now r).1.protection_required ≡ r.protection_required
unfolding activate_reservation
activate_reservation-required pig notify members now r = ground arith

waiting-IsFired :
    (members : List Participant) (r : RoastReservation)
    → is_pending r.status ≡ true
    → is_fired members r ≡ true
waiting-IsFired members r h = rw h refl

-- A waiting reservation takes over the condition of the protection as it now is. If the target has
-- come, the reservation starts if and only if its members have the fire for that condition; if it
-- has not come, it goes on waiting.
restart-starts :
    (now : ℕ) (removed : Bool) (row : GroupProtection) (s : Session) (r : RoastReservation)
    → is_pending r.status ≡ true
    → let members = participants_of r.reservation_id s in
      let r' = restart now r.protection_required s (retarget removed row r) in
      (r'.protection_required ≡ required_now removed row)
      × (is_pending r'.status
          ≡ not (is_set r.target_pig_id && can_start (retarget removed row r) members))
      × (is_fired members r' ≡ true)
unfolding restart retarget
restart-starts now removed row s r p =
    let r₁ = retarget removed row r in
    let members = participants_of r.reservation_id s in
    let a = activate_reservation-starts r.target_pig_id true members now r₁ p in
    let r₂ = (activate_reservation r.target_pig_id true members now r₁).1 in
    let t = tell_again-kept r.protection_required members r₂ in
    elim (Bool-cases (is_set r.target_pig_id)) [
      | inl e ↦
          rw (e, restart)
            (
              t.0 ∙ activate_reservation-required r.target_pig_id true members now r₁,
              t.1 ∙ a.1 ∙ ap not a.0,
              t.2 ∙ a.2,
            )
      | inr e ↦ rw (e, restart) (refl, p, waiting-IsFired members r₁ p)
    ]
