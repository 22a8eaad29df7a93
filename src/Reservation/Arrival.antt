-- ===== src/Reservation/Arrival.antt =====
-- What the reconciliation of services/reservations.py promises.
use rollpig_cloud.Base.{
  ℕ, ◌≡◌, ap, inl, inr, Bool, true, false, not, ◌&&◌, ◌||◌, Option, none, some, List, [], ◌==◌,
  is_some, update, arith, Bool-cases, Option-cases, All, All-update_to, All-map,
}
use rollpig_cloud.Store.{is_pending, RoastReservation, Participant, DailyRoll, Session, Env}
use rollpig_cloud.Progress.{find_roll, present}
use rollpig_cloud.Reservation.{
  PrepareRequest, PrepareResponse, participants_of, can_start, activate_reservation,
}
use rollpig_cloud.Reservation.Reconcile.{
  waits_for, reconcile_row, activate_target_reservations, activate_if_target_already_rolled,
  after_commit, prepare, commit, reconciles, id_of_item,
}
use rollpig_cloud.Reservation.Fire.{is_fired, IsFiredIn}
use rollpig_cloud.Reservation.Sound.{IsSound}
use rollpig_cloud.Reservation.Prepared.{Leaves, prepare_reservation-IsSound}

reconcile_row-fired :
    (pig handled now : ℕ) (s : Session) (r : RoastReservation)
    → is_pending r.status ≡ true
    → let r' = reconcile_row pig handled now s r in
      (is_pending r'.status ≡ not (can_start r (participants_of r.reservation_id s)))
      × (is_fired (participants_of r.reservation_id s) r' ≡ true)
      × (r'.target_pig_id ≡ pig)
      × (r'.reservation_id ≡ r.reservation_id)
      × (can_start r' (participants_of r.reservation_id s)
          ≡ can_start r (participants_of r.reservation_id s))
unfolding reconcile_row activate_reservation
reconcile_row-fired pig handled now s r h = ground arith

-- The reservations of the target after reconciliation: a pending one is left only where the fire is
-- short, and the target's pig is known in each.
abbrev pub IsReconciled : ℕ → ℕ → ℕ → Session → RoastReservation → Type 0
IsReconciled date target pig s r =
    (not (waits_for date target r)
      || (not (can_start r (participants_of r.reservation_id s)) && r.target_pig_id == pig))
    ≡ true

settled :
    (date target pig : ℕ) (r : RoastReservation) (members : List Participant) (b : Bool)
    → is_pending r.status ≡ not b
    → r.target_pig_id ≡ pig
    → can_start r members ≡ b
    → (not (waits_for date target r) || (not (can_start r members) && r.target_pig_id == pig))
      ≡ true
settled date target pig r members false p q c = ground (arith, p, q, c)
settled date target pig r members true p q c = ground (arith, p, q, c)

module _ (date target pig handled now : ℕ) (s : Session) where
  pub IsReconciled-All :
      All (IsFiredIn s) s.reservations
      → All
          (λ r. IsFiredIn s r × IsReconciled date target pig s r)
          (update (waits_for date target) (reconcile_row pig handled now s) s.reservations)
  IsReconciled-All all =
      All-update_to (IsFiredIn s) (λ r. IsFiredIn s r × IsReconciled date target pig s r)
        (waits_for date target) (reconcile_row pig handled now s) s.reservations
        (λ r h p. hit r (reconcile_row-fired pig handled now s r (ground (arith, h))))
        (λ r h p. (p, ground (arith, h))) all
    where
      hit :
          (r : RoastReservation)
          → let r' = reconcile_row pig handled now s r in
            (is_pending r'.status ≡ not (can_start r (participants_of r.reservation_id s)))
              × (is_fired (participants_of r.reservation_id s) r' ≡ true)
              × (r'.target_pig_id ≡ pig)
              × (r'.reservation_id ≡ r.reservation_id)
              × (can_start r' (participants_of r.reservation_id s)
                  ≡ can_start r (participants_of r.reservation_id s))
            → IsFiredIn s r' × IsReconciled date target pig s r'
      hit r f = (
        rw f.3 f.1,
        rw f.3 (
            settled date target pig (reconcile_row pig handled now s r)
              (participants_of r.reservation_id s)
              (can_start r (participants_of r.reservation_id s)) f.0 f.2 f.4),
      )

no_makeup :
    (o : Option DailyRoll)
    → is_some (present o) ≡ true
    → (is_some o && not (is_some (present o))) ≡ false
no_makeup o h = ground arith

pub activate_target_reservations-cases :
    (date target pig handled now : ℕ) (s : Session)
    → IsSound s
    → (is_some (present (find_roll date target s)) ≡ true)
    → let s' = (activate_target_reservations date target pig handled now s).1 in
      IsSound s' × All (IsReconciled date target pig s') s'.reservations
unfolding activate_target_reservations
activate_target_reservations-cases date target pig handled now s sound here =
    let all = IsReconciled-All date target pig handled now s sound.fired in
    rw (no_makeup (find_roll date target s) here, activate_target_reservations)
      (
        record { fired = All-map _ _ _ (λ r p. p.0) all; within = sound.within },
        All-map _ _ _ (λ r p. p.1) all,
      )

pub activate_target_reservations-IsSound :
    (date target pig handled now : ℕ) (s : Session)
    → IsSound s
    → IsSound (activate_target_reservations date target pig handled now s).1
unfolding activate_target_reservations
activate_target_reservations-IsSound date target pig handled now s sound =
    let all = IsReconciled-All date target pig handled now s sound.fired in
    let o = find_roll date target s in
    elim (Bool-cases (is_some o && not (is_some (present o)))) [
      | inl e ↦ rw (e, activate_target_reservations) sound
      | inr e ↦
          rw (e, activate_target_reservations)
            (record { fired = All-map _ _ _ (λ r p. p.0) all; within = sound.within })
    ]

activate_if_target_already_rolled-IsSound :
    (date target handled now : ℕ) (s : Session)
    → IsSound s
    → IsSound (activate_if_target_already_rolled date target handled now s).1
unfolding activate_if_target_already_rolled
activate_if_target_already_rolled-IsSound date target handled now s sound =
    elim (Option-cases (present (find_roll date target s))) [
      | inl e ↦ rw (e, activate_if_target_already_rolled) sound
      | inr (roll, e) ↦
          rw (e, activate_if_target_already_rolled)
            (activate_target_reservations-IsSound date target roll.pig_id handled now s sound)
    ]

-- If the target has come, reconciliation leaves no reservation of the target pending that could
-- start: those still pending know the target's pig and are short of fire.
activate_if_target_already_rolled-IsReconciled :
    (date target handled now : ℕ) (s : Session) (roll : DailyRoll)
    → present (find_roll date target s) ≡ some roll
    → IsSound s
    → let s' = (activate_if_target_already_rolled date target handled now s).1 in
      All (IsReconciled date target roll.pig_id s') s'.reservations
unfolding activate_if_target_already_rolled
activate_if_target_already_rolled-IsReconciled date target handled now s roll e sound =
    rw (e, activate_if_target_already_rolled)
      (activate_target_reservations-cases date target roll.pig_id handled now s sound
        (ap is_some e)).1

after_commit-IsSound :
    (env : Env) (req : PrepareRequest) (o : Option (PrepareResponse × Session))
    → Leaves IsSound o
    → Leaves IsSound (commit o (after_commit env req))
unfolding after_commit
after_commit-IsSound env req none sound = tt
after_commit-IsSound env req (some (response, s)) sound =
    let s' =
      activate_if_target_already_rolled-IsSound req.date_str req.target_id
        (id_of_item response.reservation) env.now s sound in
    elim (Bool-cases (reconciles response.status)) [
      | inl e ↦ rw (e, after_commit) s'
      | inr e ↦ rw (e, after_commit) sound
    ]

-- POST /prepare leaves a sound session or is rolled back: no reservation has left `pending` without
-- the fire that it requires, and no party has more than twelve members. The session was sound and
-- the new id is not in use.
pub prepare-IsSound :
    (env : Env) (req : PrepareRequest) (clock : ℕ) (s : Session)
    → participants_of env.uuid s ≡ []
    → IsSound s
    → Leaves IsSound (prepare env req clock s)
unfolding prepare
prepare-IsSound env req clock s fresh sound =
    after_commit-IsSound env req _ (prepare_reservation-IsSound env req none clock s fresh sound)
