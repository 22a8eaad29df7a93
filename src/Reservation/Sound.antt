-- ===== src/Reservation/Sound.antt =====
-- `prepare_reservation` keeps parties within their size and starts no roast without the fire.

use rollpig_cloud.Base.{
  ℕ, ◌+◌, ◌≤◌, ◌≡◌, refl, ap, ◌∙◌, inl, inr, Bool, true, false, not, ◌&&◌, Option, some, List, [],
  ◌∷◌, ltb, leb, ◌==◌, if◌then◌else◌, is_some, is_set, find, select, length, arith, Bool-cases, All,
  All-update_to, All-find, ==_iff,
}
use rollpig_cloud.Store.{
  is_pending, is_super, is_normal, RoastReservation, Participant, Session, Env, DailyRoll,
}
use rollpig_cloud.Usage.{UserUsage, consume_force_usage}
use rollpig_cloud.Activity.{mark_group_active_users}
use rollpig_cloud.Reservation.{
  PrepareRequest, gathers, is_member, has_id, participants_of, save, update_delivery_capability,
  can_reassign_protected_delivery,
}
use rollpig_cloud.Reservation.Join.{
  enrol, start_if_arrived, take_over, admit, join_pending, join, arrived_pig, taken_row,
  without_notice, is_person, contribution_of,
}
use rollpig_cloud.Reservation.Fire.{
  is_fired, IsFiredIn, start_if_arrived-fired, update_delivery_capability-keeps, enrol-members,
}

-- No reservation has left `pending` without the fire that it requires, and no party is too large.
pub record IsSound (s : Session) : Type 0 where
  pub fired : All (IsFiredIn s) s.reservations
  pub within : (id : ℕ) → length (participants_of id s) ≤ 12

pub mark-tables :
    (date group : ℕ) (users : List ℕ) (s : Session)
    → let s' = mark_group_active_users date group users s in
      (s'.participants ≡ s.participants)
      × (s'.reservations ≡ s.reservations)
      × (s'.usages ≡ s.usages)
      × (s'.protections ≡ s.protections)
unfolding mark_group_active_users
mark-tables date group users s = ground arith

-- Saving a row, where only the members of that row may have changed.
save-fired :
    (s s' : Session) (r : RoastReservation)
    → s'.reservations ≡ s.reservations
    → ((other : ℕ)
        → (other == r.reservation_id) ≡ false
        → participants_of other s' ≡ participants_of other s)
    → IsFiredIn s' r
    → All (IsFiredIn s) s.reservations
    → All (IsFiredIn (save r s')) (save r s').reservations
save-fired s s' r same others mine all = rw same (
    All-update_to (IsFiredIn s) (IsFiredIn s') (has_id r.reservation_id) (λ _. r) s.reservations
      (λ x h p. mine) (λ x h p. rw (others x.reservation_id h) p) all)

-- Saving a row when the members stay as they are.
save-IsSound :
    (s s' : Session) (r : RoastReservation)
    → s'.reservations ≡ s.reservations
    → s'.participants ≡ s.participants
    → IsFiredIn s' r
    → IsSound s
    → IsSound (save r s')
save-IsSound s s' r same members mine sound = record {
  fired =
      save-fired s s' r same (λ other h. ap (select (is_member other)) members) mine sound.fired;
  within = λ id. rw members (sound.within id);
}

capability-fired :
    (members : List Participant) (r : RoastReservation) (req : PrepareRequest)
    → is_fired members r ≡ true
    → is_fired members (update_delivery_capability r req) ≡ true
capability-fired members r req h = ground (arith, update_delivery_capability-keeps r req)

take_over-IsSound :
    (env : Env) (req : PrepareRequest) (r : RoastReservation) (roll : Option DailyRoll)
    (s : Session)
    → is_pending r.status ≡ true
    → IsSound s
    → IsSound (take_over env req r roll s).1
unfolding take_over
take_over-IsSound env req r roll s h sound =
    let taken = taken_row req r (participants_of r.reservation_id s) in
    let pig = arrived_pig r roll in
    let s' = mark_group_active_users req.date_str req.group_id (req.attacker_id ∷ []) s in
    let marked = mark-tables req.date_str req.group_id (req.attacker_id ∷ []) s in
    let started = start_if_arrived-fired pig true env s' taken h in
    save-IsSound s s' (start_if_arrived pig true env s' taken) marked.1 marked.0 started.0 sound

admit-IsSound :
    (env : Env) (req : PrepareRequest) (r : RoastReservation) (roll : Option DailyRoll)
    (m boosted : Bool) (s s₀ : Session)
    → s₀.reservations ≡ s.reservations
    → s₀.participants ≡ s.participants
    → is_pending r.status ≡ true
    → length (participants_of r.reservation_id s) + (if m then 0 else 1) ≤ 12
    → IsSound s
    → IsSound (admit env req r roll m boosted s₀).1
unfolding admit
admit-IsSound env req r roll m boosted s s₀ same members h size sound =
    let id = r.reservation_id in
    let s₁ : Session = record s₀ { participants = enrol req id m boosted s₀.participants } in
    let r₁ = without_notice (update_delivery_capability r req) in
    let kept = update_delivery_capability-keeps r req in
    let s₂ = mark_group_active_users req.date_str req.group_id (req.attacker_id ∷ []) s₁ in
    let marked = mark-tables req.date_str req.group_id (req.attacker_id ∷ []) s₁ in
    let started = start_if_arrived-fired (arrived_pig r roll) false env s₂ r₁ (rw kept.0 h) in
    let r₂ = start_if_arrived (arrived_pig r roll) false env s₂ r₁ in
    let same_id : r₂.reservation_id ≡ id = started.1.same_id ∙ kept.3.same_id in
    record {
      fired =
          save-fired s s₂ r₂ (marked.1 ∙ same)
            (λ other e.
              rw (marked.0, members)
                ((enrol-members req id other m boosted s.participants).0 (rw same_id at e)))
            started.0 sound.fired;
      within = λ other.
          rw (marked.0, members)
            (elim (Bool-cases (other == id)) [
              | inl e ↦
                  rw
                    ((==_iff other id).0 e, (enrol-members req id other m boosted s.participants).1)
                    size
              | inr e ↦
                  rw ((enrol-members req id other m boosted s.participants).0 e)
                    (sound.within other)
            ]);
    }

-- The row that the look-up found is fired as the others are.
pub found-fired :
    (p : RoastReservation → Bool) (s : Session) (r : RoastReservation)
    → IsSound s
    → find p s.reservations ≡ some r
    → IsFiredIn s r
found-fired p s r sound e = All-find (IsFiredIn s) p s.reservations r sound.fired e

unchanged :
    (s : Session) (r r' : RoastReservation)
    → r'.reservation_id ≡ r.reservation_id
    → is_fired (participants_of r.reservation_id s) r' ≡ true
    → IsSound s
    → IsSound (save r' s)
unchanged s r r' same mine sound = save-IsSound s s r' refl refl (rw same mine) sound

paid-tables :
    (b : Bool) (usages : List UserUsage) (s : Session)
    → let s' = (if b then record s { usages = usages } else s) in
      (s'.reservations ≡ s.reservations) × (s'.participants ≡ s.participants)
paid-tables true usages s = (refl, refl)
paid-tables false usages s = (refl, refl)

room_left :
    (m : Bool) (n : ℕ) → (not m && leb 12 n) ≡ false → n ≤ 12 → n + (if m then 0 else 1) ≤ 12
room_left true n h le = omega arith
room_left false n h le = ground arith

join_pending-IsSound :
    (env : Env) (req : PrepareRequest) (r : RoastReservation) (roll : Option DailyRoll)
    (s : Session)
    → is_pending r.status ≡ true
    → IsFiredIn s r
    → IsSound s
    → IsSound (join_pending env req r roll s).1
unfolding join_pending
join_pending-IsSound env req r roll s h mine sound =
    let kept = update_delivery_capability-keeps r req in
    let id = r.reservation_id in
    let members = participants_of id s in
    let participant = find (is_person req.attacker_id) members in
    let boosted = is_set r.protection_required && is_normal req.force_mode in
    let usages = (consume_force_usage req.attacker_id req.date_str s.usages).1 in
    let calm = capability-fired members r req mine in
    let again =
      unchanged s r (without_notice (update_delivery_capability r req)) kept.3.same_id calm sound in
    elim (Bool-cases
      (is_some participant && not (boosted && ltb (contribution_of participant) 2))) [
        | inl e ↦ rw (e, join_pending) again
        | inr e ↦ elim (Bool-cases (not (is_some participant) && leb 12 (length members))) [
          | inl f ↦ rw (e, f, join_pending) sound
          | inr f ↦
              elim (Bool-cases
                (boosted && not (consume_force_usage req.attacker_id req.date_str s.usages).0)) [
                  | inl g ↦
                      rw (e, f, g, join_pending)
                        (record { fired = sound.fired; within = sound.within })
                  | inr g ↦
                      let same = paid-tables boosted usages s in
                      let room : length members + (if is_some participant then 0 else 1) ≤ 12 =
                        room_left (is_some participant) (length members) f (sound.within id) in
                      rw (e, f, g, join_pending)
                        (admit-IsSound env req r roll (is_some participant) boosted s _ same.0
                          same.1 h room sound)
                ]
        ]
      ]

-- Every branch for a reservation that exists keeps the session sound.
pub join-IsSound :
    (env : Env) (req : PrepareRequest) (r : RoastReservation) (roll : Option DailyRoll)
    (s : Session)
    → IsFiredIn s r
    → IsSound s
    → IsSound (join env req r roll s).1
unfolding join
join-IsSound env req r roll s mine sound =
    let kept = update_delivery_capability-keeps r req in
    let reassigned =
      unchanged s r (update_delivery_capability r req) kept.3.same_id
        (capability-fired (participants_of r.reservation_id s) r req mine) sound in
    elim (Bool-cases (is_pending r.status)) [
      | inr busy ↦
          rw (busy, join)
            (elim (Bool-cases (can_reassign_protected_delivery r req)) [
              | inl can ↦ rw can reassigned
              | inr cannot ↦ rw cannot sound
            ])
      | inl open_now ↦ elim (Bool-cases (is_super r.force_mode)) [
        | inl taken ↦ rw (open_now, taken, join) sound
        | inr free ↦ elim (Bool-cases (is_super req.force_mode)) [
          | inl takes ↦
              rw (open_now, free, takes, join)
                (elim (Bool-cases (gathers req)) [
                  | inl can ↦ rw can (take_over-IsSound env req r roll s open_now sound)
                  | inr cannot ↦ rw cannot sound
                ])
          | inr joins ↦
              rw (open_now, free, joins, join)
                (join_pending-IsSound env req r roll s open_now mine sound)
        ]
      ]
    ]
