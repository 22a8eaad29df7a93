-- ===== src/Reservation/Join.antt =====
-- services/reservations.py, `prepare_reservation`: the branch for a reservation that exists.
use rollpig_cloud.Base.{
  ℕ, Bool, true, false, not, ◌&&◌, ◌||◌, Option, none, some, List, [], ◌∷◌, ◌++◌, map, ltb, leb,
  ◌==◌, if◌then◌else◌, is_some, is_set, find, select, length,
}
use rollpig_cloud.Usage.{consume_force_usage}
use rollpig_cloud.Store.{
  super, is_super, is_normal, is_unforced, is_pending, RoastReservation, Participant, DailyRoll,
  Session, Env,
}
use rollpig_cloud.Activity.{mark_group_active_users}
use rollpig_cloud.Reservation.{
  PrepareRequest, gathers, PrepareResponse, PrepareStatus, answer, reservation_closed,
  reservation_busy, already_joined, reservation_joined, reservation_upgraded, reservation_full,
  force_denied, participants_of, save, reservation_to_schema, can_reassign_protected_delivery,
  update_delivery_capability, activate_in, roast_reservation_max_participants,
}

-- An answer that shows the reservation.
abbrev answer_about : PrepareStatus → RoastReservation → Session → PrepareResponse × Session
answer_about status r s =
    (record (answer status) { reservation = some (reservation_to_schema s r) }, s)

-- An answer that shows the reservation, which has changed.
abbrev answer_with : PrepareStatus → RoastReservation → Session → PrepareResponse × Session
answer_with status r s = answer_about status r (save r s)

-- `reservation.target_pig_id or (target_roll.pig_id if target_roll else "")`
abbrev pub arrived_pig : RoastReservation → Option DailyRoll → ℕ
arrived_pig r none = r.target_pig_id
arrived_pig r (some roll) = if is_set r.target_pig_id then r.target_pig_id else roll.pig_id

-- The activation that follows a change of the members, if the target has come.
abbrev pub start_if_arrived : ℕ → Bool → Env → Session → RoastReservation → RoastReservation
start_if_arrived pig notify env s r =
    if is_set pig then (activate_in pig notify env.now s r).1 else r

abbrev pub is_person : ℕ → Participant → Bool
is_person user row = row.user_id == user

-- The members that keep their feed when the reservation is taken over.
pub feed_keepers : PrepareRequest → RoastReservation → List Participant → List ℕ
feed_keepers req r members =
    map (λ p. p.user_id)
      (select
        (λ p.
          not (p.user_id == req.attacker_id)
          && (is_unforced r.force_mode || is_set r.protection_required)
          && (not (is_set r.protection_required) || p.contribution == 1))
        members)

-- The row with its new leader; only clients that can gather deliver it.
abbrev pub taken_row : PrepareRequest → RoastReservation → List Participant → RoastReservation
taken_row req r members = record r {
  force_feed_user_ids = some (feed_keepers req r members);
  force_operator_id = req.attacker_id;
  force_operator_name = req.attacker_name;
  force_mode = super;
  delivery_bot_id = req.delivery_bot_id;
  delivery_gathering_version = 2;
}

-- A privileged user takes the reservation over.
unfoldable pub take_over :
    Env → PrepareRequest → RoastReservation → Option DailyRoll → Session → PrepareResponse × Session
unfolding feed_keepers
take_over env req r target_roll s =
    let taken = taken_row req r (participants_of r.reservation_id s) in
    let s' = mark_group_active_users req.date_str req.group_id (req.attacker_id ∷ []) s in
    answer_with reservation_joined (start_if_arrived (arrived_pig r target_roll) true env s' taken)
      s'

-- The attacker as a new member of the reservation.
abbrev pub new_member : ℕ → PrepareRequest → ℕ → Participant
new_member id req contribution = record {
  reservation_id = id;
  user_id = req.attacker_id;
  display_name = req.attacker_name;
  pig_id = req.attacker_pig_id;
  contribution = contribution;
}

-- `participant.contribution = 2`
abbrev pub double_contribution : ℕ → ℕ → Participant → Participant
double_contribution id user row =
    if row.reservation_id == id && row.user_id == user then record row { contribution = 2 } else row

-- The table of members after the attacker has joined, or has doubled the contribution.
unfoldable pub enrol : PrepareRequest → ℕ → Bool → Bool → List Participant → List Participant
enrol req id is_member boosted rows =
    if is_member
    then if boosted then map (double_contribution id req.attacker_id) rows else rows
    else rows ++ new_member id req (if boosted then 2 else 1) ∷ []

-- `reservation.waiting_notice = None`
abbrev pub without_notice : RoastReservation → RoastReservation
without_notice r = record r { waiting_notice = none }

-- The attacker joins, once every check has passed and the force chance is spent.
unfoldable pub admit :
    Env
    → PrepareRequest
    → RoastReservation
    → Option DailyRoll
    → Bool
    → Bool
    → Session
    → PrepareResponse × Session
unfolding enrol
admit env req r target_roll is_member boosted s =
    let s₁ : Session = record s {
      participants = enrol req r.reservation_id is_member boosted s.participants;
    } in
    let r₁ = without_notice (update_delivery_capability r req) in
    let s₂ = mark_group_active_users req.date_str req.group_id (req.attacker_id ∷ []) s₁ in
    answer_with (if is_member && boosted then reservation_upgraded else reservation_joined)
      (start_if_arrived (arrived_pig r target_roll) false env s₂ r₁) s₂

abbrev pub contribution_of : Option Participant → ℕ
contribution_of none = 0
contribution_of (some p) = p.contribution

-- An ordinary or boosted join of a pending reservation.
unfoldable pub join_pending :
    Env → PrepareRequest → RoastReservation → Option DailyRoll → Session → PrepareResponse × Session
join_pending env req r target_roll s =
    let members = participants_of r.reservation_id s in
    let participant = find (is_person req.attacker_id) members in
    let boosted = is_set r.protection_required && is_normal req.force_mode in
    let contribution = contribution_of participant in
    let (allowed, usages) = consume_force_usage req.attacker_id req.date_str s.usages in
    if is_some participant && not (boosted && ltb contribution 2)
    then answer_with already_joined (without_notice (update_delivery_capability r req)) s
    else if not (is_some participant) && leb roast_reservation_max_participants (length members)
    then answer_about reservation_full r s
    else if boosted && not allowed
    then (answer force_denied, record s { usages = usages })
    else admit env req r target_roll (is_some participant) boosted
        (if boosted then record s { usages = usages } else s)

-- The branch for a reservation that was found.
unfoldable pub join :
    Env → PrepareRequest → RoastReservation → Option DailyRoll → Session → PrepareResponse × Session
join env req r target_roll s =
    let leader = (if is_set r.force_operator_id then r.force_operator_id else r.owner_id) in
    if not (is_pending r.status)
    then if can_reassign_protected_delivery r req
      then answer_with reservation_busy (update_delivery_capability r req) s
      else answer_about reservation_busy r s
    else if is_super r.force_mode
    then answer_about (if leader == req.attacker_id then already_joined else reservation_closed) r s
    else if is_super req.force_mode
    then if gathers req
      then take_over env req r target_roll s
      else answer_about reservation_closed r s
    else join_pending env req r target_roll s
