-- ===== src/Reservation/Create.antt =====
-- services/reservations.py, `prepare_reservation`: the look-ups, and the branch that creates a
-- reservation. `none` is an IntegrityError, with which the transaction is rolled back.
use rollpig_cloud.Base.{
  ℕ, ◌+◌, Bool, true, false, not, ◌&&◌, ◌||◌, Option, none, some, [], ◌∷◌, ◌++◌, ◌==◌,
  if◌then◌else◌, is_some, is_set, find, any,
}
use rollpig_cloud.Usage.{ConsumeRoastResponse, consume_force_usage, consume_roast_usage}
use rollpig_cloud.Protection.{
  GroupProtection, Source, legacy, protection_level, protection_source, inherit_global_protection,
}
use rollpig_cloud.Store.{
  all_groups, is_super, is_normal, pending, is_pending, RoastReservation, DailyRoll, Session, Env,
}
use rollpig_cloud.Progress.{find_roll, present}
use rollpig_cloud.Activity.{mark_group_active_users}
use rollpig_cloud.Reservation.{
  PrepareRequest, gathers, PrepareResponse, answer, protected, reservation_closed, force_denied,
  cooldown_denied, target_ready, reservation_created, is_protected_row, has_id,
  reservation_to_schema, activate_in, save,
}
use rollpig_cloud.Reservation.Join.{join, new_member}

-- The protection that applies, inherited into the group for a client that supports it.
unfoldable pub locate_protection : PrepareRequest → Session → Option GroupProtection × Session
unfolding inherit_global_protection
locate_protection req s =
    let global = find (is_protected_row req.date_str all_groups req.target_id) s.protections in
    elim (find (is_protected_row req.date_str req.group_id req.target_id) s.protections) [
      | some row ↦ (some row, s)
      | none ↦ elim global [
        | none ↦ (none, s)
        | some old ↦
            let row = inherit_global_protection old req.group_id in
            if req.supports_protection_gathering
            then (some row, record s { protections = s.protections ++ row ∷ [] })
            else (some old, s)
      ]
    ]

-- The reservation of the scope that a request meets.
abbrev pub meets : PrepareRequest → RoastReservation → Bool
meets req r =
    r.date_str == req.date_str
    && r.group_id == req.group_id
    && r.target_id == req.target_id
    && r.active_slot
    && (is_pending r.status || is_set r.protection_required || is_super req.force_mode)

-- The unique key on date, group, target and active slot.
abbrev pub blocks : PrepareRequest → RoastReservation → Bool
blocks req r =
    r.date_str == req.date_str
    && r.group_id == req.group_id
    && r.target_id == req.target_id
    && r.active_slot

abbrev required_fire : PrepareRequest → Option GroupProtection → ℕ
required_fire req none = 0
required_fire req (some row) =
    if req.supports_protection_gathering then 1 + protection_level row else 0

abbrev named_source : Option GroupProtection → Source
named_source none = legacy
named_source (some row) = protection_source row

pub new_reservation : Env → PrepareRequest → Option GroupProtection → RoastReservation
new_reservation env req protection = record {
  reservation_id = env.uuid;
  date_str = req.date_str;
  group_id = req.group_id;
  target_id = req.target_id;
  target_name = req.target_name;
  target_pig_id = 0;
  owner_id = req.attacker_id;
  owner_name = req.attacker_name;
  owner_pig_id = req.attacker_pig_id;
  delivery_bot_id = req.delivery_bot_id;
  force_mode = req.force_mode;
  status = pending;
  active_slot = true;
  protection_required = required_fire req protection;
  protection_source = named_source protection;
  waiting_notice = none;
  delivery_gathering_version = if gathers req then 2 else 0;
  force_operator_id = 0;
  force_operator_name = 0;
  force_feed_user_ids = none;
  outcome_snapshot = none;
  daily_feed_results = none;
  claim_token = none;
  ready_at = none;
  claimed_at = none;
  completed_at = none;
}

-- A reservation for a target that has come is started if it can be.
abbrev pub start_on_roll : Env → Session → Option DailyRoll → RoastReservation → RoastReservation
start_on_roll env s none r = r
start_on_roll env s (some roll) r = (activate_in roll.pig_id false env.now s r).1

-- The new row and its owner as first member.
abbrev pub with_reservation : PrepareRequest → RoastReservation → ℕ → Session → Session
with_reservation req r contribution s = record s {
  reservations = s.reservations ++ r ∷ [];
  participants = s.participants ++ new_member r.reservation_id req contribution ∷ [];
}

-- The reservation and its owner as first member, once the roast is paid for.
unfoldable pub open_reservation :
    Env
    → PrepareRequest
    → Option GroupProtection
    → Option DailyRoll
    → Option ConsumeRoastResponse
    → Session
    → Option (PrepareResponse × Session)
unfolding new_reservation
open_reservation env req protection target_roll cooldown s =
    let is_protected = is_some protection in
    let r = new_reservation env req protection in
    let s₁ = with_reservation req r (if is_protected && is_normal req.force_mode then 2 else 1) s in
    let s₂ = mark_group_active_users req.date_str req.group_id (req.attacker_id ∷ []) s₁ in
    let started = start_on_roll env s₂ target_roll r in
    let s₃ = save started s₂ in
    if any (blocks req) s.reservations || any (has_id env.uuid) s.reservations
    then none
    else some (
      record (answer reservation_created) {
        reservation = some (reservation_to_schema s₃ started);
        cooldown = cooldown;
        protection_broken = is_protected && is_super req.force_mode;
      },
      s₃,
    )

-- The branch for no reservation: pay by the force chance or by a charge, and create one.
unfoldable pub create :
    Env
    → PrepareRequest
    → Option GroupProtection
    → Option DailyRoll
    → ℕ
    → Session
    → Option (PrepareResponse × Session)
create env req protection target_roll clock s =
    let (allowed, forced_usages) = consume_force_usage req.attacker_id req.date_str s.usages in
    let (cooldown, roast_usages) =
      consume_roast_usage req.attacker_id req.now_ts req.cooldown_seconds req.max_charges clock
        s.usages in
    let forced : Session = record s { usages = forced_usages } in
    let roasted : Session = record s { usages = roast_usages } in
    if is_normal req.force_mode
    then if allowed
      then open_reservation env req protection target_roll none forced
      else some (answer force_denied, forced)
    else if is_super req.force_mode
    then open_reservation env req protection target_roll none s
    else if cooldown.allowed
    then open_reservation env req protection target_roll (some cooldown) roasted
    else some (record (answer cooldown_denied) { cooldown = some cooldown }, roasted)

-- `expected_reservation_id` rules out the reservation that was found.
abbrev pub is_unexpected : Option ℕ → Option DailyRoll → Option RoastReservation → Bool
is_unexpected none target_roll found = false
is_unexpected (some id) target_roll none = true
is_unexpected (some id) target_roll (some r) =
    not (r.reservation_id == id)
    || (is_some target_roll && not (is_set r.protection_required))
    || not (is_pending r.status)

-- `target_roll and (not is_protected or (force_mode == "super" and not supports…))`
abbrev pub target_is_open : PrepareRequest → Option GroupProtection → Bool
target_is_open req protection =
    not (is_some protection) || (is_super req.force_mode && not req.supports_protection_gathering)

-- The branches for a reservation that was found and for none.
unfoldable pub proceed :
    Env
    → PrepareRequest
    → ℕ
    → Option GroupProtection
    → Option DailyRoll
    → Option RoastReservation
    → Session
    → Option (PrepareResponse × Session)
unfolding join create
proceed env req clock protection target_roll (some r) s = some (join env req r target_roll s)
proceed env req clock protection none none s = create env req protection none clock s
proceed env req clock protection (some roll) none s =
    if target_is_open req protection
    then some (
      record (answer target_ready) {
        target_pig_id = roll.pig_id;
        protection_broken = is_some protection && is_super req.force_mode;
      },
      s,
    )
    else create env req protection (some roll) clock s

-- What follows the look-ups.
unfoldable pub dispatch :
    Env
    → PrepareRequest
    → Option ℕ
    → ℕ
    → Option GroupProtection
    → Option DailyRoll
    → Option RoastReservation
    → Session
    → Option (PrepareResponse × Session)
unfolding proceed
dispatch env req expected clock protection target_roll found s =
    if is_unexpected expected target_roll found
    then some (answer reservation_closed, s)
    else proceed env req clock protection target_roll found s

-- `prepare_reservation`; `clock` is `time.time()`.
unfoldable pub prepare_reservation :
    Env → PrepareRequest → Option ℕ → ℕ → Session → Option (PrepareResponse × Session)
unfolding locate_protection dispatch
prepare_reservation env req expected clock s =
    let (protection, s') = locate_protection req s in
    let target_roll = present (find_roll req.date_str req.target_id s') in
    let found = find (meets req) s'.reservations in
    if is_some protection && not (gathers req) && not (is_super req.force_mode)
    then some (answer protected, s')
    else dispatch env req expected clock protection target_roll found s'
