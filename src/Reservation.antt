-- ===== src/Reservation.antt =====
-- services/reservations.py: creating, joining and starting a reservation.
pub mod Join
pub mod Create
pub mod Fire
pub mod Sound
pub mod Prepared
pub mod Reconcile
pub mod Arrival
pub mod Collision
use rollpig_cloud.Base.{
  ℕ, ◌+◌, ◌≤◌, Bool, true, false, not, ◌&&◌, ◌||◌, Option, none, some, List, [], ◌∷◌, ◌++◌, map,
  ltb, leb, ◌==◌, if◌then◌else◌, is_some, get_or, is_set, find, select, update, any, sum_by, length,
  ℤ,
}
use rollpig_cloud.Usage.{ConsumeRoastResponse, consume_force_usage, consume_roast_usage}
use rollpig_cloud.Protection.{
  GroupProtection, Source, legacy, protection_level, protection_source, inherit_global_protection,
}
use rollpig_cloud.Store.{
  all_groups, ForceMode, unforced, normal, super, is_super, is_normal, is_unforced, Status, pending,
  ready, processing, prepared, is_pending, is_ready, Notice, pending_notice, RoastReservation,
  Participant, DailyRoll, Session, Env, DailyFeedResult, Outcome,
}
use rollpig_cloud.Progress.{find_roll, present}
use rollpig_cloud.Activity.{mark_group_active_users}

abbrev pub roast_reservation_max_participants : ℕ
roast_reservation_max_participants = 12

pub record PrepareRequest : Type 0 where
  pub attacker_id : ℕ
  pub attacker_name : ℕ
  pub attacker_pig_id : ℕ
  pub target_id : ℕ
  pub target_name : ℕ
  pub group_id : ℕ
  pub delivery_bot_id : ℕ
  pub force_mode : ForceMode
  pub date_str : ℕ
  pub now_ts : Option ℕ
  pub cooldown_seconds : Option ℤ
  pub max_charges : Option ℤ
  pub supports_protection_gathering : Bool
  pub protection_gathering_version : ℕ

-- `supports_protection_gathering and protection_gathering_version >= 2`
abbrev pub gathers : PrepareRequest → Bool
gathers req = req.supports_protection_gathering && leb 2 req.protection_gathering_version

pub record ReservationItem : Type 0 where
  pub reservation_id : ℕ
  pub date_str : ℕ
  pub group_id : ℕ
  pub target_id : ℕ
  pub target_name : ℕ
  pub target_pig_id : ℕ
  pub owner_id : ℕ
  pub owner_name : ℕ
  pub owner_pig_id : ℕ
  pub participants : List Participant
  pub delivery_bot_id : ℕ
  pub force_mode : ForceMode
  pub status : Status
  pub outcome_snapshot : Option Outcome
  pub daily_feed_results : List DailyFeedResult
  pub claim_token : ℕ
  pub protection_required : ℕ
  pub protection_source : Source
  pub force_operator_id : ℕ
  pub force_operator_name : ℕ
  pub force_feed_user_ids : List ℕ

pub data PrepareStatus : Type 0 where
  protected reservation_closed reservation_busy already_joined reservation_joined : PrepareStatus
  reservation_upgraded reservation_full force_denied cooldown_denied target_ready : PrepareStatus
  reservation_created message_not_found self_target attacker_unrolled : PrepareStatus

pub record PrepareResponse : Type 0 where
  pub status : PrepareStatus
  pub reservation : Option ReservationItem
  pub cooldown : Option ConsumeRoastResponse
  pub target_pig_id : ℕ
  pub protection_broken : Bool

abbrev pub answer : PrepareStatus → PrepareResponse
answer status = record {
  status = status;
  reservation = none;
  cooldown = none;
  target_pig_id = 0;
  protection_broken = false;
}

abbrev pub is_protected_row : ℕ → ℕ → ℕ → GroupProtection → Bool
is_protected_row date group user row =
    row.protect_date == date && row.group_id == group && row.user_id == user

abbrev pub has_id : ℕ → RoastReservation → Bool
has_id id row = row.reservation_id == id

abbrev pub is_member : ℕ → Participant → Bool
is_member id row = row.reservation_id == id

-- `_locked_participants`: the members in the order in which they joined.
abbrev pub participants_of : ℕ → Session → List Participant
participants_of id s = select (is_member id) s.participants

-- The contributions of the members together.
abbrev fire : List Participant → ℕ
fire = sum_by (λ p. p.contribution)

-- The row that a reservation object stands for, written back.
abbrev pub save : RoastReservation → Session → Session
save r s = record s { reservations = update (has_id r.reservation_id) (λ _. r) s.reservations }

unfoldable pub reservation_to_schema : Session → RoastReservation → ReservationItem
reservation_to_schema s r = record {
  reservation_id = r.reservation_id;
  date_str = r.date_str;
  group_id = r.group_id;
  target_id = r.target_id;
  target_name = r.target_name;
  target_pig_id = r.target_pig_id;
  owner_id = r.owner_id;
  owner_name = r.owner_name;
  owner_pig_id = r.owner_pig_id;
  participants = participants_of r.reservation_id s;
  delivery_bot_id = r.delivery_bot_id;
  force_mode = r.force_mode;
  status = r.status;
  outcome_snapshot = r.outcome_snapshot;
  daily_feed_results = get_or r.daily_feed_results [];
  claim_token = get_or r.claim_token 0;
  protection_required = r.protection_required;
  protection_source = r.protection_source;
  force_operator_id = r.force_operator_id;
  force_operator_name = r.force_operator_name;
  force_feed_user_ids = get_or r.force_feed_user_ids [];
}

pub can_reassign_protected_delivery : RoastReservation → PrepareRequest → Bool
can_reassign_protected_delivery r req =
    is_set r.protection_required
    && not (is_super r.force_mode)
    && ltb r.delivery_gathering_version 2
    && (is_pending r.status || is_ready r.status)
    && not (is_some r.outcome_snapshot)
    && not (is_set (get_or r.claim_token 0))
    && gathers req
    && is_set req.delivery_bot_id

pub update_delivery_capability : RoastReservation → PrepareRequest → RoastReservation
unfolding can_reassign_protected_delivery
update_delivery_capability r req =
    let bot =
      (if can_reassign_protected_delivery r req then req.delivery_bot_id else r.delivery_bot_id) in
    if gathers req
    then record r {
      delivery_bot_id = bot;
      delivery_gathering_version =
          if bot == req.delivery_bot_id then 2 else r.delivery_gathering_version;
    }
    else r

-- Whether the members can start the roast: no protection, a takeover, or enough fire.
abbrev pub can_start : RoastReservation → List Participant → Bool
can_start r members =
    not (is_set r.protection_required && not (is_super r.force_mode))
    || leb r.protection_required (fire members)

-- `_activate_reservation` on the members that the session holds.
unfoldable pub activate_reservation :
    ℕ → Bool → List Participant → ℕ → RoastReservation → Bool × RoastReservation
activate_reservation pig notify_waiting members now r =
    let first_arrival = not (is_set r.target_pig_id) in
    if can_start r members
    then (
      true,
      record r { target_pig_id = pig; waiting_notice = none; status = ready; ready_at = some now },
    )
    else (
      false,
      record r {
        target_pig_id = pig;
        waiting_notice =
            if first_arrival && notify_waiting then some pending_notice else r.waiting_notice;
      },
    )

-- `_activate_reservation` on a row of the session.
abbrev pub activate_in : ℕ → Bool → ℕ → Session → RoastReservation → Bool × RoastReservation
activate_in pig notify now s r =
    activate_reservation pig notify (participants_of r.reservation_id s) now r
