-- ===== src/Events.antt =====
-- services/events.py: the events of roasts, and the route POST /events of routers/events.py.
pub mod Once
use rollpig_cloud.Base.{
  ℕ, ◌+◌, ◌-◌, Bool, true, false, not, ◌&&◌, ◌||◌, Option, none, some, List, [], ◌∷◌, ◌++◌, map,
  ◌==◌, if◌then◌else◌, is_some, get_or, is_set, find, any, length,
}
use rollpig_cloud.Store.{
  ForceMode, unforced, is_super, is_unforced, EventType, bot_backfire, is_success, EventSnapshot,
  RoastEvent, Participant, Session, DailyFeedResult, roast,
}
use rollpig_cloud.Progress.{apply_daily_feed}
use rollpig_cloud.Activity.{mark_group_active_users}
use rollpig_cloud.Reservation.{ReservationItem, has_id, reservation_to_schema}

pub record EventCreateRequest : Type 0 where
  pub event_type : EventType
  pub attacker_id : ℕ
  pub target_id : ℕ
  pub attacker_name : ℕ
  pub target_name : ℕ
  pub food : ℕ
  pub group_id : ℕ
  pub date_str : Option ℕ
  pub reservation_id : ℕ
  pub participant_ids : List ℕ
  pub participant_names : List ℕ
  pub participant_count : ℕ
  pub backfire_victim_id : ℕ
  pub backfire_victim_name : ℕ
  pub backfire_victim_ids : List ℕ
  pub backfire_victim_names : List ℕ
  pub special_reason : ℕ
  pub settle_daily_feed : Bool
  pub source_id : ℕ
  pub force_mode : ForceMode
  pub protection_level : ℕ
  pub reservation_owner_id : ℕ
  pub reservation_owner_name : ℕ

-- `a or b` of two texts
abbrev or_text : ℕ → ℕ → ℕ
or_text a b = if is_set a then a else b

unfoldable pub bind_reservation_event : ReservationItem → EventCreateRequest → EventCreateRequest
bind_reservation_event item req = record req {
  date_str = some item.date_str;
  group_id = item.group_id;
  attacker_id = or_text item.force_operator_id item.owner_id;
  attacker_name = or_text item.force_operator_name item.owner_name;
  target_id = item.target_id;
  target_name = item.target_name;
  reservation_id = item.reservation_id;
  participant_ids = map (λ p. p.user_id) item.participants;
  participant_names = map (λ p. p.display_name) item.participants;
  participant_count = length item.participants;
  force_mode = item.force_mode;
  protection_level = item.protection_required - 1;
  reservation_owner_id = if is_super item.force_mode then item.owner_id else 0;
  reservation_owner_name = if is_super item.force_mode then item.owner_name else 0;
}

abbrev has_any : List ℕ → Bool
has_any [] = false
has_any (x ∷ xs) = true

abbrev no_snapshot : EventSnapshot
no_snapshot = record {
  ids = [];
  names = [];
  count = 0;
  backfire_victim_id = 0;
  backfire_victim_name = 0;
  backfire_victim_ids = [];
  backfire_victim_names = [];
  special_reason = 0;
  force_mode = unforced;
  protection_level = 0;
  reservation_owner_id = 0;
  reservation_owner_name = 0;
}

-- The participants of a reservation's event.
abbrev of_participants : EventCreateRequest → EventSnapshot
of_participants req = record no_snapshot {
  ids = req.participant_ids;
  names = req.participant_names;
  count = req.participant_count;
  backfire_victim_id = req.backfire_victim_id;
  backfire_victim_name = req.backfire_victim_name;
  backfire_victim_ids = req.backfire_victim_ids;
  backfire_victim_names = if has_any req.backfire_victim_ids then req.backfire_victim_names else [];
}

-- The special reason and the features of forced and protected roasts, added to a snapshot.
abbrev with_reason : EventCreateRequest → Option EventSnapshot → Option EventSnapshot
with_reason req o =
    if is_set req.special_reason
    then some (record (get_or o no_snapshot) { special_reason = req.special_reason })
    else o

abbrev with_features : EventCreateRequest → Option EventSnapshot → Option EventSnapshot
with_features req o =
    if not (is_unforced req.force_mode)
      || is_set req.protection_level
      || has_any req.backfire_victim_ids
      || is_set req.reservation_owner_id
    then some (record (get_or o no_snapshot) {
      force_mode = req.force_mode;
      protection_level = req.protection_level;
      reservation_owner_id = req.reservation_owner_id;
      reservation_owner_name = req.reservation_owner_name;
      backfire_victim_id = req.backfire_victim_id;
      backfire_victim_name = req.backfire_victim_name;
      backfire_victim_ids = req.backfire_victim_ids;
      backfire_victim_names = req.backfire_victim_names;
    })
    else o

pub participant_snapshot : EventCreateRequest → Option EventSnapshot
participant_snapshot req =
    with_features req
      (with_reason req (if is_set req.reservation_id then some (of_participants req) else none))

pub new_event : ℕ → EventCreateRequest → RoastEvent
unfolding participant_snapshot
new_event target_date req = record {
  date_str = target_date;
  group_id = req.group_id;
  event_type = req.event_type;
  attacker_id = req.attacker_id;
  target_id = req.target_id;
  attacker_name = req.attacker_name;
  target_name = req.target_name;
  food_name = req.food;
  reservation_id = req.reservation_id;
  participant_snapshot = participant_snapshot req;
}

abbrev is_bot_backfire : EventType → Bool
is_bot_backfire bot_backfire = true
is_bot_backfire _ = false

-- The users that an event shows to be active.
abbrev users_of_event : EventCreateRequest → List ℕ
users_of_event req =
    (req.attacker_id ∷ req.participant_ids)
    ++ (if is_bot_backfire req.event_type then [] else req.target_id ∷ [])

-- The row, and the users that were active; `mark_group_active_users` ignores an empty group.
unfoldable pub add_event : ℕ → EventCreateRequest → Session → Session
unfolding new_event mark_group_active_users
add_event today req s =
    let target_date = get_or req.date_str today in
    mark_group_active_users target_date req.group_id (users_of_event req)
      (record s { events = s.events ++ new_event target_date req ∷ [] })

abbrev pub of_reservation : ℕ → RoastEvent → Bool
of_reservation id event = event.reservation_id == id

-- The reservation given by the caller, or else the row that the request names.
abbrev pub known_reservation : Option ReservationItem → ℕ → Session → Option ReservationItem
known_reservation (some item) id s = some item
known_reservation none id s = elim (find (has_id id) s.reservations) [
  | none ↦ none
  | some r ↦ some (reservation_to_schema s r)
]

abbrev pub bound : Option ReservationItem → EventCreateRequest → EventCreateRequest
bound none req = req
bound (some item) req = bind_reservation_event item req

-- `record_roast_event_with_status`: recorded, created, and the session; `today` is
-- `rollpig_today()`.
unfoldable pub record_roast_event_with_status :
    ℕ → EventCreateRequest → Option ReservationItem → Session → (Bool × Bool) × Session
unfolding add_event bind_reservation_event
record_roast_event_with_status today req given s =
    let req' = bound (known_reservation given req.reservation_id s) req in
    if is_set req.reservation_id
    then if any (of_reservation req.reservation_id) s.events
      then ((true, false), s)
      else ((true, true), add_event today req' s)
    else ((true, true), add_event today req s)

unfoldable pub record_roast_event :
    ℕ → EventCreateRequest → Option ReservationItem → Session → Bool × Session
unfolding record_roast_event_with_status
record_roast_event today req given s =
    let (status, s') = record_roast_event_with_status today req given s in (status.0, s')

record EventCreateResponse : Type 0 where
  pub ok : Bool
  pub daily_feed_result : Option DailyFeedResult

-- `create_event` and `_create_event_once`, without the count of the key's use.
unfoldable create_event : ℕ → EventCreateRequest → Session → EventCreateResponse × Session
unfolding record_roast_event_with_status
create_event today req s =
    let date = get_or req.date_str today in
    let s' =
      (record_roast_event_with_status today (record req { date_str = some date }) none s).1 in
    let (fed, s'') = apply_daily_feed date req.attacker_id roast req.source_id s' in
    if req.settle_daily_feed
      && is_set req.source_id
      && is_success req.event_type
      && not (is_set req.reservation_id)
    then (record { ok = true; daily_feed_result = some fed }, s'')
    else (record { ok = true; daily_feed_result = none }, s')
