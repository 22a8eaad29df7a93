-- ===== src/Catalog.antt =====
-- routers/catalog.py, routers/collections.py, routers/draw_state.py and GET /events of
-- routers/events.py: what is read of a user.
use rollpig_cloud.Base.{
  ℕ, suc, ◌+◌, Bool, true, false, ◌&&◌, ◌||◌, Option, none, some, List, [], ◌∷◌, map, leb, ◌==◌,
  if◌then◌else◌, is_set, contains, select, sorted_set, ℤ, clamp, int_or,
}
use rollpig_cloud.Store.{ForceMode, DailyRoll, Collection, EventSnapshot, RoastEvent, Session}
use rollpig_cloud.Progress.Answers.{PigProgressItem, DrawStateResponse, build_draw_state_response}
use rollpig_cloud.Stats.{StatEvent, count_roasted_users}
pub mod Roasted

-- The text "unrolled".
abbrev unrolled_reason : ℕ
unrolled_reason = 1

abbrev no_snapshot : EventSnapshot
no_snapshot = record {
  ids = [];
  names = [];
  count = 0;
  backfire_victim_id = 0;
  backfire_victim_name = 0;
  backfire_victim_ids = [];
  backfire_victim_names = [];
  special_reason = 0;
  force_mode = ForceMode.unforced;
  protection_level = 0;
  reservation_owner_id = 0;
  reservation_owner_name = 0;
}

-- `row.participant_snapshot or {}`
abbrev snapshot_of : RoastEvent → EventSnapshot
snapshot_of row = elim row.participant_snapshot [ none ↦ no_snapshot | some s ↦ s ]

-- GET /collections
unfoldable pub get_collection : ℕ → Session → List ℕ
unfolding sorted_set
get_collection user s =
    sorted_set
      (map (λ row. row.pig_id) (select (λ (row : Collection). row.user_id == user) s.collections))

-- A row with its column `id`, from the number of the first one on.
abbrev pub numbered : ℕ → List RoastEvent → List (ℕ × RoastEvent)
numbered n [] = []
numbered n (row ∷ rows) = (n, row) ∷ numbered (suc n) rows

-- Whether a user took part in an event in any role.
abbrev takes_part : ℕ → RoastEvent → Bool
takes_part user row =
    row.attacker_id == user
    || row.target_id == user
    || contains user (snapshot_of row).ids
    || (snapshot_of row).backfire_victim_id == user
    || contains user (snapshot_of row).backfire_victim_ids

-- GET /events without a cut-off; an empty group or user does not filter.
unfoldable list_events : ℕ → ℕ → ℕ → Session → List RoastEvent
list_events date group user s =
    let rows = select (λ (row : RoastEvent). row.date_str == date) s.events in
    let in_group =
      (if is_set group then select (λ (row : RoastEvent). row.group_id == group) rows else rows) in
    if is_set user then select (takes_part user) in_group else in_group

-- The dictionary that the statistics read.
unfoldable pub to_stat : ℕ × RoastEvent → StatEvent
to_stat (n, row) = record {
  date_str = row.date_str;
  event_id = n;
  event_type = row.event_type;
  attacker = row.attacker_id;
  target = row.target_id;
  group_id = row.group_id;
  backfire_victim_ids = (snapshot_of row).backfire_victim_ids;
  backfire_victim_id = (snapshot_of row).backfire_victim_id;
  is_unrolled = (snapshot_of row).special_reason == unrolled_reason;
}

-- The condition on the user in the query of the events.
pub is_involved : ℕ → RoastEvent → Bool
is_involved user row =
    row.target_id == user
    || row.attacker_id == user
    || (snapshot_of row).backfire_victim_id == user
    || contains user (snapshot_of row).backfire_victim_ids

-- The last seven days.
abbrev pub is_recent : ℕ → RoastEvent → Bool
is_recent today row = leb today (row.date_str + 6) && leb row.date_str today

unfoldable pub roasted_7d : ℕ → ℕ → Session → ℕ
unfolding to_stat is_involved count_roasted_users
roasted_7d today user s =
    count_roasted_users
      (map to_stat (
        select (λ (e : ℕ × RoastEvent). is_recent today e.1 && is_involved user e.1)
          (numbered 1 s.events)))
      user

record RecentRollItem : Type 0 where
  pub date_str : ℕ
  pub pig_id : ℕ

record CatalogSnapshotResponse : Type 0 where
  pub draw_state : DrawStateResponse
  pub recent_rolls : List RecentRollItem
  pub roasted : ℕ

-- `.order_by(DailyRoll.date_str.desc())`
abbrev insert_by_date : DailyRoll → List DailyRoll → List DailyRoll
insert_by_date r [] = r ∷ []
insert_by_date r (x ∷ xs) =
    if leb x.date_str r.date_str then r ∷ x ∷ xs else x ∷ insert_by_date r xs

abbrev latest_first : List DailyRoll → List DailyRoll
latest_first [] = []
latest_first (r ∷ rolls) = insert_by_date r (latest_first rolls)

-- `safe_days`
abbrev safe_days : ℤ → ℕ
safe_days days = clamp 1 60 (int_or (some days) 14)

-- GET /catalog-snapshot
unfoldable get_catalog_snapshot : ℕ → ℕ → ℤ → Session → CatalogSnapshotResponse
unfolding build_draw_state_response roasted_7d
get_catalog_snapshot today user days s = record {
  draw_state = build_draw_state_response user s;
  recent_rolls =
      map (λ (r : DailyRoll). record { date_str = r.date_str; pig_id = r.pig_id })
        (latest_first (
          select
            (λ (r : DailyRoll). r.user_id == user && leb (today + 1) (r.date_str + safe_days days))
            s.rolls));
  roasted = roasted_7d today user s;
}
