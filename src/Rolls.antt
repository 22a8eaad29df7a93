-- ===== src/Rolls.antt =====
-- routers/daily_rolls.py: the roll of a user and a day, made up for later or not, and the snapshot of
-- its appearance. The answers show the row; what they read from progress is not modelled.
pub mod Rolled
pub mod MadeUp
pub mod Answered
use rollpig_cloud.Base.{
  ℕ, ◌+◌, Bool, true, false, not, ◌&&◌, ◌||◌, Option, none, some, List, [], ◌∷◌, ◌++◌, ◌==◌,
  if◌then◌else◌, is_some, get_or, is_set, find, any, update,
}
use rollpig_cloud.Store.{Payload, Appearance, DailyRoll, GroupRoll, is_makeup, Session, Env}
use rollpig_cloud.Progress.{CreatedRollProgress, is_roll, find_roll, apply_created_roll_progress}
use rollpig_cloud.Activity.{mark_group_active_users}
use rollpig_cloud.Reservation.Reconcile.{activate_target_reservations}

pub record RollRequest : Type 0 where
  pub user_id : ℕ
  pub proposed_pig_id : ℕ
  pub date_str : ℕ
  pub group_id : ℕ

-- The row that an answer shows, and whether this request made it.
pub record RollResponse : Type 0 where
  pub daily_roll : DailyRoll
  pub created : Bool

abbrev is_seen : ℕ → ℕ → ℕ → GroupRoll → Bool
is_seen group user date g = g.group_id == group && g.user_id == user && g.date_str == date

-- `_ensure_group_roll`
pub ensure_group_roll : ℕ → ℕ → ℕ → ℕ → Session → Session
ensure_group_roll group user pig date s =
    let seen : GroupRoll = record {
      date_str = date;
      group_id = group;
      user_id = user;
      pig_id = pig;
    } in
    let s' =
      (if any (is_seen group user date) s.group_rolls
        then s
        else record s { group_rolls = s.group_rolls ++ seen ∷ [] }) in
    if is_set group then mark_group_active_users date group (user ∷ []) s' else s

-- The new row, with the growth that the roll brings.
unfoldable pub created_roll : RollRequest → Option Appearance → CreatedRollProgress → DailyRoll
created_roll req appearance progress = record {
  date_str = req.date_str;
  user_id = req.user_id;
  pig_id = req.proposed_pig_id;
  is_new_pig = some progress.is_new_pig;
  previous_copies = some progress.previous_copies;
  copies_after_roll = some progress.copies_after_roll;
  previous_expert_level = some progress.previous_expert_level;
  expert_level_after_roll = some progress.expert_level_after_roll;
  collection_size_after_roll = some progress.collection_size_after_roll;
  previous_duplicate_streak = some progress.previous_duplicate_streak;
  duplicate_streak_after_roll = some progress.duplicate_streak_after_roll;
  resource_version = none;
  appearance_snapshot = appearance;
}

-- The roll and its growth.
unfoldable pub add_roll : RollRequest → Option Appearance → Session → DailyRoll × Session
unfolding created_roll
add_roll req appearance s =
    let (progress, s') = apply_created_roll_progress req.user_id req.proposed_pig_id s in
    let row = created_roll req appearance progress in
    (row, record s' { rolls = s'.rolls ++ row ∷ [] })

-- The group sees the roll and the user's reservations are reconciled with it.
pub arrive : Env → RollRequest → ℕ → Session → Session
arrive env req pig s =
    (activate_target_reservations req.date_str req.user_id pig 0 env.now
      (ensure_group_roll req.group_id req.user_id pig req.date_str s)).1

-- `get_or_create_daily_roll`; a new roll is reconciled in its transaction and once more after it.
unfoldable pub get_or_create_daily_roll : Env → RollRequest → Session → RollResponse × Session
unfolding add_roll arrive
get_or_create_daily_roll env req s =
    let (row, s') = add_roll req none s in
    let s₁ = arrive env req req.proposed_pig_id s' in
    let s₂ =
      (activate_target_reservations req.date_str req.user_id req.proposed_pig_id 0 env.now s₁).1 in
    elim (find_roll req.date_str req.user_id s) [
      | none ↦ (record { daily_roll = row; created = true }, s₂)
      | some existing ↦ (
        record { daily_roll = existing; created = false },
        if is_makeup existing then s else arrive env req existing.pig_id s,
      )
    ]

abbrev pub made_up : Appearance
made_up = record { is_makeup = true; payload = none }

-- `makeup_daily_roll`; `none` is the answer 422 for another day than yesterday.
pub makeup_daily_roll : ℕ → RollRequest → Session → Option (RollResponse × Session)
unfolding add_roll
makeup_daily_roll today req s =
    let (row, s') = add_roll req (some made_up) s in
    if req.date_str + 1 == today
    then elim (find_roll req.date_str req.user_id s) [
      | none ↦ some (record { daily_roll = row; created = true }, s')
      | some existing ↦ some (record { daily_roll = existing; created = false }, s)
    ]
    else none

record SnapshotRequest : Type 0 where
  pub user_id : ℕ
  pub date_str : ℕ
  pub pig_id : ℕ
  pub resource_version : ℕ
  pub payload : Payload

-- The row has the growth of its day.
abbrev has_growth : DailyRoll → Bool
has_growth row =
    is_some row.is_new_pig
    && is_some row.previous_copies
    && is_some row.copies_after_roll
    && is_some row.collection_size_after_roll
    && is_some row.previous_duplicate_streak
    && is_some row.duplicate_streak_after_roll

abbrev list_eq : List ℕ → List ℕ → Bool
list_eq [] [] = true
list_eq (x ∷ xs) (y ∷ ys) = x == y && list_eq xs ys
list_eq _ _ = false

abbrev payload_eq : Payload → Payload → Bool
payload_eq a b =
    a.resolved_variant_level == b.resolved_variant_level
    && a.resolved_image_name == b.resolved_image_name
    && list_eq a.unlocked_variant_levels b.unlocked_variant_levels
    && list_eq a.unlocked_variant_fields b.unlocked_variant_fields

-- A snapshot is there: a version, or an appearance that says more than that the roll was made up for.
abbrev has_snapshot : DailyRoll → Bool
has_snapshot row = is_some row.resource_version || (elim row.appearance_snapshot [
  | none ↦ false
  | some a ↦ not (a.is_makeup && not (is_some a.payload))
])

-- `stored_payload == payload`; the key `is_makeup` is written from the row itself.
abbrev same_payload : Option Appearance → Payload → Bool
same_payload none payload = false
same_payload (some a) payload = elim a.payload [
  | none ↦ false
  | some stored ↦ payload_eq stored payload
]

-- What `complete_daily_roll_snapshot` does to the row; `none` is the answer 409.
snapshot_row : SnapshotRequest → DailyRoll → Option DailyRoll
snapshot_row req row =
    let written = record row {
      resource_version = some req.resource_version;
      appearance_snapshot = some (record { is_makeup = is_makeup row; payload = some req.payload });
    } in
    if not (row.pig_id == req.pig_id) || not (has_growth row)
    then none
    else if has_snapshot row
    then if get_or row.resource_version 0 == req.resource_version
        && same_payload row.appearance_snapshot req.payload
      then some row
      else none
    else some written

abbrev put_roll : SnapshotRequest → Option DailyRoll → Session → Option (DailyRoll × Session)
put_roll req none s = none
put_roll req (some row) s =
    some (row, record s { rolls = update (is_roll req.date_str req.user_id) (λ _. row) s.rolls })

-- `complete_daily_roll_snapshot`; `none` is the answer 404 or 409.
unfoldable complete_daily_roll_snapshot : SnapshotRequest → Session → Option (DailyRoll × Session)
unfolding snapshot_row
complete_daily_roll_snapshot req s = elim (find_roll req.date_str req.user_id s) [
  | none ↦ none
  | some row ↦ put_roll req (snapshot_row req row) s
]
