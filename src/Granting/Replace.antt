-- ===== src/Granting/Replace.antt =====
-- routers/protections.py, `replace_group`: the list of the users that a day protects in a group.
use rollpig_cloud.Base.{
  ℕ, ◌+◌, ◌-◌, min, Bool, true, false, not, ◌&&◌, ◌||◌, Option, none, some, List, [], ◌∷◌, ltb,
  ◌==◌, if◌then◌else◌, is_some, get_or, find, select, contains, normalized,
}
use rollpig_cloud.Protection.{
  Sources, no_sources, GroupProtection, protection_sources, protection_baselines, protection_levels,
  highest, protection_level, inherit_global_protection, is_historical_daily_protection,
}
use rollpig_cloud.Store.{all_groups, Session}
use rollpig_cloud.Reservation.{is_protected_row}
use rollpig_cloud.Granting.{sync_pending_protection, put_protection}

record ReplaceRequest : Type 0 where
  pub group_id : ℕ
  pub protect_date : ℕ
  pub user_ids : List ℕ
  pub initial_level : ℕ

-- The entries that have a source.
abbrev kept_if : Option ℕ → Option ℕ → Option ℕ
kept_if none value = none
kept_if (some level) value = value

abbrev baselines_in : Sources → Sources → Sources
baselines_in sources baselines = record {
  daily = kept_if sources.daily baselines.daily;
  manual = kept_if sources.manual baselines.manual;
  pig = kept_if sources.pig baselines.pig;
  legacy = kept_if sources.legacy baselines.legacy;
}

abbrev any_source : Sources → Bool
any_source d = (is_some d.daily || is_some d.manual) || (is_some d.pig || is_some d.legacy)

-- The sources and the baselines of a user that leaves the list: the daily source goes, and the
-- global one follows the global row.
without_daily : Option GroupProtection → GroupProtection → Sources × Sources
unfolding protection_levels is_historical_daily_protection
without_daily global row =
    let historical = is_historical_daily_protection row in
    let rest = record (protection_sources row) { daily = none } in
    let own = (if historical then record rest { legacy = none } else rest) in
    let baselines = protection_baselines row in
    elim global [
      | none ↦ (record own { legacy = none }, baselines)
      | some old ↦
          let inherited = (if historical then 0 else get_or (protection_levels row).legacy 0) in
          let level = protection_level old in
          if ltb inherited level
          then (
            record own { legacy = some level },
            record baselines { legacy = some row.roast_success_count },
          )
          else (own, baselines)
    ]

-- A user that leaves the list keeps the row for its other sources, or loses it.
remove_one : ℕ → Option GroupProtection → GroupProtection → Session → Session
unfolding without_daily
remove_one now global row s =
    let (sources, baselines) = without_daily global row in
    let row' = record row {
      source_levels = some sources;
      source_baselines = some (baselines_in sources baselines);
      base_level = highest sources;
      consecutive_days = 0;
    } in
    if any_source sources
    then sync_pending_protection now row' false none (put_protection row' s)
    else let s' = sync_pending_protection now row true none s in
      record s' {
        protections =
            select (λ p. not (is_protected_row row.protect_date row.group_id row.user_id p))
              s'.protections;
      }

-- The daily protection of a user on the list; `days` counts from yesterday's row.
abbrev pub next_days : Option GroupProtection → ℕ
next_days none = 1
next_days (some yesterday) = yesterday.consecutive_days + 1

abbrev fresh_row : ℕ → ℕ → ℕ → GroupProtection
fresh_row date group user = record {
  protect_date = date;
  group_id = group;
  user_id = user;
  roast_success_count = 0;
  source_levels = some no_sources;
  source_baselines = none;
  base_level = 0;
  consecutive_days = 0;
}

-- A row becomes a daily one, a historical one by its own level and days.
unfoldable pub with_daily : ℕ → Option GroupProtection → GroupProtection → GroupProtection
unfolding is_historical_daily_protection
with_daily initial_level yesterday row =
    let days = next_days yesterday in
    let sources = protection_sources row in
    let baselines = protection_baselines row in
    let old_sources = record sources { daily = some (get_or sources.legacy 0); legacy = none } in
    let new_sources = record sources { daily = some (min 5 (initial_level + (days - 1))) } in
    if is_historical_daily_protection row
    then record row {
      source_levels = some old_sources;
      source_baselines =
          some (record baselines { daily = some (get_or baselines.legacy 0); legacy = none });
      base_level = highest old_sources;
    }
    else record row {
      source_levels = some new_sources;
      source_baselines = some (record baselines { daily = some row.roast_success_count });
      base_level = highest new_sources;
      consecutive_days = days;
    }

-- The row that a user on the list starts from.
abbrev start_row : ReplaceRequest → ℕ → Session → GroupProtection
start_row req user s =
    let own = find (is_protected_row req.protect_date req.group_id user) s.protections in
    let global = find (is_protected_row req.protect_date all_groups user) s.protections in
    elim own [
      | some row ↦ row
      | none ↦ elim global [
        | none ↦ fresh_row req.protect_date req.group_id user
        | some old ↦
            if req.group_id == all_groups
            then fresh_row req.protect_date req.group_id user
            else inherit_global_protection old req.group_id
      ]
    ]

add_one : ℕ → ReplaceRequest → ℕ → Session → Session
unfolding with_daily put_protection sync_pending_protection inherit_global_protection
add_one now req user s =
    let row = start_row req user s in
    let yesterday =
      find
        (λ p.
          p.group_id == req.group_id && p.protect_date + 1 == req.protect_date && p.user_id == user)
        s.protections in
    let row' = with_daily req.initial_level yesterday row in
    if is_some (protection_sources row).daily
    then s
    else sync_pending_protection now row' false none (put_protection row' s)

abbrev add_all : ℕ → ReplaceRequest → List ℕ → Session → Session
add_all now req [] s = s
add_all now req (user ∷ users) s = add_all now req users (add_one now req user s)

-- The global row that a removed row of another group falls back to.
abbrev fallback : ReplaceRequest → ℕ → Session → Option GroupProtection
fallback req user s =
    if req.group_id == all_groups
    then none
    else find (is_protected_row req.protect_date all_groups user) s.protections

abbrev remove_all : ℕ → ReplaceRequest → List GroupProtection → Session → Session
remove_all now req [] s = s
remove_all now req (row ∷ rows) s =
    remove_all now req rows (remove_one now (fallback req row.user_id s) row s)

-- POST /replace-group, without the count of the key's use.
unfoldable replace_group : ℕ → ReplaceRequest → Session → Session
unfolding remove_one add_one normalized
replace_group now req s =
    let users = normalized req.user_ids in
    let current =
      select (λ p. p.group_id == req.group_id && p.protect_date == req.protect_date)
        s.protections in
    add_all now req users
      (remove_all now req (select (λ p. not (contains p.user_id users)) current) s)
