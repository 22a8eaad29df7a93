-- ===== src/Protection.antt =====
-- services/protections.py: the levels of a group protection.
-- `source_levels` and `source_baselines` are dictionaries over four keys: a record with an optional
-- number for each key. Levels and counts are natural numbers, as every writer keeps them.
pub mod Levels
use rollpig_cloud.Base.{
  ℕ, ◌+◌, ◌-◌, min, max, Bool, true, false, not, ◌&&◌, Option, none, some, ltb, leb, ◌==◌,
  if◌then◌else◌, is_some, get_or,
}

pub data Source : Type 0 where
  daily manual pig legacy : Source

-- A dictionary from sources to numbers.
pub record Sources : Type 0 where
  pub daily : Option ℕ
  pub manual : Option ℕ
  pub pig : Option ℕ
  pub legacy : Option ℕ

abbrev pub no_sources : Sources
no_sources = record { daily = none; manual = none; pig = none; legacy = none }

abbrev only_legacy : ℕ → Sources
only_legacy level = record no_sources { legacy = some level }

abbrev pub only_manual : ℕ → Sources
only_manual level = record no_sources { manual = some level }

-- `d.get(source)`
abbrev pub source_get : Source → Sources → Option ℕ
source_get daily d = d.daily
source_get manual d = d.manual
source_get pig d = d.pig
source_get legacy d = d.legacy

pub record GroupProtection : Type 0 where
  pub protect_date : ℕ
  pub group_id : ℕ
  pub user_id : ℕ
  pub roast_success_count : ℕ
  pub source_levels : Option Sources
  pub source_baselines : Option Sources
  pub base_level : ℕ
  pub consecutive_days : ℕ

abbrev pub protection_sources : GroupProtection → Sources
protection_sources row = get_or row.source_levels (only_legacy row.base_level)

-- `row.source_baselines or {}`
abbrev pub protection_baselines : GroupProtection → Sources
protection_baselines row = get_or row.source_baselines no_sources

-- One entry of `protection_levels`; `-` stops at 0 as `max(0, …)` does.
abbrev pub source_level : ℕ → Option ℕ → Option ℕ → Option ℕ
source_level count none baseline = none
source_level count (some level) baseline = some (min 5 (level + (count - get_or baseline 0)))

unfoldable pub protection_levels : GroupProtection → Sources
protection_levels row =
    let sources = protection_sources row in
    let baselines = protection_baselines row in
    let count = row.roast_success_count in
    record {
      daily = source_level count sources.daily baselines.daily;
      manual = source_level count sources.manual baselines.manual;
      pig = source_level count sources.pig baselines.pig;
      legacy = source_level count sources.legacy baselines.legacy;
    }

-- `max(d.values(), default=0)`
abbrev pub highest : Sources → ℕ
highest d =
    max (max (get_or d.daily 0) (get_or d.manual 0)) (max (get_or d.pig 0) (get_or d.legacy 0))

unfoldable pub protection_level : GroupProtection → ℕ
unfolding protection_levels
protection_level row = highest (protection_levels row)

-- `d.get(source) == n`
abbrev holds : Option ℕ → ℕ → Bool
holds none n = false
holds (some a) n = a == n

pub protection_source : GroupProtection → Source
unfolding protection_levels
protection_source row =
    let levels = protection_levels row in
    let top = highest levels in
    if holds levels.daily top
    then daily
    else if holds levels.manual top
    then manual
    else if holds levels.pig top
    then pig
    else legacy

unfoldable pub inherit_global_protection : GroupProtection → ℕ → GroupProtection
unfolding protection_level
inherit_global_protection row group =
    let level = protection_level row in
    record {
      protect_date = row.protect_date;
      group_id = group;
      user_id = row.user_id;
      roast_success_count = 0;
      source_levels = some (only_legacy level);
      source_baselines = some (only_legacy 0);
      base_level = level;
      consecutive_days = 0;
    }

unfoldable pub is_historical_daily_protection : GroupProtection → Bool
is_historical_daily_protection row =
    let sources = protection_sources row in
    is_some sources.legacy && not (is_some sources.daily) && ltb 0 row.consecutive_days
