-- ===== src/Protection/Levels.antt =====
-- Bounds, growth and inheritance of protection levels.
use rollpig_cloud.Base.{
  ℕ, ◌+◌, min, max, ◌≤◌, ◌≡◌, refl, Bool, true, false, ◌||◌, Option, none, some, arith, is_some,
  get_or,
}
use rollpig_cloud.Protection.{
  Source, Sources, source_get, GroupProtection, protection_sources, protection_baselines,
  source_level, protection_levels, protection_level, protection_source, inherit_global_protection,
}

-- The dictionary has an entry.
abbrev has_source : Sources → Bool
has_source d = (is_some d.daily || is_some d.manual) || (is_some d.pig || is_some d.legacy)

-- No level is ever above five, nor below what any source gives by itself.
protection_level-bounds :
    (row : GroupProtection) (source : Source)
    → (protection_level row ≤ 5)
      × (get_or (source_get source (protection_levels row)) 0 ≤ protection_level row)
unfolding protection_level
protection_level-bounds row source = ground arith

-- The source that the texts name gives the protection its whole level.
protection_source-highest :
    (row : GroupProtection)
    → has_source (protection_sources row) ≡ true
    → source_get (protection_source row) (protection_levels row) ≡ some (protection_level row)
unfolding protection_level protection_source
protection_source-highest row h = ground arith

-- Baselines do not run ahead of the successes that were counted.
pub record IsCounted (row : GroupProtection) : Type 0 where
  pub daily_counted : get_or (protection_baselines row).daily 0 ≤ row.roast_success_count
  pub manual_counted : get_or (protection_baselines row).manual 0 ≤ row.roast_success_count
  pub pig_counted : get_or (protection_baselines row).pig 0 ≤ row.roast_success_count
  pub legacy_counted : get_or (protection_baselines row).legacy 0 ≤ row.roast_success_count

-- What a successful roast does to the row (`roast_success_count += 1`).
abbrev pub roasted : GroupProtection → GroupProtection
roasted row = record row { roast_success_count = row.roast_success_count + 1 }

-- How the level of one source moves: a present source gains one, up to five.
abbrev Grows : Bool → ℕ → ℕ → Type 0
Grows true a a' = a' ≡ min 5 (a + 1)
Grows false a a' = (a ≡ 0) × (a' ≡ 0)

source_level-Grows :
    (count : ℕ) (level baseline : Option ℕ)
    → get_or baseline 0 ≤ count
    → Grows
        (is_some level)
        (get_or (source_level count level baseline) 0)
        (get_or (source_level (count + 1) level baseline) 0)
source_level-Grows count none baseline h = (refl, refl)
source_level-Grows count (some level) baseline h = omega arith

max-Grows :
    (p q : Bool) (a a' b b' : ℕ)
    → Grows p a a'
    → Grows q b b'
    → Grows (p || q) (max a b) (max a' b')
max-Grows true true a a' b b' h k = omega arith
max-Grows true false a a' b b' h k = omega arith
max-Grows false true a a' b b' h k = omega arith
max-Grows false false a a' b b' h k = omega arith

roasted-Grows :
    (row : GroupProtection)
    → IsCounted row
    → Grows
        (has_source (protection_sources row))
        (protection_level row)
        (protection_level (roasted row))
unfolding protection_level
roasted-Grows row c =
    let sources = protection_sources row in
    let baselines = protection_baselines row in
    let n = row.roast_success_count in
    max-Grows (is_some sources.daily || is_some sources.manual)
      (is_some sources.pig || is_some sources.legacy) _ _ _ _
      (max-Grows (is_some sources.daily) (is_some sources.manual) _ _ _ _
        (source_level-Grows n sources.daily baselines.daily c.daily_counted)
        (source_level-Grows n sources.manual baselines.manual c.manual_counted))
      (max-Grows (is_some sources.pig) (is_some sources.legacy) _ _ _ _
        (source_level-Grows n sources.pig baselines.pig c.pig_counted)
        (source_level-Grows n sources.legacy baselines.legacy c.legacy_counted))

-- Each success raises the level by exactly one, up to five.
roasted-level :
    (row : GroupProtection)
    → has_source (protection_sources row) ≡ true
    → IsCounted row
    → (protection_level (roasted row) ≡ min 5 (protection_level row + 1)) × IsCounted (roasted row)
roasted-level row h c = (rw h at (roasted-Grows row c), ground arith)

-- A group inherits a global protection at the level that it has reached, and from there each
-- success in the group counts from zero.
pub inherit_global_protection-level :
    (row : GroupProtection) (group : ℕ)
    → let inherited = inherit_global_protection row group in
      (protection_level inherited ≡ protection_level row) × IsCounted inherited
unfolding protection_level inherit_global_protection
inherit_global_protection-level row group = ground arith
