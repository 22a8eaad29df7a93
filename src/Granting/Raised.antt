-- ===== src/Granting/Raised.antt =====
-- The levels after a grant and after a day's list.
use rollpig_cloud.Base.{
  ℕ, ◌+◌, ◌-◌, min, max, ◌≤◌, ◌≡◌, refl, ap, ◌∙◌, inl, inr, Option, none, some, ltb, arith,
  if◌then◌else◌, Bool-cases,
}
use rollpig_cloud.Protection.{
  GroupProtection, protection_sources, protection_level, inherit_global_protection,
  is_historical_daily_protection,
}
use rollpig_cloud.Protection.Levels.{inherit_global_protection-level}
use rollpig_cloud.Granting.{GrantRequest, granted_row, raise_manual, grant_row}
use rollpig_cloud.Granting.Replace.{next_days, with_daily}

raise_manual-level :
    (level : ℕ) (row : GroupProtection)
    → level ≤ 5
    → protection_level (raise_manual level row) ≡ max level (protection_level row)
unfolding protection_level raise_manual
raise_manual-level level row h = ground arith

granted_row-level :
    (req : GrantRequest) → req.level ≤ 5 → protection_level (granted_row req) ≡ max req.level 0
unfolding protection_level
granted_row-level req h = omega arith

-- The level that protects a user before the grant.
abbrev pub effective : Option GroupProtection → Option GroupProtection → ℕ
effective (some row) global = protection_level row
effective none none = 0
effective none (some old) = protection_level old

-- A grant of a level up to five leaves the user with the greater of that level and the level that
-- protected the user before, by the group's own row or the global one, and reports a change if and
-- only if it is a rise.
pub grant_row-level :
    (req : GrantRequest) (own global : Option GroupProtection)
    → 1 ≤ req.level
    → req.level ≤ 5
    → let (changed, row) = grant_row req own global in
      (protection_level row ≡ max req.level (effective own global))
      × (changed ≡ ltb (effective own global) req.level)
unfolding grant_row
grant_row-level req (some row) global l h = (raise_manual-level req.level row h, refl)
grant_row-level req none none l h = (granted_row-level req h, ground arith)
grant_row-level req none (some old) l h =
    let e = (inherit_global_protection-level old req.group_id).0 in
    (
      raise_manual-level req.level (inherit_global_protection old req.group_id) h
          ∙ ap (max req.level) e,
      ap (λ n. ltb n req.level) e,
    )

-- A user that comes on a day's list has at least the level of before. A historical daily row keeps
-- exactly its level, and any other row is raised to the initial level plus one for each day in
-- succession before this one, and to five at most.
with_daily-level :
    (initial_level : ℕ) (yesterday : Option GroupProtection) (row : GroupProtection)
    → (protection_sources row).daily ≡ none
    → protection_level (with_daily initial_level yesterday row) ≡ (
        if is_historical_daily_protection row
        then protection_level row
        else max (protection_level row) (min 5 (initial_level + (next_days yesterday - 1))))
unfolding protection_level with_daily
with_daily-level initial_level yesterday row h =
    elim (Bool-cases (is_historical_daily_protection row)) [
      | inl e ↦ rw (e, with_daily) (ground arith)
      | inr e ↦ rw (e, with_daily) (ground arith)
    ]
