-- ===== src/Usage/Force.antt =====
-- The daily force chance, `consume_force_usage` of services/usage.py.
use rollpig_cloud.Base.{
  ℕ, ◌≡◌, ◌≢◌, inl, inr, Bool, true, false, not, Option, none, some, List, [], ◌∷◌, arith, is_value,
  find, Option-cases, find-append_none, find-append_other, find-update, find-update_other,
}
use rollpig_cloud.Usage.{UserUsage, new_usage, is_user, find_usage, consume_force_usage}

-- Whether the user has spent the chance of the day.
abbrev has_forced : ℕ → Option UserUsage → Bool
has_forced date none = false
has_forced date (some row) = is_value row.last_force_date date

abbrev forced_row : ℕ → UserUsage → UserUsage
forced_row date row = record row { last_force_date = some date }

-- What a call leaves in the user's row.
consume_force_usage-row :
    (user date : ℕ) (usages : List UserUsage)
    → let (allowed, usages') = consume_force_usage user date usages in
      (allowed ≡ not (has_forced date (find_usage user usages)))
      × (has_forced date (find_usage user usages') ≡ true)
unfolding consume_force_usage find_usage
consume_force_usage-row user date usages = elim (Option-cases (find (is_user user) usages)) [
  | inl e ↦
      ground
        (arith, find-append_none (is_user user) usages (forced_row date (new_usage user) ∷ []) e)
  | inr (row, e) ↦
      ground (arith, find-update (is_user user) (forced_row date) usages row (λ x h. h) e)
]

-- The rows of the other users stay as they are.
consume_force_usage-others :
    (user other date : ℕ) (usages : List UserUsage)
    → other ≢ user
    → find_usage other (consume_force_usage user date usages).1 ≡ find_usage other usages
unfolding consume_force_usage find_usage
consume_force_usage-others user other date usages ne =
    elim (Option-cases (find (is_user user) usages)) [
      | inl e ↦ ground (
        arith,
        find-append_other (is_user other) usages (forced_row date (new_usage user)) (ground arith),
      )
      | inr (row, e) ↦ ground (
        arith,
        find-update_other (is_user user) (is_user other) (forced_row date) usages
            (λ x h. (ground arith, ground arith)),
      )
    ]

consume_force_usage-spent :
    (user date : ℕ) (usages : List UserUsage)
    → has_forced date (find_usage user usages) ≡ true
    → consume_force_usage user date usages ≡ (false, usages)
unfolding consume_force_usage find_usage
consume_force_usage-spent user date usages h = ground arith

-- A force is allowed exactly when the user has not spent the chance of that day; after the call the
-- chance is spent, a second call for the same day is refused and changes nothing, and no other
-- user's row changes.
consume_force_usage-once :
    (user other date : ℕ) (usages : List UserUsage)
    → other ≢ user
    → let (allowed, usages') = consume_force_usage user date usages in
      (allowed ≡ not (has_forced date (find_usage user usages)))
      × (consume_force_usage user date usages' ≡ (false, usages'))
      × (find_usage other usages' ≡ find_usage other usages)
consume_force_usage-once user other date usages ne =
    let row = consume_force_usage-row user date usages in
    (
      row.0,
      consume_force_usage-spent user date _ row.1,
      consume_force_usage-others user other date usages ne,
    )
