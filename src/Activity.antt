-- ===== src/Activity.antt =====
-- services/roast_refills.py: the users that were active in a group on a day.
use rollpig_cloud.Base.{
  ℕ, Bool, ◌&&◌, List, [], ◌∷◌, ◌++◌, map, ◌==◌, if◌then◌else◌, any, select, is_set, normalized,
  sorted_set,
}
use rollpig_cloud.Store.{ActiveUser, Session}

abbrev pub is_active : ℕ → ℕ → ℕ → ActiveUser → Bool
is_active date group user row = row.date_str == date && row.group_id == group && row.user_id == user

-- One row of the upsert: a row that is there stays as it is.
abbrev pub mark_user : ℕ → ℕ → ℕ → List ActiveUser → List ActiveUser
mark_user date group user rows =
    if any (is_active date group user) rows
    then rows
    else rows ++ record { date_str = date; group_id = group; user_id = user } ∷ []

abbrev pub mark_users : ℕ → ℕ → List ℕ → List ActiveUser → List ActiveUser
mark_users date group [] rows = rows
mark_users date group (user ∷ users) rows =
    mark_users date group users (mark_user date group user rows)

unfoldable pub mark_group_active_users : ℕ → ℕ → List ℕ → Session → Session
unfolding normalized
mark_group_active_users date group users s =
    if is_set group
    then record s { active_users = mark_users date group (normalized users) s.active_users }
    else s

-- `get_group_active_user_ids` without a cut-off; the rows of a group and a day are distinct.
unfoldable pub get_group_active_user_ids : ℕ → ℕ → Session → List ℕ
unfolding sorted_set
get_group_active_user_ids date group s = sorted_set (
    map (λ row. row.user_id)
      (select (λ row. row.date_str == date && row.group_id == group) s.active_users))
