-- ===== src/Groups.antt =====
-- routers/group_rolls.py and routers/groups.py: the pigs that a group has seen on a day, and the
-- groups in which something happened.
use rollpig_cloud.Base.{
  ℕ, Bool, ◌&&◌, Option, none, some, List, [], ◌∷◌, ◌++◌, map, ◌==◌, if◌then◌else◌, is_set, is_some,
  any, select, sorted_set,
}
use rollpig_cloud.Store.{GroupRoll, RoastEvent, Session}
use rollpig_cloud.Activity.{mark_group_active_users}
pub mod Seen

pub record GroupRollMarkSeenRequest : Type 0 where
  pub group_id : ℕ
  pub user_id : ℕ
  pub pig_id : ℕ
  pub date_str : ℕ

abbrev pub is_seen : ℕ → ℕ → ℕ → GroupRoll → Bool
is_seen group user date row = row.group_id == group && row.user_id == user && row.date_str == date

-- The row of a request, if the user has none on the day.
pub add_seen : GroupRollMarkSeenRequest → List GroupRoll → List GroupRoll
add_seen req rows =
    if any (is_seen req.group_id req.user_id req.date_str) rows
    then rows
    else rows
      ++ record {
        date_str = req.date_str;
        group_id = req.group_id;
        user_id = req.user_id;
        pig_id = req.pig_id;
      }
        ∷ []

-- POST /group-rolls/mark-seen
pub mark_seen : GroupRollMarkSeenRequest → Session → Session
unfolding add_seen mark_group_active_users
mark_seen req s =
    mark_group_active_users req.date_str req.group_id (req.user_id ∷ [])
      (record s { group_rolls = add_seen req s.group_rolls })

pub record GroupRollItem : Type 0 where
  pub user_id : ℕ
  pub pig_id : ℕ

abbrev pub to_item : GroupRoll → GroupRollItem
to_item row = record { user_id = row.user_id; pig_id = row.pig_id }

-- GET /group-rolls without a cut-off
pub get_group_rolls : ℕ → ℕ → Session → List GroupRollItem
get_group_rolls group date s =
    map to_item
      (select (λ (row : GroupRoll). row.group_id == group && row.date_str == date) s.group_rolls)

-- GET /groups/active
pub get_active_groups : ℕ → Session → List ℕ
unfolding sorted_set
get_active_groups date s = sorted_set (
    select is_set (
      map (λ row. row.group_id) (select (λ (row : RoastEvent). row.date_str == date) s.events)
      ++ map (λ row. row.group_id)
          (select (λ (row : GroupRoll). row.date_str == date) s.group_rolls)))
