-- ===== src/Tests/Reading.antt =====
-- What is read back: rolls, growth, the pigs that a group has seen and the catalog.
use rollpig_cloud.Base.{
  ℕ, List, ◌+◌, ◌≡◌, refl, true, false, none, some, [], ◌∷◌, ◌++◌, if◌then◌else◌, is_some, contains,
  map, select,
}
use rollpig_cloud.Store.{success, GroupRoll, RoastEvent, Session}
use rollpig_cloud.Progress.{expert_level}
use rollpig_cloud.Progress.Answers.{item_of, build_draw_state_response}
use rollpig_cloud.Activity.{get_group_active_user_ids}
use rollpig_cloud.Rolls.{RollRequest}
use rollpig_cloud.Rolls.Answered.{
  answer_roll, get_daily_roll_by_date, answer_roll-by_date, answer_roll-draw_state,
}
use rollpig_cloud.Groups.{GroupRollMarkSeenRequest, mark_seen, get_active_groups}
use rollpig_cloud.Groups.Seen.{shown_pig, mark_seen-shown}
use rollpig_cloud.Stats.{count_roasted_users, count_event, count_victim, victims_of, kind_of}
use rollpig_cloud.Catalog.{numbered, is_recent, to_stat, roasted_7d}
use rollpig_cloud.Catalog.Roasted.{roasted_7d_complete}
use rollpig_cloud.Backfill.{backfill}
use rollpig_cloud.Backfill.Same.{backfill-draw_state}
use rollpig_cloud.LegacyImport.{
  import_data, import_history, import_group_rolls, add_roll, add_group_roll, import_users,
  import_pigs, ensure_draw_state, ensure_pig_progress, add_collection, commit,
}
use rollpig_cloud.LegacyImport.Repeated.{import_data-repeated}
use rollpig_cloud.Tests.Data.{env, empty_session}

-- User 11 has a copy of pig 3 that was collected before growth was kept, and a grown pig 6.
abbrev collected : Session
collected = record empty_session {
  collections = record { user_id = 11; pig_id = 3 } ∷ record { user_id = 11; pig_id = 6 } ∷ [];
  progress = record { user_id = 11; pig_id = 6; copies = 4; growth_bonus = 1 } ∷ [];
}

abbrev rolling : RollRequest
rolling = record { user_id = 11; proposed_pig_id = 6; date_str = 100; group_id = 5 }

answer_roll-by_date_example :
    let (answer, s') = answer_roll env rolling collected in
    get_daily_roll_by_date 11 100 s' ≡ record answer { created = false }
answer_roll-by_date_example = answer_roll-by_date env rolling collected

answer_roll-draw_state_example :
    let (answer, s') = answer_roll env rolling collected in
    let item = item_of 11 s' 6 in
    (answer.created ≡ true)
    × (answer.pig_id ≡ some 6)
    × (answer.copies ≡ answer.previous_copies + 1)
    × (contains 6 (build_draw_state_response 11 s').pig_ids ≡ true)
    × (item.copies ≡ answer.copies)
    × (answer.expert_level ≡ expert_level item.copies item.growth_bonus)
answer_roll-draw_state_example = answer_roll-draw_state env rolling collected refl

-- Group 5 has seen pig 3 of user 12, and is told of another one.
abbrev seen : GroupRoll
seen = record { date_str = 100; group_id = 5; user_id = 12; pig_id = 3 }

abbrev told : GroupRollMarkSeenRequest
told = record { group_id = 5; user_id = 12; pig_id = 8; date_str = 100 }

abbrev has_seen : Session
has_seen = record empty_session { group_rolls = seen ∷ [] }

mark_seen-shown_example :
    let s' = mark_seen told has_seen in
    let before = shown_pig 5 12 100 has_seen in
    (shown_pig 5 12 100 s'
      ≡ (if is_some before then before else some (record { user_id = 12; pig_id = 8 })))
    × (contains 12 (get_group_active_user_ids 100 5 s') ≡ true)
    × (contains 5 (get_active_groups 100 s') ≡ true)
mark_seen-shown_example = mark_seen-shown told has_seen refl refl

abbrev roasted : RoastEvent
roasted = record {
  date_str = 98;
  group_id = 5;
  event_type = success;
  attacker_id = 11;
  target_id = 12;
  attacker_name = 0;
  target_name = 0;
  food_name = 0;
  reservation_id = 0;
  participant_snapshot = none;
}

abbrev week : Session
week = record empty_session {
  events = record roasted { target_id = 13 } ∷ roasted ∷ record roasted { date_str = 90 } ∷ [];
}

roasted_once : roasted_7d 100 12 week ≡ 1
unfolding roasted_7d count_roasted_users count_event count_victim victims_of kind_of to_stat
roasted_once = refl

roasted_7d_complete_example :
    roasted_7d 100 12 week
    ≡ count_roasted_users
        (map to_stat (select (λ e. is_recent 100 e.1) (numbered 1 week.events)))
        12
roasted_7d_complete_example = roasted_7d_complete 100 12 week

backfill-draw_state_example :
    build_draw_state_response 11 (backfill collected) ≡ build_draw_state_response 11 collected
backfill-draw_state_example = backfill-draw_state 11 collected

abbrev old_rolls : List (ℕ × List (ℕ × ℕ))
old_rolls = (99, (11, 3) ∷ (12, 0) ∷ []) ∷ []

-- A file with one pig of a user is imported.
imported_one :
    is_some
      (import_data old_rolls ((99, (5, (11, 3) ∷ []) ∷ []) ∷ []) ((11, 3 ∷ []) ∷ []) empty_session)
    ≡ true
unfolding import_data import_history import_group_rolls add_roll add_group_roll import_users
    import_pigs ensure_draw_state ensure_pig_progress add_collection commit
imported_one = refl

import_data-repeated_example :
    import_data old_rolls [] ([] ++ (11, 3 ∷ 6 ∷ []) ∷ (13, 3 ∷ []) ∷ []) empty_session ≡ none
import_data-repeated_example =
    import_data-repeated old_rolls [] 11 3 6 [] [] ((13, 3 ∷ []) ∷ []) empty_session refl
