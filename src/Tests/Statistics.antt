-- ===== src/Tests/Statistics.antt =====
-- Counts of roasted users.
use rollpig_cloud.Base.{◌≡◌, refl, false, [], ◌∷◌}
use rollpig_cloud.Store.{success, bot_backfire}
use rollpig_cloud.Stats.{
  StatEvent, count_roasted_users, count_event, count_victim, victims_of, kind_of,
}

abbrev roasted_once : StatEvent
roasted_once = record {
  date_str = 100;
  event_id = 1;
  event_type = success;
  attacker = 11;
  target = 12;
  group_id = 5;
  backfire_victim_ids = [];
  backfire_victim_id = 0;
  is_unrolled = false;
}

-- The bot strikes back at user 11, twice on the same day.
abbrev struck : StatEvent
struck = record roasted_once { event_id = 2; event_type = bot_backfire; target = 0 }

abbrev struck_again : StatEvent
struck_again = record struck { event_id = 3 }

counted : count_roasted_users (struck ∷ roasted_once ∷ struck_again ∷ []) 11 ≡ 1
unfolding count_roasted_users count_event count_victim victims_of kind_of
counted = refl
