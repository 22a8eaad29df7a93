-- ===== src/Tests/Data.antt =====
-- A small session that the examples share.
use rollpig_cloud.Base.{ℕ, true, none, some, [], ◌∷◌}
use rollpig_cloud.Protection.{legacy, only_manual, GroupProtection}
use rollpig_cloud.Store.{
  unforced, pending, processing, sending, success, Outcome, RoastReservation, Participant,
  DailyRoll, Session, Env,
}

-- Users 11, 12 and 13, group 5, bot 9 and day 100.
abbrev pub env : Env
env = record { now = 1000; uuid = 77 }

abbrev pub empty_session : Session
empty_session = record {
  usages = [];
  protections = [];
  reservations = [];
  participants = [];
  rolls = [];
  group_rolls = [];
  collections = [];
  progress = [];
  feeds = [];
  draw_states = [];
  active_users = [];
  messages = [];
  attempts = [];
  events = [];
  refills = [];
}

-- A reservation for user 12 that waits for the target.
abbrev pub waiting : RoastReservation
waiting = record {
  reservation_id = 7;
  date_str = 100;
  group_id = 5;
  target_id = 12;
  target_name = 0;
  target_pig_id = 0;
  owner_id = 11;
  owner_name = 0;
  owner_pig_id = 3;
  delivery_bot_id = 9;
  force_mode = unforced;
  status = pending;
  active_slot = true;
  protection_required = 0;
  protection_source = legacy;
  waiting_notice = none;
  delivery_gathering_version = 2;
  force_operator_id = 0;
  force_operator_name = 0;
  force_feed_user_ids = none;
  outcome_snapshot = none;
  daily_feed_results = none;
  claim_token = none;
  ready_at = none;
  claimed_at = none;
  completed_at = none;
}

abbrev pub won_roast : Outcome
won_roast = record { event_type = success; details = 1 }

abbrev pub claimed : RoastReservation
claimed = record waiting {
  target_pig_id = 4;
  status = processing;
  claim_token = some 50;
  claimed_at = some 900;
}

abbrev pub being_sent : RoastReservation
being_sent = record claimed { status = sending; outcome_snapshot = some won_roast }

abbrev pub member : Participant
member = record { reservation_id = 7; user_id = 11; display_name = 0; pig_id = 3; contribution = 1 }

-- A user's roll on day 100.
abbrev pub roll_of : ℕ → ℕ → DailyRoll
roll_of user pig = record {
  date_str = 100;
  user_id = user;
  pig_id = pig;
  is_new_pig = none;
  previous_copies = none;
  copies_after_roll = none;
  previous_expert_level = none;
  expert_level_after_roll = none;
  collection_size_after_roll = none;
  previous_duplicate_streak = none;
  duplicate_streak_after_roll = none;
  resource_version = none;
  appearance_snapshot = none;
}

abbrev pub with_row : RoastReservation → Session
with_row r = record empty_session {
  reservations = r ∷ [];
  participants = member ∷ [];
  rolls = roll_of 11 3 ∷ roll_of 12 4 ∷ [];
}

-- User 12 is protected by a grant of level two.
abbrev pub shield : GroupProtection
shield = record {
  protect_date = 100;
  group_id = 5;
  user_id = 12;
  roast_success_count = 0;
  source_levels = some (only_manual 2);
  source_baselines = none;
  base_level = 2;
  consecutive_days = 0;
}
