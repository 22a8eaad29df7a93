-- ===== src/Progress/Answers.antt =====
-- services/progress.py, `build_lookup_response` and `build_draw_state_response`: what the answers
-- say of rolls and of growth.
use rollpig_cloud.Base.{
  ℕ, Bool, false, ◌&&◌, Option, none, some, List, [], ◌++◌, map, ◌==◌, if◌then◌else◌, is_some,
  is_set, get_or, find, select, sorted_set,
}
use rollpig_cloud.Store.{
  FeedStatus, DailyFeedResult, Payload, Appearance, DailyRoll, is_makeup, Collection,
  UserPigProgress, UserDailyFeed, Session,
}
use rollpig_cloud.Progress.{
  expert_level, is_feed, get_progress, get_collection, get_draw_state, copies_of, bonus_of,
  streak_of,
}

pub record DailyRollOutcomeSnapshot : Type 0 where
  pub snapshot_available : Bool
  pub collection_size_after_roll : ℕ
  pub resource_version : ℕ
  pub payload : Payload

pub record DailyRollLookupResponse : Type 0 where
  pub is_makeup : Bool
  pub pig_id : Option ℕ
  pub created : Bool
  pub is_new_pig : Bool
  pub previous_copies : ℕ
  pub copies : ℕ
  pub previous_expert_level : ℕ
  pub expert_level : ℕ
  pub daily_feed_result : Option DailyFeedResult
  pub previous_duplicate_streak : ℕ
  pub duplicate_streak : ℕ
  pub outcome_snapshot : Option DailyRollOutcomeSnapshot

abbrev pub no_roll : Bool → DailyRollLookupResponse
no_roll created = record {
  is_makeup = false;
  pig_id = none;
  created = created;
  is_new_pig = false;
  previous_copies = 0;
  copies = 0;
  previous_expert_level = 0;
  expert_level = 0;
  daily_feed_result = none;
  previous_duplicate_streak = 0;
  duplicate_streak = 0;
  outcome_snapshot = none;
}

-- `growth_snapshot_available`
abbrev pub has_growth : DailyRoll → Bool
has_growth row =
    is_some row.is_new_pig
    && is_some row.previous_copies
    && is_some row.copies_after_roll
    && is_some row.collection_size_after_roll
    && is_some row.previous_duplicate_streak
    && is_some row.duplicate_streak_after_roll

-- `appearance_snapshot_available`
abbrev has_appearance : DailyRoll → Bool
has_appearance row = is_set (get_or row.resource_version 0) && is_some row.appearance_snapshot

-- `appearance.get(…)` of a dictionary without the keys.
abbrev no_payload : Payload
no_payload = record {
  resolved_variant_level = 0;
  resolved_image_name = 0;
  unlocked_variant_levels = [];
  unlocked_variant_fields = [];
}

abbrev payload_of : Option Appearance → Payload
payload_of none = no_payload
payload_of (some a) = get_or a.payload no_payload

-- The snapshot that an answer shows of a row with its growth.
outcome_snapshot_of : DailyRoll → DailyRollOutcomeSnapshot
outcome_snapshot_of row = record {
  snapshot_available = has_appearance row;
  collection_size_after_roll = get_or row.collection_size_after_roll 0;
  resource_version = if has_appearance row then get_or row.resource_version 0 else 0;
  payload = if has_appearance row then payload_of row.appearance_snapshot else no_payload;
}

-- The feed of the roll's day.
feed_result_of : ℕ → ℕ → List UserDailyFeed → Option DailyFeedResult
feed_result_of date user feeds = elim (find (is_feed date user) feeds) [
  | none ↦ none
  | some feed ↦ some (record {
    status = FeedStatus.fed;
    user_id = user;
    pig_id = feed.pig_id;
    previous_level = feed.previous_level;
    new_level = feed.new_level;
    source_type = feed.source_type;
    source_id = feed.source_id;
  })
]

-- The answer for a row that holds the growth of its day.
unfoldable pub historic_response : DailyRoll → Bool → List UserDailyFeed → DailyRollLookupResponse
unfolding expert_level outcome_snapshot_of feed_result_of
historic_response row created feeds =
    let previous_copies = get_or row.previous_copies 0 in
    let copies = get_or row.copies_after_roll 0 in
    record {
      is_makeup = is_makeup row;
      pig_id = some row.pig_id;
      created = created;
      is_new_pig = get_or row.is_new_pig false;
      previous_copies = previous_copies;
      copies = copies;
      previous_expert_level = get_or row.previous_expert_level (expert_level previous_copies 0);
      expert_level = get_or row.expert_level_after_roll (expert_level copies 0);
      daily_feed_result = feed_result_of row.date_str row.user_id feeds;
      previous_duplicate_streak = get_or row.previous_duplicate_streak 0;
      duplicate_streak = get_or row.duplicate_streak_after_roll 0;
      outcome_snapshot = some (outcome_snapshot_of row);
    }

-- `copies` of a pig now: that of its progress, or one if it is only collected.
current_copies : ℕ → ℕ → Session → ℕ
unfolding get_progress get_collection
current_copies user pig s =
    copies_of (get_progress user pig s) (if is_some (get_collection user pig s) then 1 else 0)

-- The answer for a row of an old server, with the growth of now.
unfoldable pub current_response : DailyRoll → Bool → Session → DailyRollLookupResponse
unfolding expert_level current_copies feed_result_of get_progress get_draw_state
current_response row created s =
    let copies = current_copies row.user_id row.pig_id s in
    let level = expert_level copies (bonus_of (get_progress row.user_id row.pig_id s)) in
    let streak = streak_of (get_draw_state row.user_id s) in
    record {
      is_makeup = is_makeup row;
      pig_id = some row.pig_id;
      created = created;
      is_new_pig = false;
      previous_copies = copies;
      copies = copies;
      previous_expert_level = level;
      expert_level = level;
      daily_feed_result = feed_result_of row.date_str row.user_id s.feeds;
      previous_duplicate_streak = streak;
      duplicate_streak = streak;
      outcome_snapshot = none;
    }

unfoldable pub build_lookup_response : Option DailyRoll → Bool → Session → DailyRollLookupResponse
unfolding historic_response current_response
build_lookup_response none created s = no_roll created
build_lookup_response (some row) created s =
    if has_growth row then historic_response row created s.feeds else current_response row created s

pub record PigProgressItem : Type 0 where
  pub copies : ℕ
  pub growth_bonus : ℕ

pub record DrawStateResponse : Type 0 where
  pub pig_ids : List ℕ
  pub progress : List (ℕ × PigProgressItem)
  pub duplicate_streak : ℕ

-- The pigs of the user's progress and of the user's collection, each once.
unfoldable pub pigs_of : ℕ → Session → List ℕ
unfolding sorted_set
pigs_of user s = sorted_set (
    map (λ row. row.pig_id) (select (λ (row : UserPigProgress). row.user_id == user) s.progress)
    ++ map (λ row. row.pig_id) (select (λ (row : Collection). row.user_id == user) s.collections))

-- The entry of a pig: its progress, or one copy if it is only collected.
unfoldable pub item_of : ℕ → Session → ℕ → PigProgressItem
unfolding get_progress
item_of user s pig = elim (get_progress user pig s) [
  | none ↦ record { copies = 1; growth_bonus = 0 }
  | some row ↦ record { copies = row.copies; growth_bonus = row.growth_bonus }
]

unfoldable pub build_draw_state_response : ℕ → Session → DrawStateResponse
unfolding pigs_of item_of get_draw_state
build_draw_state_response user s = record {
  pig_ids = pigs_of user s;
  progress = map (λ pig. (pig, item_of user s pig)) (pigs_of user s);
  duplicate_streak = streak_of (get_draw_state user s);
}
