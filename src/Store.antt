-- ===== src/Store.antt =====
-- models.py: the rows of the tables that reservations, rolls and events share, and the session that
-- holds them. Identifiers, names and other texts are numbers, 0 for the empty text; dates are day
-- numbers and times are seconds. Column `id` is the position in the list.
use rollpig_cloud.Base.{ℕ, Bool, true, false, Option, none, some, List}
use rollpig_cloud.Usage.{UserUsage}
use rollpig_cloud.Protection.{GroupProtection, Source}

-- The group that stands for every group in old protection rows, "__all__".
abbrev pub all_groups : ℕ
all_groups = 1

pub data ForceMode : Type 0 where
  unforced normal super : ForceMode
  other_mode : ℕ → ForceMode

abbrev pub is_super : ForceMode → Bool
is_super super = true
is_super _ = false

abbrev pub is_normal : ForceMode → Bool
is_normal normal = true
is_normal _ = false

-- `force_mode is None`
abbrev pub is_unforced : ForceMode → Bool
is_unforced unforced = true
is_unforced _ = false

pub data Status : Type 0 where
  pending ready processing prepared sending completed : Status

abbrev pub is_pending : Status → Bool
is_pending pending = true
is_pending _ = false

abbrev pub is_ready : Status → Bool
is_ready ready = true
is_ready _ = false

abbrev pub is_processing : Status → Bool
is_processing processing = true
is_processing _ = false

abbrev pub is_prepared : Status → Bool
is_prepared prepared = true
is_prepared _ = false

abbrev pub is_sending : Status → Bool
is_sending sending = true
is_sending _ = false

abbrev pub is_completed : Status → Bool
is_completed completed = true
is_completed _ = false

pub data NoticeStatus : Type 0 where
  pending processing sending sent : NoticeStatus

-- The JSON column `waiting_notice`.
pub record Notice : Type 0 where
  pub status : NoticeStatus
  pub claim_token : Option ℕ
  pub claimed_at : Option ℕ

abbrev pub pending_notice : Notice
pending_notice = record { status = NoticeStatus.pending; claim_token = none; claimed_at = none }

pub data EventType : Type 0 where
  success backfire bot_backfire : EventType
  other_event : ℕ → EventType

abbrev pub is_success : EventType → Bool
is_success success = true
is_success _ = false

-- The JSON column `outcome_snapshot`: its event type, and a number for all the rest of it.
pub record Outcome : Type 0 where
  pub event_type : EventType
  pub details : ℕ

pub data FeedStatus : Type 0 where
  fed already_fed max_level no_daily_pig : FeedStatus

pub data SourceType : Type 0 where
  roast reservation : SourceType

pub record DailyFeedResult : Type 0 where
  pub status : FeedStatus
  pub user_id : ℕ
  pub pig_id : ℕ
  pub previous_level : ℕ
  pub new_level : ℕ
  pub source_type : SourceType
  pub source_id : ℕ

pub record RoastReservation : Type 0 where
  pub reservation_id : ℕ
  pub date_str : ℕ
  pub group_id : ℕ
  pub target_id : ℕ
  pub target_name : ℕ
  pub target_pig_id : ℕ
  pub owner_id : ℕ
  pub owner_name : ℕ
  pub owner_pig_id : ℕ
  pub delivery_bot_id : ℕ
  pub force_mode : ForceMode
  pub status : Status
  pub active_slot : Bool
  pub protection_required : ℕ
  pub protection_source : Source
  pub waiting_notice : Option Notice
  pub delivery_gathering_version : ℕ
  pub force_operator_id : ℕ
  pub force_operator_name : ℕ
  pub force_feed_user_ids : Option (List ℕ)
  pub outcome_snapshot : Option Outcome
  pub daily_feed_results : Option (List DailyFeedResult)
  pub claim_token : Option ℕ
  pub ready_at : Option ℕ
  pub claimed_at : Option ℕ
  pub completed_at : Option ℕ

pub record Participant : Type 0 where
  pub reservation_id : ℕ
  pub user_id : ℕ
  pub display_name : ℕ
  pub pig_id : ℕ
  pub contribution : ℕ

-- The appearance that a client resolved for a roll.
pub record Payload : Type 0 where
  pub resolved_variant_level : ℕ
  pub resolved_image_name : ℕ
  pub unlocked_variant_levels : List ℕ
  pub unlocked_variant_fields : List ℕ

-- The JSON column `appearance_snapshot`.
pub record Appearance : Type 0 where
  pub is_makeup : Bool
  pub payload : Option Payload

pub record DailyRoll : Type 0 where
  pub date_str : ℕ
  pub user_id : ℕ
  pub pig_id : ℕ
  pub is_new_pig : Option Bool
  pub previous_copies : Option ℕ
  pub copies_after_roll : Option ℕ
  pub previous_expert_level : Option ℕ
  pub expert_level_after_roll : Option ℕ
  pub collection_size_after_roll : Option ℕ
  pub previous_duplicate_streak : Option ℕ
  pub duplicate_streak_after_roll : Option ℕ
  pub resource_version : Option ℕ
  pub appearance_snapshot : Option Appearance

-- `(appearance_snapshot or {}).get("is_makeup") is True`
abbrev pub is_makeup : DailyRoll → Bool
is_makeup row = elim row.appearance_snapshot [ none ↦ false | some a ↦ a.is_makeup ]

pub record GroupRoll : Type 0 where
  pub date_str : ℕ
  pub group_id : ℕ
  pub user_id : ℕ
  pub pig_id : ℕ

pub record Collection : Type 0 where
  pub user_id : ℕ
  pub pig_id : ℕ

-- The rows of one tenant.
pub record UserPigProgress : Type 0 where
  pub user_id : ℕ
  pub pig_id : ℕ
  pub copies : ℕ
  pub growth_bonus : ℕ

pub record UserDailyFeed : Type 0 where
  pub date_str : ℕ
  pub user_id : ℕ
  pub pig_id : ℕ
  pub source_type : SourceType
  pub source_id : ℕ
  pub previous_level : ℕ
  pub new_level : ℕ

pub record UserDrawState : Type 0 where
  pub user_id : ℕ
  pub duplicate_streak : ℕ

pub record ActiveUser : Type 0 where
  pub date_str : ℕ
  pub group_id : ℕ
  pub user_id : ℕ

pub record ReservationMessage : Type 0 where
  pub bot_id : ℕ
  pub group_id : ℕ
  pub message_id : ℕ
  pub reservation_id : ℕ
  pub date_str : ℕ

pub record UnrolledRoastAttempt : Type 0 where
  pub date_str : ℕ
  pub user_id : ℕ
  pub attempt_count : ℕ

-- The JSON column `participant_snapshot`; a key that is not written reads as its default.
pub record EventSnapshot : Type 0 where
  pub ids : List ℕ
  pub names : List ℕ
  pub count : ℕ
  pub backfire_victim_id : ℕ
  pub backfire_victim_name : ℕ
  pub backfire_victim_ids : List ℕ
  pub backfire_victim_names : List ℕ
  pub special_reason : ℕ
  pub force_mode : ForceMode
  pub protection_level : ℕ
  pub reservation_owner_id : ℕ
  pub reservation_owner_name : ℕ

pub record RoastEvent : Type 0 where
  pub date_str : ℕ
  pub group_id : ℕ
  pub event_type : EventType
  pub attacker_id : ℕ
  pub target_id : ℕ
  pub attacker_name : ℕ
  pub target_name : ℕ
  pub food_name : ℕ
  pub reservation_id : ℕ
  pub participant_snapshot : Option EventSnapshot

pub data RefillStatus : Type 0 where
  voting expired succeeded failed : RefillStatus

-- `group_roast_refill_requests`; `active_key` is the text of the day and the group, or NULL.
pub record RefillRequest : Type 0 where
  pub request_id : ℕ
  pub active_key : Option (ℕ × ℕ)
  pub date_str : ℕ
  pub group_id : ℕ
  pub initiator_id : ℕ
  pub initiator_name : ℕ
  pub delivery_bot_id : ℕ
  pub message_id : ℕ
  pub active_count_snapshot : ℕ
  pub required_ratio : ℕ
  pub required_votes : ℕ
  pub success_count_before : ℕ
  pub status : RefillStatus
  pub benefited_user_ids : List ℕ
  pub failure_reason : ℕ
  pub created_at : ℕ
  pub expires_at : ℕ
  pub completed_at : Option ℕ

-- What a transaction reads and writes.
pub record Session : Type 0 where
  pub usages : List UserUsage
  pub protections : List GroupProtection
  pub reservations : List RoastReservation
  pub participants : List Participant
  pub rolls : List DailyRoll
  pub group_rolls : List GroupRoll
  pub collections : List Collection
  pub progress : List UserPigProgress
  pub feeds : List UserDailyFeed
  pub draw_states : List UserDrawState
  pub active_users : List ActiveUser
  pub messages : List ReservationMessage
  pub attempts : List UnrolledRoastAttempt
  pub events : List RoastEvent
  pub refills : List RefillRequest

-- What a request takes from outside the database: the current time and a new unique id.
pub record Env : Type 0 where
  pub now : ℕ
  pub uuid : ℕ
