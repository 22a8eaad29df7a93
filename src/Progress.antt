-- ===== src/Progress.antt =====
-- services/progress.py: expert levels, the growth of a first roll and the daily feed.
-- One tenant is modelled; `first_obtained_at` and `created_at` are left out.
pub mod Feed
pub mod Growth
pub mod Roll
pub mod Answers
pub mod Shown
use rollpig_cloud.Base.{
  ℕ, ◌+◌, ◌-◌, min, max, Bool, true, false, not, ◌&&◌, Option, none, some, List, [], ◌∷◌, ◌++◌, leb,
  ◌==◌, if◌then◌else◌, is_some, get_or, find, update, select, length,
}
use rollpig_cloud.Store.{
  FeedStatus, fed, already_fed, max_level, no_daily_pig, SourceType, roast, reservation,
  DailyFeedResult, DailyRoll, is_makeup, Collection, UserPigProgress, UserDailyFeed, UserDrawState,
  Session,
}

abbrev pub max_expert_level : ℕ
max_expert_level = 5

-- `-` stops at 0 where the code takes the maximum with 0, since 1 is taken off the whole sum.
unfoldable pub expert_level : ℕ → ℕ → ℕ
expert_level copies growth_bonus = min (copies + growth_bonus - 1) max_expert_level

abbrev pub is_collection : ℕ → ℕ → Collection → Bool
is_collection user pig row = row.user_id == user && row.pig_id == pig

abbrev pub is_progress : ℕ → ℕ → UserPigProgress → Bool
is_progress user pig row = row.user_id == user && row.pig_id == pig

abbrev pub is_draw_state : ℕ → UserDrawState → Bool
is_draw_state user row = row.user_id == user

abbrev pub is_roll : ℕ → ℕ → DailyRoll → Bool
is_roll date user row = row.date_str == date && row.user_id == user

abbrev pub is_feed : ℕ → ℕ → UserDailyFeed → Bool
is_feed date user row = row.date_str == date && row.user_id == user

unfoldable pub get_collection : ℕ → ℕ → Session → Option Collection
get_collection user pig s = find (is_collection user pig) s.collections

unfoldable pub ensure_collection : ℕ → ℕ → Session → Session
unfolding get_collection
ensure_collection user pig s =
    if is_some (get_collection user pig s)
    then s
    else record s { collections = s.collections ++ record { user_id = user; pig_id = pig } ∷ [] }

unfoldable pub get_progress : ℕ → ℕ → Session → Option UserPigProgress
get_progress user pig s = find (is_progress user pig) s.progress

unfoldable pub get_draw_state : ℕ → Session → Option UserDrawState
get_draw_state user s = find (is_draw_state user) s.draw_states

pub record CreatedRollProgress : Type 0 where
  pub is_new_pig : Bool
  pub previous_copies : ℕ
  pub copies_after_roll : ℕ
  pub previous_expert_level : ℕ
  pub expert_level_after_roll : ℕ
  pub collection_size_after_roll : ℕ
  pub previous_duplicate_streak : ℕ
  pub duplicate_streak_after_roll : ℕ

-- `progress.copies = copies`, or a new row with no growth bonus.
unfoldable pub set_copies : ℕ → ℕ → ℕ → Session → Session
unfolding get_progress
set_copies user pig copies s =
    if is_some (get_progress user pig s)
    then record s {
      progress = update (is_progress user pig) (λ row. record row { copies = copies }) s.progress;
    }
    else record s {
      progress =
          s.progress
          ++ record { user_id = user; pig_id = pig; copies = copies; growth_bonus = 0 } ∷ [];
    }

unfoldable pub set_duplicate_streak : ℕ → ℕ → Session → Session
unfolding get_draw_state
set_duplicate_streak user streak s =
    if is_some (get_draw_state user s)
    then record s {
      draw_states =
          update (is_draw_state user) (λ row. record row { duplicate_streak = streak })
            s.draw_states;
    }
    else record s {
      draw_states = s.draw_states ++ record { user_id = user; duplicate_streak = streak } ∷ [];
    }

abbrev pub copies_of : Option UserPigProgress → ℕ → ℕ
copies_of none d = d
copies_of (some row) d = row.copies

abbrev pub bonus_of : Option UserPigProgress → ℕ
bonus_of none = 0
bonus_of (some row) = row.growth_bonus

abbrev pub streak_of : Option UserDrawState → ℕ
streak_of none = 0
streak_of (some row) = row.duplicate_streak

-- The collections of a user, `func.count(Collection.id)`.
pub collection_size : ℕ → Session → ℕ
collection_size user s = length (select (λ row. row.user_id == user) s.collections)

unfoldable pub apply_created_roll_progress : ℕ → ℕ → Session → CreatedRollProgress × Session
unfolding get_collection get_progress get_draw_state ensure_collection set_copies
    set_duplicate_streak collection_size
apply_created_roll_progress user pig s =
    let progress = get_progress user pig s in
    let streak = streak_of (get_draw_state user s) in
    let growth_bonus = bonus_of progress in
    let is_new = not (is_some (get_collection user pig s)) && not (is_some progress) in
    let previous_copies = (if is_new then 0 else copies_of progress 1) in
    let copies = previous_copies + 1 in
    let streak' = (if is_new then 0 else streak + 1) in
    let s' =
      set_duplicate_streak user streak'
        (set_copies user pig copies (ensure_collection user pig s)) in
    (
      record {
        is_new_pig = is_new;
        previous_copies = previous_copies;
        copies_after_roll = copies;
        previous_expert_level = expert_level previous_copies growth_bonus;
        expert_level_after_roll = expert_level copies growth_bonus;
        collection_size_after_roll = collection_size user s';
        previous_duplicate_streak = streak;
        duplicate_streak_after_roll = streak';
      },
      s',
    )

abbrev pub source_eq : SourceType → SourceType → Bool
source_eq roast roast = true
source_eq reservation reservation = true
source_eq _ _ = false

-- What a feed that exists answers to a request, by whether the source is the same.
abbrev pub existing_feed : ℕ → UserDailyFeed → SourceType → ℕ → DailyFeedResult
existing_feed user row source source_id = record {
  status =
      if source_eq row.source_type source && row.source_id == source_id then fed else already_fed;
  user_id = user;
  pig_id = row.pig_id;
  previous_level = row.previous_level;
  new_level = row.new_level;
  source_type = source;
  source_id = source_id;
}

abbrev pub feed_result : FeedStatus → ℕ → ℕ → ℕ → ℕ → SourceType → ℕ → DailyFeedResult
feed_result status user pig previous new source source_id = record {
  status = status;
  user_id = user;
  pig_id = pig;
  previous_level = previous;
  new_level = new;
  source_type = source;
  source_id = source_id;
}

-- `get_progress`, or the row that is added with one copy.
unfoldable pub ensure_progress : ℕ → ℕ → Session → UserPigProgress × Session
unfolding get_progress
ensure_progress user pig s = elim (get_progress user pig s) [
  | some row ↦ (row, s)
  | none ↦
      let row : UserPigProgress = record {
        user_id = user;
        pig_id = pig;
        copies = 1;
        growth_bonus = 0;
      } in
      (row, record s { progress = s.progress ++ row ∷ [] })
]

-- The part of `apply_daily_feed` that follows the look-ups: the level, and the growth if there is
-- room. The transaction runs alone, so the insertion meets no other feed of the day.
unfoldable pub grow :
    ℕ → ℕ → ℕ → SourceType → ℕ → UserPigProgress × Session → DailyFeedResult × Session
unfolding expert_level
grow date user pig source source_id (row, s) =
    let previous = expert_level row.copies row.growth_bonus in
    let bonus = row.growth_bonus + 1 in
    let new = expert_level row.copies bonus in
    if leb max_expert_level previous
    then (feed_result max_level user pig previous previous source source_id, s)
    else (
      feed_result fed user pig previous new source source_id,
      record s {
        feeds =
            s.feeds
            ++ record {
              date_str = date;
              user_id = user;
              pig_id = pig;
              source_type = source;
              source_id = source_id;
              previous_level = previous;
              new_level = new;
            }
              ∷ [];
        progress =
            update (is_progress user pig) (λ r. record r { growth_bonus = bonus }) s.progress;
      },
    )

abbrev pub find_roll : ℕ → ℕ → Session → Option DailyRoll
find_roll date user s = find (is_roll date user) s.rolls

-- The roll of a day, unless it was made up for later: a made-up roll counts as absent.
abbrev pub present : Option DailyRoll → Option DailyRoll
present none = none
present (some row) = if is_makeup row then none else some row

unfoldable pub apply_daily_feed : ℕ → ℕ → SourceType → ℕ → Session → DailyFeedResult × Session
unfolding ensure_progress grow
apply_daily_feed date user source source_id s = elim (present (find_roll date user s)) [
  | none ↦ (feed_result no_daily_pig user 0 0 0 source source_id, s)
  | some roll ↦ elim (find (is_feed date user) s.feeds) [
    | some row ↦ (existing_feed user row source source_id, s)
    | none ↦ grow date user roll.pig_id source source_id (ensure_progress user roll.pig_id s)
  ]
]
