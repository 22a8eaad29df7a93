-- ===== src/Reports/Profiles.antt =====
-- routers/daily_reports.py, `get_daily_report_profiles`: what the ranking of a group shows of its
-- members at a fixed time.
use rollpig_cloud.Base.{
  ℕ, zero, suc, ◌+◌, ◌-◌, ◌/◌, Bool, false, ◌&&◌, Option, none, some, List, [], ◌∷◌, map, ltb, leb,
  ◌==◌, min, max, if◌then◌else◌, get_or, any, contains, find, select, length,
}
use rollpig_cloud.Store.{DailyRoll, GroupRoll, Collection, UserDailyFeed}

-- A row with the time of its column `created_at`, `seen_at` or `first_seen_at`.
pub record Stamped (A : Type 0) : Type 0 where
  pub row : A
  pub stamp : ℕ

pub record ReportTables : Type 0 where
  pub group_rolls : List (Stamped GroupRoll)
  pub daily_rolls : List (Stamped DailyRoll)
  pub collections : List (Stamped Collection)
  pub feeds : List (Stamped UserDailyFeed)

pub record DailyReportProfileRequest : Type 0 where
  pub date_str : ℕ
  pub group_id : ℕ
  pub cutoff_at : ℕ
  pub user_ids : List ℕ

pub record DailyReportProfileItem : Type 0 where
  pub user_id : ℕ
  pub daily_pig_id : ℕ
  pub daily_ex_level : Option ℕ
  pub daily_achieved_at : Option ℕ
  pub catalog_count : ℕ
  pub catalog_achieved_at : Option ℕ
  pub recent_pig_id : ℕ
  pub recent_ex_level : Option ℕ

abbrev pub batch_size : ℕ
batch_size = 500

abbrev pub take {ℓ} : {A : Type ℓ} → ℕ → List A → List A
take zero xs = []
take (suc n) [] = []
take (suc n) (x ∷ xs) = x ∷ take n xs

abbrev pub drop {ℓ} : {A : Type ℓ} → ℕ → List A → List A
drop zero xs = xs
drop (suc n) [] = []
drop (suc n) (x ∷ xs) = drop n xs

-- The slices from the next index on, for the rounds that are left.
abbrev pub slices : ℕ → ℕ → List ℕ → List (List ℕ)
slices size zero ids = []
slices size (suc rounds) ids = take size ids ∷ slices size rounds (drop size ids)

-- `range(0, len(user_ids), size)` has that many indices.
unfoldable pub user_id_batches : ℕ → List ℕ → List (List ℕ)
user_id_batches size ids = slices size ((length ids + size - 1) / size) ids

-- `user_id.in_(batch)` for one of the batches.
abbrev pub is_asked : List ℕ → ℕ → Bool
is_asked ids user = any (contains user) (user_id_batches batch_size ids)

-- `expert_level_after_roll`, or the level of the copies, raised by a feed and kept within 0 to 5.
unfoldable pub expert_level_from_roll : Option DailyRoll → Option ℕ → Option ℕ
expert_level_from_roll none feed_level = none
expert_level_from_roll (some row) feed_level = elim row.copies_after_roll [
  | none ↦ none
  | some copies ↦
      some (min (max (get_or row.expert_level_after_roll (copies - 1)) (get_or feed_level 0)) 5)
]

-- The greatest of the numbers, `func.max`.
abbrev greatest : List ℕ → Option ℕ
greatest [] = none
greatest (x ∷ xs) = some (max x (get_or (greatest xs) x))

-- The roll of the user on the day of the request.
unfoldable pub daily_roll_of :
    DailyReportProfileRequest → ℕ → ReportTables → Option (Stamped DailyRoll)
unfolding user_id_batches
daily_roll_of req user t =
    find
      (λ r.
        r.row.date_str == req.date_str
        && r.row.user_id == user
        && is_asked req.user_ids user
        && leb r.stamp req.cutoff_at)
      t.daily_rolls

unfoldable pub daily_pig_of : DailyReportProfileRequest → ℕ → ReportTables → ℕ
unfolding user_id_batches
daily_pig_of req user t =
    elim (find
      (λ r.
        r.row.group_id == req.group_id
        && r.row.date_str == req.date_str
        && r.row.user_id == user
        && is_asked req.user_ids user
        && leb r.stamp req.cutoff_at)
      t.group_rolls) [ none ↦ 0 | some r ↦ r.row.pig_id ]

-- The collection of the user at the time.
abbrev collection_of : DailyReportProfileRequest → ℕ → ReportTables → List (Stamped Collection)
collection_of req user t =
    select (λ c. c.row.user_id == user && is_asked req.user_ids user && leb c.stamp req.cutoff_at)
      t.collections

-- The latest roll up to the day: the row of the greatest date.
recent_roll_of : DailyReportProfileRequest → ℕ → ReportTables → Option (Stamped DailyRoll)
unfolding user_id_batches
recent_roll_of req user t =
    elim (greatest (
      map (λ r. r.row.date_str)
        (select
          (λ r.
            r.row.user_id == user
            && is_asked req.user_ids user
            && leb r.row.date_str req.date_str
            && leb r.stamp req.cutoff_at)
          t.daily_rolls))) [
            | none ↦ none
            | some date ↦ find (λ r. r.row.user_id == user && r.row.date_str == date) t.daily_rolls
          ]

unfoldable pub latest_feed_of :
    DailyReportProfileRequest → ℕ → ReportTables → Option (Stamped UserDailyFeed)
unfolding user_id_batches
latest_feed_of req user t =
    elim (greatest (
      map (λ f. f.row.date_str)
        (select
          (λ f.
            f.row.user_id == user
            && is_asked req.user_ids user
            && leb f.row.date_str req.date_str
            && leb f.stamp req.cutoff_at)
          t.feeds))) [
            | none ↦ none
            | some date ↦ find (λ f. f.row.user_id == user && f.row.date_str == date) t.feeds
          ]

-- `matching_feed`: the feed is of the pig of the day and raises its level.
abbrev pub is_matching : ℕ → Option (Stamped UserDailyFeed) → Bool
is_matching pig none = false
is_matching pig (some f) =
    f.row.pig_id == pig && ltb f.row.previous_level f.row.new_level && leb f.row.new_level 5

-- `feed_level`
abbrev feed_level : Option (Stamped UserDailyFeed) → Option ℕ
feed_level none = none
feed_level (some f) = some f.row.new_level

-- The roll of the day, if it is the pig that the group saw.
abbrev matching_roll : ℕ → Option (Stamped DailyRoll) → Option (Stamped DailyRoll)
matching_roll pig none = none
matching_roll pig (some r) = if r.row.pig_id == pig then some r else none

abbrev pub plain : Option (Stamped DailyRoll) → Option DailyRoll
plain none = none
plain (some r) = some r.row

unfoldable pub daily_ex_level :
    ℕ → Option (Stamped DailyRoll) → Option (Stamped UserDailyFeed) → Option ℕ
unfolding expert_level_from_roll
daily_ex_level pig roll feed =
    expert_level_from_roll (plain (matching_roll pig roll))
      (if is_matching pig feed then feed_level feed else none)

-- Whether the feed of the day raised the level above that of the roll.
abbrev pub raises : ℕ → Option ℕ → Option (Stamped UserDailyFeed) → Bool
raises date none feed = false
raises date (some base) none = false
raises date (some base) (some f) = f.row.date_str == date && ltb base f.row.new_level

unfoldable pub daily_achieved_at :
    ℕ → ℕ → Option (Stamped DailyRoll) → Option (Stamped UserDailyFeed) → Option ℕ
unfolding expert_level_from_roll
daily_achieved_at date pig roll feed =
    if is_matching pig feed
      && raises date (expert_level_from_roll (plain (matching_roll pig roll)) none) feed
    then elim feed [ none ↦ none | some f ↦ some f.stamp ]
    else elim (matching_roll pig roll) [ none ↦ none | some r ↦ some r.stamp ]

-- A feed of the recent pig counts for it.
abbrev recent_feed : Option (Stamped DailyRoll) → Option (Stamped UserDailyFeed) → Option ℕ
recent_feed none feed = none
recent_feed (some r) none = none
recent_feed (some r) (some f) = if f.row.pig_id == r.row.pig_id then some f.row.new_level else none

unfoldable pub profile : DailyReportProfileRequest → ReportTables → ℕ → DailyReportProfileItem
unfolding daily_pig_of daily_roll_of latest_feed_of recent_roll_of daily_ex_level daily_achieved_at
    expert_level_from_roll user_id_batches
profile req t user =
    let pig = daily_pig_of req user t in
    let roll = daily_roll_of req user t in
    let feed = latest_feed_of req user t in
    let recent = recent_roll_of req user t in
    let owned = collection_of req user t in
    record {
      user_id = user;
      daily_pig_id = pig;
      daily_ex_level = daily_ex_level pig roll feed;
      daily_achieved_at = daily_achieved_at req.date_str pig roll feed;
      catalog_count = length owned;
      catalog_achieved_at = greatest (map (λ c. c.stamp) owned);
      recent_pig_id = elim recent [ none ↦ 0 | some r ↦ r.row.pig_id ];
      recent_ex_level = expert_level_from_roll (plain recent) (recent_feed recent feed);
    }

unfoldable get_daily_report_profiles :
    DailyReportProfileRequest → ReportTables → List DailyReportProfileItem
unfolding profile
get_daily_report_profiles req t = map (profile req t) req.user_ids
