-- ===== src/Reports/Ranking.antt =====
-- What the ranking of a daily report says of a level and of the time at which it was reached.
use rollpig_cloud.Base.{
  ℕ, ◌≤◌, ◌≡◌, ap, ◌∙◌, Bool, true, ◌&&◌, Option, none, some, ltb, ◌==◌, max, if◌then◌else◌, arith,
}
use rollpig_cloud.Store.{DailyRoll, UserDailyFeed}
use rollpig_cloud.Reports.Profiles.{
  Stamped, ReportTables, DailyReportProfileRequest, expert_level_from_roll, is_matching, plain,
  daily_ex_level, raises, daily_achieved_at, daily_pig_of, daily_roll_of, latest_feed_of, profile,
}

level-le :
    (row : Option DailyRoll) (level : Option ℕ) (l : ℕ)
    → expert_level_from_roll row level ≡ some l
    → l ≤ 5
unfolding expert_level_from_roll
level-le none level l e = absurd (cc)
level-le (some row) level l e = ground arith

raised_level :
    (row : DailyRoll) (base new : ℕ)
    → expert_level_from_roll (some row) none ≡ some base
    → new ≤ 5
    → expert_level_from_roll (some row) (some new) ≡ some (max base new)
unfolding expert_level_from_roll
raised_level row base new e h = ground arith

matched :
    (date pig base : ℕ) (roll : Stamped DailyRoll) (feed : Stamped UserDailyFeed)
    → roll.row.pig_id ≡ pig
    → is_matching pig (some feed) ≡ true
    → feed.row.date_str ≡ date
    → expert_level_from_roll (some roll.row) none ≡ some base
    → (daily_ex_level pig (some roll) (some feed) ≡ some (max base feed.row.new_level))
      × (daily_achieved_at date pig (some roll) (some feed)
          ≡ some (if ltb base feed.row.new_level then feed.stamp else roll.stamp))
unfolding daily_ex_level daily_achieved_at
matched date pig base roll feed own matching day shown =
    let small : feed.row.new_level ≤ 5 = ground arith in
    let raised = raised_level roll.row base feed.row.new_level shown small in
    let seen : (roll.row.pig_id == pig) ≡ true = ground arith in
    let today : (feed.row.date_str == date) ≡ true = ground arith in
    let new = feed.row.new_level in
    let shows : Bool → Option (Stamped DailyRoll) = λ b. if b then some roll else none in
    let level =
      ap
        (λ b.
          expert_level_from_roll (plain (shows b))
            (if is_matching pig (some feed) then some new else none))
        seen
      ∙ ap (λ b. expert_level_from_roll (some roll.row) (if b then some new else none)) matching in
    let time : Bool → Option ℕ → Option (Stamped DailyRoll) → Option ℕ = λ b base roll'.
      if b && raises date base (some feed)
      then some feed.stamp
      else elim roll' [ none ↦ none | some r ↦ some r.stamp ] in
    let at =
      ap
        (λ b.
          time (is_matching pig (some feed)) (expert_level_from_roll (plain (shows b)) none)
            (shows b))
        seen
      ∙ ap (λ b. time b (expert_level_from_roll (some roll.row) none) (some roll)) matching
      ∙ ap (λ o. time true o (some roll)) shown in
    (level ∙ raised, at ∙ ground arith)

-- The level of the day and its time belong together. If the pig of the day was fed on that day, the
-- ranking shows the greater of the level that the roll shows and the level of the feed, with the
-- time of the feed if that level is greater and the time of the roll if it is not. The feed is the
-- user's latest one and raised a level to at most five; the roll is the user's roll of that day.
pub profile-achieved :
    (req : DailyReportProfileRequest) (t : ReportTables) (user base : ℕ) (roll : Stamped DailyRoll)
    (feed : Stamped UserDailyFeed)
    → daily_roll_of req user t ≡ some roll
    → latest_feed_of req user t ≡ some feed
    → roll.row.pig_id ≡ daily_pig_of req user t
    → is_matching (daily_pig_of req user t) (some feed) ≡ true
    → feed.row.date_str ≡ req.date_str
    → expert_level_from_roll (some roll.row) none ≡ some base
    → ((profile req t user).daily_ex_level ≡ some (max base feed.row.new_level))
      × ((profile req t user).daily_achieved_at
          ≡ some (if ltb base feed.row.new_level then feed.stamp else roll.stamp))
unfolding profile
profile-achieved req t user base roll feed er ef own matching day shown =
    rw (er, ef)
      (matched req.date_str (daily_pig_of req user t) base roll feed own matching day shown)

-- A level that the ranking shows is at most five, of the day and of the recent pig alike.
profile-level :
    (req : DailyReportProfileRequest) (t : ReportTables) (user l k : ℕ)
    → (profile req t user).daily_ex_level ≡ some l
    → (profile req t user).recent_ex_level ≡ some k
    → (l ≤ 5) × (k ≤ 5)
unfolding profile daily_ex_level
profile-level req t user l k e e' = (level-le _ _ l e, level-le _ _ k e')
