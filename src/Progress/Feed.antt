-- ===== src/Progress/Feed.antt =====
-- What `apply_daily_feed` of services/progress.py promises: one growth a day, and no more.
use rollpig_cloud.Base.{
  ℕ, ◌+◌, ◌≤◌, ◌<◌, ◌≡◌, refl, ◌⊎◌, inl, inr, true, ◌&&◌, none, some, arith, leb, ◌==◌,
  if◌then◌else◌, find, Option-cases, find-append_none, find-passes, is_some, Bool-cases, ap, ◌∙◌,
}
use rollpig_cloud.Store.{
  fed, already_fed, max_level, no_daily_pig, SourceType, roast, reservation, DailyFeedResult,
  DailyRoll, UserPigProgress, UserDailyFeed, Session,
}
use rollpig_cloud.Progress.{
  expert_level, max_expert_level, is_feed, ensure_progress, grow, find_roll, present,
  apply_daily_feed, source_eq, feed_result, existing_feed,
}

source_eq_refl : (t : SourceType) → source_eq t t ≡ true
source_eq_refl roast = refl
source_eq_refl reservation = refl

-- The feed row that a result describes.
abbrev feed_row : ℕ → DailyFeedResult → UserDailyFeed
feed_row date result = record {
  date_str = date;
  user_id = result.user_id;
  pig_id = result.pig_id;
  source_type = result.source_type;
  source_id = result.source_id;
  previous_level = result.previous_level;
  new_level = result.new_level;
}

grow-found :
    (date user pig : ℕ) (source : SourceType) (source_id : ℕ) (row : UserPigProgress) (s : Session)
    → find (is_feed date user) s.feeds ≡ none
    → (grow date user pig source source_id (row, s)).0.status ≡ fed
    → let (result, s') = grow date user pig source source_id (row, s) in
      (s'.rolls ≡ s.rolls) × (find (is_feed date user) s'.feeds ≡ some (feed_row date result))
unfolding grow
grow-found date user pig source source_id row s e h =
    elim (Bool-cases (leb max_expert_level (expert_level row.copies row.growth_bonus))) [
      | inl full ↦ ground arith
      | inr room ↦
          rw (room, grow)
            (refl, rw (find-append_none (is_feed date user) s.feeds _ e) (ground arith))
    ]

grow-level :
    (date user pig : ℕ) (source : SourceType) (source_id : ℕ) (row : UserPigProgress) (s : Session)
    → 0 < row.copies
    → let result = (grow date user pig source source_id (row, s)).0 in
      ((result.status ≡ fed)
        × (result.new_level ≡ result.previous_level + 1)
        × (result.new_level ≤ 5))
      ⊎ ((result.status ≡ max_level) × (result.new_level ≡ 5) × (result.previous_level ≡ 5))
unfolding grow
grow-level date user pig source source_id row s pos =
    elim (Bool-cases (leb max_expert_level (expert_level row.copies row.growth_bonus))) [
      | inl full ↦ inr (rw (full, grow) (ground arith, ground arith, ground arith))
      | inr room ↦ inl (rw (room, grow) (ground arith, ground arith, ground arith))
    ]

ensure_progress-tables :
    (user pig : ℕ) (s : Session)
    → let s' = (ensure_progress user pig s).1 in (s'.rolls ≡ s.rolls) × (s'.feeds ≡ s.feeds)
unfolding ensure_progress
ensure_progress-tables user pig s = ground arith

module _ (date user : ℕ) (source : SourceType) (source_id : ℕ) (s : Session) where
  apply_daily_feed-absent :
      present (find_roll date user s) ≡ none
      → apply_daily_feed date user source source_id s
        ≡ (feed_result no_daily_pig user 0 0 0 source source_id, s)
  unfolding apply_daily_feed
  apply_daily_feed-absent e = rw (e, apply_daily_feed)

  apply_daily_feed-old :
      (roll : DailyRoll) (feed : UserDailyFeed)
      → present (find_roll date user s) ≡ some roll
      → find (is_feed date user) s.feeds ≡ some feed
      → apply_daily_feed date user source source_id s
        ≡ (existing_feed user feed source source_id, s)
  unfolding apply_daily_feed
  apply_daily_feed-old roll feed e k = rw (e, k, apply_daily_feed)

  apply_daily_feed-new :
      (roll : DailyRoll)
      → present (find_roll date user s) ≡ some roll
      → find (is_feed date user) s.feeds ≡ none
      → apply_daily_feed date user source source_id s
        ≡ grow date user roll.pig_id source source_id (ensure_progress user roll.pig_id s)
  unfolding apply_daily_feed
  apply_daily_feed-new roll e k = rw (e, k, apply_daily_feed)

-- What a result `fed` leaves on record: the roll, and a feed of the day as the result has it.
abbrev IsOnRecord : ℕ → ℕ → DailyFeedResult × Session → Type 0
IsOnRecord date user (result, s) =
    (is_some (present (find_roll date user s)) ≡ true)
    × (find (is_feed date user) s.feeds ≡ some (feed_row date result))

existing_feed-row :
    (date user : ℕ) (source : SourceType) (source_id : ℕ) (feed : UserDailyFeed)
    → is_feed date user feed ≡ true
    → (existing_feed user feed source source_id).status ≡ fed
    → feed ≡ feed_row date (existing_feed user feed source source_id)
existing_feed-row date user source source_id feed mine h = ground arith

apply_daily_feed-IsOnRecord :
    (date user : ℕ) (source : SourceType) (source_id : ℕ) (s : Session)
    → (apply_daily_feed date user source source_id s).0.status ≡ fed
    → IsOnRecord date user (apply_daily_feed date user source source_id s)
apply_daily_feed-IsOnRecord date user source source_id s h =
    elim (Option-cases (present (find_roll date user s))) [
      | inl absent ↦
          cc (ap (λ r. r.0.status) (apply_daily_feed-absent date user source source_id s absent))
      | inr (roll, here) ↦ elim (Option-cases (find (is_feed date user) s.feeds)) [
        | inl new ↦
            let e = apply_daily_feed-new date user source source_id s roll here new in
            let (row, s') = ensure_progress user roll.pig_id s in
            let same = ensure_progress-tables user roll.pig_id s in
            let found =
              grow-found date user roll.pig_id source source_id row s' (rw same.1 new)
                (rw e at h) in
            rw e (rw (found.0, same.0) (ground (arith, here)), found.1)
        | inr (feed, old) ↦
            let e = apply_daily_feed-old date user source source_id s roll feed here old in
            rw e (
              ground (arith, here),
              old
                  ∙ ap some (
                      existing_feed-row date user source source_id feed
                        (find-passes _ s.feeds feed old) (rw e at h)),
            )
      ]
    ]

-- A result names the user and the source that were asked about.
apply_daily_feed-echo :
    (date user : ℕ) (source : SourceType) (source_id : ℕ) (s : Session)
    → let result = (apply_daily_feed date user source source_id s).0 in
      (result.user_id ≡ user) × (result.source_type ≡ source) × (result.source_id ≡ source_id)
unfolding apply_daily_feed grow
apply_daily_feed-echo date user source source_id s = ground arith

-- One growth a day: after a result `fed`, any further request for the same user and day leaves the
-- session as it is and answers with the same pig and levels, as `fed` if it names the same source
-- and as `already_fed` if not.
pub apply_daily_feed-once :
    (date user : ℕ) (source source' : SourceType) (source_id source_id' : ℕ) (s : Session)
    → (apply_daily_feed date user source source_id s).0.status ≡ fed
    → let (result, s') = apply_daily_feed date user source source_id s in
      apply_daily_feed date user source' source_id' s' ≡ (
        record result {
          status = if source_eq source source' && source_id == source_id' then fed else already_fed;
          source_type = source';
          source_id = source_id';
        },
        s',
      )
apply_daily_feed-once date user source source' source_id source_id' s h =
    let (result, s') = apply_daily_feed date user source source_id s in
    let kept = apply_daily_feed-IsOnRecord date user source source_id s h in
    let echo = apply_daily_feed-echo date user source source_id s in
    elim (Option-cases (present (find_roll date user s'))) [
      | inl absent ↦ ground (arith, kept.0, absent)
      | inr (roll, here) ↦
          apply_daily_feed-old date user source' source_id' s' roll (feed_row date result) here
            kept.1
          ∙ ground (arith, echo.0, echo.1, echo.2)
    ]
