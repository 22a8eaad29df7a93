-- ===== src/Tests/Growth.antt =====
-- Rolls, feeds and growth.
use rollpig_cloud.Base.{◌≡◌, refl, false, ◌&&◌, [], ◌∷◌, ◌==◌, arith, if◌then◌else◌, All}
use rollpig_cloud.Store.{SourceType, fed, already_fed, is_makeup, Session}
use rollpig_cloud.Progress.{
  apply_daily_feed, source_eq, get_progress, ensure_progress, grow, expert_level,
}
use rollpig_cloud.Progress.Feed.{apply_daily_feed-once}
use rollpig_cloud.Progress.Growth.{IsAccounted, apply_daily_feed-IsAccounted}
use rollpig_cloud.Reservation.Sound.{IsSound}
use rollpig_cloud.Reservation.Arrival.{IsReconciled}
use rollpig_cloud.Rolls.{RollRequest, add_roll, created_roll, get_or_create_daily_roll}
use rollpig_cloud.Rolls.Rolled.{
  get_or_create_daily_roll-once, get_or_create_daily_roll-IsSound,
  get_or_create_daily_roll-IsReconciled,
}
use rollpig_cloud.Tests.Data.{env, waiting, member, empty_session, roll_of}

-- User 11 has two copies of pig 3 and has rolled it today.
abbrev raised : Session
raised = record empty_session {
  rolls = roll_of 11 3 ∷ [];
  progress = record { user_id = 11; pig_id = 3; copies = 2; growth_bonus = 0 } ∷ [];
}

raised-IsAccounted : IsAccounted raised
unfolding get_progress
raised-IsAccounted = record {
  bonus_is_fed = λ user pig. ground arith;
  has_copies = (omega arith, tt);
}

raised-fed : (apply_daily_feed 100 11 SourceType.roast 40 raised).0.status ≡ fed
unfolding apply_daily_feed ensure_progress get_progress grow expert_level
raised-fed = refl

apply_daily_feed-once_example :
    let (result, s') = apply_daily_feed 100 11 SourceType.roast 40 raised in
    apply_daily_feed 100 11 SourceType.reservation 41 s' ≡ (
      record result {
        status =
            if source_eq SourceType.roast SourceType.reservation && 40 == 41
            then fed
            else already_fed;
        source_type = SourceType.reservation;
        source_id = 41;
      },
      s',
    )
apply_daily_feed-once_example =
    apply_daily_feed-once 100 11 SourceType.roast SourceType.reservation 40 41 raised raised-fed

apply_daily_feed-IsAccounted_example :
    IsAccounted (apply_daily_feed 100 11 SourceType.roast 40 raised).1
apply_daily_feed-IsAccounted_example =
    apply_daily_feed-IsAccounted 100 11 SourceType.roast 40 raised raised-IsAccounted

-- User 12 rolls pig 4, which reservation 7 waits for, and asks again for another pig.
abbrev coming : RollRequest
coming = record { user_id = 12; proposed_pig_id = 4; date_str = 100; group_id = 5 }

abbrev coming_again : RollRequest
coming_again = record { user_id = 12; proposed_pig_id = 8; date_str = 100; group_id = 6 }

abbrev awaited : Session
awaited = record empty_session { reservations = waiting ∷ []; participants = member ∷ [] }

awaited-IsSound : IsSound awaited
awaited-IsSound = record { fired = (refl, tt); within = λ id. ground arith }

get_or_create_daily_roll-once_example :
    let (first, s') = get_or_create_daily_roll env coming awaited in
    let (second, s'') = get_or_create_daily_roll env coming_again s' in
    (second.created ≡ false)
    × (second.daily_roll ≡ first.daily_roll)
    × (s''.rolls ≡ s'.rolls)
    × (s''.progress ≡ s'.progress)
    × (s''.collections ≡ s'.collections)
    × (s''.draw_states ≡ s'.draw_states)
get_or_create_daily_roll-once_example =
    get_or_create_daily_roll-once env env coming coming_again awaited refl refl

get_or_create_daily_roll-IsSound_example : IsSound (get_or_create_daily_roll env coming awaited).1
get_or_create_daily_roll-IsSound_example =
    get_or_create_daily_roll-IsSound env coming awaited awaited-IsSound

coming-counts : is_makeup (get_or_create_daily_roll env coming awaited).0.daily_roll ≡ false
unfolding get_or_create_daily_roll add_roll created_roll
coming-counts = refl

get_or_create_daily_roll-IsReconciled_example :
    let (response, s') = get_or_create_daily_roll env coming awaited in
    All (IsReconciled 100 12 response.daily_roll.pig_id s') s'.reservations
get_or_create_daily_roll-IsReconciled_example =
    get_or_create_daily_roll-IsReconciled env coming awaited awaited-IsSound coming-counts
