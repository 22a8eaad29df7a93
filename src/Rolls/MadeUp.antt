-- ===== src/Rolls/MadeUp.antt =====
-- Rolls that are made up for a day later.
use rollpig_cloud.Base.{ℕ, ◌+◌, ◌≡◌, refl, arith, true, false, Option, none, some, ◌==◌}
use rollpig_cloud.Store.{Appearance, DailyRoll, is_makeup, Session, Env}
use rollpig_cloud.Progress.{find_roll, present}
use rollpig_cloud.Rolls.{
  RollRequest, created_roll, add_roll, made_up, get_or_create_daily_roll, makeup_daily_roll,
}
use rollpig_cloud.Rolls.Rolled.{made-found, apply_created_roll_progress-rolls}

made_up-row : (req : RollRequest) (s : Session) → is_makeup (add_roll req (some made_up) s).0 ≡ true
unfolding add_roll created_roll
made_up-row req s = refl

add_roll-reservations :
    (req : RollRequest) (appearance : Option Appearance) (s : Session)
    → (add_roll req appearance s).1.reservations ≡ s.reservations
unfolding add_roll
add_roll-reservations req appearance s =
    (apply_created_roll_progress-rolls req.user_id req.proposed_pig_id s).1

absent_row :
    (o : Option DailyRoll) (row : DailyRoll)
    → o ≡ some row
    → is_makeup row ≡ true
    → present o ≡ none
absent_row o row e m = rw (e, m) refl

-- A roll that is made up for later counts for growth and for nothing else: the user still has not
-- come on that day, the reservations stay as they are, and a later request for the day's roll shows
-- it and changes nothing. It is made only for yesterday, and only where there is no roll.
makeup_daily_roll-absent :
    (today : ℕ) (env : Env) (req : RollRequest) (s : Session)
    → req.date_str + 1 ≡ today
    → find_roll req.date_str req.user_id s ≡ none
    → (row : DailyRoll) × (s' : Session) × (makeup_daily_roll today req s
        ≡ some (record { daily_roll = row; created = true }, s'))
      × (present (find_roll req.date_str req.user_id s') ≡ none)
      × (s'.reservations ≡ s.reservations)
      × (get_or_create_daily_roll env req s' ≡ (record { daily_roll = row; created = false }, s'))
unfolding makeup_daily_roll get_or_create_daily_roll
makeup_daily_roll-absent today env req s day e =
    let made = add_roll req (some made_up) s in
    let found = made-found req (some made_up) s e in
    let m = made_up-row req s in
    let yesterday : (req.date_str + 1 == today) ≡ true = ground (arith, day) in
    (
      made.0,
      made.1,
      rw (yesterday, e, makeup_daily_roll) refl,
      absent_row (find_roll req.date_str req.user_id made.1) made.0 found m,
      add_roll-reservations req (some made_up) s,
      rw (found, m, get_or_create_daily_roll) refl,
    )
