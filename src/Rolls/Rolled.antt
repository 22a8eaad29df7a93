-- ===== src/Rolls/Rolled.antt =====
-- What the roll of a day promises.
use rollpig_cloud.Base.{
  ℕ, ◌≡◌, refl, sym, ap, ◌∙◌, inl, inr, true, false, Option, none, some, [], ◌∷◌, ==_refl, is_some,
  arith, find, Bool-cases, Option-cases, find-append_none, All,
}
use rollpig_cloud.Store.{Appearance, DailyRoll, is_makeup, Session, Env}
use rollpig_cloud.Progress.{
  is_roll, find_roll, present, ensure_collection, set_copies, set_duplicate_streak,
  apply_created_roll_progress,
}
use rollpig_cloud.Activity.{mark_group_active_users}
use rollpig_cloud.Reservation.Reconcile.{activate_target_reservations}
use rollpig_cloud.Reservation.Sound.{IsSound}
use rollpig_cloud.Reservation.Prepared.{IsSound-tables}
use rollpig_cloud.Reservation.Arrival.{
  IsReconciled, activate_target_reservations-IsSound, activate_target_reservations-cases,
}
use rollpig_cloud.Rolls.{
  RollRequest, ensure_group_roll, created_roll, add_roll, arrive, get_or_create_daily_roll,
}

-- What reconciliation and the group's list leave alone.
pub arrive-tables :
    (env : Env) (req : RollRequest) (pig : ℕ) (s : Session)
    → let s' = arrive env req pig s in
      (s'.rolls ≡ s.rolls)
      × (s'.progress ≡ s.progress)
      × (s'.collections ≡ s.collections)
      × (s'.draw_states ≡ s.draw_states)
unfolding arrive ensure_group_roll activate_target_reservations mark_group_active_users
arrive-tables env req pig s = ground arith

reconcile-rolls :
    (date user pig now : ℕ) (s : Session)
    → (activate_target_reservations date user pig 0 now s).1.rolls ≡ s.rolls
unfolding activate_target_reservations
reconcile-rolls date user pig now s = ground arith

pub apply_created_roll_progress-rolls :
    (user pig : ℕ) (s : Session)
    → let s' = (apply_created_roll_progress user pig s).1 in
      (s'.rolls ≡ s.rolls) × (s'.reservations ≡ s.reservations) × (s'.participants ≡ s.participants)
unfolding apply_created_roll_progress ensure_collection set_copies set_duplicate_streak
apply_created_roll_progress-rolls user pig s = ground arith

pub made-found :
    (req : RollRequest) (appearance : Option Appearance) (s : Session)
    → find_roll req.date_str req.user_id s ≡ none
    → let (row, s') = add_roll req appearance s in find_roll req.date_str req.user_id s' ≡ some row
unfolding add_roll created_roll
made-found req appearance s e =
    let (progress, s') = apply_created_roll_progress req.user_id req.proposed_pig_id s in
    let row = created_roll req appearance progress in
    let none_there : find (is_roll req.date_str req.user_id) s'.rolls ≡ none =
      ap (find (is_roll req.date_str req.user_id))
        (apply_created_roll_progress-rolls req.user_id req.proposed_pig_id s).0
      ∙ e in
    find-append_none (is_roll req.date_str req.user_id) s'.rolls (row ∷ []) none_there
    ∙ rw (==_refl req.date_str, ==_refl req.user_id) refl

-- The row that a request shows is in the session afterwards.
pub shown-found :
    (env : Env) (req : RollRequest) (s : Session)
    → let (response, s') = get_or_create_daily_roll env req s in
      find_roll req.date_str req.user_id s' ≡ some response.daily_roll
unfolding get_or_create_daily_roll
shown-found env req s = elim (Option-cases (find_roll req.date_str req.user_id s)) [
  | inl e ↦
      let made = (add_roll req none s).1 in
      let s₁ = arrive env req req.proposed_pig_id made in
      let same : (activate_target_reservations req.date_str req.user_id req.proposed_pig_id 0
            env.now s₁).1.rolls
          ≡ made.rolls =
        reconcile-rolls req.date_str req.user_id req.proposed_pig_id env.now s₁
        ∙ (arrive-tables env req req.proposed_pig_id made).0 in
      rw (e, get_or_create_daily_roll)
        (ap (find (is_roll req.date_str req.user_id)) same ∙ made-found req none s e)
  | inr (row, e) ↦ elim (Bool-cases (is_makeup row)) [
    | inl m ↦ rw (e, m, get_or_create_daily_roll) e
    | inr m ↦
        rw (e, m, get_or_create_daily_roll)
          (ap (find (is_roll req.date_str req.user_id)) (arrive-tables env req row.pig_id s).0 ∙ e)
  ]
]

existing-kept :
    (env : Env) (req : RollRequest) (s : Session) (row : DailyRoll)
    → find_roll req.date_str req.user_id s ≡ some row
    → let (response, s') = get_or_create_daily_roll env req s in
      (response.created ≡ false)
      × (response.daily_roll ≡ row)
      × (s'.rolls ≡ s.rolls)
      × (s'.progress ≡ s.progress)
      × (s'.collections ≡ s.collections)
      × (s'.draw_states ≡ s.draw_states)
unfolding get_or_create_daily_roll
existing-kept env req s row e = elim (Bool-cases (is_makeup row)) [
  | inl m ↦ rw (e, m, get_or_create_daily_roll) (refl, refl, refl, refl, refl, refl)
  | inr m ↦
      let t = arrive-tables env req row.pig_id s in
      rw (e, m, get_or_create_daily_roll) (refl, refl, t.0, t.1, t.2, t.3)
]

-- A user rolls once a day. Whatever pig and group a later request for the same user and day names,
-- it is answered with the first roll and as not created, and rolls, copies, collections and streaks
-- stay as they are.
pub get_or_create_daily_roll-once :
    (env later : Env) (req again : RollRequest) (s : Session)
    → again.user_id ≡ req.user_id
    → again.date_str ≡ req.date_str
    → let (first, s') = get_or_create_daily_roll env req s in
      let (second, s'') = get_or_create_daily_roll later again s' in
      (second.created ≡ false)
      × (second.daily_roll ≡ first.daily_roll)
      × (s''.rolls ≡ s'.rolls)
      × (s''.progress ≡ s'.progress)
      × (s''.collections ≡ s'.collections)
      × (s''.draw_states ≡ s'.draw_states)
get_or_create_daily_roll-once env later req again s user date =
    let (first, s') = get_or_create_daily_roll env req s in
    existing-kept later again s' first.daily_roll (
      ap (λ d. find_roll d again.user_id s') date
      ∙ ap (λ u. find_roll req.date_str u s') user
      ∙ shown-found env req s)

seen-tables :
    (group user pig date : ℕ) (s : Session)
    → let s' = ensure_group_roll group user pig date s in
      (s'.participants ≡ s.participants) × (s'.reservations ≡ s.reservations) × (s'.rolls ≡ s.rolls)
unfolding ensure_group_roll mark_group_active_users
seen-tables group user pig date s = ground arith

seen-IsSound :
    (group user pig date : ℕ) (s : Session)
    → IsSound s
    → IsSound (ensure_group_roll group user pig date s)
seen-IsSound group user pig date s sound =
    let t = seen-tables group user pig date s in
    IsSound-tables s (ensure_group_roll group user pig date s) t.0 t.1 sound

add_roll-IsSound :
    (req : RollRequest) (appearance : Option Appearance) (s : Session)
    → IsSound s
    → IsSound (add_roll req appearance s).1
unfolding add_roll
add_roll-IsSound req appearance s sound =
    let t = apply_created_roll_progress-rolls req.user_id req.proposed_pig_id s in
    IsSound-tables s (add_roll req appearance s).1 t.2 t.1 sound

arrive-IsSound :
    (env : Env) (req : RollRequest) (pig : ℕ) (s : Session)
    → IsSound s
    → IsSound (arrive env req pig s)
unfolding arrive
arrive-IsSound env req pig s sound =
    activate_target_reservations-IsSound req.date_str req.user_id pig 0 env.now
      (ensure_group_roll req.group_id req.user_id pig req.date_str s)
      (seen-IsSound req.group_id req.user_id pig req.date_str s sound)

-- A sound session is sound after a roll, whatever the request: no reservation has left `pending`
-- without the fire that it requires, and no party has more than twelve members.
pub get_or_create_daily_roll-IsSound :
    (env : Env) (req : RollRequest) (s : Session)
    → IsSound s
    → IsSound (get_or_create_daily_roll env req s).1
unfolding get_or_create_daily_roll
get_or_create_daily_roll-IsSound env req s sound =
    elim (Option-cases (find_roll req.date_str req.user_id s)) [
      | inl e ↦
          rw (e, get_or_create_daily_roll)
            (activate_target_reservations-IsSound req.date_str req.user_id req.proposed_pig_id 0
              env.now (arrive env req req.proposed_pig_id (add_roll req none s).1)
              (arrive-IsSound env req req.proposed_pig_id (add_roll req none s).1
                (add_roll-IsSound req none s sound)))
      | inr (row, e) ↦ elim (Bool-cases (is_makeup row)) [
        | inl m ↦ rw (e, m, get_or_create_daily_roll) sound
        | inr m ↦ rw (e, m, get_or_create_daily_roll) (arrive-IsSound env req row.pig_id s sound)
      ]
    ]

present-some :
    (o : Option DailyRoll) (row : DailyRoll)
    → o ≡ some row
    → is_makeup row ≡ false
    → is_some (present o) ≡ true
present-some o row e m = rw (e, m) refl

arrive-IsReconciled :
    (env : Env) (req : RollRequest) (row : DailyRoll) (s : Session)
    → IsSound s
    → find_roll req.date_str req.user_id s ≡ some row
    → is_makeup row ≡ false
    → let s' = arrive env req row.pig_id s in
      All (IsReconciled req.date_str req.user_id row.pig_id s') s'.reservations
unfolding arrive
arrive-IsReconciled env req row s sound e m =
    let s₁ = ensure_group_roll req.group_id req.user_id row.pig_id req.date_str s in
    let here : find_roll req.date_str req.user_id s₁ ≡ some row =
      ap (find (is_roll req.date_str req.user_id))
        (seen-tables req.group_id req.user_id row.pig_id req.date_str s).2
      ∙ e in
    (activate_target_reservations-cases req.date_str req.user_id row.pig_id 0 env.now s₁
      (seen-IsSound req.group_id req.user_id row.pig_id req.date_str s sound)
      (present-some (find_roll req.date_str req.user_id s₁) row here m)).1

made-shown :
    (req : RollRequest) (s : Session)
    → ((add_roll req none s).0.pig_id ≡ req.proposed_pig_id)
      × (is_makeup (add_roll req none s).0 ≡ false)
unfolding add_roll created_roll
made-shown req s = (refl, refl)

-- If the session is sound before a roll that counts for its day, every reservation of the user on
-- that day that is still pending afterwards knows the pig and is short of fire.
pub get_or_create_daily_roll-IsReconciled :
    (env : Env) (req : RollRequest) (s : Session)
    → IsSound s
    → is_makeup (get_or_create_daily_roll env req s).0.daily_roll ≡ false
    → let (response, s') = get_or_create_daily_roll env req s in
      All (IsReconciled req.date_str req.user_id response.daily_roll.pig_id s') s'.reservations
unfolding get_or_create_daily_roll
get_or_create_daily_roll-IsReconciled env req s sound m =
    elim (Option-cases (find_roll req.date_str req.user_id s)) [
      | inl e ↦
          let made = add_roll req none s in
          let s₁ = arrive env req req.proposed_pig_id made.1 in
          let here : find_roll req.date_str req.user_id s₁ ≡ some made.0 =
            ap (find (is_roll req.date_str req.user_id))
              (arrive-tables env req req.proposed_pig_id made.1).0
            ∙ made-found req none s e in
          let p = made-shown req s in
          rw (e, get_or_create_daily_roll, p.0)
            (activate_target_reservations-cases req.date_str req.user_id req.proposed_pig_id 0
              env.now s₁
              (arrive-IsSound env req req.proposed_pig_id made.1
                (add_roll-IsSound req none s sound))
              (present-some (find_roll req.date_str req.user_id s₁) made.0 here p.1)).1
      | inr (row, e) ↦
          let shown = existing-kept env req s row e in
          let m' : is_makeup row ≡ false = ap is_makeup (sym shown.1) ∙ m in
          rw (e, m', get_or_create_daily_roll) (arrive-IsReconciled env req row s sound e m')
    ]
