-- ===== src/Rolls/Answered.antt =====
-- routers/daily_rolls.py: the answers of POST /get-or-create and GET /by-date, and what they say of the
-- growth that GET /draw-state shows.
use rollpig_cloud.Base.{
  ℕ, ◌+◌, ◌≡◌, refl, sym, ap, ◌∙◌, Bool, true, false, none, some, List, ◌==◌, is_some, contains,
  find, select, map, arith,
}
use rollpig_cloud.Store.{DailyRoll, Session, Env}
use rollpig_cloud.Progress.{
  find_roll, get_progress, get_collection, copies_of, bonus_of, expert_level, CreatedRollProgress,
  is_progress, is_collection, apply_created_roll_progress,
}
use rollpig_cloud.Progress.Answers.{
  DailyRollLookupResponse, no_roll, historic_response, build_lookup_response, item_of,
  build_draw_state_response,
}
use rollpig_cloud.Progress.Shown.{build_draw_state_response-pigs, build_lookup_response-created}
use rollpig_cloud.Progress.Roll.{created-tables, created-written, created-collection}
use rollpig_cloud.Reservation.Reconcile.{activate_target_reservations}
use rollpig_cloud.Rolls.{RollRequest, created_roll, add_roll, arrive, get_or_create_daily_roll}
use rollpig_cloud.Rolls.Rolled.{arrive-tables, shown-found}

-- POST /get-or-create with its answer.
pub answer_roll : Env → RollRequest → Session → DailyRollLookupResponse × Session
unfolding get_or_create_daily_roll build_lookup_response
answer_roll env req s =
    let (made, s') = get_or_create_daily_roll env req s in
    (build_lookup_response (some made.daily_roll) made.created s', s')

-- GET /by-date
pub get_daily_roll_by_date : ℕ → ℕ → Session → DailyRollLookupResponse
unfolding build_lookup_response
get_daily_roll_by_date user date s = elim (find_roll date user s) [
  | none ↦ no_roll false
  | some row ↦ build_lookup_response (some row) false s
]

-- What a request for a roll is answered can be read back: GET /by-date gives the same answer, but
-- for the flag `created`.
pub answer_roll-by_date :
    (env : Env) (req : RollRequest) (s : Session)
    → let (answer, s') = answer_roll env req s in
      get_daily_roll_by_date req.user_id req.date_str s' ≡ record answer { created = false }
unfolding answer_roll get_daily_roll_by_date
answer_roll-by_date env req s =
    let (made, s') = get_or_create_daily_roll env req s in
    rw (shown-found env req s, get_daily_roll_by_date)
      (build_lookup_response-created made.daily_roll false made.created s')

reconcile-growth :
    (date user pig now : ℕ) (s : Session)
    → let s' = (activate_target_reservations date user pig 0 now s).1 in
      (s'.progress ≡ s.progress) × (s'.collections ≡ s.collections)
unfolding activate_target_reservations
reconcile-growth date user pig now s = ground arith

-- The session that a new roll leaves, by the tables of growth.
new-tables :
    (env : Env) (req : RollRequest) (s : Session)
    → find_roll req.date_str req.user_id s ≡ none
    → let (made, s') = get_or_create_daily_roll env req s in
      let (growth, grown) = apply_created_roll_progress req.user_id req.proposed_pig_id s in
      (made.daily_roll ≡ created_roll req none growth)
      × (made.created ≡ true)
      × (s'.progress ≡ grown.progress)
      × (s'.collections ≡ grown.collections)
unfolding get_or_create_daily_roll add_roll
new-tables env req s e =
    let made = (add_roll req none s).1 in
    let s₁ = arrive env req req.proposed_pig_id made in
    let t = arrive-tables env req req.proposed_pig_id made in
    let u = reconcile-growth req.date_str req.user_id req.proposed_pig_id env.now s₁ in
    rw (e, get_or_create_daily_roll) (refl, refl, u.0 ∙ t.1, u.1 ∙ t.2)

new-answer :
    (req : RollRequest) (growth : CreatedRollProgress) (c : Bool) (s : Session)
    → let a = build_lookup_response (some (created_roll req none growth)) c s in
      (a.created ≡ c)
      × (a.pig_id ≡ some req.proposed_pig_id)
      × (a.copies ≡ growth.copies_after_roll)
      × (a.previous_copies ≡ growth.previous_copies)
      × (a.expert_level ≡ growth.expert_level_after_roll)
unfolding build_lookup_response historic_response created_roll
new-answer req growth c s = (refl, refl, refl, refl, refl)

-- The entry of a pig that has grown, and the pigs that are listed.
item-own :
    (user pig : ℕ) (s : Session)
    → ((item_of user s pig).copies ≡ copies_of (get_progress user pig s) 1)
      × ((item_of user s pig).growth_bonus ≡ bonus_of (get_progress user pig s))
unfolding item_of get_progress
item-own user pig s = ground arith

item-shown :
    (user pig : ℕ) (s s' : Session)
    → s'.progress ≡ s.progress
    → ((item_of user s' pig).copies ≡ copies_of (get_progress user pig s) 1)
      × ((item_of user s' pig).growth_bonus ≡ bonus_of (get_progress user pig s))
unfolding get_progress
item-shown user pig s s' e =
    let same = ap (find (is_progress user pig)) e in
    let own = item-own user pig s' in
    (own.0 ∙ ap (λ o. copies_of o 1) same, own.1 ∙ ap bonus_of same)

-- A new roll and the draw state agree: the pig is then listed, with the copies that the answer says
-- (one more than before the roll) and at the level that these copies and the growth of feeds give.
-- The user had no roll on the day.
pub answer_roll-draw_state :
    (env : Env) (req : RollRequest) (s : Session)
    → find_roll req.date_str req.user_id s ≡ none
    → let (answer, s') = answer_roll env req s in
      let item = item_of req.user_id s' req.proposed_pig_id in
      (answer.created ≡ true)
      × (answer.pig_id ≡ some req.proposed_pig_id)
      × (answer.copies ≡ answer.previous_copies + 1)
      × (contains req.proposed_pig_id (build_draw_state_response req.user_id s').pig_ids ≡ true)
      × (item.copies ≡ answer.copies)
      × (answer.expert_level ≡ expert_level item.copies item.growth_bonus)
unfolding answer_roll get_collection
answer_roll-draw_state env req s e =
    let (made, s') = get_or_create_daily_roll env req s in
    let (growth, grown) = apply_created_roll_progress req.user_id req.proposed_pig_id s in
    let t = new-tables env req s e in
    let user = req.user_id in
    let pig = req.proposed_pig_id in
    let c = created-tables user pig user pig s in
    let w = created-written user pig s in
    let k = created-collection user pig s in
    let n = new-answer req growth true s' in
    let same : build_lookup_response (some made.daily_roll) made.created s'
        ≡ build_lookup_response (some (created_roll req none growth)) true s' =
      λ i. build_lookup_response (some (t.0 i)) (t.1 i) s' in
    let item = item-shown user pig grown s' t.2 in
    let owned : is_some (get_collection user pig s') ≡ true =
      ap (λ l. is_some (find (is_collection user pig) l)) t.3 ∙ k.0 in
    (
      ap (λ a. a.created) same ∙ n.0,
      ap (λ a. a.pig_id) same ∙ n.1,
      ap (λ a. a.copies) same
          ∙ n.2
          ∙ w.2
          ∙ ap (λ z. z + 1) (sym (ap (λ a. a.previous_copies) same ∙ n.3)),
      (build_draw_state_response-pigs user pig s').0 ∙ ground (arith, owned),
      item.0 ∙ c.0 ∙ sym (ap (λ a. a.copies) same ∙ n.2),
      ap (λ a. a.expert_level) same ∙ n.4 ∙ w.3 ∙ λ i.
          expert_level (sym (item.0 ∙ c.0) i) (sym (item.1 ∙ c.1) i),
    )

-- GET /all: the pigs of a day.
get_daily_rolls : ℕ → Session → List (ℕ × ℕ)
get_daily_rolls date s =
    map (λ r. (r.user_id, r.pig_id)) (select (λ (r : DailyRoll). r.date_str == date) s.rolls)
