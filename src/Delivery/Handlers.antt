-- ===== src/Delivery/Handlers.antt =====
-- The handlers of one reservation make only the moves of the lifecycle.
use rollpig_cloud.Base.{
  ℕ, ◌≡◌, refl, ◌∙◌, inl, inr, Bool, true, false, Option, none, some, List, [], ◌∷◌, select, arith,
  Bool-cases, Option-cases,
}
use rollpig_cloud.Store.{
  SourceType, Outcome, RoastReservation, Participant, DailyFeedResult, Session,
}
use rollpig_cloud.Progress.{ensure_progress, grow, apply_daily_feed}
use rollpig_cloud.Activity.{mark_group_active_users}
use rollpig_cloud.Reservation.{save, participants_of, ReservationItem, reservation_to_schema}
use rollpig_cloud.Events.{
  EventCreateRequest, add_event, record_roast_event_with_status, record_roast_event,
}
use rollpig_cloud.Delivery.{
  MutationRequest, locked, change, save_outcome_row, mark_sending_row, complete_row, release_row,
  freeze_outcome,
}
use rollpig_cloud.Delivery.Waiting.{
  NoticeAction, NoticeRequest, notice_row, transition_waiting_notice,
}
use rollpig_cloud.Delivery.Settle.{
  OutcomeRequest, is_eligible, settles, settle_feeds, count_success, settle_outcome,
  prepare_outcome, save_outcome, feed_all, sort_by_user,
}
use rollpig_cloud.Delivery.Finish.{mark_sending, release, finish, complete, record_completion}
use rollpig_cloud.Delivery.Lifecycle.{
  Moves, amends, freezes, saves, sends, completes, releases, step,
}
use rollpig_cloud.Delivery.Follow.{IsServed, stays, one_move, save-IsServed, commit_row-IsServed}

save_outcome_row-id :
    (token : ℕ) (outcome : Outcome) (r r' : RoastReservation)
    → save_outcome_row token outcome r ≡ some r'
    → r'.reservation_id ≡ r.reservation_id
unfolding save_outcome_row
save_outcome_row-id token outcome r r' e = ground arith

mark_sending_row-id :
    (token : ℕ) (r r' : RoastReservation)
    → mark_sending_row token r ≡ some r'
    → r'.reservation_id ≡ r.reservation_id
unfolding mark_sending_row
mark_sending_row-id token r r' e = ground arith

release_row-id :
    (token : ℕ) (r r' : RoastReservation)
    → release_row token r ≡ some r'
    → r'.reservation_id ≡ r.reservation_id
unfolding release_row
release_row-id token r r' e = ground arith

complete_row-id :
    (now token : ℕ) (r r' : RoastReservation)
    → complete_row now token r ≡ some r'
    → r'.reservation_id ≡ r.reservation_id
unfolding complete_row
complete_row-id now token r r' e = ground arith

pub freeze_outcome-id :
    (token : ℕ) (outcome : Outcome) (is_new : Bool) (r r' : RoastReservation)
    → freeze_outcome token outcome r ≡ some (is_new, r')
    → r'.reservation_id ≡ r.reservation_id
unfolding freeze_outcome
freeze_outcome-id token outcome is_new r r' e = ground arith

pub save_outcome-IsServed : (req : OutcomeRequest) (s : Session) → IsServed s (save_outcome req s).1
unfolding save_outcome
save_outcome-IsServed req s =
    commit_row-IsServed s req.reservation_id (save_outcome_row req.claim_token req.outcome_snapshot)
      (λ r r' e.
        (save_outcome_row-id req.claim_token req.outcome_snapshot r r' e, saves _ _ r r' e))

pub mark_sending-IsServed :
    (req : MutationRequest) (s : Session) → IsServed s (mark_sending req s).1
unfolding mark_sending
mark_sending-IsServed req s =
    commit_row-IsServed s req.reservation_id (mark_sending_row req.claim_token)
      (λ r r' e. (mark_sending_row-id req.claim_token r r' e, sends _ r r' e))

pub release-IsServed : (req : MutationRequest) (s : Session) → IsServed s (release req s).1
unfolding release
release-IsServed req s =
    commit_row-IsServed s req.reservation_id (release_row req.claim_token)
      (λ r r' e. (release_row-id req.claim_token r r' e, releases _ r r' e))

-- A completion also records an event, which leaves the reservations alone.
record_completion-reservations :
    (today : ℕ) (event : Option EventCreateRequest) (item : ReservationItem) (s : Session)
    → (record_completion today event item s).1.reservations ≡ s.reservations
unfolding record_roast_event record_roast_event_with_status add_event mark_group_active_users
record_completion-reservations today none item s = refl
record_completion-reservations today (some event) item s = ground arith

finish-IsServed :
    (today id : ℕ) (event : Option EventCreateRequest) (s : Session)
    (f : RoastReservation → Option RoastReservation)
    → ((r r' : RoastReservation)
        → f r ≡ some r'
        → (r'.reservation_id ≡ r.reservation_id) × Moves r r')
    → IsServed s (finish today event s (change f (locked id s))).1
unfolding finish
finish-IsServed today id event s f h = elim (Option-cases (locked id s)) [
  | inl e ↦ rw e (λ k. stays (locked k s))
  | inr (r, e) ↦ rw e (elim (Option-cases (f r)) [
    | inl e' ↦ rw e' (λ k. stays (locked k s))
    | inr (r', e') ↦ λ k.
        rw
          (
            e',
            record_completion-reservations today event (reservation_to_schema (save r' s) r')
                (save r' s),
          )
          (save-IsServed s s id r r' refl e (h r r' e').0 (one_move r r' (h r r' e').1) k)
  ])
]

pub complete-IsServed :
    (today now : ℕ) (req : MutationRequest) (event : Option EventCreateRequest) (s : Session)
    → IsServed s (complete today now req event s).1
unfolding complete
complete-IsServed today now req event s =
    finish-IsServed today req.reservation_id event s (complete_row now req.claim_token)
      (λ r r' e. (complete_row-id now req.claim_token r r' e, completes _ _ r r' e))

notice_row-amends :
    (today token : ℕ) (action : NoticeAction) (r r' : RoastReservation)
    → notice_row today token action r ≡ some r'
    → (r'.reservation_id ≡ r.reservation_id) × Moves r r'
unfolding notice_row
notice_row-amends today token action r r' e = (
  ground arith,
  amends r r' (ground arith) (ground arith) (ground arith) (ground arith) (ground arith),
)

pub transition_waiting_notice-IsServed :
    (today : ℕ) (req : NoticeRequest) (s : Session)
    → IsServed s (transition_waiting_notice today req s).1
unfolding transition_waiting_notice
transition_waiting_notice-IsServed today req s = elim (Option-cases (locked req.reservation_id s)) [
  | inl e ↦ rw e (λ k. stays (locked k s))
  | inr (r, e) ↦ rw e (elim (Option-cases (notice_row today req.claim_token req.action r)) [
    | inl e' ↦ rw e' (λ k. stays (locked k s))
    | inr (r', e') ↦
        let p = notice_row-amends today req.claim_token req.action r r' e' in
        rw e' (save-IsServed s s req.reservation_id r r' refl e p.0 (one_move r r' p.1))
  ])
]

apply_daily_feed-reservations :
    (date user source_id : ℕ) (s : Session)
    → (apply_daily_feed date user SourceType.reservation source_id s).1.reservations
      ≡ s.reservations
unfolding apply_daily_feed ensure_progress grow
apply_daily_feed-reservations date user source_id s = ground arith

feed_all-reservations :
    (date id : ℕ) (ps : List Participant) (results : List (ℕ × DailyFeedResult)) (s : Session)
    → (feed_all date id ps results s).1.reservations ≡ s.reservations
feed_all-reservations date id [] results s = refl
feed_all-reservations date id (p ∷ ps) results s =
    feed_all-reservations date id ps _ _ ∙ apply_daily_feed-reservations date p.user_id id s

-- The settlement changes only the feed results of the row.
pub settle_feeds-amends :
    (settle : Bool) (outcome : Outcome) (r : RoastReservation) (s : Session)
    → let (r', s') = settle_feeds settle outcome r s in
      (s'.reservations ≡ s.reservations) × (r'.reservation_id ≡ r.reservation_id) × Moves r r'
unfolding settle_feeds
settle_feeds-amends settle outcome r s = elim (Bool-cases (settles settle outcome r)) [
  | inl e ↦
      rw (e, settle_feeds)
        (
          feed_all-reservations r.date_str r.reservation_id
              (sort_by_user (select (is_eligible r) (participants_of r.reservation_id s))) [] s,
          refl,
          amends _ _ refl refl refl refl refl,
        )
  | inr e ↦ rw (e, settle_feeds) (refl, refl, amends _ _ refl refl refl refl refl)
]

pub count_success-reservations :
    (outcome : Outcome) (r : RoastReservation) (s : Session)
    → (count_success outcome r s).reservations ≡ s.reservations
unfolding count_success
count_success-reservations outcome r s = ground arith

pub prepare_outcome-IsServed :
    (req : OutcomeRequest) (s : Session) → IsServed s (prepare_outcome req s).1
unfolding prepare_outcome settle_outcome
prepare_outcome-IsServed req s = elim (Option-cases (locked req.reservation_id s)) [
  | inl e ↦ rw e (λ k. stays (locked k s))
  | inr (r, e) ↦ rw e (elim (Option-cases (freeze_outcome req.claim_token req.outcome_snapshot r)) [
    | inl e' ↦ rw e' (λ k. stays (locked k s))
    | inr ((false, r'), e') ↦ rw e' (
        save-IsServed s s req.reservation_id r r' refl e
          (freeze_outcome-id req.claim_token req.outcome_snapshot false r r' e')
          (one_move r r' (freezes _ _ false r r' e')))
    | inr ((true, r'), e') ↦
        let s₁ = count_success req.outcome_snapshot r' s in
        let p = settle_feeds-amends req.settle_daily_feed req.outcome_snapshot r' s₁ in
        let settled = settle_feeds req.settle_daily_feed req.outcome_snapshot r' s₁ in
        rw e' (
          save-IsServed s settled.1 req.reservation_id r settled.0
            (p.0 ∙ count_success-reservations req.outcome_snapshot r' s) e
            (p.1 ∙ freeze_outcome-id req.claim_token req.outcome_snapshot true r r' e')
            (step r r' settled.0 (freezes _ _ true r r' e') (one_move r' settled.0 p.2)))
  ])
]
