-- ===== src/Delivery/Handover.antt =====
-- The delivery of one reservation: exclusive claims, tokens, retries, and the way to completion.
use rollpig_cloud.Base.{
  ℕ, ◌+◌, ◌≤◌, ◌≡◌, refl, ap, ◌∙◌, Bool, true, false, ◌||◌, Option, none, some, ==_refl, is_some,
  is_value, if◌then◌else◌, arith,
}
use rollpig_cloud.Store.{
  Status, EventType, success, backfire, bot_backfire, other_event, completed, is_processing,
  is_prepared, is_sending, is_completed, Outcome, RoastReservation, Session,
}
use rollpig_cloud.Events.{EventCreateRequest}
use rollpig_cloud.Delivery.{
  refused, outcome_eq, event_type_eq, MutationRequest, locked, save_outcome_row, mark_sending_row,
  complete_row, release_row, freeze_outcome, claim_row, claim_timeout, is_claimable,
}
use rollpig_cloud.Delivery.Settle.{OutcomeRequest, prepare_outcome, save_outcome, settle_outcome}
use rollpig_cloud.Delivery.Finish.{mark_sending, release, complete, finish}

-- A reservation that has been claimed is not claimable again until the claim's five minutes are
-- over, if the claim leaves it `processing` or `prepared`, and never if it leaves it `sending`.
pub claim_row-exclusive :
    (supports_prepared : Bool) (token now now' : ℕ) (r : RoastReservation)
    → now' ≤ now + claim_timeout
    → is_claimable now' (claim_row supports_prepared token now r) ≡ false
unfolding is_claimable claim_row
claim_row-exclusive sp token now now' r h = ground arith

event_type_eq_refl : (t : EventType) → event_type_eq t t ≡ true
event_type_eq_refl success = refl
event_type_eq_refl backfire = refl
event_type_eq_refl bot_backfire = refl
event_type_eq_refl (other_event a) = ==_refl a

pub outcome_eq_refl : (o : Outcome) → outcome_eq o o ≡ true
outcome_eq_refl o = ground (arith, event_type_eq_refl o.event_type)

event_type_eq→≡ : (a b : EventType) → event_type_eq a b ≡ true → a ≡ b
event_type_eq→≡ success success h = refl
event_type_eq→≡ success backfire h = ground arith
event_type_eq→≡ success bot_backfire h = ground arith
event_type_eq→≡ success (other_event n) h = ground arith
event_type_eq→≡ backfire success h = ground arith
event_type_eq→≡ backfire backfire h = refl
event_type_eq→≡ backfire bot_backfire h = ground arith
event_type_eq→≡ backfire (other_event n) h = ground arith
event_type_eq→≡ bot_backfire success h = ground arith
event_type_eq→≡ bot_backfire backfire h = ground arith
event_type_eq→≡ bot_backfire bot_backfire h = refl
event_type_eq→≡ bot_backfire (other_event n) h = ground arith
event_type_eq→≡ (other_event m) success h = ground arith
event_type_eq→≡ (other_event m) backfire h = ground arith
event_type_eq→≡ (other_event m) bot_backfire h = ground arith
event_type_eq→≡ (other_event m) (other_event n) h = ap other_event (ground arith)

outcome_eq→≡ : (a b : Outcome) → outcome_eq a b ≡ true → a ≡ b
outcome_eq→≡ a b h =
    let t = event_type_eq→≡ a.event_type b.event_type (ground arith) in
    let d : a.details ≡ b.details = ground arith in ground (arith, t, d)

claimed_status :
    (sp : Bool) (token now : ℕ) (r : RoastReservation)
    → r.outcome_snapshot ≡ none
    → let c = claim_row sp token now r in
      (is_processing c.status ≡ true) × (c.outcome_snapshot ≡ none) × (c.claim_token ≡ some token)
unfolding claim_row
claimed_status sp token now r h = ground (arith, ap is_some h)

freeze_new :
    (token : ℕ) (outcome : Outcome) (c : RoastReservation)
    → is_processing c.status ≡ true
    → c.outcome_snapshot ≡ none
    → c.claim_token ≡ some token
    → freeze_outcome token outcome c
      ≡ some (true, record c { outcome_snapshot = some outcome; status = Status.prepared })
unfolding freeze_outcome
freeze_new token outcome c p q t = ground (arith, ==_refl token)

mark_prepared :
    (token : ℕ) (r : RoastReservation)
    → is_value r.claim_token token ≡ true
    → is_prepared r.status ≡ true
    → is_some r.outcome_snapshot ≡ true
    → mark_sending_row token r ≡ some (record r { status = Status.sending })
unfolding mark_sending_row
mark_prepared token r t p o = ground arith

complete_sending :
    (now token : ℕ) (r : RoastReservation)
    → is_value r.claim_token token ≡ true
    → is_sending r.status ≡ true
    → complete_row now token r
      ≡ some (record r { status = completed; active_slot = false; completed_at = some now })
unfolding complete_row
complete_sending now token r t p = ground arith

-- The way of a claimed reservation that has no outcome yet: with the claim's token, the outcome is
-- prepared, the sending is marked and the delivery is completed, and the reservation then gives up
-- its active slot and holds the outcome.
pub claim-completes :
    (supports_prepared : Bool) (token now later : ℕ) (outcome : Outcome) (r : RoastReservation)
    → r.outcome_snapshot ≡ none
    → (r₁ : RoastReservation) × (r₂ : RoastReservation) × (r₃ : RoastReservation) × (freeze_outcome
          token outcome
          (claim_row supports_prepared token now r)
        ≡ some (true, r₁))
      × (mark_sending_row token r₁ ≡ some r₂)
      × (complete_row later token r₂ ≡ some r₃)
      × (is_completed r₃.status ≡ true)
      × (r₃.active_slot ≡ false)
      × (r₃.outcome_snapshot ≡ some outcome)
      × (r₃.completed_at ≡ some later)
claim-completes sp token now later outcome r none_yet =
    let c = claim_row sp token now r in
    let r₁ : RoastReservation = record c {
      outcome_snapshot = some outcome;
      status = Status.prepared;
    } in
    let r₂ : RoastReservation = record r₁ { status = Status.sending } in
    let r₃ : RoastReservation = record r₂ {
      status = completed;
      active_slot = false;
      completed_at = some later;
    } in
    let p = claimed_status sp token now r none_yet in
    (
      r₁,
      r₂,
      r₃,
      freeze_new token outcome c p.0 p.1 p.2,
      mark_prepared token r₁ (ap (λ t. is_value t token) p.2 ∙ ==_refl token) refl refl,
      complete_sending later token r₂ (ap (λ t. is_value t token) p.2 ∙ ==_refl token) refl,
      refl,
      refl,
      refl,
      refl,
    )

-- Without the token of the current claim nothing is done: the outcome, the sending, the completion
-- and the release are all refused and the session stays as it is.
pub wrong_token-refused :
    (id token today now : ℕ) (outcome : Outcome) (settle : Bool) (event : Option EventCreateRequest)
    (s : Session) (r : RoastReservation)
    → locked id s ≡ some r
    → is_value r.claim_token token ≡ false
    → let req : MutationRequest = record { reservation_id = id; claim_token = token } in
      let out : OutcomeRequest = record {
        reservation_id = id;
        claim_token = token;
        outcome_snapshot = outcome;
        settle_daily_feed = settle;
      } in
      (prepare_outcome out s ≡ (refused, s))
      × (save_outcome out s ≡ (refused, s))
      × (mark_sending req s ≡ (refused, s))
      × (complete today now req event s ≡ (refused, s))
      × (release req s ≡ (refused, s))
unfolding prepare_outcome save_outcome mark_sending complete release freeze_outcome save_outcome_row
    mark_sending_row complete_row release_row settle_outcome finish
wrong_token-refused id token today now outcome settle event s r e wrong = (
  rw (e, wrong) refl,
  rw (e, wrong) refl,
  rw (e, wrong) refl,
  rw (e, wrong) refl,
  rw (e, wrong) refl,
)

pub frozen_row :
    (token : ℕ) (outcome : Outcome) (is_new : Bool) (r r' : RoastReservation)
    → freeze_outcome token outcome r ≡ some (is_new, r')
    → (is_value r'.claim_token token ≡ true)
      × (r'.outcome_snapshot ≡ some outcome)
      × (is_processing r'.status ≡ false)
      × ((is_prepared r'.status || is_sending r'.status || is_completed r'.status) ≡ true)
unfolding freeze_outcome
frozen_row token outcome is_new r r' e = ground (arith, λ (a : Outcome). outcome_eq→≡ a outcome)

pub retried :
    (token : ℕ) (outcome other : Outcome) (r : RoastReservation)
    → is_value r.claim_token token ≡ true
    → r.outcome_snapshot ≡ some outcome
    → is_processing r.status ≡ false
    → (is_prepared r.status || is_sending r.status || is_completed r.status) ≡ true
    → freeze_outcome token other r ≡ (if outcome_eq outcome other then some (false, r) else none)
unfolding freeze_outcome
retried token outcome other r t o p q = ground arith

-- A prepared outcome can be prepared again with the same result, and with no other: the retry
-- succeeds and changes nothing, and an outcome that differs is refused.
pub freeze_outcome-retry :
    (token : ℕ) (outcome other : Outcome) (is_new : Bool) (r r' : RoastReservation)
    → freeze_outcome token outcome r ≡ some (is_new, r')
    → freeze_outcome token other r' ≡ (if outcome_eq outcome other then some (false, r') else none)
freeze_outcome-retry token outcome other is_new r r' e =
    let p = frozen_row token outcome is_new r r' e in retried token outcome other r' p.0 p.1 p.2 p.3
