-- ===== src/Delivery/Retry.antt =====
-- Retries of requests whose answer was lost.
use rollpig_cloud.Base.{
  ℕ, ◌≡◌, refl, ap, ◌∙◌, inl, inr, Bool, true, false, ◌||◌, is_value, none, some, List, [], ◌∷◌,
  find, update, arith, Bool-cases, Option-cases, find-passes, find-update,
}
use rollpig_cloud.Store.{
  is_processing, is_prepared, is_sending, is_completed, Outcome, RoastReservation, Session,
}
use rollpig_cloud.Reservation.{has_id, save, reservation_to_schema}
use rollpig_cloud.Delivery.{locked, commit_row, freeze_outcome}
use rollpig_cloud.Delivery.Settle.{
  OutcomeRequest, frozen, settles, settle_feeds, count_success, settle_outcome, prepare_outcome,
}
use rollpig_cloud.Delivery.Handlers.{
  freeze_outcome-id, count_success-reservations, settle_feeds-amends,
}
use rollpig_cloud.Delivery.Handover.{frozen_row, retried, freeze_outcome-retry, outcome_eq_refl}

-- A row that has been written is found again, and writing it again changes nothing.
save-found :
    (s s₁ : Session) (id : ℕ) (r r' : RoastReservation)
    → s₁.reservations ≡ s.reservations
    → locked id s ≡ some r
    → r'.reservation_id ≡ r.reservation_id
    → locked id (save r' s₁) ≡ some r'
save-found s s₁ id r r' same e keep =
    let rid : r'.reservation_id ≡ id =
      keep ∙ ground (arith, find-passes (has_id id) s.reservations r e) in
    rw same (
      ap (λ z. find (has_id id) (update (has_id z) (λ _. r') s.reservations)) rid
      ∙ find-update (has_id id) (λ _. r') s.reservations r (λ x p. ground (arith, rid)) e)

update_twice :
    (id : ℕ) (r : RoastReservation) (rows : List RoastReservation)
    → update (has_id id) (λ _. r) (update (has_id id) (λ _. r) rows)
      ≡ update (has_id id) (λ _. r) rows
update_twice id r [] = refl
update_twice id r (x ∷ rows) = ground (arith, update_twice id r rows)

save_twice : (r : RoastReservation) (s : Session) → save r (save r s) ≡ save r s
save_twice r s =
    ap (λ rows. record s { reservations = rows }) (update_twice r.reservation_id r s.reservations)

-- The settlement leaves what the delivery reads alone.
settle_feeds-kept :
    (settle : Bool) (outcome : Outcome) (r : RoastReservation) (s : Session)
    → let settled = (settle_feeds settle outcome r s).0 in
      (settled.status ≡ r.status)
      × (settled.claim_token ≡ r.claim_token)
      × (settled.outcome_snapshot ≡ r.outcome_snapshot)
unfolding settle_feeds
settle_feeds-kept settle outcome r s = elim (Bool-cases (settles settle outcome r)) [
  | inl e ↦ rw (e, settle_feeds) (refl, refl, refl)
  | inr e ↦ rw (e, settle_feeds) (refl, refl, refl)
]

settled_retry :
    (req : OutcomeRequest) (is_new : Bool) (r r' : RoastReservation) (s : Session)
    → freeze_outcome req.claim_token req.outcome_snapshot r ≡ some (is_new, r')
    → let settled = (settle_feeds req.settle_daily_feed req.outcome_snapshot r' s).0 in
      freeze_outcome req.claim_token req.outcome_snapshot settled ≡ some (false, settled)
settled_retry req is_new r r' s e =
    let p = frozen_row req.claim_token req.outcome_snapshot is_new r r' e in
    let k = settle_feeds-kept req.settle_daily_feed req.outcome_snapshot r' s in
    let settled = (settle_feeds req.settle_daily_feed req.outcome_snapshot r' s).0 in
    retried req.claim_token req.outcome_snapshot req.outcome_snapshot settled
      (ap (λ t. is_value t req.claim_token) k.1 ∙ p.0) (k.2 ∙ p.1) (ap is_processing k.0 ∙ p.2)
      (ap (λ t. is_prepared t || is_sending t || is_completed t) k.0 ∙ p.3)
    ∙ rw (outcome_eq_refl req.outcome_snapshot) refl

-- A request on a row that it has already frozen and written.
again :
    (req : OutcomeRequest) (s₁ : Session) (r' : RoastReservation)
    → locked req.reservation_id (save r' s₁) ≡ some r'
    → freeze_outcome req.claim_token req.outcome_snapshot r' ≡ some (false, r')
    → prepare_outcome req (save r' s₁) ≡ commit_row s₁ (some r')
unfolding prepare_outcome settle_outcome
again req s₁ r' e f =
    ap (λ o. settle_outcome req (save r' s₁) (frozen req o)) e
    ∙ ap (settle_outcome req (save r' s₁)) f
    ∙ ap
        (λ s. (
          record {
            ok = true;
            reservation = some (reservation_to_schema s r');
            event_recorded = false;
          },
          s,
        ))
        (save_twice r' s₁)

ok_none :
    (req : OutcomeRequest) (s : Session)
    → locked req.reservation_id s ≡ none
    → (prepare_outcome req s).0.ok ≡ false
unfolding prepare_outcome settle_outcome
ok_none req s e = rw e refl

prepared_as :
    (req : OutcomeRequest) (s : Session) (r : RoastReservation) (is_new : Bool)
    (r' : RoastReservation)
    → locked req.reservation_id s ≡ some r
    → freeze_outcome req.claim_token req.outcome_snapshot r ≡ some (is_new, r')
    → prepare_outcome req s ≡ settle_outcome req s (some (is_new, r'))
unfolding prepare_outcome
prepared_as req s r is_new r' e f =
    ap (λ o. settle_outcome req s (frozen req o)) e ∙ ap (settle_outcome req s) f

ok_refused :
    (req : OutcomeRequest) (s : Session) (r : RoastReservation)
    → locked req.reservation_id s ≡ some r
    → freeze_outcome req.claim_token req.outcome_snapshot r ≡ none
    → (prepare_outcome req s).0.ok ≡ false
unfolding prepare_outcome settle_outcome
ok_refused req s r e f =
    ap (λ o. (settle_outcome req s (frozen req o)).0.ok) e
    ∙ ap (λ o. (settle_outcome req s o).0.ok) f

-- A preparation of an outcome that succeeds can be repeated: the repetition succeeds with the same
-- reservation, and changes nothing in the session. The success is not counted twice and nothing is
-- fed twice.
pub prepare_outcome-once :
    (req : OutcomeRequest) (s : Session)
    → (prepare_outcome req s).0.ok ≡ true
    → let s' = (prepare_outcome req s).1 in prepare_outcome req s' ≡ prepare_outcome req s
unfolding settle_outcome
prepare_outcome-once req s h = elim (Option-cases (locked req.reservation_id s)) [
  | inl e ↦ ground (arith, ok_none req s e)
  | inr (r, e) ↦ elim (Option-cases (freeze_outcome req.claim_token req.outcome_snapshot r)) [
    | inl e' ↦ ground (arith, ok_refused req s r e e')
    | inr ((false, r'), e') ↦ rw (prepared_as req s r false r' e e') (
        again req s r'
          (save-found s s req.reservation_id r r' refl e
            (freeze_outcome-id req.claim_token req.outcome_snapshot false r r' e'))
          (freeze_outcome-retry req.claim_token req.outcome_snapshot req.outcome_snapshot false r r'
              e'
            ∙ rw (outcome_eq_refl req.outcome_snapshot) refl))
    | inr ((true, r'), e') ↦
        let s₁ = count_success req.outcome_snapshot r' s in
        let settled = settle_feeds req.settle_daily_feed req.outcome_snapshot r' s₁ in
        let p = settle_feeds-amends req.settle_daily_feed req.outcome_snapshot r' s₁ in
        rw (prepared_as req s r true r' e e') (
          again req settled.1 settled.0
            (save-found s settled.1 req.reservation_id r settled.0
              (p.0 ∙ count_success-reservations req.outcome_snapshot r' s) e
              (p.1 ∙ freeze_outcome-id req.claim_token req.outcome_snapshot true r r' e'))
            (settled_retry req true r r' s₁ e'))
  ]
]
