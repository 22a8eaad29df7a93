-- ===== src/Tests/Deliveries.antt =====
-- The delivery of a reservation.
use rollpig_cloud.Base.{◌+◌, ◌≡◌, refl, true, false, none, some, List, [], ◌∷◌, arith, All, pos}
use rollpig_cloud.Store.{is_completed, success, RoastReservation, NoticeStatus, unforced}
use rollpig_cloud.Events.{EventCreateRequest, record_roast_event_with_status}
use rollpig_cloud.Events.Once.{events_of, record_roast_event_with_status-once}
use rollpig_cloud.Delivery.{
  refused, MutationRequest, locked, mark_sending_row, complete_row, freeze_outcome, claim_row,
  is_claimable,
}
use rollpig_cloud.Delivery.Claim.{ClaimRequest, claim_reservations}
use rollpig_cloud.Delivery.Waiting.{NoticeAction, notice_row}
use rollpig_cloud.Delivery.Settle.{OutcomeRequest, prepare_outcome, save_outcome, settle_outcome}
use rollpig_cloud.Delivery.Finish.{mark_sending, complete, release}
use rollpig_cloud.Delivery.Lifecycle.{has_sent, is_consistent, claims, step, done, Runs-consistent}
use rollpig_cloud.Delivery.Served.{Request, claiming, releasing, serve, serve-sent, serve-frozen}
use rollpig_cloud.Delivery.Handover.{claim-completes, wrong_token-refused}
use rollpig_cloud.Delivery.Retry.{prepare_outcome-once}
use rollpig_cloud.Delivery.Batch.{is_handed_out, claim_reservations-handed_out}
use rollpig_cloud.Tests.Data.{waiting, claimed, being_sent, won_roast, with_row}

abbrev poll : ClaimRequest
poll = record {
  delivery_bot_id = 9;
  date_str = 100;
  limit = pos 3;
  supports_prepared = true;
  supports_protection_gathering = true;
  protection_gathering_version = 2;
  excluded_reservation_ids = [];
  supports_waiting_notice = true;
}

abbrev give_back : MutationRequest
give_back = record { reservation_id = 7; claim_token = 50 }

-- Another sender polls, and the first one tries to give the reservation back.
abbrev requests : List Request
requests = claiming (λ n. n + 60) 5000 poll ∷ releasing give_back ∷ []

serve-sent_example :
    (r' : RoastReservation) × (locked 7 (serve requests (with_row being_sent)) ≡ some r')
    × (has_sent r'.status ≡ true)
    × (r'.claim_token ≡ some 50)
serve-sent_example = serve-sent requests (with_row being_sent) 7 being_sent refl refl

serve-frozen_example :
    (r' : RoastReservation) × (locked 7 (serve requests (with_row being_sent)) ≡ some r')
    × (r'.outcome_snapshot ≡ some won_roast)
serve-frozen_example = serve-frozen requests (with_row being_sent) 7 being_sent won_roast refl refl

reclaimable : is_claimable 5000 claimed ≡ true
unfolding is_claimable
reclaimable = refl

Runs-consistent_example : is_consistent (claim_row true 60 5000 claimed) ≡ true
Runs-consistent_example =
    Runs-consistent claimed (claim_row true 60 5000 claimed)
      (step claimed (claim_row true 60 5000 claimed) (claim_row true 60 5000 claimed)
        (claims true 60 5000 claimed reclaimable) (done (claim_row true 60 5000 claimed)))
      refl

claim-completes_example :
    (r₁ : RoastReservation) × (r₂ : RoastReservation) × (r₃ : RoastReservation) × (freeze_outcome 60
        won_roast
        (claim_row true 60 5000 claimed)
      ≡ some (true, r₁))
    × (mark_sending_row 60 r₁ ≡ some r₂)
    × (complete_row 5010 60 r₂ ≡ some r₃)
    × (is_completed r₃.status ≡ true)
    × (r₃.active_slot ≡ false)
    × (r₃.outcome_snapshot ≡ some won_roast)
    × (r₃.completed_at ≡ some 5010)
claim-completes_example = claim-completes true 60 5000 5010 won_roast claimed refl

wrong_token-refused_example :
    let req : MutationRequest = record { reservation_id = 7; claim_token = 51 } in
    let out : OutcomeRequest = record {
      reservation_id = 7;
      claim_token = 51;
      outcome_snapshot = won_roast;
      settle_daily_feed = true;
    } in
    (prepare_outcome out (with_row claimed) ≡ (refused, with_row claimed))
    × (save_outcome out (with_row claimed) ≡ (refused, with_row claimed))
    × (mark_sending req (with_row claimed) ≡ (refused, with_row claimed))
    × (complete 100 5000 req none (with_row claimed) ≡ (refused, with_row claimed))
    × (release req (with_row claimed) ≡ (refused, with_row claimed))
wrong_token-refused_example =
    wrong_token-refused 7 51 100 5000 won_roast true none (with_row claimed) claimed refl refl

abbrev result : OutcomeRequest
result = record {
  reservation_id = 7;
  claim_token = 50;
  outcome_snapshot = won_roast;
  settle_daily_feed = true;
}

result-ok : (prepare_outcome result (with_row claimed)).0.ok ≡ true
unfolding prepare_outcome settle_outcome freeze_outcome
result-ok = refl

prepare_outcome-once_example :
    let s' = (prepare_outcome result (with_row claimed)).1 in
    prepare_outcome result s' ≡ prepare_outcome result (with_row claimed)
prepare_outcome-once_example = prepare_outcome-once result (with_row claimed) result-ok

claim_reservations-handed_out_example :
    All
      (λ r. is_handed_out poll 5000 r ≡ true)
      (claim_reservations (λ n. n + 60) 5000 poll (claimed ∷ [])).0
claim_reservations-handed_out_example =
    claim_reservations-handed_out (λ n. n + 60) 5000 poll (claimed ∷ [])

-- A waiting reservation whose notice is being sent.
abbrev noticed : RoastReservation
noticed = record waiting {
  target_pig_id = 4;
  protection_required = 3;
  waiting_notice =
      some (record { status = NoticeStatus.sending; claim_token = some 60; claimed_at = some 900 });
}

abbrev told : RoastReservation
told = record noticed {
  waiting_notice =
      some (record { status = NoticeStatus.sent; claim_token = some 60; claimed_at = some 900 });
}

noticed-told : notice_row 100 60 NoticeAction.sent noticed ≡ some told
unfolding notice_row
noticed-told = refl

abbrev report : EventCreateRequest
report = record {
  event_type = success;
  attacker_id = 11;
  target_id = 12;
  attacker_name = 0;
  target_name = 0;
  food = 2;
  group_id = 5;
  date_str = some 100;
  reservation_id = 7;
  participant_ids = 11 ∷ [];
  participant_names = [];
  participant_count = 1;
  backfire_victim_id = 0;
  backfire_victim_name = 0;
  backfire_victim_ids = [];
  backfire_victim_names = [];
  special_reason = 0;
  settle_daily_feed = false;
  source_id = 0;
  force_mode = unforced;
  protection_level = 0;
  reservation_owner_id = 0;
  reservation_owner_name = 0;
}

record_roast_event_with_status-once_example :
    let s' = (record_roast_event_with_status 100 report none (with_row being_sent)).1 in
    (events_of 7 s' ≡ 1) × (record_roast_event_with_status 100 report none s' ≡ ((true, false), s'))
record_roast_event_with_status-once_example =
    record_roast_event_with_status-once 100 report none (with_row being_sent) refl
      (λ item e. ground (arith, e)) (omega arith)
