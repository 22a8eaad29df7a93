-- ===== src/Tests/Votes.antt =====
-- Votes on refills.
use rollpig_cloud.Base.{
  ℕ, ◌≡◌, refl, true, false, none, some, List, [], ◌∷◌, ◌+◌, is_some, find, arith, contains, pos,
  normalized, sorted_set, insert_new,
}
use rollpig_cloud.Store.{voting, ActiveUser, RefillRequest, Session, Env}
use rollpig_cloud.Activity.{get_group_active_user_ids}
use rollpig_cloud.Refills.{RefillPrepareRequest, is_due, prepare_refill}
use rollpig_cloud.Refills.Keyed.{IsSingle}
use rollpig_cloud.Refills.Routes.{
  RefillCall, preparing, bind_message, get_active, fail, prepare, serve_calls,
}
use rollpig_cloud.Refills.Voted.{serve_calls-IsSingle}
use rollpig_cloud.Refills.Answered.{prepare-answers}
use rollpig_cloud.Refills.Complete.{
  RefillCompleteRequest, complete_refill, valid_voters, effective_votes, carries,
}
use rollpig_cloud.Refills.Completed.{
  has_charges, full_charges, complete_refill-fills, complete_refill-once,
}
use rollpig_cloud.Usage.{is_user}
use rollpig_cloud.Refills.Supported.{passes, complete_refill-exact}
use rollpig_cloud.Tests.Data.{env, empty_session}

abbrev vote : RefillRequest
vote = record {
  request_id = 20;
  active_key = some (100, 5);
  date_str = 100;
  group_id = 5;
  initiator_id = 11;
  initiator_name = 0;
  delivery_bot_id = 9;
  message_id = 40;
  active_count_snapshot = 3;
  required_ratio = 25;
  required_votes = 2;
  success_count_before = 0;
  status = voting;
  benefited_user_ids = [];
  failure_reason = 0;
  created_at = 700;
  expires_at = 1300;
  completed_at = none;
}

abbrev active : ℕ → ActiveUser
active user = record { date_str = 100; group_id = 5; user_id = user }

abbrev polled : Session
polled = record empty_session {
  active_users = active 11 ∷ active 12 ∷ active 13 ∷ [];
  refills = vote ∷ [];
}

abbrev ballot : RefillCompleteRequest
ballot = record {
  request_id = 20;
  message_id = 40;
  voter_ids = 12 ∷ 11 ∷ 12 ∷ [];
  manager_voter_ids = [];
  vote_weight_policy = true;
  excluded_user_ids = [];
  max_charges = pos 2;
  now_ts = some 1000;
}

complete_refill-exact_example :
    (complete_refill env ballot polled).0.completed ≡ passes 1000 ballot vote polled
complete_refill-exact_example = complete_refill-exact env ballot polled vote refl

polled-passes : passes 1000 ballot vote polled ≡ true
unfolding carries valid_voters effective_votes is_due get_group_active_user_ids normalized
    sorted_set insert_new
polled-passes = refl

polled-completed : (complete_refill env ballot polled).0.completed ≡ true
polled-completed = rw (complete_refill-exact env ballot polled vote refl) polled-passes

-- User 13 is active in the group.
polled-active : contains 13 (get_group_active_user_ids 100 5 polled) ≡ true
unfolding get_group_active_user_ids sorted_set insert_new
polled-active = refl

complete_refill-fills_example :
    has_charges
      (full_charges ballot)
      (find (is_user 13) (complete_refill env ballot polled).1.usages)
    ≡ true
complete_refill-fills_example =
    complete_refill-fills env ballot polled vote 13 refl polled-completed polled-active refl

complete_refill-once_example :
    let s' = (complete_refill env ballot polled).1 in
    ((complete_refill env ballot s').0.completed ≡ false) × ((complete_refill env ballot s').1 ≡ s')
complete_refill-once_example =
    complete_refill-once env env ballot ballot polled vote refl polled-completed refl

polled-IsSingle : IsSingle polled
polled-IsSingle = ((refl, tt), (λ date group. ground arith), (λ id. ground arith))

abbrev proposal : RefillPrepareRequest
proposal = record {
  group_id = 5;
  initiator_id = 12;
  initiator_name = 0;
  delivery_bot_id = 9;
  date_str = 100;
  eligible_user_ids = none;
  now_ts = some 2000;
  threshold_policy = true;
  vote_weight_policy = true;
}

-- The clock and the new ids of the attempts.
abbrev tries : ℕ → Env
tries n = record { now = 2000; uuid = 30 + n }

abbrev calls : List RefillCall
calls =
    preparing tries proposal
    ∷ bind_message 2100 32 41
    ∷ get_active 2100 100 5
    ∷ fail 32 41 7
    ∷ preparing tries (record proposal { now_ts = some 2200 })
    ∷ []

serve_calls-IsSingle_example : IsSingle (serve_calls calls polled)
serve_calls-IsSingle_example = serve_calls-IsSingle calls polled polled-IsSingle

prepare-answers_example :
    prepare tries proposal polled ≡ some (prepare_refill (tries 2) proposal polled)
prepare-answers_example = prepare-answers tries proposal polled polled-IsSingle refl

-- The old vote is over, so a new one is opened.
proposal-created : is_some ((prepare_refill (tries 2) proposal polled).0.request) ≡ true
unfolding prepare_refill get_group_active_user_ids sorted_set insert_new
proposal-created = refl
