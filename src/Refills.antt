-- ===== src/Refills.antt =====
-- services/roast_refills.py: the votes of a group on refilling its members' charges.
pub mod Threshold
pub mod Complete
pub mod Completed
pub mod Supported
pub mod Routes
pub mod Keyed
pub mod Single
pub mod Prepared
pub mod Voted
pub mod Answered
use rollpig_cloud.Base.{
  ℕ, zero, suc, ◌+◌, ◌*◌, ◌/◌, ◌≤◌, min, max, Bool, true, false, not, ◌&&◌, ◌||◌, Option, none,
  some, List, [], ◌∷◌, ◌++◌, ltb, leb, ◌==◌, if◌then◌else◌, is_some, get_or, is_set, find, select,
  update, any, contains, length, sorted_set, normalized, ℤ,
}
use rollpig_cloud.Usage.{UserUsage, clamp_charge_settings, is_user, new_usage}
use rollpig_cloud.Store.{
  RefillStatus, voting, expired, succeeded, failed, RefillRequest, Session, Env,
}
use rollpig_cloud.Activity.{get_group_active_user_ids}

abbrev roast_refill_ttl_seconds : ℕ
roast_refill_ttl_seconds = 600

abbrev pub roast_refill_min_distinct_voters : ℕ
roast_refill_min_distinct_voters = 2

-- `ROAST_REFILL_THRESHOLD_STEPS`, the ratio and the cap on the votes.
abbrev threshold_step : ℕ → ℕ × ℕ
threshold_step success_count =
    if success_count == 0
    then (25, 8)
    else if success_count == 1
    then (35, 12)
    else if success_count == 2
    then (45, 16)
    else (55, 20)

pub refill_threshold : ℕ → ℕ → ℕ × ℕ
refill_threshold active_count success_count =
    let (ratio, cap) = threshold_step success_count in
    (ratio, max 2 (min ((active_count * ratio + 99) / 100) cap))

-- `LEGACY_ROAST_REFILL_RATIOS`
abbrev legacy_ratio : ℕ → ℕ
legacy_ratio success_count =
    if success_count == 0
    then 25
    else if success_count == 1
    then 35
    else if success_count == 2
    then 45
    else if success_count == 3
    then 55
    else 65

pub legacy_refill_threshold : ℕ → ℕ → ℕ × ℕ
legacy_refill_threshold active_count success_count =
    let ratio = legacy_ratio success_count in (ratio, max 2 ((active_count * ratio + 99) / 100))

abbrev pub is_voting : RefillStatus → Bool
is_voting voting = true
is_voting _ = false

abbrev is_succeeded : RefillStatus → Bool
is_succeeded succeeded = true
is_succeeded _ = false

abbrev pub has_refill_id : ℕ → RefillRequest → Bool
has_refill_id id row = row.request_id == id

-- The vote that holds the key of the group and the day.
abbrev pub has_active_key : ℕ → ℕ → RefillRequest → Bool
has_active_key date group row = elim row.active_key [
  | none ↦ false
  | some key ↦ key.0 == date && key.1 == group
]

-- The row written back.
abbrev pub save_refill : RefillRequest → Session → Session
save_refill row s = record s {
  refills = update (has_refill_id row.request_id) (λ _. row) s.refills;
}

-- The text "expired" as a failure reason.
abbrev reason_expired : ℕ
reason_expired = 1

-- Whether `_expire_if_needed` ends the vote.
unfoldable pub is_due : ℕ → RefillRequest → Bool
is_due now row = is_voting row.status && leb row.expires_at now

abbrev pub expired_row : RefillRequest → RefillRequest
expired_row row = record row {
  status = expired;
  failure_reason = reason_expired;
  active_key = none;
}

pub expire_if_needed : ℕ → RefillRequest → Bool × RefillRequest
unfolding is_due
expire_if_needed now row = if is_due now row then (true, expired_row row) else (false, row)

pub record RefillPrepareRequest : Type 0 where
  pub group_id : ℕ
  pub initiator_id : ℕ
  pub initiator_name : ℕ
  pub delivery_bot_id : ℕ
  pub date_str : ℕ
  pub eligible_user_ids : Option (List ℕ)
  pub now_ts : Option ℕ
  pub threshold_policy : Bool
  pub vote_weight_policy : Bool

pub data RefillPrepareStatus : Type 0 where
  existing insufficient_active created : RefillPrepareStatus

pub record RefillPrepareResponse : Type 0 where
  pub status : RefillPrepareStatus
  pub request : Option RefillRequest
  pub active_user_ids : List ℕ
  pub vote_weight_policy : Bool

-- The members that were active, without those that have left the group.
pub eligible_users : RefillPrepareRequest → Session → List ℕ
unfolding sorted_set
eligible_users req s =
    let active = get_group_active_user_ids req.date_str req.group_id s in
    elim req.eligible_user_ids [
      | none ↦ active
      | some ids ↦ sorted_set (select (λ u. contains u (select is_set ids)) active)
    ]

pub success_count : ℕ → ℕ → Session → ℕ
success_count date group s = length (
    select (λ row. row.date_str == date && row.group_id == group && is_succeeded row.status)
      s.refills)

pub new_refill : Env → ℕ → RefillPrepareRequest → ℕ → ℕ → RefillRequest
unfolding refill_threshold legacy_refill_threshold
new_refill env now req active successes =
    let (ratio, votes) =
      (if req.threshold_policy
        then refill_threshold active successes
        else legacy_refill_threshold active successes) in
    record {
      request_id = env.uuid;
      active_key = some (req.date_str, req.group_id);
      date_str = req.date_str;
      group_id = req.group_id;
      initiator_id = req.initiator_id;
      initiator_name = req.initiator_name;
      delivery_bot_id = req.delivery_bot_id;
      message_id = 0;
      active_count_snapshot = active;
      required_ratio = ratio;
      required_votes = votes;
      success_count_before = successes;
      status = voting;
      benefited_user_ids = [];
      failure_reason = 0;
      created_at = now;
      expires_at = now + roast_refill_ttl_seconds;
      completed_at = none;
    }

-- The vote that is there, once it has been ended if it is over.
pub current_refill : ℕ → ℕ → ℕ → Session → Option RefillRequest × Session
unfolding expire_if_needed
current_refill now date group s = elim (find (has_active_key date group) s.refills) [
  | none ↦ (none, s)
  | some row ↦
      let (is_over, row') = expire_if_needed now row in
      if is_over then (none, save_refill row' s) else (some row, s)
]

pub open_refill : Env → ℕ → RefillPrepareRequest → Session → RefillPrepareResponse × Session
unfolding eligible_users new_refill success_count
open_refill env now req s =
    let users = eligible_users req s in
    let row = new_refill env now req (length users) (success_count req.date_str req.group_id s) in
    if ltb (length users) 3
    then (
      record {
        status = insufficient_active;
        request = none;
        active_user_ids = users;
        vote_weight_policy = req.vote_weight_policy;
      },
      s,
    )
    else (
      record {
        status = created;
        request = some row;
        active_user_ids = users;
        vote_weight_policy = req.vote_weight_policy;
      },
      record s { refills = s.refills ++ row ∷ [] },
    )

-- `prepare_refill`; whether the new row violates a unique key is asked in Refills/Routes.
unfoldable pub prepare_refill :
    Env → RefillPrepareRequest → Session → RefillPrepareResponse × Session
unfolding current_refill open_refill
prepare_refill env req s =
    let now = get_or req.now_ts env.now in
    let (current, s') = current_refill now req.date_str req.group_id s in
    elim current [
      | none ↦ open_refill env now req s'
      | some row ↦
          if is_voting row.status
          then (
            record {
              status = existing;
              request = some row;
              active_user_ids = [];
              vote_weight_policy = req.vote_weight_policy;
            },
            s',
          )
          else open_refill env now req s'
    ]

-- `get_active_refill`
unfoldable pub get_active_refill : ℕ → ℕ → ℕ → Session → Option RefillRequest × Session
unfolding current_refill
get_active_refill now date group s =
    let (current, s') = current_refill now date group s in
    elim current [
      | none ↦ (none, s')
      | some row ↦ (if is_voting row.status then some row else none, s')
    ]

-- `bind_refill_message`
unfoldable pub bind_refill_message : ℕ → ℕ → ℕ → Session → Option RefillRequest × Session
unfolding is_due
bind_refill_message now id message s = elim (find (has_refill_id id) s.refills) [
  | none ↦ (none, s)
  | some row ↦
      let bound = record row { message_id = message } in
      if not (is_voting row.status)
      then (none, s)
      else if is_due now row
      then (none, save_refill (expired_row row) s)
      else if not (is_set message) || (is_set row.message_id && not (row.message_id == message))
      then (none, s)
      else (some bound, save_refill bound s)
]

-- `fail_refill`; the reason is the first 64 characters of the one in the request.
unfoldable pub fail_refill : ℕ → ℕ → ℕ → Session → Bool × Session
fail_refill id message reason s = elim (find (has_refill_id id) s.refills) [
  | none ↦ (false, s)
  | some row ↦
      let over = record row { status = failed; failure_reason = reason; active_key = none } in
      if not (is_voting row.status)
      then (false, s)
      else if is_set message && is_set row.message_id && not (row.message_id == message)
      then (false, s)
      else (true, save_refill over s)
]
