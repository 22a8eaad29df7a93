-- ===== src/Refills/Complete.antt =====
-- services/roast_refills.py, `complete_refill`: the count of the votes and the refill.
use rollpig_cloud.Base.{
  ℕ, ◌+◌, Bool, true, false, not, ◌&&◌, ◌||◌, Option, none, some, List, [], ◌∷◌, ◌++◌, leb, ◌==◌,
  if◌then◌else◌, get_or, is_set, find, select, update, any, contains, length, normalized, ℤ,
}
use rollpig_cloud.Usage.{UserUsage, clamp_charge_settings, is_user, new_usage}
use rollpig_cloud.Store.{RefillStatus, expired, succeeded, RefillRequest, Session, Env}
use rollpig_cloud.Activity.{get_group_active_user_ids}
use rollpig_cloud.Refills.{
  is_voting, has_refill_id, save_refill, is_due, expired_row, roast_refill_min_distinct_voters,
}

-- `_reset_roast_charges`: the users' rows, added where there are none.
abbrev pub refilled_row : ℕ → ℕ → UserUsage → UserUsage
refilled_row charge_max now row = record row {
  roast_charges = some charge_max;
  roast_charge_updated_ts = some now;
}

unfoldable pub refill_user : ℕ → ℕ → ℕ → List UserUsage → List UserUsage
refill_user charge_max now user usages =
    if any (is_user user) usages
    then update (is_user user) (refilled_row charge_max now) usages
    else usages ++ refilled_row charge_max now (new_usage user) ∷ []

abbrev pub reset_roast_charges : ℕ → ℕ → List ℕ → List UserUsage → List UserUsage
reset_roast_charges charge_max now [] usages = usages
reset_roast_charges charge_max now (user ∷ users) usages =
    reset_roast_charges charge_max now users (refill_user charge_max now user usages)

pub record RefillCompleteRequest : Type 0 where
  pub request_id : ℕ
  pub message_id : ℕ
  pub voter_ids : List ℕ
  pub manager_voter_ids : List ℕ
  pub vote_weight_policy : Bool
  pub excluded_user_ids : List ℕ
  pub max_charges : ℤ
  pub now_ts : Option ℕ

pub data RefillCompleteStatus : Type 0 where
  missing message_mismatch pending : RefillCompleteStatus
  ended : RefillStatus → RefillCompleteStatus

pub record RefillCompleteResponse : Type 0 where
  pub completed : Bool
  pub status : RefillCompleteStatus
  pub request : Option RefillRequest
  pub valid_voter_ids : List ℕ
  pub benefited_user_ids : List ℕ
  pub effective_votes : ℕ

abbrev pub not_completed : RefillCompleteStatus → Option RefillRequest → RefillCompleteResponse
not_completed status request = record {
  completed = false;
  status = status;
  request = request;
  valid_voter_ids = [];
  benefited_user_ids = [];
  effective_votes = 0;
}

-- The voters that count: each once, active on the day and not excluded.
unfoldable pub valid_voters : RefillCompleteRequest → List ℕ → List ℕ
unfolding normalized
valid_voters req active =
    select (λ u. contains u active && not (contains u (select is_set req.excluded_user_ids)))
      (normalized req.voter_ids)

-- The votes: one for each voter, and one more for each manager where the client asks for it.
unfoldable pub effective_votes : RefillCompleteRequest → List ℕ → ℕ
effective_votes req voters =
    length voters
    + (if req.vote_weight_policy
        then length (select (λ u. contains u (select is_set req.manager_voter_ids)) voters)
        else 0)

-- Whether the votes carry the request.
unfoldable pub carries : RefillCompleteRequest → RefillRequest → List ℕ → Bool
unfolding effective_votes
carries req row voters =
    leb roast_refill_min_distinct_voters (length voters)
    && leb row.required_votes (effective_votes req voters)

unfoldable pub settle_refill :
    ℕ → RefillCompleteRequest → RefillRequest → Session → RefillCompleteResponse × Session
unfolding valid_voters carries clamp_charge_settings refill_user effective_votes
settle_refill now req row s =
    let active = get_group_active_user_ids row.date_str row.group_id s in
    let voters = valid_voters req active in
    let votes = effective_votes req voters in
    let benefited = select (λ u. not (contains u (select is_set req.excluded_user_ids))) active in
    let charge_max = (clamp_charge_settings (some req.max_charges) none).0 in
    let row' = record row {
      status = succeeded;
      active_key = none;
      completed_at = some now;
      benefited_user_ids = benefited;
    } in
    if carries req row voters
    then (
      record {
        completed = true;
        status = ended succeeded;
        request = some row';
        valid_voter_ids = voters;
        benefited_user_ids = benefited;
        effective_votes = votes;
      },
      save_refill row'
          (record s { usages = reset_roast_charges charge_max now benefited s.usages }),
    )
    else (
      record (not_completed pending (some row)) {
        valid_voter_ids = voters;
        effective_votes = votes;
      },
      s,
    )

-- `complete_refill` on the row that was found.
unfoldable pub complete_row :
    ℕ → RefillCompleteRequest → Session → Option RefillRequest → RefillCompleteResponse × Session
unfolding settle_refill is_due
complete_row now req s none = (not_completed missing none, s)
complete_row now req s (some row) =
    if not (is_voting row.status)
    then (not_completed (ended row.status) (some row), s)
    else if not (is_set row.message_id)
        || not (is_set req.message_id)
        || not (row.message_id == req.message_id)
    then (not_completed message_mismatch (some row), s)
    else if is_due now row
    then (not_completed (ended expired) (some (expired_row row)), save_refill (expired_row row) s)
    else settle_refill now req row s

unfoldable pub complete_refill :
    Env → RefillCompleteRequest → Session → RefillCompleteResponse × Session
unfolding complete_row
complete_refill env req s =
    complete_row (get_or req.now_ts env.now) req s (find (has_refill_id req.request_id) s.refills)
