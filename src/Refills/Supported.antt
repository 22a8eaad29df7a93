-- ===== src/Refills/Supported.antt =====
-- Which votes complete a refill, told by the members that are active and not by the list of voters.
use rollpig_cloud.Base.{
  ℕ, ◌+◌, ◌≤◌, ◌≡◌, refl, ap, sym, ◌∙◌, inl, inr, Bool, not, ◌&&◌, some, List, [], ◌∷◌, ◌==◌,
  if◌then◌else◌, ltb, leb, get_or, is_set, find, select, sum_by, length, contains, arith,
  Bool-cases, map, contains-select, contains-sorted_set, sorted_set, sorted_set-Rises, normalized,
  Rises, Rises-unique,
}
use rollpig_cloud.Store.{RefillRequest, Session, Env}
use rollpig_cloud.Activity.{get_group_active_user_ids}
use rollpig_cloud.Refills.{is_voting, has_refill_id, is_due}
use rollpig_cloud.Refills.Complete.{
  RefillCompleteRequest, valid_voters, effective_votes, carries, complete_refill,
}
use rollpig_cloud.Refills.Completed.{complete_refill-admits}

-- A member supports the request: the member is among the voters and is not excluded.
abbrev pub supports : RefillCompleteRequest → ℕ → Bool
supports req u = is_set u && contains u req.voter_ids && not (contains u req.excluded_user_ids)

abbrev pub supporters : RefillCompleteRequest → RefillRequest → Session → List ℕ
supporters req row s = select (supports req) (get_group_active_user_ids row.date_str row.group_id s)

-- A manager has two votes where the client asks for it, everybody else one.
abbrev pub weight : RefillCompleteRequest → ℕ → ℕ
weight req u = if req.vote_weight_policy && contains u req.manager_voter_ids then 2 else 1

-- The conditions on a vote.
abbrev pub passes : ℕ → RefillCompleteRequest → RefillRequest → Session → Bool
passes now req row s =
    is_voting row.status
    && ltb now row.expires_at
    && is_set req.message_id
    && row.message_id == req.message_id
    && leb 2 (length (supporters req row s))
    && leb row.required_votes (sum_by (weight req) (supporters req row s))

raise-Rises : (low high : ℕ) (xs : List ℕ) → low ≤ high → Rises high xs → Rises low xs
raise-Rises low high [] h r = tt
raise-Rises low high (x ∷ xs) h r = (omega (arith, r.0), r.1)

select-Rises : (p : ℕ → Bool) (low : ℕ) (xs : List ℕ) → Rises low xs → Rises low (select p xs)
select-Rises p low [] r = tt
select-Rises p low (x ∷ xs) r = elim (Bool-cases (p x)) [
  | inl e ↦ rw e (r.0, select-Rises p (x + 1) xs r.1)
  | inr e ↦
      rw e
        (raise-Rises low (x + 1) (select p xs) (omega (arith, r.0)) (select-Rises p (x + 1) xs r.1))
]

-- Sorting the voters and picking the active ones gives the active ones that are voters.
valid_voters-supporters :
    (req : RefillCompleteRequest) (row : RefillRequest) (s : Session)
    → valid_voters req (get_group_active_user_ids row.date_str row.group_id s)
      ≡ supporters req row s
unfolding valid_voters normalized get_group_active_user_ids
valid_voters-supporters req row s =
    let members =
      map (λ a. a.user_id)
        (select (λ a. a.date_str == row.date_str && a.group_id == row.group_id) s.active_users) in
    let active = sorted_set members in
    let voters = select is_set req.voter_ids in
    let counts : ℕ → Bool =
      λ u. contains u active && not (contains u (select is_set req.excluded_user_ids)) in
    Rises-unique 0 (select counts (sorted_set voters)) (select (supports req) active)
      (select-Rises counts 0 (sorted_set voters) (sorted_set-Rises voters))
      (select-Rises (supports req) 0 active (sorted_set-Rises members))
      (λ z. ground (
        arith,
        contains-select z counts (sorted_set voters),
        contains-select z (supports req) active,
        contains-sorted_set z voters,
        contains-select z is_set req.voter_ids,
        contains-select z is_set req.excluded_user_ids,
      ))

votes-weighed :
    (req : RefillCompleteRequest) (xs : List ℕ)
    → effective_votes req (select (supports req) xs)
      ≡ sum_by (weight req) (select (supports req) xs)
unfolding effective_votes
votes-weighed req [] = ground arith
votes-weighed req (x ∷ xs) =
    ground (arith, votes-weighed req xs, contains-select x is_set req.manager_voter_ids)

carries-supporters :
    (req : RefillCompleteRequest) (row : RefillRequest) (xs : List ℕ)
    → carries req row (select (supports req) xs) ≡ (
        leb 2 (length (select (supports req) xs))
        && leb row.required_votes (sum_by (weight req) (select (supports req) xs)))
unfolding carries
carries-supporters req row xs = rw (sym (votes-weighed req xs)) refl

-- A refill is completed if and only if its vote is open and has not run out, the request names the
-- message that is bound to it, at least two of the members that are active in its group on its day
-- support it, and their votes reach the number that the vote requires. A member supports it who is
-- among the voters and is not excluded; a manager has two votes where the client asks for it.
pub complete_refill-exact :
    (env : Env) (req : RefillCompleteRequest) (s : Session) (row : RefillRequest)
    → find (has_refill_id req.request_id) s.refills ≡ some row
    → (complete_refill env req s).0.completed ≡ passes (get_or req.now_ts env.now) req row s
unfolding is_due
complete_refill-exact env req s row e =
    let now = get_or req.now_ts env.now in
    let active = get_group_active_user_ids row.date_str row.group_id s in
    let carried : carries req row (valid_voters req active) ≡ (
        leb 2 (length (supporters req row s))
        && leb row.required_votes (sum_by (weight req) (supporters req row s))) =
      ap (carries req row) (valid_voters-supporters req row s)
      ∙ carries-supporters req row active in
    complete_refill-admits env req s row e ∙ rw carried (ground arith)
