-- ===== src/Reports/Again.antt =====
-- Transitions of a daily report that are sent again because their answer was lost.

use rollpig_cloud.Base.{
  ℕ, ◌≡◌, refl, ◌∙◌, inl, inr, true, false, some, List, ==_refl, is_value, find, update, arith,
  Bool-cases, Option-cases, find-passes, find-update, update-update,
}
use rollpig_cloud.Reports.{DailyReportDelivery, is_key}
use rollpig_cloud.Reports.Transition.{
  Action, DailyReportTransitionRequest, is_allowed, is_late, gives_back, transited_row,
  transition_row, response_status, response_next_attempt_at, transition_daily_report,
}
use rollpig_cloud.Reports.Moved.{transition_row-Runs}
use rollpig_cloud.Reports.Ran.{Runs-keeps}

accepted_lem :
    (req : DailyReportTransitionRequest) (now : ℕ) (r : DailyReportDelivery)
    → (transition_row req now r r).0.ok ≡ true
    → (is_value r.claim_token req.claim_token ≡ true)
      × (is_late req now r ≡ false)
      × (is_allowed req.action r.status ≡ true)
unfolding transition_row
accepted_lem req now r h = elim (Bool-cases (is_value r.claim_token req.claim_token)) [
  | inr wrong ↦ absurd (cc (rw wrong at h))
  | inl right ↦ elim (Bool-cases (is_late req now r)) [
    | inl late ↦ absurd (cc (rw (right, late) at h))
    | inr early ↦ elim (Bool-cases (is_allowed req.action r.status)) [
      | inl allowed ↦ (right, early, allowed)
      | inr other ↦ absurd (cc (rw (right, early, other) at h))
    ]
  ]
]

accepted :
    (req : DailyReportTransitionRequest) (now : ℕ) (r : DailyReportDelivery)
    → is_value r.claim_token req.claim_token ≡ true
    → is_late req now r ≡ false
    → is_allowed req.action r.status ≡ true
    → transition_row req now r r ≡ (
      record {
        ok = true;
        status = some (response_status req.action now r);
        attempt_count = r.attempt_count;
        next_attempt_at = response_next_attempt_at req.action now r;
      },
      transited_row req now r r,
    )
unfolding transition_row
accepted req now r right early allowed = rw (right, early, allowed, ==_refl r.attempt_count) refl

-- What a repetition meets.
abbrev Settled : DailyReportTransitionRequest → ℕ → ℕ → DailyReportDelivery → Type 0
Settled req now now' r =
    let r' = transited_row req now r r in
    (is_value r'.claim_token req.claim_token ≡ true)
    × (is_late req now' r' ≡ false)
    × (is_allowed req.action r'.status ≡ true)
    × (transited_row req now' r' r' ≡ r')
    × (response_status req.action now' r' ≡ response_status req.action now r)
    × (response_next_attempt_at req.action now' r' ≡ response_next_attempt_at req.action now r)

settled :
    (req : DailyReportTransitionRequest) (now now' : ℕ) (r : DailyReportDelivery) (action : Action)
    → req.action ≡ action
    → is_value r.claim_token req.claim_token ≡ true
    → gives_back action ≡ false
    → Settled req now now' r
unfolding transited_row is_allowed response_status response_next_attempt_at
settled req now now' r Action.sending e right keeps = ground arith
settled req now now' r Action.sent e right keeps = ground arith
settled req now now' r Action.release e right keeps = absurd (cc)
settled req now now' r Action.retry e right keeps = absurd (cc)
settled req now now' r Action.uncertain e right keeps = ground arith
settled req now now' r Action.skip e right keeps = ground arith

-- A transition that does not give the report back can be repeated at any later time: where it was accepted, the
-- repetition has the same answer and changes nothing.
transition_row-again :
    (req : DailyReportTransitionRequest) (now now' : ℕ) (r : DailyReportDelivery)
    → (transition_row req now r r).0.ok ≡ true
    → gives_back req.action ≡ false
    → transition_row req now' (transition_row req now r r).1 (transition_row req now r r).1
      ≡ transition_row req now r r
unfolding transited_row
transition_row-again req now now' r ok keeps =
    let (right, early, allowed) = accepted_lem req now r ok in
    let (right', early', allowed', same, status, next) =
      settled req now now' r req.action refl right keeps in
    let first = accepted req now r right early allowed in
    let r' = transited_row req now r r in
    let second = accepted req now' r' right' early' allowed' in
    rw first (
      second ∙ λ i. (
        record {
          ok = true;
          status = some (status i);
          attempt_count = r.attempt_count;
          next_attempt_at = next i;
        },
        same i,
      ))

-- A transition that does not give the report back can be repeated at any later time: where it was
-- accepted, the repetition has the same answer and leaves the table as it is.
pub transition_daily_report-again :
    (req : DailyReportTransitionRequest) (now now' : ℕ) (rows : List DailyReportDelivery)
    → (transition_daily_report req now rows).0.ok ≡ true
    → gives_back req.action ≡ false
    → transition_daily_report req now' (transition_daily_report req now rows).1
      ≡ transition_daily_report req now rows
unfolding transition_daily_report
transition_daily_report-again req now now' rows ok keeps =
    let key = is_key req.date_str req.group_id in
    elim (Option-cases (find key rows)) [
      | inl e ↦ absurd (cc (rw (e, transition_daily_report) at ok))
      | inr (r, e) ↦
          let ok' : (transition_row req now r r).0.ok ≡ true =
            rw (e, transition_daily_report) at ok in
          let r' = (transition_row req now r r).1 in
          let again = transition_row-again req now now' r ok' keeps in
          let own : key r' ≡ true =
            let keeps = Runs-keeps r r' (transition_row-Runs req now r r).0 in
            ground (arith, keeps.0, keeps.1, find-passes key rows r e) in
          let e' : find key (update key (λ _. r') rows) ≡ some r' =
            find-update key (λ _. r') rows r (λ x p. own) e in
          rw (e, transition_daily_report, e', again, e) (rw (update-update key r' rows own) refl)
    ]
