-- ===== src/Reports/Transition.antt =====
-- routers/daily_reports.py, `transition_daily_report`.
use rollpig_cloud.Base.{
  ℕ, ◌+◌, ◌-◌, Bool, true, false, ◌&&◌, ◌||◌, Option, none, some, List, leb, ◌==◌, if◌then◌else◌,
  get_or, is_set, is_value, find, update,
}
use rollpig_cloud.Reports.{
  ReportStatus, is_claimed, is_sending, is_sent, is_uncertain, is_skipped, DailyReportDelivery,
  retry_delay, retry_deadline, retry_deadline_exceeded, is_key, fail_delivery_if_unchanged,
}

pub data Action : Type 0 where
  sending sent release retry uncertain skip : Action

pub record DailyReportTransitionRequest : Type 0 where
  pub date_str : ℕ
  pub group_id : ℕ
  pub claim_token : ℕ
  pub action : Action
  pub message_id : ℕ
  pub error : ℕ

-- `status` is `none` for the empty text.
pub record DailyReportTransitionResponse : Type 0 where
  pub ok : Bool
  pub status : Option ReportStatus
  pub attempt_count : ℕ
  pub next_attempt_at : Option ℕ

abbrev pub refused : DailyReportTransitionResponse
refused = record { ok = false; status = none; attempt_count = 0; next_attempt_at = none }

abbrev pub answer : Bool → DailyReportDelivery → DailyReportTransitionResponse
answer ok r = record {
  ok = ok;
  status = some r.status;
  attempt_count = r.attempt_count;
  next_attempt_at = r.next_attempt_at;
}

-- `row.status in allowed_statuses`
unfoldable pub is_allowed : Action → ReportStatus → Bool
is_allowed Action.sending s = is_claimed s || is_sending s
is_allowed Action.sent s = is_sending s || is_sent s
is_allowed Action.release s = is_claimed s
is_allowed Action.retry s = is_sending s
is_allowed Action.uncertain s = is_sending s || is_uncertain s
is_allowed Action.skip s = is_claimed s || is_skipped s

-- When a delivery that is given back may be tried again: never after the deadline, nor after the
-- last delay.
retry_at : ℕ → DailyReportDelivery → Option ℕ
unfolding retry_delay retry_deadline
retry_at now r = elim (retry_delay (r.attempt_count - 1)) [
  | none ↦ none
  | some delay ↦ if leb (retry_deadline r.date_str) (now + delay) then none else some (now + delay)
]

abbrev status_after : Option ℕ → ReportStatus
status_after none = ReportStatus.failed
status_after (some at) = ReportStatus.pending

-- `response_status` and `response_next_attempt_at`
unfoldable pub response_status : Action → ℕ → DailyReportDelivery → ReportStatus
unfolding retry_at
response_status Action.sending now r = ReportStatus.sending
response_status Action.sent now r = ReportStatus.sent
response_status Action.release now r = status_after (retry_at now r)
response_status Action.retry now r = status_after (retry_at now r)
response_status Action.uncertain now r = ReportStatus.uncertain
response_status Action.skip now r = ReportStatus.skipped

unfoldable pub response_next_attempt_at : Action → ℕ → DailyReportDelivery → Option ℕ
unfolding retry_at
response_next_attempt_at Action.release now r = retry_at now r
response_next_attempt_at Action.retry now r = retry_at now r
response_next_attempt_at _ now r = none

abbrev pub gives_back : Action → Bool
gives_back Action.release = true
gives_back Action.retry = true
gives_back _ = false

abbrev is_confirmation : Action → Bool
is_confirmation Action.sent = true
is_confirmation _ = false

-- The UPDATE: `values` of the observed row, written to the current one.
unfoldable pub transited_row :
    DailyReportTransitionRequest
    → ℕ
    → DailyReportDelivery
    → DailyReportDelivery
    → DailyReportDelivery
unfolding response_status response_next_attempt_at
transited_row req now observed r =
    let back = gives_back req.action in
    let confirmed = is_confirmation req.action in
    record r {
      status = response_status req.action now observed;
      next_attempt_at = response_next_attempt_at req.action now observed;
      last_error = req.error;
      claim_token = if back then none else r.claim_token;
      claimed_at = if back then none else r.claimed_at;
      instance_id = if back then 0 else r.instance_id;
      delivery_bot_id = if back then 0 else r.delivery_bot_id;
      sent_at = if confirmed then some (get_or r.sent_at now) else r.sent_at;
      message_id = if confirmed && is_set req.message_id then req.message_id else r.message_id;
    }

abbrev pub is_start : Action → ReportStatus → Bool
is_start Action.sending s = is_claimed s
is_start _ s = false

-- A start of sending after the deadline.
abbrev pub is_late : DailyReportTransitionRequest → ℕ → DailyReportDelivery → Bool
is_late req now r = is_start req.action r.status && leb (retry_deadline r.date_str) now

-- What the handler does: `observed` is the row that the transaction has read, `current` the row of
-- the table when it writes.
unfoldable pub transition_row :
    DailyReportTransitionRequest
    → ℕ
    → DailyReportDelivery
    → DailyReportDelivery
    → DailyReportTransitionResponse × DailyReportDelivery
unfolding fail_delivery_if_unchanged is_allowed transited_row retry_deadline
transition_row req now observed current =
    if is_value observed.claim_token req.claim_token
    then if is_late req now observed
      then (
        answer false (fail_delivery_if_unchanged retry_deadline_exceeded observed current).1,
        (fail_delivery_if_unchanged retry_deadline_exceeded observed current).1,
      )
      else if is_allowed req.action observed.status
      then if is_value current.claim_token req.claim_token
          && is_allowed req.action current.status
          && current.attempt_count == observed.attempt_count
        then (
          record {
            ok = true;
            status = some (response_status req.action now observed);
            attempt_count = observed.attempt_count;
            next_attempt_at = response_next_attempt_at req.action now observed;
          },
          transited_row req now observed current,
        )
        else (answer false current, current)
      else (answer false observed, current)
    else (refused, current)

unfoldable pub transition_daily_report :
    DailyReportTransitionRequest
    → ℕ
    → List DailyReportDelivery
    → DailyReportTransitionResponse × List DailyReportDelivery
unfolding transition_row
transition_daily_report req now rows = elim (find (is_key req.date_str req.group_id) rows) [
  | none ↦ (refused, rows)
  | some r ↦
      let (response, r') = transition_row req now r r in
      (response, update (is_key req.date_str req.group_id) (λ _. r') rows)
]
