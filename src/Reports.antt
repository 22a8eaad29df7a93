-- ===== src/Reports.antt =====
-- routers/daily_reports.py: the delivery of a group's daily report. One row for each day and group
-- says which bot may send the report; times are seconds of UTC.
use rollpig_cloud.Base.{
  ℕ, ◌+◌, ◌-◌, ◌*◌, ◌≡◌, refl, Bool, true, false, ◌&&◌, ◌||◌, Option, none, some, List, arith, ltb,
  leb, ◌==◌, if◌then◌else◌, get_or, is_some, is_set,
}
pub mod Next
pub mod Claim
pub mod Transition
pub mod Stale
pub mod Poll
pub mod Profiles
pub mod Batches
pub mod Ranking
pub mod Lifecycle
pub mod Moved
pub mod Ran
pub mod Served
pub mod Sendings
pub mod Repeats
pub mod Again

pub data ReportStatus : Type 0 where
  pending claimed sending sent failed uncertain skipped : ReportStatus

abbrev pub is_pending : ReportStatus → Bool
is_pending pending = true
is_pending _ = false

abbrev pub is_claimed : ReportStatus → Bool
is_claimed claimed = true
is_claimed _ = false

abbrev pub is_sending : ReportStatus → Bool
is_sending sending = true
is_sending _ = false

abbrev pub is_sent : ReportStatus → Bool
is_sent sent = true
is_sent _ = false

abbrev pub is_uncertain : ReportStatus → Bool
is_uncertain uncertain = true
is_uncertain _ = false

abbrev pub is_skipped : ReportStatus → Bool
is_skipped skipped = true
is_skipped _ = false

-- `a == b` for the two statuses that a row can fail from.
abbrev same_open : ReportStatus → ReportStatus → Bool
same_open a b = (is_pending a && is_pending b) || (is_claimed a && is_claimed b)

abbrev same_token : Option ℕ → Option ℕ → Bool
same_token none none = true
same_token none (some b) = false
same_token (some a) none = false
same_token (some a) (some b) = a == b

-- `daily_report_deliveries`
pub record DailyReportDelivery : Type 0 where
  pub date_str : ℕ
  pub group_id : ℕ
  pub status : ReportStatus
  pub instance_id : ℕ
  pub delivery_bot_id : ℕ
  pub claim_token : Option ℕ
  pub cutoff_at : ℕ
  pub claimed_at : Option ℕ
  pub attempt_count : ℕ
  pub next_attempt_at : Option ℕ
  pub sent_at : Option ℕ
  pub message_id : ℕ
  pub last_error : ℕ

-- Five minutes.
abbrev pub claim_timeout : ℕ
claim_timeout = 300

-- `DAILY_REPORT_RETRY_DELAYS[i]`, where the index is in range.
pub retry_delay : ℕ → Option ℕ
retry_delay i =
    if i == 0 then some 30 else if i == 1 then some 120 else if i == 2 then some 300 else none

abbrev pub max_attempts : ℕ
max_attempts = 4

-- 00:10 of the next day, in the time zone of the program, eight hours east.
unfoldable pub retry_deadline : ℕ → ℕ
retry_deadline date = (date + 1) * 86_400 + 600 - 28_800

-- The reasons that the server itself gives.
abbrev pub retry_deadline_exceeded : ℕ
retry_deadline_exceeded = 1

abbrev pub retry_attempts_exhausted : ℕ
retry_attempts_exhausted = 2

abbrev pub is_key : ℕ → ℕ → DailyReportDelivery → Bool
is_key date group r = r.date_str == date && r.group_id == group

-- The values that `_fail_delivery_if_unchanged` writes.
pub failed_row : ℕ → DailyReportDelivery → DailyReportDelivery → DailyReportDelivery
failed_row reason observed current = record current {
  status = failed;
  next_attempt_at = none;
  last_error = if is_set observed.last_error then observed.last_error else reason;
  claim_token = none;
  claimed_at = none;
  instance_id = 0;
  delivery_bot_id = 0;
}

-- The row that the transaction has read, and the row that is in the table when it writes.
abbrev pub is_unchanged : DailyReportDelivery → DailyReportDelivery → Bool
is_unchanged observed current =
    same_open observed.status current.status
    && same_token observed.claim_token current.claim_token
    && observed.attempt_count == current.attempt_count

pub fail_delivery_if_unchanged :
    ℕ → DailyReportDelivery → DailyReportDelivery → Bool × DailyReportDelivery
unfolding failed_row
fail_delivery_if_unchanged reason observed current =
    if is_unchanged observed current
    then (true, failed_row reason observed current)
    else (false, current)

-- A pending row whose time has come.
abbrev is_pending_due : ℕ → DailyReportDelivery → Bool
is_pending_due now r =
    is_pending r.status && leb r.cutoff_at now && leb (get_or r.next_attempt_at 0) now

-- `claimed_at < now - timeout`, also for a row without the time.
abbrev pub is_stale : ℕ → Option ℕ → Bool
is_stale now none = true
is_stale now (some at) = ltb (at + claim_timeout) now

abbrev is_stale_claim : ℕ → DailyReportDelivery → Bool
is_stale_claim now r = is_claimed r.status && is_stale now r.claimed_at

-- What both the check and the conditional UPDATE of a claim ask for.
unfoldable pub is_due : ℕ → DailyReportDelivery → Bool
is_due now r = is_pending_due now r || is_stale_claim now r
