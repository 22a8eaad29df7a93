-- ===== src/Reports/Lifecycle.antt =====
-- The life of a daily report as a relation on its row, with what holds in every run of it.
use rollpig_cloud.Base.{
  ℕ, ◌+◌, ◌≤◌, ◌<◌, ◌≡◌, refl, Bool, true, false, ◌||◌, if◌then◌else◌, is_value, arith,
}
use rollpig_cloud.Reports.{
  ReportStatus, is_pending, is_claimed, DailyReportDelivery, max_attempts, failed_row, is_due,
}
use rollpig_cloud.Reports.Claim.{claimed_row}
use rollpig_cloud.Reports.Transition.{
  Action, DailyReportTransitionRequest, is_allowed, is_start, transited_row, response_status,
}

-- `observed` is any row that the transaction may have read before.
pub data Moves : DailyReportDelivery → DailyReportDelivery → Type 0 where
  takes :
      (instance bot now token : ℕ) (r : DailyReportDelivery)
      → is_due now r ≡ true
      → r.attempt_count < max_attempts
      → Moves r (claimed_row instance bot now token r.attempt_count r)
  fails :
      (reason : ℕ) (observed r : DailyReportDelivery)
      → (is_pending r.status || is_claimed r.status) ≡ true
      → Moves r (failed_row reason observed r)
  transits :
      (req : DailyReportTransitionRequest) (now : ℕ) (observed r : DailyReportDelivery)
      → is_value r.claim_token req.claim_token ≡ true
      → is_allowed req.action r.status ≡ true
      → Moves r (transited_row req now observed r)

pub data Runs : DailyReportDelivery → DailyReportDelivery → Type 0 where
  done : (r : DailyReportDelivery) → Runs r r
  step : (a b c : DailyReportDelivery) → Moves a b → Runs b c → Runs a c

abbrev pub is_retry : Action → Bool
is_retry Action.retry = true
is_retry _ = false

-- How often a run claims the report, starts to send it, and is told that it was not sent.
abbrev claims_in : {a b : DailyReportDelivery} → Moves a b → ℕ
claims_in (takes _ _ _ _ _ _ _) = 1
claims_in (fails _ _ _ _) = 0
claims_in (transits _ _ _ _ _ _) = 0

abbrev starts_in : {a b : DailyReportDelivery} → Moves a b → ℕ
starts_in (takes _ _ _ _ _ _ _) = 0
starts_in (fails _ _ _ _) = 0
starts_in (transits req now observed r _ _) = if is_start req.action r.status then 1 else 0

abbrev rejections_in : {a b : DailyReportDelivery} → Moves a b → ℕ
rejections_in (takes _ _ _ _ _ _ _) = 0
rejections_in (fails _ _ _ _) = 0
rejections_in (transits req now observed r _ _) = if is_retry req.action then 1 else 0

abbrev pub claims : {a b : DailyReportDelivery} → Runs a b → ℕ
claims (done _) = 0
claims (step _ _ _ move run) = claims_in move + claims run

abbrev pub starts : {a b : DailyReportDelivery} → Runs a b → ℕ
starts (done _) = 0
starts (step _ _ _ move run) = starts_in move + starts run

abbrev pub rejections : {a b : DailyReportDelivery} → Runs a b → ℕ
rejections (done _) = 0
rejections (step _ _ _ move run) = rejections_in move + rejections run

-- Whether a report may still be sent without a rejection, and whether somebody holds a lease.
abbrev pub is_open : ReportStatus → ℕ
is_open s = if is_pending s || is_claimed s then 1 else 0

abbrev pub is_leased : ReportStatus → ℕ
is_leased s = if is_claimed s then 1 else 0

abbrev pub is_final : ReportStatus → Bool
is_final ReportStatus.sent = true
is_final ReportStatus.failed = true
is_final ReportStatus.uncertain = true
is_final ReportStatus.skipped = true
is_final _ = false

-- What one move adds to the counts.
pub record Accounts (a b : DailyReportDelivery) (claimed started rejected : ℕ) : Type 0 where
  pub attempts : b.attempt_count ≡ a.attempt_count + claimed
  pub bounded : a.attempt_count ≤ max_attempts → b.attempt_count ≤ max_attempts
  pub leases : started + is_leased b.status + a.attempt_count ≤ b.attempt_count + is_leased a.status
  pub opens : started + is_open b.status ≤ is_open a.status + rejected

transits-opens :
    (req : DailyReportTransitionRequest) (now : ℕ) (observed : DailyReportDelivery)
    (action : Action) (s : ReportStatus)
    → is_allowed action s ≡ true
    → ((if is_start action s then 1 else 0) + is_leased (response_status action now observed)
        ≤ is_leased s)
      × ((if is_start action s then 1 else 0) + is_open (response_status action now observed)
          ≤ is_open s + (if is_retry action then 1 else 0))
unfolding is_allowed response_status
transits-opens req now observed Action.sending s h = ground arith
transits-opens req now observed Action.sent s h = ground arith
transits-opens req now observed Action.release s h = ground arith
transits-opens req now observed Action.retry s h = ground arith
transits-opens req now observed Action.uncertain s h = ground arith
transits-opens req now observed Action.skip s h = ground arith

Moves-Accounts :
    (a b : DailyReportDelivery) (move : Moves a b)
    → Accounts a b (claims_in move) (starts_in move) (rejections_in move)
unfolding claimed_row failed_row transited_row is_due
Moves-Accounts a _ (takes instance bot now token _ due few) = record {
  attempts = refl;
  bounded = λ _. omega arith;
  leases = ground arith;
  opens = ground arith;
}
Moves-Accounts a _ (fails reason observed _ still) = record {
  attempts = omega arith;
  bounded = λ h. h;
  leases = ground arith;
  opens = ground arith;
}
Moves-Accounts a _ (transits req now observed _ token allowed) =
    let counted = transits-opens req now observed req.action a.status allowed in
    record {
      attempts = omega arith;
      bounded = λ h. h;
      leases = omega (arith, counted.0);
      opens = counted.1;
    }

pub Runs-Accounts :
    (a b : DailyReportDelivery) (run : Runs a b)
    → Accounts a b (claims run) (starts run) (rejections run)
Runs-Accounts a _ (done _) = record {
  attempts = omega arith;
  bounded = λ h. h;
  leases = omega arith;
  opens = omega arith;
}
Runs-Accounts a c (step _ b _ move run) =
    let here = Moves-Accounts a b move in
    let there = Runs-Accounts b c run in
    record {
      attempts = omega (arith, here.attempts, there.attempts);
      bounded = λ h. there.bounded (here.bounded h);
      leases = omega (arith, here.leases, there.leases);
      opens = omega (arith, here.opens, there.opens);
    }
