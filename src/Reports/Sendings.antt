-- ===== src/Reports/Sendings.antt =====
-- How often a daily report may be sent, and how it ends.
use rollpig_cloud.Base.{
  ℕ, ◌+◌, ◌≤◌, ◌≡◌, refl, ap, ◌∙◌, true, some, none, List, [], ◌∷◌, ◌==◌, if◌then◌else◌, is_some,
  find, arith,
}
use rollpig_cloud.Reports.{ReportStatus, DailyReportDelivery, max_attempts, is_key, is_due}
use rollpig_cloud.Reports.Transition.{
  Action, DailyReportTransitionRequest, is_allowed, transited_row, response_status,
}
use rollpig_cloud.Reports.Lifecycle.{
  Moves, takes, fails, transits, Runs, done, step, is_final, is_open, is_leased, Runs-Accounts,
}
use rollpig_cloud.Reports.Served.{
  ReportRequest, serve_one, serve, starts_of, rejections_of, serve-Served,
}

-- A report that has not been claimed yet is sent at most once more than senders report that it was
-- not sent, whatever the requests and their order: the answers that let a bot start to send it are
-- at most one more than the answers that accept a rejection. They are at most four in all.
pub serve-starts :
    (date group : ℕ) (reqs : List ReportRequest) (rows : List DailyReportDelivery)
    (r : DailyReportDelivery)
    → find (is_key date group) rows ≡ some r
    → r.status ≡ ReportStatus.pending
    → r.attempt_count ≡ 0
    → (starts_of date group reqs rows ≤ 1 + rejections_of date group reqs rows)
      × (starts_of date group reqs rows ≤ 4)
serve-starts date group reqs rows r e fresh none_yet =
    let (r', e', (run, started, rejected)) = serve-Served date group reqs rows r e in
    let a = Runs-Accounts r r' run in
    let few : r'.attempt_count ≤ max_attempts = a.bounded (omega arith) in
    let closed : is_leased r.status ≡ 0 = ap is_leased fresh in
    let opened : is_open r.status ≡ 1 = ap is_open fresh in
    (omega (arith, a.opens), omega (arith, a.leases))

-- The attempts that a report has had.
abbrev pub attempts_of : ℕ → ℕ → List DailyReportDelivery → ℕ
attempts_of date group rows = elim (find (is_key date group) rows) [
  | none ↦ 0
  | some r ↦ r.attempt_count
]

-- The number of the requests that use an attempt of the report.
abbrev pub attempts_used : ℕ → ℕ → List ReportRequest → List DailyReportDelivery → ℕ
attempts_used date group [] rows = 0
attempts_used date group (req ∷ reqs) rows =
    let after = serve_one req rows in
    (if attempts_of date group after == attempts_of date group rows then 0 else 1)
    + attempts_used date group reqs after

-- What a final row keeps.
abbrev Keeps : DailyReportDelivery → DailyReportDelivery → Type 0
Keeps a b =
    (b.status ≡ a.status)
    × (b.attempt_count ≡ a.attempt_count)
    × (b.claim_token ≡ a.claim_token)
    × ((if is_some a.sent_at then b.sent_at else none) ≡ a.sent_at)

transits-Keeps :
    (req : DailyReportTransitionRequest) (now : ℕ) (observed r : DailyReportDelivery)
    (action : Action)
    → req.action ≡ action
    → is_allowed req.action r.status ≡ true
    → is_final r.status ≡ true
    → Keeps r (transited_row req now observed r)
unfolding is_allowed transited_row response_status
transits-Keeps req now observed r Action.sending e h f = absurd (ground arith)
transits-Keeps req now observed r Action.sent e h f =
    (ground arith, refl, ground arith, ground arith)
transits-Keeps req now observed r Action.release e h f = absurd (ground arith)
transits-Keeps req now observed r Action.retry e h f = absurd (ground arith)
transits-Keeps req now observed r Action.uncertain e h f =
    (ground arith, refl, ground arith, ground arith)
transits-Keeps req now observed r Action.skip e h f =
    (ground arith, refl, ground arith, ground arith)

Moves-Keeps : (a b : DailyReportDelivery) → Moves a b → is_final a.status ≡ true → Keeps a b
unfolding is_due
Moves-Keeps a _ (takes _ _ now _ _ due _) f = absurd (ground arith)
Moves-Keeps a _ (fails _ _ _ still) f = absurd (ground arith)
Moves-Keeps a _ (transits req now observed _ _ allowed) f =
    transits-Keeps req now observed a req.action refl allowed f

Runs-Keeps : (a b : DailyReportDelivery) → Runs a b → is_final a.status ≡ true → Keeps a b
Runs-Keeps a _ (done _) f = (refl, refl, refl, ground arith)
Runs-Keeps a c (step _ b _ move run) f =
    let here = Moves-Keeps a b move f in
    let there = Runs-Keeps b c run (ap is_final here.0 ∙ f) in
    (there.0 ∙ here.0, there.1 ∙ here.1, there.2 ∙ here.2, ground (arith, here.3, there.3))

-- The end of a report is final: once it is sent, failed, uncertain or skipped, no sequence of
-- requests changes its status, its count of attempts, its token or the time at which it was sent.
pub serve-final :
    (date group : ℕ) (reqs : List ReportRequest) (rows : List DailyReportDelivery)
    (r : DailyReportDelivery)
    → find (is_key date group) rows ≡ some r
    → is_final r.status ≡ true
    → (r' : DailyReportDelivery) × (find (is_key date group) (serve reqs rows) ≡ some r')
      × (r'.status ≡ r.status)
      × (r'.attempt_count ≡ r.attempt_count)
      × (r'.claim_token ≡ r.claim_token)
      × ((if is_some r.sent_at then r'.sent_at else none) ≡ r.sent_at)
serve-final date group reqs rows r e f =
    let (r', e', (run, started, rejected)) = serve-Served date group reqs rows r e in
    let k = Runs-Keeps r r' run f in (r', e', k.0, k.1, k.2, k.3)
