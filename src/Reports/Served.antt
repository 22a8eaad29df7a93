-- ===== src/Reports/Served.antt =====
-- Sequences of requests for daily reports, and the row of one day and group in their course.
use rollpig_cloud.Base.{
  ℕ, suc, ◌+◌, ◌≡◌, refl, ap, ◌∙◌, inl, inr, ◌&&◌, some, none, List, [], ◌∷◌, ◌++◌, ◌==◌,
  if◌then◌else◌, any, find, arith, Bool-cases, Option-cases, find-append_one,
}
use rollpig_cloud.Reports.{DailyReportDelivery, is_key}
use rollpig_cloud.Reports.Claim.{
  DailyReportClaimRequest, named, bot_of, visit, groups_of, new_delivery, add_missing, visit_group,
  visit_all, claim_daily_reports,
}
use rollpig_cloud.Reports.Transition.{
  DailyReportTransitionRequest, transition_row, transition_daily_report,
}
use rollpig_cloud.Reports.Lifecycle.{done}
use rollpig_cloud.Reports.Moved.{visit-Quiet, started, rejected, transition_row-Runs}
use rollpig_cloud.Reports.Ran.{Served, Served-refl, Served-trans, replace-Served}

pub data ReportRequest : Type 0 where
  claiming : DailyReportClaimRequest → (ℕ → ℕ) → ℕ → ReportRequest
  transiting : DailyReportTransitionRequest → ℕ → ReportRequest

unfoldable pub serve_one : ReportRequest → List DailyReportDelivery → List DailyReportDelivery
unfolding claim_daily_reports transition_daily_report
serve_one (claiming req uuid now) rows = (claim_daily_reports req uuid now rows).1
serve_one (transiting req now) rows = (transition_daily_report req now rows).1

unfoldable pub serve : List ReportRequest → List DailyReportDelivery → List DailyReportDelivery
unfolding serve_one
serve [] rows = rows
serve (req ∷ reqs) rows = serve reqs (serve_one req rows)

-- How often the row of the day and group is counted by the transitions of a sequence.
abbrev counted_one :
    (DailyReportTransitionRequest → ℕ → DailyReportDelivery → ℕ)
    → ℕ
    → ℕ
    → ReportRequest
    → List DailyReportDelivery
    → ℕ
counted_one count date group (claiming req uuid now) rows = 0
counted_one count date group (transiting req now) rows =
    if req.date_str == date && req.group_id == group
    then elim (find (is_key date group) rows) [ none ↦ 0 | some r ↦ count req now r ]
    else 0

unfoldable pub counted :
    (DailyReportTransitionRequest → ℕ → DailyReportDelivery → ℕ)
    → ℕ
    → ℕ
    → List ReportRequest
    → List DailyReportDelivery
    → ℕ
counted count date group [] rows = 0
counted count date group (req ∷ reqs) rows =
    counted_one count date group req rows + counted count date group reqs (serve_one req rows)

-- The number of times that the report of the day and group went from claimed to sending, and of
-- the times that a sender reported that it was not sent.
abbrev pub starts_of : ℕ → ℕ → List ReportRequest → List DailyReportDelivery → ℕ
starts_of = counted started

abbrev pub rejections_of : ℕ → ℕ → List ReportRequest → List DailyReportDelivery → ℕ
rejections_of = counted rejected

add_missing-Served :
    (date group d cutoff : ℕ) (gs : List ℕ) (rows : List DailyReportDelivery)
    → Served date group 0 0 rows (add_missing d cutoff gs rows)
unfolding add_missing
add_missing-Served date group d cutoff [] rows r e = Served-refl date group rows r e
add_missing-Served date group d cutoff (g ∷ gs) rows r e =
    elim (Bool-cases (any (is_key d g) rows)) [
      | inl old ↦ rw old (add_missing-Served date group d cutoff gs rows r e)
      | inr new ↦ rw new (
          add_missing-Served date group d cutoff gs (rows ++ new_delivery d cutoff g ∷ []) r
            (find-append_one (is_key date group) rows (new_delivery d cutoff g) ∙ rw e refl))
    ]

visit_group-Served :
    (date group : ℕ) (req : DailyReportClaimRequest) (now token g : ℕ)
    (rows : List DailyReportDelivery)
    → Served date group 0 0 rows (visit_group req now token g rows).1
unfolding visit_group
visit_group-Served date group req now token g rows =
    elim (Option-cases (find (is_key req.date_str g) rows)) [
      | inl e ↦ rw (e, visit_group) (Served-refl date group rows)
      | inr (a, e) ↦
          let bot = bot_of g 0 (named req.candidates) in
          let moved = visit-Quiet req.instance_id bot now token a a in
          let w =
            replace-Served date group req.date_str g 0 0 rows a
              (visit req.instance_id bot now token a a).1 e moved in
          rw (e, visit_group)
            (elim (Bool-cases (req.date_str == date && g == group)) [
              | inl hit ↦ rw hit at w
              | inr miss ↦ rw miss at w
            ])
    ]

visit_all-Served :
    (date group : ℕ) (req : DailyReportClaimRequest) (uuid : ℕ → ℕ) (now i : ℕ) (gs : List ℕ)
    (rows : List DailyReportDelivery)
    → Served date group 0 0 rows (visit_all req uuid now i gs rows).1
unfolding visit_all
visit_all-Served date group req uuid now i [] rows = Served-refl date group rows
visit_all-Served date group req uuid now i (g ∷ gs) rows =
    let next = (visit_group req now (uuid i) g rows).1 in
    Served-trans date group 0 0 0 0 rows next _
      (visit_group-Served date group req now (uuid i) g rows)
      (visit_all-Served date group req uuid now (suc i) gs next)

pub serve_one-Served :
    (date group : ℕ) (req : ReportRequest) (rows : List DailyReportDelivery)
    → Served date group
        (counted_one started date group req rows)
        (counted_one rejected date group req rows)
        rows
        (serve_one req rows)
unfolding serve_one claim_daily_reports transition_daily_report
serve_one-Served date group (claiming req uuid now) rows r er =
    let groups = groups_of req in
    let added = add_missing req.date_str req.cutoff_at groups rows in
    Served-trans date group 0 0 0 0 rows added _
      (add_missing-Served date group req.date_str req.cutoff_at groups rows)
      (visit_all-Served date group req uuid now 0 groups added) r er
serve_one-Served date group (transiting req now) rows r er =
    elim (Bool-cases (req.date_str == date && req.group_id == group)) [
      | inl hit ↦
          let e : find (is_key req.date_str req.group_id) rows ≡ some r =
            ap (λ z. find (is_key z req.group_id) rows) (ground arith)
            ∙ ap (λ z. find (is_key date z) rows) (ground arith)
            ∙ er in
          let w =
            replace-Served date group req.date_str req.group_id (started req now r)
              (rejected req now r) rows r (transition_row req now r r).1 e
              (transition_row-Runs req now r r) r er in
          rw (hit, er, serve_one, transition_daily_report, e) (rw hit at w)
      | inr miss ↦ elim (Option-cases (find (is_key req.date_str req.group_id) rows)) [
        | inl e ↦ rw (miss, serve_one, transition_daily_report, e) (r, er, (done r, refl, refl))
        | inr (a, e) ↦
            let w =
              replace-Served date group req.date_str req.group_id (started req now a)
                (rejected req now a) rows a (transition_row req now a a).1 e
                (transition_row-Runs req now a a) r er in
            rw (miss, serve_one, transition_daily_report, e) (rw miss at w)
      ]
    ]

-- The row of a day and group runs along the lifecycle through any sequence of requests, with the
-- starts and the rejections that the answers of the sequence show.
pub serve-Served :
    (date group : ℕ) (reqs : List ReportRequest) (rows : List DailyReportDelivery)
    → Served date group
        (starts_of date group reqs rows)
        (rejections_of date group reqs rows)
        rows
        (serve reqs rows)
unfolding serve counted
serve-Served date group [] rows = Served-refl date group rows
serve-Served date group (req ∷ reqs) rows =
    Served-trans date group (counted_one started date group req rows)
      (counted_one rejected date group req rows) (starts_of date group reqs (serve_one req rows))
      (rejections_of date group reqs (serve_one req rows)) rows (serve_one req rows) _
      (serve_one-Served date group req rows) (serve-Served date group reqs (serve_one req rows))
