-- ===== src/Reports/Next.antt =====
-- routers/daily_reports.py, `_next_claim_at`.
use rollpig_cloud.Base.{
  ℕ, ◌+◌, not, ◌&&◌, Option, none, some, List, [], ◌∷◌, ltb, min, max, if◌then◌else◌, get_or,
  is_value, any,
}
use rollpig_cloud.Reports.{
  is_pending, is_claimed, DailyReportDelivery, claim_timeout, retry_deadline,
}

abbrev pub min_option : Option ℕ → Option ℕ → Option ℕ
min_option none b = b
min_option (some a) none = some a
min_option (some a) (some b) = some (min a b)

-- When a row is next worth a claim.
unfoldable pub candidate_at : List ℕ → ℕ → DailyReportDelivery → Option ℕ
candidate_at tokens now r =
    if is_pending r.status
    then some (max r.cutoff_at (get_or r.next_attempt_at r.cutoff_at))
    else if is_claimed r.status && not (any (is_value r.claim_token) tokens)
    then some (get_or r.claimed_at now + claim_timeout)
    else none

-- The candidate, if it is before the deadline of the row.
unfoldable pub claim_time : List ℕ → ℕ → DailyReportDelivery → Option ℕ
unfolding candidate_at retry_deadline
claim_time tokens now r = elim (candidate_at tokens now r) [
  | none ↦ none
  | some at ↦ if ltb at (retry_deadline r.date_str) then some at else none
]

unfoldable pub next_claim_at : List ℕ → ℕ → List DailyReportDelivery → Option ℕ
unfolding claim_time
next_claim_at tokens now [] = none
next_claim_at tokens now (r ∷ rows) =
    min_option (claim_time tokens now r) (next_claim_at tokens now rows)
