-- ===== src/Reports/Stale.antt =====
-- Transactions on a daily report that have read an older row than the one in the table.
use rollpig_cloud.Base.{
  ℕ, ◌≡◌, refl, inl, inr, true, false, ◌&&◌, ◌||◌, leb, is_value, arith, Bool-cases,
}
use rollpig_cloud.Reports.{
  is_pending, is_claimed, DailyReportDelivery, max_attempts, is_due, is_unchanged,
  fail_delivery_if_unchanged, retry_deadline, retry_deadline_exceeded, retry_attempts_exhausted,
}
use rollpig_cloud.Reports.Claim.{is_same_owner, take_if_unchanged, visit}
use rollpig_cloud.Reports.Transition.{
  DailyReportTransitionRequest, is_allowed, is_late, transition_row,
}

fail-stale :
    (reason : ℕ) (observed current : DailyReportDelivery)
    → (is_pending current.status || is_claimed current.status) ≡ false
    → (fail_delivery_if_unchanged reason observed current).1 ≡ current
unfolding fail_delivery_if_unchanged
fail-stale reason observed current gone =
    let changed : is_unchanged observed current ≡ false = ground arith in rw changed refl

take-stale :
    (instance bot now token : ℕ) (observed current : DailyReportDelivery)
    → (is_pending current.status || is_claimed current.status) ≡ false
    → (take_if_unchanged instance bot now token observed current).1 ≡ current
unfolding take_if_unchanged is_due
take-stale instance bot now token observed current gone = ground arith

-- A claim never overwrites a report that somebody sends or has finished, whatever older row its
-- transaction has read: the row in the table stays as it is.
pub visit-stale :
    (instance bot now token : ℕ) (observed current : DailyReportDelivery)
    → (is_pending current.status || is_claimed current.status) ≡ false
    → (visit instance bot now token observed current).1 ≡ current
unfolding visit
visit-stale instance bot now token observed current gone =
    elim (Bool-cases (
      leb (retry_deadline observed.date_str) now
      && (is_pending observed.status || is_claimed observed.status))) [
        | inl late ↦ rw late (fail-stale retry_deadline_exceeded observed current gone)
        | inr early ↦ rw early (elim (Bool-cases (is_same_owner instance bot now observed)) [
          | inl own ↦ rw own refl
          | inr other ↦ rw other (elim (Bool-cases (is_due now observed)) [
            | inr later ↦ rw later refl
            | inl due ↦ rw due (elim (Bool-cases (leb max_attempts observed.attempt_count)) [
              | inl spent ↦ rw spent (fail-stale retry_attempts_exhausted observed current gone)
              | inr few ↦ rw few (take-stale instance bot now token observed current gone)
            ])
          ])
        ])
      ]

fail-other_token :
    (reason token : ℕ) (observed current : DailyReportDelivery)
    → is_value observed.claim_token token ≡ true
    → is_value current.claim_token token ≡ false
    → (fail_delivery_if_unchanged reason observed current).1 ≡ current
unfolding fail_delivery_if_unchanged
fail-other_token reason token observed current right wrong =
    let changed : is_unchanged observed current ≡ false = ground arith in rw changed refl

-- A sender that has lost its lease is refused and changes nothing, whatever older row its
-- transaction has read: the row in the table has another token, or none.
pub transition_row-lost :
    (req : DailyReportTransitionRequest) (now : ℕ) (observed current : DailyReportDelivery)
    → is_value current.claim_token req.claim_token ≡ false
    → ((transition_row req now observed current).0.ok ≡ false)
      × ((transition_row req now observed current).1 ≡ current)
unfolding transition_row
transition_row-lost req now observed current wrong =
    elim (Bool-cases (is_value observed.claim_token req.claim_token)) [
      | inr other ↦ rw other (refl, refl)
      | inl right ↦ rw right (elim (Bool-cases (is_late req now observed)) [
        | inl late ↦ rw late (
          refl,
          fail-other_token retry_deadline_exceeded req.claim_token observed current right wrong,
        )
        | inr early ↦ rw early (elim (Bool-cases (is_allowed req.action observed.status)) [
          | inr no_longer ↦ rw no_longer (refl, refl)
          | inl allowed ↦ rw (allowed, wrong) (refl, refl)
        ])
      ])
    ]
