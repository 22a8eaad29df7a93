-- ===== src/Reports/Moved.antt =====
-- What a transaction does to the row of a report, whatever older row it has read: moves of the
-- lifecycle.
use rollpig_cloud.Base.{
  ℕ, ◌<◌, ◌≡◌, refl, inl, inr, true, ◌&&◌, ◌||◌, ◌==◌, if◌then◌else◌, is_value, arith, Bool-cases,
  leb,
}
use rollpig_cloud.Reports.{
  is_pending, is_claimed, DailyReportDelivery, max_attempts, fail_delivery_if_unchanged, is_due,
  is_unchanged, retry_deadline, retry_deadline_exceeded, retry_attempts_exhausted,
}
use rollpig_cloud.Reports.Claim.{claimed_row, is_same_owner, take_if_unchanged, visit}
use rollpig_cloud.Reports.Transition.{
  DailyReportTransitionRequest, is_allowed, is_start, is_late, transition_row,
}
use rollpig_cloud.Reports.Lifecycle.{
  Moves, takes, fails, transits, Runs, done, step, is_retry, starts, rejections,
}

abbrev one : (a b : DailyReportDelivery) → Moves a b → Runs a b
one a b move = step a b b move (done b)

-- A run without starts and rejections.
abbrev Quiet : DailyReportDelivery → DailyReportDelivery → Type 0
Quiet a b = (run : Runs a b) × (starts run ≡ 0) × (rejections run ≡ 0)

abbrev pub still : (a : DailyReportDelivery) → Quiet a a
still a = (done a, refl, refl)

fail-Quiet :
    (reason : ℕ) (observed current : DailyReportDelivery)
    → Quiet current (fail_delivery_if_unchanged reason observed current).1
unfolding fail_delivery_if_unchanged
fail-Quiet reason observed current = elim (Bool-cases (is_unchanged observed current)) [
  | inl e ↦ rw e (one _ _ (fails reason observed current (ground arith)), refl, refl)
  | inr e ↦ rw e (still current)
]

claimed-Quiet :
    (instance bot now token n : ℕ) (r : DailyReportDelivery)
    → n ≡ r.attempt_count
    → is_due now r ≡ true
    → n < max_attempts
    → Quiet r (claimed_row instance bot now token n r)
claimed-Quiet instance bot now token n r same due few =
    let few' : r.attempt_count < max_attempts = omega arith in
    rw same (one _ _ (takes instance bot now token r due few'), refl, refl)

take-Quiet :
    (instance bot now token : ℕ) (observed current : DailyReportDelivery)
    → observed.attempt_count < max_attempts
    → Quiet current (take_if_unchanged instance bot now token observed current).1
unfolding take_if_unchanged
take-Quiet instance bot now token observed current few =
    elim (Bool-cases (current.attempt_count == observed.attempt_count && is_due now current)) [
      | inl e ↦ rw e (
          claimed-Quiet instance bot now token observed.attempt_count current (ground arith)
            (ground arith) few)
      | inr e ↦ rw e (still current)
    ]

-- A round of a claim, whatever older row it has read.
pub visit-Quiet :
    (instance bot now token : ℕ) (observed current : DailyReportDelivery)
    → Quiet current (visit instance bot now token observed current).1
unfolding visit
visit-Quiet instance bot now token observed current =
    elim (Bool-cases (
      leb (retry_deadline observed.date_str) now
      && (is_pending observed.status || is_claimed observed.status))) [
        | inl late ↦ rw late (fail-Quiet retry_deadline_exceeded observed current)
        | inr early ↦ rw early (elim (Bool-cases (is_same_owner instance bot now observed)) [
          | inl own ↦ rw own (still current)
          | inr other ↦ rw other (elim (Bool-cases (is_due now observed)) [
            | inr later ↦ rw later (still current)
            | inl due ↦ rw due (elim (Bool-cases (leb max_attempts observed.attempt_count)) [
              | inl spent ↦ rw spent (fail-Quiet retry_attempts_exhausted observed current)
              | inr few ↦ rw few (take-Quiet instance bot now token observed current (ground arith))
            ])
          ])
        ])
      ]

-- Whether a request starts the sending of a row that is claimed, and whether it reports that the
-- row was not sent: the answer says so.
abbrev pub started : DailyReportTransitionRequest → ℕ → DailyReportDelivery → ℕ
started req now r =
    if (transition_row req now r r).0.ok && is_start req.action r.status then 1 else 0

abbrev pub rejected : DailyReportTransitionRequest → ℕ → DailyReportDelivery → ℕ
rejected req now r = if (transition_row req now r r).0.ok && is_retry req.action then 1 else 0

-- A transition, whatever older row it has read.
pub transition_row-Runs :
    (req : DailyReportTransitionRequest) (now : ℕ) (observed current : DailyReportDelivery)
    → (run : Runs current (transition_row req now observed current).1) × (starts run ≡ (
        if (transition_row req now observed current).0.ok && is_start req.action current.status
        then 1
        else 0))
      × (rejections run ≡ (
          if (transition_row req now observed current).0.ok && is_retry req.action then 1 else 0))
unfolding transition_row
transition_row-Runs req now observed current =
    elim (Bool-cases (is_value observed.claim_token req.claim_token)) [
      | inr wrong ↦ rw wrong (still current)
      | inl right ↦ rw right (elim (Bool-cases (is_late req now observed)) [
        | inl late ↦ rw late (fail-Quiet retry_deadline_exceeded observed current)
        | inr early ↦ rw early (elim (Bool-cases (is_allowed req.action observed.status)) [
          | inr no_longer ↦ rw no_longer (still current)
          | inl allowed ↦
              rw allowed
                (elim (Bool-cases (
                  is_value current.claim_token req.claim_token
                  && is_allowed req.action current.status
                  && current.attempt_count == observed.attempt_count)) [
                    | inr raced ↦ rw raced (still current)
                    | inl same ↦ rw same (
                      one _ _ (transits req now observed current (ground arith) (ground arith)),
                      omega arith,
                      omega arith,
                    )
                  ])
        ])
      ])
    ]
