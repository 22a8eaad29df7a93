-- ===== src/Refills/Threshold.antt =====
-- The votes that a refill needs.
use rollpig_cloud.Base.{ℕ, ◌+◌, ◌≤◌, arith}
use rollpig_cloud.Refills.{refill_threshold, legacy_refill_threshold}

-- A vote can always be won and never by one member: of at least three active members, the votes
-- needed are at least two, at most as many as there are members, and at most twenty. They are never
-- more than the old rule asks for, and a vote that succeeded makes the next no easier.
refill_threshold-attainable :
    (active successes : ℕ)
    → 3 ≤ active
    → let votes = (refill_threshold active successes).1 in
      (2 ≤ votes)
      × (votes ≤ active)
      × (votes ≤ 20)
      × (votes ≤ (legacy_refill_threshold active successes).1)
      × (votes ≤ (refill_threshold active (successes + 1)).1)
unfolding refill_threshold legacy_refill_threshold
refill_threshold-attainable active successes h = ground arith
