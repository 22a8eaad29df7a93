-- ===== src/Usage/Bucket.antt =====
-- One user's row as a bucket of charges, and what a call takes out of it.
use rollpig_cloud.Base.{
  ℕ, zero, suc, ◌+◌, ◌-◌, ◌*◌, ◌≤◌, ◌<◌, min, ◌≡◌, ap, ◌⊎◌, inl, inr, true, not, some, arith, leb,
  ◌==◌, if◌then◌else◌, is_some, get_or, mul_mono,
}
use rollpig_cloud.Usage.{
  UserUsage, stored_charges, recover_charges, next_recover_seconds, consume_charge,
}
use rollpig_cloud.Usage.Recovery.{banked, recover_charges_stamp, recover_charges-banked}

abbrev pub charges_of : UserUsage → ℕ
charges_of row = get_or row.roast_charges 0

abbrev pub stamp_of : UserUsage → ℕ
stamp_of row = get_or row.roast_charge_updated_ts 0

-- A row with charge columns, at most `m` charges and a stamp that is not in the future.
pub record IsBucket (m now : ℕ) (row : UserUsage) : Type 0 where
  pub has_charges : is_some row.roast_charges ≡ true
  pub has_stamp : is_some row.roast_charge_updated_ts ≡ true
  pub capped : charges_of row ≤ m
  pub stamped : 0 < stamp_of row
  pub past : stamp_of row ≤ now

-- What the row can still pay for at `now`, in seconds of recovery.
abbrev pub budget : ℕ → ℕ → ℕ → UserUsage → ℕ
budget m r now row = min (m * r) (banked (charges_of row, stamp_of row) now r)

stored_charges-bucket :
    (row : UserUsage) (now m r : ℕ)
    → IsBucket m now row
    → stored_charges row now m r ≡ (charges_of row, stamp_of row)
unfolding stored_charges
stored_charges-bucket row now m r b = ground arith

-- What a call does with the bucket that recovery leaves.
unfoldable pub spend_state : UserUsage → ℕ × ℕ → ℕ → ℕ → UserUsage
spend_state row (c, u) now m =
    if c == 0
    then record row { roast_charges = some c; roast_charge_updated_ts = some u }
    else record row {
      last_roast_ts = some now;
      roast_charges = some (c - 1);
      roast_charge_updated_ts = some (if leb m c then now else u);
    }

pub consume_charge-spend :
    (row : UserUsage) (now m r : ℕ)
    → IsBucket m now row
    → let s = recover_charges (charges_of row) (stamp_of row) now m r in
      ((consume_charge row now m r).1 ≡ spend_state row s now m)
      × ((consume_charge row now m r).0.allowed ≡ not (s.0 == 0))
      × ((consume_charge row now m r).0.remaining_seconds
          ≡ (if s.0 == 0 then next_recover_seconds s.0 s.1 now m r else 0))
unfolding consume_charge spend_state
consume_charge-spend row now m r b =
    rw (stored_charges-bucket row now m r b) (ground arith, ground arith, ground arith)

spend_state-budget :
    (row : UserUsage) (c u c' u' now m r : ℕ)
    → 0 < m
    → 0 < r
    → 0 < u'
    → u' ≤ now
    → ((c' ≡ m) × (u' ≡ now) × (m * r ≤ banked (c, u) now r))
      ⊎ ((c' < m) × (now - u' < r) × (banked (c', u') now r ≡ banked (c, u) now r))
    → let row' = spend_state row (c', u') now m in
      IsBucket m now row'
      × (budget m r now row' + (if not (c' == 0) then r else 0) ≤ min (m * r) (banked (c, u) now r))
unfolding spend_state
spend_state-budget row c u zero u' now m r pm pr pu le (inl full) = absurd (omega arith)
spend_state-budget row c u (suc k) u' now m r pm pr pu le (inl full) =
    ground (arith, ap (λ (n : ℕ). n * r) full.0)
spend_state-budget row c u zero u' now m r pm pr pu le (inr part) = ground (arith, mul_mono 1 m r)
spend_state-budget row c u (suc k) u' now m r pm pr pu le (inr part) =
    ground (arith, mul_mono (suc (suc k)) m r)

-- A call keeps the row a bucket, and takes the price of a charge out of its budget.
pub consume_charge-budget :
    (row : UserUsage) (now m r : ℕ)
    → 0 < m
    → 0 < r
    → IsBucket m now row
    → let (response, row') = consume_charge row now m r in
      IsBucket m now row'
      × (budget m r now row' + (if response.allowed then r else 0) ≤ budget m r now row)
consume_charge-budget row now m r pm pr b =
    let s = recover_charges (charges_of row) (stamp_of row) now m r in
    let stamp = recover_charges_stamp (charges_of row) (stamp_of row) now m r pr b.stamped b.past in
    let e = consume_charge-spend row now m r b in
    rw (e.0, e.1)
      (spend_state-budget row (charges_of row) (stamp_of row) s.0 s.1 now m r pm pr stamp.0 stamp.1
        (recover_charges-banked (charges_of row) (stamp_of row) now m r pr b.stamped b.past
          b.capped))
