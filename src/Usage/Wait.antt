-- ===== src/Usage/Wait.antt =====
-- The waiting time that a refused roast reports, `remaining_seconds` of services/usage.py.
use rollpig_cloud.Base.{
  ℕ, ◌+◌, ◌-◌, ◌/◌, ◌<◌, ◌≡◌, refl, false, arith, leb, ltb, ◌==◌, div-mul-add-mod, mod-lt_pos,
  mul_mono, mod_small,
}
use rollpig_cloud.Usage.{UserUsage, recover_charges, next_recover_seconds, consume_charge}
use rollpig_cloud.Usage.Recovery.{recover_charges_stamp, recover_charges-banked}
use rollpig_cloud.Usage.Bucket.{
  charges_of, stamp_of, IsBucket, spend_state, consume_charge-spend, consume_charge-budget,
}

-- An empty bucket has no charge exactly as long as less than an interval has passed.
recover_charges-empty :
    (u now m r : ℕ)
    → 0 < u
    → 0 < m
    → 0 < r
    → ((recover_charges 0 u now m r).0 == 0) ≡ ltb (now - u) r
unfolding recover_charges
recover_charges-empty u now m r pu pm pr =
    ground (
      arith,
      div-mul-add-mod (now - u) r pr,
      mod-lt_pos (now - u) r pr,
      mul_mono 1 ((now - u) / r) r,
    )

next_recover_seconds-empty :
    (u now m r : ℕ) → 0 < u → 0 < m → now - u < r → next_recover_seconds 0 u now m r ≡ r - (now - u)
unfolding next_recover_seconds
next_recover_seconds-empty u now m r pu pm lt = ground (arith, mod_small (now - u) r)

-- What a refused call leaves: an empty bucket that has waited for less than an interval.
refused_state :
    (row : UserUsage) (now m r : ℕ)
    → 0 < m
    → 0 < r
    → IsBucket m now row
    → (consume_charge row now m r).0.allowed ≡ false
    → let (response, row') = consume_charge row now m r in
      (charges_of row' ≡ 0)
      × (now - stamp_of row' < r)
      × (response.remaining_seconds ≡ r - (now - stamp_of row'))
unfolding spend_state
refused_state row now m r pm pr b refused =
    let (c, u) = recover_charges (charges_of row) (stamp_of row) now m r in
    let stamp = recover_charges_stamp (charges_of row) (stamp_of row) now m r pr b.stamped b.past in
    let spent = consume_charge-spend row now m r b in
    let empty : c ≡ 0 = ground (arith, spent.1) in
    let waited : now - u < r = ground (
      arith,
      recover_charges-banked (charges_of row) (stamp_of row) now m r pr b.stamped b.past b.capped,
    ) in
    rw (spent.0, spent.2, empty)
      (refl, waited, next_recover_seconds-empty u now m r stamp.0 pm waited)

-- The reported wait is exact: after a refused call, a call `d` seconds later is allowed exactly when
-- `d` has reached `remaining_seconds`. The user's row has its charge columns, at most `m` charges
-- and a stamp that is not in the future; `m` and `r` are positive.
pub remaining_seconds-exact :
    (row : UserUsage) (now m r d : ℕ)
    → 0 < m
    → 0 < r
    → IsBucket m now row
    → (consume_charge row now m r).0.allowed ≡ false
    → let (response, row') = consume_charge row now m r in
      (consume_charge row' (now + d) m r).0.allowed ≡ leb response.remaining_seconds d
remaining_seconds-exact row now m r d pm pr b refused =
    let (_, row') = consume_charge row now m r in
    let left = refused_state row now m r pm pr b refused in
    let b' = (consume_charge-budget row now m r pm pr b).0 in
    let b'' : IsBucket m (now + d) row' = ground arith in
    rw ((consume_charge-spend row' (now + d) m r b'').1, left.0, left.2)
      (rw (recover_charges-empty (stamp_of row') (now + d) m r b'.stamped pm pr) (ground arith))
