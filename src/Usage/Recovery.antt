-- ===== src/Usage/Recovery.antt =====
-- What recovery does to a bucket of charges, `_recover_charges` of services/usage.py.
use rollpig_cloud.Base.{
  ℕ, ◌+◌, ◌-◌, ◌*◌, ◌/◌, ◌≤◌, ◌<◌, min, ◌≡◌, ◌⊎◌, arith, div-mul-add-mod, mod-lt_pos, mul_mono,
}
use rollpig_cloud.Usage.{stamp_or, recover_charges}

-- The banked time of a bucket: what its charges are worth, and the time since its stamp.
abbrev pub banked : ℕ × ℕ → ℕ → ℕ → ℕ
banked (charges, updated) now r = charges * r + (now - updated)

recover_charges_bounds :
    (c u now m r : ℕ) → let (c', u') = recover_charges c u now m r in (c' ≤ m) × (min m c ≤ c')
unfolding recover_charges
recover_charges_bounds c u now m r = ground arith

pub recover_charges_stamp :
    (c u now m r : ℕ)
    → 0 < r
    → 0 < u
    → u ≤ now
    → let u' = (recover_charges c u now m r).1 in (0 < u') × (u' ≤ now)
unfolding recover_charges
recover_charges_stamp c u now m r pr pu le =
    ground (arith, div-mul-add-mod (now - stamp_or u now) r pr)

-- Recovery neither makes up time nor loses any, unless the bucket is full; then less than one
-- interval is left over.
pub recover_charges-banked :
    (c u now m r : ℕ)
    → 0 < r
    → 0 < u
    → u ≤ now
    → c ≤ m
    → let (c', u') = recover_charges c u now m r in
      ((c' ≡ m) × (u' ≡ now) × (m * r ≤ banked (c, u) now r))
      ⊎ ((c' < m) × (now - u' < r) × (banked (c', u') now r ≡ banked (c, u) now r))
unfolding recover_charges
recover_charges-banked c u now m r pr pu le cm =
    let q = (now - u) / r in
    ground (
      arith,
      div-mul-add-mod (now - u) r pr,
      mod-lt_pos (now - u) r pr,
      mul_mono m c r,
      mul_mono m (c + q) r,
    )
