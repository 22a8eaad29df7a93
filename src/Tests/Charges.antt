-- ===== src/Tests/Charges.antt =====
-- Charges and the force chance.
use rollpig_cloud.Base.{◌+◌, ◌-◌, ◌*◌, ◌≤◌, ◌≡◌, refl, false, some, [], ◌∷◌, arith, pos}
use rollpig_cloud.Usage.{UserUsage, new_usage, consume_charge, find_usage}
use rollpig_cloud.Usage.Bucket.{IsBucket}
use rollpig_cloud.Usage.Rate.{
  IsReady, Ascending, last_time, limit_of, interval_of, roasts, roasts-rate,
}

no_row : IsReady (limit_of (some (pos 2))) 1000 (find_usage 11 [])
unfolding find_usage
no_row = tt

in_order : Ascending 1000 (1000 ∷ 1000 ∷ 1001 ∷ 1100 ∷ [])
in_order = (omega arith, (omega arith, (omega arith, (omega arith, tt))))

roasts-rate_example :
    (roasts 11 (some (pos 60)) (some (pos 2)) [] (1000 ∷ 1000 ∷ 1001 ∷ 1100 ∷ [])).0
      * interval_of (some (pos 60))
    ≤ limit_of (some (pos 2)) * interval_of (some (pos 60))
      + (last_time 1000 (1000 ∷ 1000 ∷ 1001 ∷ 1100 ∷ []) - 1000)
roasts-rate_example =
    roasts-rate 11 1000 (some (pos 60)) (some (pos 2)) [] (1000 ∷ 1000 ∷ 1001 ∷ 1100 ∷ [])
      (omega arith) no_row in_order

abbrev spent : UserUsage
spent = record (new_usage 11) { roast_charges = some 0; roast_charge_updated_ts = some 1000 }

spent-IsBucket : IsBucket 2 1030 spent
spent-IsBucket = record {
  has_charges = refl;
  has_stamp = refl;
  capped = omega arith;
  stamped = omega arith;
  past = omega arith;
}

spent-refused : (consume_charge spent 1030 2 60).0.allowed ≡ false
unfolding consume_charge
spent-refused = refl
