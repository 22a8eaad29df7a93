-- ===== src/Tests/Shields.antt =====
-- Protection levels, grants and the reservations that follow them.
use rollpig_cloud.Base.{max, ◌≡◌, none, some, ltb, arith}
use rollpig_cloud.Protection.{protection_level}
use rollpig_cloud.Protection.Levels.{IsCounted}
use rollpig_cloud.Store.{RoastReservation}
use rollpig_cloud.Granting.{GrantRequest, grant_row}
use rollpig_cloud.Granting.Raised.{effective, grant_row-level}
use rollpig_cloud.Tests.Data.{shield, waiting}

shield-IsCounted : IsCounted shield
shield-IsCounted = record {
  daily_counted = omega arith;
  manual_counted = omega arith;
  pig_counted = omega arith;
  legacy_counted = omega arith;
}

abbrev grant : GrantRequest
grant = record { group_id = 5; user_id = 12; level = 4; protect_date = 100 }

grant_row-level_example :
    let (changed, row) = grant_row grant (some shield) none in
    (protection_level row ≡ max 4 (effective (some shield) none))
    × (changed ≡ ltb (effective (some shield) none) 4)
grant_row-level_example = grant_row-level grant (some shield) none (omega arith) (omega arith)

abbrev visited : RoastReservation
visited = record waiting { target_pig_id = 4 }
