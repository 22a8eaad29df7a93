-- ===== src/Tests/Reporting.antt =====
-- The daily report of group 5 on day 100: its delivery and its ranking.
use rollpig_cloud.Base.{
  ◌+◌, ◌≤◌, ◌≡◌, refl, true, false, none, some, List, [], ◌∷◌, arith, any, find, All, length,
}
use rollpig_cloud.Store.{DailyRoll, UserDailyFeed, roast}
use rollpig_cloud.Reports.{ReportStatus, DailyReportDelivery, is_key, is_due, retry_deadline}
use rollpig_cloud.Reports.Claim.{
  DailyReportClaimRequest, DailyReportClaimItem, visit, visit_group, claim_daily_reports,
}
use rollpig_cloud.Reports.Next.{next_claim_at}
use rollpig_cloud.Reports.Transition.{Action, DailyReportTransitionRequest, transition_daily_report}
use rollpig_cloud.Reports.Served.{
  ReportRequest, claiming, transiting, serve_one, serve, counted, starts_of, rejections_of,
}
use rollpig_cloud.Reports.Sendings.{serve-starts, serve-final}
use rollpig_cloud.Reports.Repeats.{visit_group-held}
use rollpig_cloud.Reports.Again.{transition_daily_report-again}
use rollpig_cloud.Reports.Stale.{visit-stale}
use rollpig_cloud.Reports.Poll.{comes_due, next_claim_at-first}
use rollpig_cloud.Reports.Profiles.{
  Stamped, ReportTables, DailyReportProfileRequest, user_id_batches, daily_roll_of, latest_feed_of,
  daily_pig_of, expert_level_from_roll, profile,
}
use rollpig_cloud.Reports.Batches.{concat, user_id_batches-concat}
use rollpig_cloud.Reports.Ranking.{profile-achieved}

abbrev fresh : DailyReportDelivery
fresh = record {
  date_str = 100;
  group_id = 5;
  status = ReportStatus.pending;
  instance_id = 0;
  delivery_bot_id = 0;
  claim_token = none;
  cutoff_at = 8_690_400;
  claimed_at = none;
  attempt_count = 0;
  next_attempt_at = none;
  sent_at = none;
  message_id = 0;
  last_error = 0;
}

-- Leased to bot 9 of instance 1.
abbrev leased : DailyReportDelivery
leased = record fresh {
  status = ReportStatus.claimed;
  instance_id = 1;
  delivery_bot_id = 9;
  claim_token = some 50;
  claimed_at = some 8_690_500;
  attempt_count = 1;
}

abbrev posted : DailyReportDelivery
posted = record leased { status = ReportStatus.sent; sent_at = some 8_690_510; message_id = 33 }

abbrev ask : DailyReportClaimRequest
ask = record {
  date_str = 100;
  cutoff_at = 8_690_400;
  instance_id = 1;
  candidates = record { group_id = 5; delivery_bot_id = 9 } ∷ [];
}

abbrev begin : DailyReportTransitionRequest
begin = record {
  date_str = 100;
  group_id = 5;
  claim_token = 50;
  action = Action.sending;
  message_id = 0;
  error = 0;
}

abbrev reject : DailyReportTransitionRequest
reject = record begin { action = Action.retry; error = 7 }

-- The report is claimed, sent, rejected, claimed again after the delay and sent again.
abbrev evening : List ReportRequest
evening =
    claiming ask (λ n. 50) 8_690_500
    ∷ transiting begin 8_690_505
    ∷ transiting reject 8_690_510
    ∷ claiming ask (λ n. 50) 8_690_541
    ∷ transiting begin 8_690_545
    ∷ []

sent_twice : starts_of 100 5 evening (fresh ∷ []) ≡ 2
unfolding counted serve serve_one claim_daily_reports transition_daily_report
sent_twice = refl

due : is_due 8_690_500 fresh ≡ true
unfolding is_due
due = refl

serve-starts_example :
    (starts_of 100 5 evening (fresh ∷ []) ≤ 1 + rejections_of 100 5 evening (fresh ∷ []))
    × (starts_of 100 5 evening (fresh ∷ []) ≤ 4)
serve-starts_example = serve-starts 100 5 evening (fresh ∷ []) fresh refl refl refl

serve-final_example :
    (r' : DailyReportDelivery) × (find (is_key 100 5) (serve evening (posted ∷ [])) ≡ some r')
    × (r'.status ≡ ReportStatus.sent)
    × (r'.attempt_count ≡ 1)
    × (r'.claim_token ≡ some 50)
    × (r'.sent_at ≡ some 8_690_510)
serve-final_example = serve-final 100 5 evening (posted ∷ []) posted refl refl

handed_out :
    (visit_group ask 8_690_541 60 5 (fresh ∷ [])).0
    ≡ some (record {
      date_str = 100;
      group_id = 5;
      delivery_bot_id = 9;
      cutoff_at = 8_690_400;
      claim_token = 60;
      status = ReportStatus.claimed;
      attempt_count = 1;
    })
unfolding visit_group
handed_out = refl

abbrev item : DailyReportClaimItem
item = record {
  date_str = 100;
  group_id = 5;
  delivery_bot_id = 9;
  cutoff_at = 8_690_400;
  claim_token = 50;
  status = ReportStatus.claimed;
  attempt_count = 1;
}

visit_group_run : visit_group ask 8_690_500 50 5 (fresh ∷ []) ≡ (some item, leased ∷ [])
unfolding visit_group
visit_group_run = refl

-- Another instance asks a minute later.
visit_group-held_example :
    visit_group (record ask { instance_id = 2 }) 8_690_560 61 5 (leased ∷ []) ≡ (none, leased ∷ [])
unfolding retry_deadline
visit_group-held_example =
    visit_group-held ask (record ask { instance_id = 2 }) 8_690_500 8_690_560 50 61 5 (fresh ∷ [])
      (leased ∷ []) leased item visit_group_run refl refl refl (omega arith)

transition_daily_report-again_example :
    transition_daily_report begin 8_700_000
      (transition_daily_report begin 8_690_505 (leased ∷ [])).1
    ≡ transition_daily_report begin 8_690_505 (leased ∷ [])
unfolding transition_daily_report
transition_daily_report-again_example =
    transition_daily_report-again begin 8_690_505 8_700_000 (leased ∷ []) refl refl

-- A claim that has read the row before it was sent.
visit-stale_example : (visit 2 8 8_690_900 61 leased posted).1 ≡ posted
visit-stale_example = visit-stale 2 8 8_690_900 61 leased posted refl

next_time : next_claim_at [] 8_690_560 (leased ∷ []) ≡ some 8_690_800
unfolding next_claim_at
next_time = refl

next_claim_at-first_example :
    (any (comes_due [] 8_690_800) (leased ∷ []) ≡ true) × (is_due 8_690_700 leased ≡ false)
unfolding retry_deadline
next_claim_at-first_example =
    next_claim_at-first [] 8_690_560 8_690_800 8_690_700 (leased ∷ []) (λ r. true) leased next_time
      (omega arith) refl refl refl (omega arith)

user_id_batches-concat_example :
    (concat (user_id_batches 2 (11 ∷ 12 ∷ 13 ∷ [])) ≡ 11 ∷ 12 ∷ 13 ∷ [])
    × All (λ b. length b ≤ 2) (user_id_batches 2 (11 ∷ 12 ∷ 13 ∷ []))
user_id_batches-concat_example = user_id_batches-concat 2 (11 ∷ 12 ∷ 13 ∷ []) (omega arith)

-- User 12 rolled pig 3 in the morning and was fed in the evening.
abbrev morning : Stamped DailyRoll
morning = record {
  row = record {
    date_str = 100;
    user_id = 12;
    pig_id = 3;
    is_new_pig = some false;
    previous_copies = some 1;
    copies_after_roll = some 2;
    previous_expert_level = some 0;
    expert_level_after_roll = some 1;
    collection_size_after_roll = some 1;
    previous_duplicate_streak = some 0;
    duplicate_streak_after_roll = some 1;
    resource_version = none;
    appearance_snapshot = none;
  };
  stamp = 8_640_000;
}

abbrev supper : Stamped UserDailyFeed
supper = record {
  row = record {
    date_str = 100;
    user_id = 12;
    pig_id = 3;
    source_type = roast;
    source_id = 4;
    previous_level = 1;
    new_level = 2;
  };
  stamp = 8_690_000;
}

abbrev tables : ReportTables
tables = record {
  group_rolls =
      record {
        row = record { date_str = 100; group_id = 5; user_id = 12; pig_id = 3 };
        stamp = 8_640_000;
      }
      ∷ [];
  daily_rolls = morning ∷ [];
  collections = [];
  feeds = supper ∷ [];
}

abbrev rank : DailyReportProfileRequest
rank = record { date_str = 100; group_id = 5; cutoff_at = 8_690_400; user_ids = 12 ∷ [] }

profile-achieved_example :
    ((profile rank tables 12).daily_ex_level ≡ some 2)
    × ((profile rank tables 12).daily_achieved_at ≡ some 8_690_000)
unfolding daily_roll_of latest_feed_of daily_pig_of expert_level_from_roll
profile-achieved_example =
    profile-achieved rank tables 12 1 morning supper refl refl refl refl refl refl
