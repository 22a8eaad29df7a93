-- ===== src/Reports/Claim.antt =====
-- routers/daily_reports.py, `_claim_once` and `claim_daily_reports`.
use rollpig_cloud.Base.{
  ℕ, suc, ◌+◌, Bool, not, ◌&&◌, ◌||◌, Option, none, some, List, [], ◌∷◌, ◌++◌, map, leb, ◌==◌,
  if◌then◌else◌, get_or, is_some, is_set, any, contains, select, find, update, sorted_set,
}
use rollpig_cloud.Reports.Next.{next_claim_at}
use rollpig_cloud.Reports.{
  ReportStatus, pending, claimed, is_pending, is_claimed, DailyReportDelivery, max_attempts,
  retry_deadline, retry_deadline_exceeded, retry_attempts_exhausted, is_key,
  fail_delivery_if_unchanged, is_stale, is_due,
}

pub record DailyReportDeliveryCandidate : Type 0 where
  pub group_id : ℕ
  pub delivery_bot_id : ℕ

pub record DailyReportClaimRequest : Type 0 where
  pub date_str : ℕ
  pub cutoff_at : ℕ
  pub instance_id : ℕ
  pub candidates : List DailyReportDeliveryCandidate

pub record DailyReportClaimItem : Type 0 where
  pub date_str : ℕ
  pub group_id : ℕ
  pub delivery_bot_id : ℕ
  pub cutoff_at : ℕ
  pub claim_token : ℕ
  pub status : ReportStatus
  pub attempt_count : ℕ

pub record DailyReportClaimResponse : Type 0 where
  pub items : List DailyReportClaimItem
  pub next_claim_at : Option ℕ

pub claim_item : DailyReportDelivery → DailyReportClaimItem
claim_item r = record {
  date_str = r.date_str;
  group_id = r.group_id;
  delivery_bot_id = r.delivery_bot_id;
  cutoff_at = r.cutoff_at;
  claim_token = get_or r.claim_token 0;
  status = r.status;
  attempt_count = r.attempt_count;
}

-- The candidates that name a group and a bot.
abbrev pub named : List DailyReportDeliveryCandidate → List DailyReportDeliveryCandidate
named = select (λ c. is_set c.group_id && is_set c.delivery_bot_id)

-- `candidates[group]`: the last entry of a group counts.
abbrev pub bot_of : ℕ → ℕ → List DailyReportDeliveryCandidate → ℕ
bot_of group bot [] = bot
bot_of group bot (c ∷ cs) = bot_of group (if c.group_id == group then c.delivery_bot_id else bot) cs

-- A lease of the same instance and bot that still runs.
abbrev pub is_same_owner : ℕ → ℕ → ℕ → DailyReportDelivery → Bool
is_same_owner instance bot now r =
    is_claimed r.status
    && is_some r.claim_token
    && is_some r.claimed_at
    && not (is_stale now r.claimed_at)
    && r.instance_id == instance
    && r.delivery_bot_id == bot

-- The values that a claim writes.
unfoldable pub claimed_row : ℕ → ℕ → ℕ → ℕ → ℕ → DailyReportDelivery → DailyReportDelivery
claimed_row instance bot now token attempts r = record r {
  status = claimed;
  instance_id = instance;
  delivery_bot_id = bot;
  claim_token = some token;
  claimed_at = some now;
  attempt_count = attempts + 1;
  next_attempt_at = none;
}

-- The conditional UPDATE: the row is still due and has not been claimed since.
unfoldable pub take_if_unchanged :
    ℕ
    → ℕ
    → ℕ
    → ℕ
    → DailyReportDelivery
    → DailyReportDelivery
    → Option DailyReportClaimItem × DailyReportDelivery
unfolding claimed_row claim_item is_due
take_if_unchanged instance bot now token observed current =
    if current.attempt_count == observed.attempt_count && is_due now current
    then (
      some (claim_item (claimed_row instance bot now token observed.attempt_count current)),
      claimed_row instance bot now token observed.attempt_count current,
    )
    else (none, current)

-- One round of the loop: the item, if the row is handed out, and the row after it. `observed` is
-- the row that the transaction has read and `current` the row of the table.
unfoldable pub visit :
    ℕ
    → ℕ
    → ℕ
    → ℕ
    → DailyReportDelivery
    → DailyReportDelivery
    → Option DailyReportClaimItem × DailyReportDelivery
unfolding retry_deadline fail_delivery_if_unchanged take_if_unchanged
visit instance bot now token observed current =
    if leb (retry_deadline observed.date_str) now
      && (is_pending observed.status || is_claimed observed.status)
    then (none, (fail_delivery_if_unchanged retry_deadline_exceeded observed current).1)
    else if is_same_owner instance bot now observed
    then (some (claim_item observed), current)
    else if not (is_due now observed)
    then (none, current)
    else if leb max_attempts observed.attempt_count
    then (none, (fail_delivery_if_unchanged retry_attempts_exhausted observed current).1)
    else take_if_unchanged instance bot now token observed current

pub new_delivery : ℕ → ℕ → ℕ → DailyReportDelivery
new_delivery date cutoff group = record {
  date_str = date;
  group_id = group;
  status = pending;
  instance_id = 0;
  delivery_bot_id = 0;
  claim_token = none;
  cutoff_at = cutoff;
  claimed_at = none;
  attempt_count = 0;
  next_attempt_at = none;
  sent_at = none;
  message_id = 0;
  last_error = 0;
}

-- The groups of the candidates, each once and in order.
abbrev pub groups_of : DailyReportClaimRequest → List ℕ
groups_of req = sorted_set (map (λ c. c.group_id) (named req.candidates))

-- Rows for the groups that have none on the day.
unfoldable pub add_missing : ℕ → ℕ → List ℕ → List DailyReportDelivery → List DailyReportDelivery
unfolding new_delivery
add_missing date cutoff [] rows = rows
add_missing date cutoff (g ∷ gs) rows =
    add_missing date cutoff gs
      (if any (is_key date g) rows then rows else rows ++ new_delivery date cutoff g ∷ [])

abbrev add_item :
    Option DailyReportClaimItem → List DailyReportClaimItem → List DailyReportClaimItem
add_item none items = items
add_item (some item) items = item ∷ items

-- One round, on the table: nothing comes between the reading of the row and its writing.
unfoldable pub visit_group :
    DailyReportClaimRequest
    → ℕ
    → ℕ
    → ℕ
    → List DailyReportDelivery
    → Option DailyReportClaimItem × List DailyReportDelivery
unfolding visit
visit_group req now token g rows = elim (find (is_key req.date_str g) rows) [
  | none ↦ (none, rows)
  | some r ↦
      let (item, r') = visit req.instance_id (bot_of g 0 (named req.candidates)) now token r r in
      (item, update (is_key req.date_str g) (λ _. r') rows)
]

-- The loop over the rows of the groups; `uuid i` is the token that the i-th of them may get.
unfoldable pub visit_all :
    DailyReportClaimRequest
    → (ℕ → ℕ)
    → ℕ
    → ℕ
    → List ℕ
    → List DailyReportDelivery
    → List DailyReportClaimItem × List DailyReportDelivery
unfolding visit_group
visit_all req uuid now i [] rows = ([], rows)
visit_all req uuid now i (g ∷ gs) rows =
    let (item, rows₁) = visit_group req now (uuid i) g rows in
    let (items, rows₂) = visit_all req uuid now (suc i) gs rows₁ in (add_item item items, rows₂)

abbrev rows_of : ℕ → List ℕ → List DailyReportDelivery → List DailyReportDelivery
rows_of date groups = select (λ r. r.date_str == date && contains r.group_id groups)

unfoldable pub claim_daily_reports :
    DailyReportClaimRequest
    → (ℕ → ℕ)
    → ℕ
    → List DailyReportDelivery
    → DailyReportClaimResponse × List DailyReportDelivery
unfolding visit_all next_claim_at add_missing sorted_set
claim_daily_reports req uuid now rows =
    let groups = groups_of req in
    let (items, rows') =
      visit_all req uuid now 0 groups (add_missing req.date_str req.cutoff_at groups rows) in
    (
      record {
        items = items;
        next_claim_at =
            next_claim_at (map (λ item. item.claim_token) items) now
              (rows_of req.date_str groups rows');
      },
      rows',
    )
