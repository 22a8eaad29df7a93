-- ===== src/Delivery/Settle.antt =====
-- routers/roast_reservations.py, `_prepare_outcome_once` and `save_outcome`.
use rollpig_cloud.Base.{
  ℕ, ◌+◌, Bool, true, false, not, ◌&&◌, ◌||◌, Option, none, some, List, [], ◌∷◌, leb, ◌==◌,
  if◌then◌else◌, get_or, is_set, find, contains, select, update,
}
use rollpig_cloud.Store.{
  is_super, is_normal, is_success, Outcome, DailyFeedResult, reservation, RoastReservation,
  Participant, Session,
}
use rollpig_cloud.Progress.{apply_daily_feed}
use rollpig_cloud.Reservation.{is_protected_row, participants_of}
use rollpig_cloud.Delivery.{
  MutationResponse, refused, locked, commit_row, change, save_outcome_row, freeze_outcome,
}

pub record OutcomeRequest : Type 0 where
  pub reservation_id : ℕ
  pub claim_token : ℕ
  pub outcome_snapshot : Outcome
  pub settle_daily_feed : Bool

abbrev has_feeders : Option (List ℕ) → Bool
has_feeders none = false
has_feeders (some []) = false
has_feeders (some (x ∷ xs)) = true

-- Whether a successful roast feeds its members.
pub settles : Bool → Outcome → RoastReservation → Bool
settles settle_daily_feed outcome r =
    settle_daily_feed
    && (has_feeders r.force_feed_user_ids
        || (not (is_normal r.force_mode) && not (is_super r.force_mode))
        || (is_set r.protection_required && not (is_super r.force_mode)))
    && is_success outcome.event_type

-- The members that a feed is due to.
pub is_eligible : RoastReservation → Participant → Bool
is_eligible r p =
    (is_super r.force_mode && contains p.user_id (get_or r.force_feed_user_ids []))
    || (not (is_super r.force_mode) && (not (is_set r.protection_required) || p.contribution == 1))

-- `sorted(eligible, key=lambda item: item.user_id)`
abbrev insert_by_user : Participant → List Participant → List Participant
insert_by_user p [] = p ∷ []
insert_by_user p (q ∷ qs) = if leb p.user_id q.user_id then p ∷ q ∷ qs else q ∷ insert_by_user p qs

abbrev pub sort_by_user : List Participant → List Participant
sort_by_user [] = []
sort_by_user (p ∷ ps) = insert_by_user p (sort_by_user ps)

-- The feeds of the members, one after the other: `feed_results_by_user`, the last entry first.
abbrev pub feed_all :
    ℕ
    → ℕ
    → List Participant
    → List (ℕ × DailyFeedResult)
    → Session
    → List (ℕ × DailyFeedResult) × Session
feed_all date id [] results s = (results, s)
feed_all date id (p ∷ ps) results s =
    let (fed, s') = apply_daily_feed date p.user_id reservation id s in
    feed_all date id ps ((p.user_id, fed) ∷ results) s'

-- The results in the order of the members; each has one.
abbrev results_of : List (ℕ × DailyFeedResult) → List Participant → List DailyFeedResult
results_of results [] = []
results_of results (p ∷ ps) =
    let rest = results_of results ps in
    elim (find (λ entry. entry.0 == p.user_id) results) [
      | none ↦ rest
      | some entry ↦ entry.1 ∷ rest
    ]

-- The settlement of the feeds: the row with the results, and the session.
unfoldable pub settle_feeds :
    Bool → Outcome → RoastReservation → Session → RoastReservation × Session
unfolding settles is_eligible
settle_feeds settle_daily_feed outcome r s =
    let eligible = select (is_eligible r) (participants_of r.reservation_id s) in
    let (results, s') = feed_all r.date_str r.reservation_id (sort_by_user eligible) [] s in
    if settles settle_daily_feed outcome r
    then (record r { daily_feed_results = some (results_of results eligible) }, s')
    else (record r { daily_feed_results = some [] }, s)

-- A success raises the count of the protection that the roast was gathered against.
unfoldable pub count_success : Outcome → RoastReservation → Session → Session
count_success outcome r s =
    if is_set r.protection_required && is_success outcome.event_type
    then record s {
      protections =
          update (is_protected_row r.date_str r.group_id r.target_id)
            (λ row. record row { roast_success_count = row.roast_success_count + 1 }) s.protections;
    }
    else s

-- The commit: a new snapshot settles its consequences in the same transaction.
unfoldable pub settle_outcome :
    OutcomeRequest → Session → Option (Bool × RoastReservation) → MutationResponse × Session
unfolding count_success settle_feeds
settle_outcome req s none = (refused, s)
settle_outcome req s (some (false, r)) = commit_row s (some r)
settle_outcome req s (some (true, r)) =
    let (r', s') =
      settle_feeds req.settle_daily_feed req.outcome_snapshot r
        (count_success req.outcome_snapshot r s) in
    commit_row s' (some r')

abbrev pub frozen : OutcomeRequest → Option RoastReservation → Option (Bool × RoastReservation)
frozen req none = none
frozen req (some r) = freeze_outcome req.claim_token req.outcome_snapshot r

-- `_prepare_outcome_once`
unfoldable pub prepare_outcome : OutcomeRequest → Session → MutationResponse × Session
unfolding settle_outcome freeze_outcome
prepare_outcome req s = settle_outcome req s (frozen req (locked req.reservation_id s))

-- POST /outcome, for old clients.
unfoldable pub save_outcome : OutcomeRequest → Session → MutationResponse × Session
unfolding save_outcome_row
save_outcome req s =
    commit_row s
      (change (save_outcome_row req.claim_token req.outcome_snapshot) (locked req.reservation_id s))
