-- ===== src/Delivery/Claim.antt =====
-- routers/roast_reservations.py, `claim` and `owned`.
use rollpig_cloud.Base.{
  ℕ, zero, suc, ◌+◌, Bool, true, false, not, ◌&&◌, ◌||◌, Option, none, some, List, [], ◌∷◌, map,
  ltb, leb, ◌==◌, if◌then◌else◌, is_set, any, contains, select, update, length, ℤ, clamp,
}
use rollpig_cloud.Store.{
  is_super, is_pending, is_ready, is_processing, is_prepared, NoticeStatus, Notice,
  RoastReservation, Session,
}
use rollpig_cloud.Reservation.{ReservationItem, reservation_to_schema}
use rollpig_cloud.Delivery.{claim_row, claim_timeout, is_claimable}

pub record ClaimRequest : Type 0 where
  pub delivery_bot_id : ℕ
  pub date_str : ℕ
  pub limit : ℤ
  pub supports_prepared : Bool
  pub supports_protection_gathering : Bool
  pub protection_gathering_version : ℕ
  pub excluded_reservation_ids : List ℕ
  pub supports_waiting_notice : Bool

pub record ClaimResponse : Type 0 where
  pub items : List ReservationItem
  pub has_owned : Bool
  pub waiting_notices : List ReservationItem

abbrev pub can_gather : ClaimRequest → Bool
can_gather req = req.supports_protection_gathering && leb 2 req.protection_gathering_version

abbrev first_of {ℓ} : {A : Type ℓ} → ℕ → List A → List A
first_of zero xs = []
first_of (suc n) [] = []
first_of (suc n) (x ∷ xs) = x ∷ first_of n xs

abbrev pub excluded_ids : ClaimRequest → List ℕ
excluded_ids req = select is_set (first_of 64 req.excluded_reservation_ids)

-- The rows of the bot on the day.
abbrev pub is_own : ℕ → ℕ → RoastReservation → Bool
is_own bot date r = r.delivery_bot_id == bot && r.date_str == date

abbrev is_owned : ℕ → ℕ → RoastReservation → Bool
is_owned bot date r =
    is_own bot date r
    && (is_pending r.status || is_ready r.status || is_processing r.status || is_prepared r.status)

-- An old sender that polls with the new capability declares it for its open reservations.
unfoldable pub declare_gathering : ClaimRequest → List RoastReservation → List RoastReservation
declare_gathering req rows =
    if can_gather req
    then update
        (λ r.
          is_own req.delivery_bot_id req.date_str r
          && (is_pending r.status || is_ready r.status)
          && ltb r.delivery_gathering_version 2)
        (λ r. record r { delivery_gathering_version = 2 }) rows
    else rows

-- The conditions of the claim's query.
unfoldable pub may_claim : ClaimRequest → ℕ → RoastReservation → Bool
unfolding is_claimable
may_claim req now r =
    is_own req.delivery_bot_id req.date_str r
    && is_claimable now r
    && not (contains r.reservation_id (excluded_ids req))
    && (can_gather req || (r.protection_required == 0 && r.force_operator_id == 0))

-- The first `k` rows that pass the test are changed, each with the next number; they come first,
-- then all the rows.
abbrev pub take_rows {ℓ} :
    {A : Type ℓ} → (A → Bool) → (ℕ → A → A) → ℕ → ℕ → List A → List A × List A
take_rows p f zero i rows = ([], rows)
take_rows p f (suc k) i [] = ([], [])
take_rows p f (suc k) i (r ∷ rows) =
    let hit = take_rows p f k (suc i) rows in
    let miss = take_rows p f (suc k) i rows in
    if p r then (f i r ∷ hit.0, f i r ∷ hit.1) else (miss.0, r ∷ miss.1)

abbrev pub limit_of : ClaimRequest → ℕ
limit_of req = clamp 1 12 req.limit

-- A notice that waits to be sent, or whose claim is stale.
abbrev notice_waits : ℕ → Option Notice → Bool
notice_waits now none = false
notice_waits now (some notice) = elim notice.status [
  | NoticeStatus.pending ↦ true
  | NoticeStatus.processing ↦ elim notice.claimed_at [
    | none ↦ false
    | some at ↦ ltb (at + claim_timeout) now
  ]
  | NoticeStatus.sending ↦ false
  | NoticeStatus.sent ↦ false
]

unfoldable pub notifies : ClaimRequest → ℕ → RoastReservation → Bool
notifies req now r =
    is_own req.delivery_bot_id req.date_str r
    && is_pending r.status
    && is_set r.target_pig_id
    && is_set r.protection_required
    && not (is_super r.force_mode)
    && notice_waits now r.waiting_notice
    && not (contains r.reservation_id (excluded_ids req))

unfoldable pub notify_row : ℕ → ℕ → RoastReservation → RoastReservation
notify_row token now r = record r {
  waiting_notice = some (record {
    status = NoticeStatus.processing;
    claim_token = some token;
    claimed_at = some now;
  });
}

-- The item of a notice carries the notice's token.
abbrev notice_item : Session → RoastReservation → ReservationItem
notice_item s r = elim r.waiting_notice [
  | none ↦ reservation_to_schema s r
  | some notice ↦ elim notice.claim_token [
    | none ↦ reservation_to_schema s r
    | some token ↦ record (reservation_to_schema s r) { claim_token = token }
  ]
]

-- The rows that the claim hands out, and the table after it; `uuid n` is the n-th new token.
unfoldable pub claim_reservations :
    (ℕ → ℕ)
    → ℕ
    → ClaimRequest
    → List RoastReservation
    → List RoastReservation × List RoastReservation
unfolding declare_gathering may_claim claim_row
claim_reservations uuid now req rows =
    take_rows (may_claim req now) (λ i r. claim_row req.supports_prepared (uuid i) now r)
      (limit_of req) 0 (declare_gathering req rows)

-- The notices that the claim hands out, with the tokens that follow `start`.
unfoldable pub claim_notices :
    (ℕ → ℕ)
    → ℕ
    → ClaimRequest
    → ℕ
    → List RoastReservation
    → List RoastReservation × List RoastReservation
unfolding notifies notify_row
claim_notices uuid now req start rows =
    if req.supports_waiting_notice && can_gather req
    then take_rows (notifies req now) (λ i r. notify_row (uuid i) now r) (limit_of req) start rows
    else ([], rows)

unfoldable pub claim : (ℕ → ℕ) → ℕ → ClaimRequest → Session → ClaimResponse × Session
unfolding claim_reservations claim_notices
claim uuid now req s =
    let (taken, rows) = claim_reservations uuid now req s.reservations in
    let (notified, rows') = claim_notices uuid now req (length taken) rows in
    let s' = record s { reservations = rows' } in
    (
      record {
        items = map (reservation_to_schema s') taken;
        has_owned = any (is_owned req.delivery_bot_id req.date_str) rows';
        waiting_notices = map (notice_item s') notified;
      },
      s',
    )

-- GET /owned
unfoldable owned : ℕ → ℕ → Session → Bool
owned bot date s = any (is_owned bot date) s.reservations
