-- ===== src/Delivery/Claimed.antt =====
-- `claim` makes only the moves of the lifecycle.
use rollpig_cloud.Base.{ℕ, ◌≡◌, refl, inl, inr, true, ◌&&◌, List, find, length, arith, Bool-cases}
use rollpig_cloud.Store.{RoastReservation, Session}
use rollpig_cloud.Reservation.{has_id}
use rollpig_cloud.Delivery.{claim_row}
use rollpig_cloud.Delivery.Claim.{
  ClaimRequest, can_gather, limit_of, declare_gathering, may_claim, notifies, notify_row,
  claim_reservations, claim_notices, claim,
}
use rollpig_cloud.Delivery.Lifecycle.{Moves, amends}
use rollpig_cloud.Delivery.Follow.{
  Follows, IsServed, stays, Follows-trans, take_rows-Follows, update-Follows,
}

declare_gathering-Follows :
    (req : ClaimRequest) (id : ℕ) (rows : List RoastReservation)
    → Follows (find (has_id id) rows) (find (has_id id) (declare_gathering req rows))
unfolding declare_gathering
declare_gathering-Follows req id rows = elim (Bool-cases (can_gather req)) [
  | inl e ↦ rw e (update-Follows _ _ id rows (λ r. (refl, amends _ _ refl refl refl refl refl)))
  | inr e ↦ rw e (stays (find (has_id id) rows))
]

claim_row-claims :
    (req : ClaimRequest) (now token : ℕ) (r : RoastReservation)
    → may_claim req now r ≡ true
    → ((claim_row req.supports_prepared token now r).reservation_id ≡ r.reservation_id)
      × Moves r (claim_row req.supports_prepared token now r)
unfolding may_claim claim_row
claim_row-claims req now token r e =
    (refl, Moves.claims req.supports_prepared token now r (ground arith))

notify_row-amends :
    (token now : ℕ) (r : RoastReservation)
    → ((notify_row token now r).reservation_id ≡ r.reservation_id)
      × Moves r (notify_row token now r)
unfolding notify_row
notify_row-amends token now r = (refl, amends _ _ refl refl refl refl refl)

claim_reservations-Follows :
    (uuid : ℕ → ℕ) (now id : ℕ) (req : ClaimRequest) (rows : List RoastReservation)
    → Follows (find (has_id id) rows) (find (has_id id) (claim_reservations uuid now req rows).1)
unfolding claim_reservations
claim_reservations-Follows uuid now id req rows =
    Follows-trans _ (find (has_id id) (declare_gathering req rows)) _
      (declare_gathering-Follows req id rows)
      (take_rows-Follows (may_claim req now) (λ i r. claim_row req.supports_prepared (uuid i) now r)
        (limit_of req) 0 id (declare_gathering req rows)
        (λ j r e. claim_row-claims req now (uuid j) r e))

claim_notices-Follows :
    (uuid : ℕ → ℕ) (now id start : ℕ) (req : ClaimRequest) (rows : List RoastReservation)
    → Follows (find (has_id id) rows) (find (has_id id) (claim_notices uuid now req start rows).1)
unfolding claim_notices
claim_notices-Follows uuid now id start req rows =
    elim (Bool-cases (req.supports_waiting_notice && can_gather req)) [
      | inl e ↦ rw e (
          take_rows-Follows (notifies req now) (λ i r. notify_row (uuid i) now r) (limit_of req)
            start id rows (λ j r p. notify_row-amends (uuid j) now r))
      | inr e ↦ rw e (stays (find (has_id id) rows))
    ]

pub claim-IsServed :
    (uuid : ℕ → ℕ) (now : ℕ) (req : ClaimRequest) (s : Session)
    → IsServed s (claim uuid now req s).1
unfolding claim
claim-IsServed uuid now req s k =
    let taken = claim_reservations uuid now req s.reservations in
    Follows-trans _ (find (has_id k) taken.1) _
      (claim_reservations-Follows uuid now k req s.reservations)
      (claim_notices-Follows uuid now k (length taken.0) req taken.1)
