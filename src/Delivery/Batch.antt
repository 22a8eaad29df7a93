-- ===== src/Delivery/Batch.antt =====
-- What one claim hands out.
use rollpig_cloud.Base.{
  ℕ, zero, suc, ◌+◌, ◌≤◌, ◌≡◌, refl, ap, ◌∙◌, inl, inr, Bool, true, false, not, ◌&&◌, List, [], ◌∷◌,
  is_value, ==_refl, min, select, map, contains, length, arith, Bool-cases, All, clamp_bounds,
}
use rollpig_cloud.Store.{RoastReservation, Session}
use rollpig_cloud.Delivery.{claim_row, is_claimable, claim_timeout}
use rollpig_cloud.Delivery.Handover.{claim_row-exclusive}
use rollpig_cloud.Delivery.Claim.{
  ClaimRequest, is_own, excluded_ids, take_rows, limit_of, declare_gathering, may_claim,
  claim_reservations, claim,
}

take_rows-length :
    {A : Type 0} (p : A → Bool) (f : ℕ → A → A) (k i : ℕ) (rows : List A)
    → length (take_rows p f k i rows).0 ≡ min k (length (select p rows))
take_rows-length p f zero i rows = omega arith
take_rows-length p f (suc k) i [] = omega arith
take_rows-length p f (suc k) i (r ∷ rows) = elim (Bool-cases (p r)) [
  | inl e ↦ rw e (omega (arith, take_rows-length p f k (suc i) rows))
  | inr e ↦ rw e (take_rows-length p f (suc k) i rows)
]

length-map : {A B : Type 0} (f : A → B) (xs : List A) → length (map f xs) ≡ length xs
length-map f [] = refl
length-map f (x ∷ xs) = ap suc (length-map f xs)

-- A claim hands out as many reservations as it may, at least one and at most twelve of them: the
-- limit or the number of the rows that pass its conditions, whichever is less.
claim-length :
    (uuid : ℕ → ℕ) (now : ℕ) (req : ClaimRequest) (s : Session)
    → (length (claim uuid now req s).0.items
        ≡ min
            (limit_of req)
            (length (select (may_claim req now) (declare_gathering req s.reservations))))
      × (1 ≤ limit_of req)
      × (limit_of req ≤ 12)
unfolding claim claim_reservations
claim-length uuid now req s =
    let b = clamp_bounds 1 12 req.limit (omega arith) in
    let n =
      take_rows-length (may_claim req now) (λ i r. claim_row req.supports_prepared (uuid i) now r)
        (limit_of req) 0 (declare_gathering req s.reservations) in
    (length-map _ _ ∙ n, b.0, b.1)

-- Rows that are taken satisfy what is shown of each row that passes the test.
take_rows-All :
    (p : RoastReservation → Bool) (f : ℕ → RoastReservation → RoastReservation)
    (Q : RoastReservation → Type 0) (k i : ℕ) (rows : List RoastReservation)
    → ((j : ℕ) (r : RoastReservation) → p r ≡ true → Q (f j r))
    → All Q (take_rows p f k i rows).0
take_rows-All p f Q zero i rows h = tt
take_rows-All p f Q (suc k) i [] h = tt
take_rows-All p f Q (suc k) i (r ∷ rows) h = elim (Bool-cases (p r)) [
  | inl e ↦ rw e (h i r e, take_rows-All p f Q k (suc i) rows h)
  | inr e ↦ rw e (take_rows-All p f Q (suc k) i rows h)
]

-- What a claim promises of each reservation: it is the bot's own, of the day, not one that the
-- bot asked to leave out, and not claimable by another request while the claim lasts.
abbrev pub is_handed_out : ClaimRequest → ℕ → RoastReservation → Bool
is_handed_out req now r =
    is_own req.delivery_bot_id req.date_str r
    && not (contains r.reservation_id (excluded_ids req))
    && is_value r.claimed_at now
    && not (is_claimable (now + claim_timeout) r)

parts : (a b c d : Bool) → (a && b && not c && d) ≡ true → (a ≡ true) × (not c ≡ true)
parts a b c d h = ground arith

four : (a b c d : Bool) → a ≡ true → b ≡ true → c ≡ true → d ≡ false → (a && b && c && not d) ≡ true
four a b c d h i j k = ground arith

handed_out :
    (req : ClaimRequest) (now token : ℕ) (r : RoastReservation)
    → may_claim req now r ≡ true
    → is_handed_out req now (claim_row req.supports_prepared token now r) ≡ true
unfolding may_claim claim_row
handed_out req now token r h =
    let p = parts _ (is_claimable now r) (contains r.reservation_id (excluded_ids req)) _ h in
    four _ _ _ _ p.0 p.1 (==_refl now)
      (claim_row-exclusive req.supports_prepared token now (now + claim_timeout) r (omega arith))

-- Each reservation that a claim takes is of the bot and the day of the request, is not one of the
-- ids that the request excludes, is marked with the time of the claim, and is still not claimable
-- five minutes later.
pub claim_reservations-handed_out :
    (uuid : ℕ → ℕ) (now : ℕ) (req : ClaimRequest) (rows : List RoastReservation)
    → All (λ r. is_handed_out req now r ≡ true) (claim_reservations uuid now req rows).0
unfolding claim_reservations
claim_reservations-handed_out uuid now req rows =
    take_rows-All (may_claim req now) (λ i r. claim_row req.supports_prepared (uuid i) now r)
      (λ r. is_handed_out req now r ≡ true) (limit_of req) 0 (declare_gathering req rows)
      (λ j r e. handed_out req now (uuid j) r e)
