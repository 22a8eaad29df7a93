-- ===== src/Reservation/Collision.antt =====
-- A request that meets no reservation and still cannot create one.
use rollpig_cloud.Base.{
  ℕ, ◌≤◌, ◌≡◌, refl, ap, ◌∙◌, inl, inr, true, false, Option, none, some, List, [], ◌∷◌, is_some,
  find, any, count, any-is_some, arith, Bool-cases,
}
use rollpig_cloud.Usage.{consume_roast_usage}
use rollpig_cloud.Protection.{GroupProtection}
use rollpig_cloud.Store.{is_super, is_normal, is_pending, RoastReservation, DailyRoll, Session, Env}
use rollpig_cloud.Progress.{find_roll, present}
use rollpig_cloud.Reservation.{PrepareRequest, gathers, is_protected_row}
use rollpig_cloud.Reservation.Create.{
  meets, blocks, locate_protection, open_reservation, create, proceed, dispatch,
  prepare_reservation, target_is_open,
}
use rollpig_cloud.Reservation.Reconcile.{commit, after_commit, prepare}

open_reservation-blocked :
    (env : Env) (req : PrepareRequest) (protection : Option GroupProtection)
    (target_roll : Option DailyRoll) (s : Session)
    → any (blocks req) s.reservations ≡ true
    → (cooldown : _) → open_reservation env req protection target_roll cooldown s ≡ none
unfolding open_reservation
open_reservation-blocked env req protection target_roll s h cooldown = rw h refl

create-blocked :
    (env : Env) (req : PrepareRequest) (protection : Option GroupProtection)
    (target_roll : Option DailyRoll) (clock : ℕ) (s : Session)
    → any (blocks req) s.reservations ≡ true
    → is_super req.force_mode ≡ false
    → is_normal req.force_mode ≡ false
    → (consume_roast_usage req.attacker_id req.now_ts req.cooldown_seconds req.max_charges clock
        s.usages).0.allowed
      ≡ true
    → create env req protection target_roll clock s ≡ none
unfolding create
create-blocked env req protection target_roll clock s h super normal allowed =
    rw (normal, super, allowed) (open_reservation-blocked env req protection target_roll _ h _)

locate_protection-own :
    (req : PrepareRequest) (s : Session) (row : GroupProtection)
    → find (is_protected_row req.date_str req.group_id req.target_id) s.protections ≡ some row
    → locate_protection req s ≡ (some row, s)
unfolding locate_protection
locate_protection-own req s row p = rw (p, locate_protection) refl

dispatch-blocked :
    (env : Env) (req : PrepareRequest) (clock : ℕ) (row : GroupProtection) (roll : Option DailyRoll)
    (found : Option RoastReservation) (s : Session)
    → found ≡ none
    → any (blocks req) s.reservations ≡ true
    → is_super req.force_mode ≡ false
    → is_normal req.force_mode ≡ false
    → (consume_roast_usage req.attacker_id req.now_ts req.cooldown_seconds req.max_charges clock
        s.usages).0.allowed
      ≡ true
    → dispatch env req none clock (some row) roll found s ≡ none
unfolding dispatch proceed
dispatch-blocked env req clock row none found s free h super normal allowed =
    rw free (create-blocked env req (some row) none clock s h super normal allowed)
dispatch-blocked env req clock row (some roll) found s free h super normal allowed =
    let shut : target_is_open req (some row) ≡ false = rw super refl in
    rw (free, shut) (create-blocked env req (some row) (some roll) clock s h super normal allowed)

blocks-meets :
    (req : PrepareRequest) (rows : List RoastReservation)
    → count (blocks req) rows ≡ 0
    → find (meets req) rows ≡ none
blocks-meets req [] h = refl
blocks-meets req (x ∷ rows) h = ground (arith, blocks-meets req rows)

-- The row that holds the key is not met if it has left `pending` without a protection.
left-meets :
    (req : PrepareRequest) (rows : List RoastReservation) (r : RoastReservation)
    → find (blocks req) rows ≡ some r
    → count (blocks req) rows ≤ 1
    → is_pending r.status ≡ false
    → r.protection_required ≡ 0
    → is_super req.force_mode ≡ false
    → find (meets req) rows ≡ none
left-meets req [] r e one left bare super = refl
left-meets req (x ∷ rows) r e one left bare super = elim (Bool-cases (blocks req x)) [
  | inl hit ↦
      let is : x ≡ r = ground (arith, hit, e) in
      let rest : find (meets req) rows ≡ none = blocks-meets req rows (ground (arith, hit, one)) in
      let left' : is_pending x.status ≡ false = ap (λ z. is_pending z.status) is ∙ left in
      let bare' : x.protection_required ≡ 0 = ap (λ z. z.protection_required) is ∙ bare in
      let missed : meets req x ≡ false = ground (arith, left', bare', super) in rw missed rest
  | inr miss ↦
      let missed : meets req x ≡ false = ground (arith, miss) in
      rw missed (
        left-meets req rows r (ground (arith, miss, e)) (ground (arith, miss, one)) left bare super)
]

-- A target is protected by a row of its own group, and its reservation, the one row with the key of
-- the target's active slot, has left `pending` without a protection. A further request without a
-- force mode, whose client supports the gathering of version 2 and whose attacker may roast, is
-- then answered with an internal error, whether the target has come or not: the code does not find
-- the reservation, and the row that it inserts violates the unique key on both attempts.
pub prepare-collides :
    (env : Env) (req : PrepareRequest) (clock : ℕ) (s : Session) (row : GroupProtection)
    (r : RoastReservation)
    → find (is_protected_row req.date_str req.group_id req.target_id) s.protections ≡ some row
    → gathers req ≡ true
    → is_super req.force_mode ≡ false
    → is_normal req.force_mode ≡ false
    → (consume_roast_usage req.attacker_id req.now_ts req.cooldown_seconds req.max_charges clock
        s.usages).0.allowed
      ≡ true
    → find (blocks req) s.reservations ≡ some r
    → count (blocks req) s.reservations ≤ 1
    → is_pending r.status ≡ false
    → r.protection_required ≡ 0
    → prepare env req clock s ≡ none
unfolding prepare prepare_reservation
prepare-collides env req clock s row r p g super normal allowed held one left bare =
    let free = left-meets req s.reservations r held one left bare super in
    let h : any (blocks req) s.reservations ≡ true =
      any-is_some (blocks req) s.reservations ∙ ap is_some held in
    let e : prepare_reservation env req none clock s ≡ none =
      rw (locate_protection-own req s row p, g)
        (dispatch-blocked env req clock row (present (find_roll req.date_str req.target_id s))
          (find (meets req) s.reservations) s free h super normal allowed) in
    ap (λ o. commit o (after_commit env req)) e
