-- ===== src/Reservation/Prepared.antt =====
-- `prepare_reservation` of services/reservations.py as a whole keeps the session sound.
use mathlib.Core.List.{append-nil}
use rollpig_cloud.Base.{
  ℕ, ◌+◌, ◌≡◌, refl, ap, ◌∙◌, inl, inr, true, false, not, ◌&&◌, ◌||◌, Option, none, some, List, [],
  ◌∷◌, ◌++◌, ◌==◌, is_some, find, select, any, length, arith, Bool-cases, All, All-update_to,
  All-append, All-none, All-map, select-append, length-append, ==_iff,
}
use rollpig_cloud.Protection.{GroupProtection}
use rollpig_cloud.Usage.{ConsumeRoastResponse, consume_force_usage, consume_roast_usage, UserUsage}
use rollpig_cloud.Store.{
  is_pending, is_super, is_normal, RoastReservation, Participant, Session, Env, DailyRoll,
}
use rollpig_cloud.Activity.{mark_group_active_users}
use rollpig_cloud.Progress.{find_roll, present}
use rollpig_cloud.Reservation.{
  PrepareRequest, PrepareResponse, gathers, is_member, has_id, participants_of, save,
}
use rollpig_cloud.Reservation.Join.{new_member}
use rollpig_cloud.Reservation.Create.{
  new_reservation, start_on_roll, with_reservation, open_reservation, create, dispatch,
  locate_protection, prepare_reservation, meets, blocks, is_unexpected, target_is_open, proceed,
}
use rollpig_cloud.Reservation.Fire.{is_fired, IsFiredIn, activate_reservation-starts}
use rollpig_cloud.Reservation.Sound.{IsSound, mark-tables, found-fired, join-IsSound}

-- What a call leaves, unless it is rolled back.
abbrev pub Leaves {ℓ} : (Session → Type ℓ) → Option (PrepareResponse × Session) → Type ℓ
Leaves P none = Unit
Leaves P (some (response, s)) = P s

module _ (req : PrepareRequest) (id contribution : ℕ) (rows : List Participant) where
  -- The first member joins no other reservation.
  new_member-members :
      (other : ℕ)
      → ((other == id) ≡ false
          → select (is_member other) (rows ++ new_member id req contribution ∷ [])
            ≡ select (is_member other) rows)
        × (length (select (is_member id) (rows ++ new_member id req contribution ∷ []))
            ≡ length (select (is_member id) rows) + 1)
  new_member-members other = (
    λ h. ground (
      arith,
      select-append (is_member other) rows (new_member id req contribution ∷ []),
      append-nil (select (is_member other) rows),
    ),
    ground (
      arith,
      select-append (is_member id) rows (new_member id req contribution ∷ []),
      length-append (select (is_member id) rows) (new_member id req contribution ∷ []),
    ),
  )

start_on_roll-fired :
    (env : Env) (s : Session) (roll : Option DailyRoll) (r : RoastReservation)
    → is_pending r.status ≡ true
    → let r' = start_on_roll env s roll r in
      (r'.reservation_id ≡ r.reservation_id)
      × (is_fired (participants_of r.reservation_id s) r' ≡ true)
start_on_roll-fired env s none r h = (refl, ground arith)
start_on_roll-fired env s (some roll) r h =
    let a =
      activate_reservation-starts roll.pig_id false (participants_of r.reservation_id s) env.now r
        h in
    (a.4.same_id, a.2)

-- A new reservation with its owner, saved as far as it has been started.
added-IsSound :
    (env : Env) (req : PrepareRequest) (r : RoastReservation) (contribution : ℕ)
    (roll : Option DailyRoll) (s : Session)
    → is_pending r.status ≡ true
    → participants_of r.reservation_id s ≡ []
    → any (has_id r.reservation_id) s.reservations ≡ false
    → IsSound s
    → let s' =
        mark_group_active_users req.date_str req.group_id
          (req.attacker_id ∷ [])
          (with_reservation req r contribution s) in
      IsSound (save (start_on_roll env s' roll r) s')
added-IsSound env req r contribution roll s waits fresh unused sound =
    let id = r.reservation_id in
    let s₁ = with_reservation req r contribution s in
    let s₂ = mark_group_active_users req.date_str req.group_id (req.attacker_id ∷ []) s₁ in
    let marked = mark-tables req.date_str req.group_id (req.attacker_id ∷ []) s₁ in
    let started = start_on_roll-fired env s₂ roll r waits in
    let r' = start_on_roll env s₂ roll r in
    let others = new_member-members req id contribution s.participants in
    let Waits : RoastReservation → Type 0 = λ x. has_id id x ≡ false → IsFiredIn s₂ x in
    let old : All Waits s.reservations =
      All-map (λ x. IsFiredIn s x × (has_id id x ≡ false)) Waits s.reservations
        (λ x p e. rw (marked.0, (others x.reservation_id).0 e) p.0)
        (All-none (IsFiredIn s) (has_id id) s.reservations unused sound.fired) in
    let all : All Waits (s.reservations ++ r ∷ []) =
      All-append Waits s.reservations (r ∷ []) old ((λ e. ground (arith, e)), tt) in
    record {
      fired = rw marked.1 (
          All-update_to Waits (IsFiredIn s₂) (has_id r'.reservation_id) (λ _. r')
            (s.reservations ++ r ∷ []) (λ x h p. rw started.0 started.1)
            (λ x h p. p (rw started.0 at h)) all);
      within = λ other. rw marked.0 (elim (Bool-cases (other == id)) [
        | inl e ↦ rw ((==_iff other id).0 e, (others id).1, fresh) (omega arith)
        | inr e ↦ rw ((others other).0 e) (sound.within other)
      ]);
    }

open_reservation-IsSound :
    (env : Env) (req : PrepareRequest) (protection : Option GroupProtection)
    (roll : Option DailyRoll) (cooldown : Option ConsumeRoastResponse) (s : Session)
    → participants_of env.uuid s ≡ []
    → IsSound s
    → Leaves IsSound (open_reservation env req protection roll cooldown s)
unfolding open_reservation
open_reservation-IsSound env req protection roll cooldown s fresh sound =
    elim (Bool-cases (any (blocks req) s.reservations || any (has_id env.uuid) s.reservations)) [
      | inl clash ↦ rw (clash, open_reservation) tt
      | inr free ↦
          rw (free, open_reservation)
            (added-IsSound env req (new_reservation env req protection) _ roll s refl fresh
              (ground (arith, free)) sound)
    ]

-- The members and reservations are all that soundness looks at.
IsSound-usages :
    (s : Session) (usages : List UserUsage) → IsSound s → IsSound (record s { usages = usages })
IsSound-usages s usages sound = record { fired = sound.fired; within = sound.within }

pub IsSound-tables :
    (s s' : Session)
    → s'.participants ≡ s.participants
    → s'.reservations ≡ s.reservations
    → IsSound s
    → IsSound s'
IsSound-tables s s' members rows sound = record {
  fired = rw (rows, members) sound.fired;
  within = λ id. rw members (sound.within id);
}

create-IsSound :
    (env : Env) (req : PrepareRequest) (protection : Option GroupProtection)
    (roll : Option DailyRoll) (clock : ℕ) (s : Session)
    → participants_of env.uuid s ≡ []
    → IsSound s
    → Leaves IsSound (create env req protection roll clock s)
unfolding create
create-IsSound env req protection roll clock s fresh sound =
    let forced = (consume_force_usage req.attacker_id req.date_str s.usages).1 in
    let charged =
      consume_roast_usage req.attacker_id req.now_ts req.cooldown_seconds req.max_charges clock
        s.usages in
    let opened = λ (cooldown : Option ConsumeRoastResponse) (usages : List UserUsage).
      open_reservation-IsSound env req protection roll cooldown (record s { usages = usages }) fresh
        (IsSound-usages s usages sound) in
    elim (Bool-cases (is_normal req.force_mode)) [
      | inl n ↦ elim (Bool-cases (consume_force_usage req.attacker_id req.date_str s.usages).0) [
        | inl a ↦ rw (n, a, create) (opened none forced)
        | inr a ↦ rw (n, a, create) (IsSound-usages s forced sound)
      ]
      | inr n ↦ elim (Bool-cases (is_super req.force_mode)) [
        | inl p ↦
            rw (n, p, create) (open_reservation-IsSound env req protection roll none s fresh sound)
        | inr p ↦ elim (Bool-cases charged.0.allowed) [
          | inl a ↦ rw (n, p, a, create) (opened (some charged.0) charged.1)
          | inr a ↦ rw (n, p, a, create) (IsSound-usages s charged.1 sound)
        ]
      ]
    ]

dispatch-IsSound :
    (env : Env) (req : PrepareRequest) (expected : Option ℕ) (clock : ℕ)
    (protection : Option GroupProtection) (roll : Option DailyRoll)
    (found : Option RoastReservation) (s : Session)
    → participants_of env.uuid s ≡ []
    → ((r : RoastReservation) → found ≡ some r → IsFiredIn s r)
    → IsSound s
    → Leaves IsSound (dispatch env req expected clock protection roll found s)
unfolding dispatch
dispatch-IsSound env req expected clock protection roll found s fresh mine sound =
    elim (Bool-cases (is_unexpected expected roll found)) [
      | inl e ↦ rw (e, dispatch) sound
      | inr e ↦ rw (e, dispatch) (branch found roll mine)
    ]
  where
    branch :
        (o : Option RoastReservation) (t : Option DailyRoll)
        → ((r : RoastReservation) → o ≡ some r → IsFiredIn s r)
        → Leaves IsSound (proceed env req clock protection t o s)
    branch (some r) t m = join-IsSound env req r t s (m r refl) sound
    branch none none m = create-IsSound env req protection none clock s fresh sound
    branch none (some t) m = elim (Bool-cases (target_is_open req protection)) [
      | inl e ↦ rw e sound
      | inr e ↦ rw e (create-IsSound env req protection (some t) clock s fresh sound)
    ]

locate_protection-tables :
    (req : PrepareRequest) (s : Session)
    → let s' = (locate_protection req s).1 in
      (s'.participants ≡ s.participants) × (s'.reservations ≡ s.reservations)
unfolding locate_protection
locate_protection-tables req s = ground arith

-- Whatever a request asks for, if it is not rolled back then afterwards no reservation has left
-- `pending` without the fire that it requires and no party has more than twelve members, given that
-- this held before and that the new id is not in use.
pub prepare_reservation-IsSound :
    (env : Env) (req : PrepareRequest) (expected : Option ℕ) (clock : ℕ) (s : Session)
    → participants_of env.uuid s ≡ []
    → IsSound s
    → Leaves IsSound (prepare_reservation env req expected clock s)
unfolding prepare_reservation
prepare_reservation-IsSound env req expected clock s fresh sound =
    let (protection, s') = locate_protection req s in
    let same = locate_protection-tables req s in
    let sound' = IsSound-tables s s' same.0 same.1 sound in
    let fresh' : participants_of env.uuid s' ≡ [] =
      ap (select (is_member env.uuid)) same.0 ∙ fresh in
    let roll = present (find_roll req.date_str req.target_id s') in
    let found = find (meets req) s'.reservations in
    elim (Bool-cases (is_some protection && not (gathers req) && not (is_super req.force_mode))) [
      | inl e ↦ rw (e, prepare_reservation) sound'
      | inr e ↦
          rw (e, prepare_reservation)
            (dispatch-IsSound env req expected clock protection roll found s' fresh'
              (λ r f. found-fired (meets req) s' r sound' f) sound')
    ]
