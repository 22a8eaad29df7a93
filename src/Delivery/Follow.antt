-- ===== src/Delivery/Follow.antt =====
-- What a request does to the rows, each looked up by its id before and after.
use rollpig_cloud.Base.{
  ℕ, zero, suc, ◌≡◌, refl, ap, ◌∙◌, sym, inl, inr, Bool, true, false, Option, none, some, List, [],
  ◌∷◌, ◌==◌, find, update, arith, Bool-cases, Option-cases, find-passes, find-update,
  find-update_other,
}
use rollpig_cloud.Store.{RoastReservation, Session}
use rollpig_cloud.Reservation.{has_id, save}
use rollpig_cloud.Delivery.{locked, commit_row, change}
use rollpig_cloud.Delivery.Claim.{take_rows}
use rollpig_cloud.Delivery.Lifecycle.{Moves, Runs, done, step}

-- A row that is looked up before and after a request: absent both times, or moved.
pub data Follows : Option RoastReservation → Option RoastReservation → Type 0 where
  absent : Follows none none
  moved : (r r' : RoastReservation) → Runs r r' → Follows (some r) (some r')

pub stays : (o : Option RoastReservation) → Follows o o
stays none = absent
stays (some r) = moved r r (done r)

pub one_move : (r r' : RoastReservation) → Moves r r' → Runs r r'
one_move r r' move = step r r' r' move (done r')

Runs-trans : (a b c : RoastReservation) → Runs a b → Runs b c → Runs a c
Runs-trans a _ c (done _) run = run
Runs-trans a _ c (step _ a' b move rest) run = step a a' c move (Runs-trans a' b c rest run)

pub Follows-trans : (a b c : Option RoastReservation) → Follows a b → Follows b c → Follows a c
Follows-trans none b c absent q = q
Follows-trans (some a) b none (moved _ a' p) q = elim q [ ]
Follows-trans (some a) b (some c) (moved _ a' p) (moved _ _ q) = moved a c (Runs-trans a a' c p q)

-- The session's rows after a request, each looked up by its id.
abbrev pub IsServed : Session → Session → Type 0
IsServed s s' = (id : ℕ) → Follows (locked id s) (locked id s')

-- A moved row that is written over the row with its id.
replace-Follows :
    (rows : List RoastReservation) (id k : ℕ) (r r' : RoastReservation)
    → find (has_id id) rows ≡ some r
    → r'.reservation_id ≡ r.reservation_id
    → Runs r r'
    → Follows
        (find (has_id k) rows)
        (find (has_id k) (update (has_id r'.reservation_id) (λ _. r') rows))
replace-Follows rows id k r r' e keep run =
    let rid : r.reservation_id ≡ id = ground (arith, find-passes (has_id id) rows r e) in
    elim (Bool-cases (r.reservation_id == k)) [
      | inl hit ↦
          let w : id ≡ k = ground (arith, rid, hit) in
          let w' : r'.reservation_id ≡ k = ground (arith, rid, w, keep) in
          let e' : find (has_id k) rows ≡ some r = rw (sym w) e in
          let u : find (has_id k) (update (has_id k) (λ _. r') rows) ≡ some r' =
            find-update (has_id k) (λ _. r') rows r (λ x p. ground (arith, w')) e' in
          let v : find (has_id k) (update (has_id r'.reservation_id) (λ _. r') rows) ≡ some r' =
            ap (λ z. find (has_id k) (update (has_id z) (λ _. r') rows)) w' ∙ u in
          rw (e', v) (moved r r' run)
      | inr miss ↦
          let v : find (has_id k) (update (has_id r'.reservation_id) (λ _. r') rows)
              ≡ find (has_id k) rows =
            find-update_other (has_id r'.reservation_id) (has_id k) (λ _. r') rows
              (λ x p. (ground (arith, p, keep, miss), ground (arith, p, keep, miss))) in
          rw v (stays (find (has_id k) rows))
    ]

-- A handler that writes a moved row back.
pub save-IsServed :
    (s s₁ : Session) (id : ℕ) (r r' : RoastReservation)
    → s₁.reservations ≡ s.reservations
    → locked id s ≡ some r
    → r'.reservation_id ≡ r.reservation_id
    → Runs r r'
    → IsServed s (save r' s₁)
save-IsServed s s₁ id r r' same e keep run k =
    rw same (replace-Follows s.reservations id k r r' e keep run)

-- The handlers that change one row and answer.
pub commit_row-IsServed :
    (s : Session) (id : ℕ) (f : RoastReservation → Option RoastReservation)
    → ((r r' : RoastReservation)
        → f r ≡ some r'
        → (r'.reservation_id ≡ r.reservation_id) × Moves r r')
    → IsServed s (commit_row s (change f (locked id s))).1
commit_row-IsServed s id f h = elim (Option-cases (locked id s)) [
  | inl e ↦ rw e (λ k. stays (locked k s))
  | inr (r, e) ↦ rw e (elim (Option-cases (f r)) [
    | inl e' ↦ rw e' (λ k. stays (locked k s))
    | inr (r', e') ↦
        rw e' (save-IsServed s s id r r' refl e (h r r' e').0 (one_move r r' (h r r' e').1))
  ])
]

head-Follows :
    (id : ℕ) (r r' : RoastReservation) (rows rows' : List RoastReservation)
    → r'.reservation_id ≡ r.reservation_id
    → Runs r r'
    → Follows (find (has_id id) rows) (find (has_id id) rows')
    → Follows (find (has_id id) (r ∷ rows)) (find (has_id id) (r' ∷ rows'))
head-Follows id r r' rows rows' keep run rest = elim (Bool-cases (r.reservation_id == id)) [
  | inl e ↦
      let e' : (r'.reservation_id == id) ≡ true = ground (arith, keep, e) in
      rw (e, e') (moved r r' run)
  | inr e ↦ let e' : (r'.reservation_id == id) ≡ false = ground (arith, keep, e) in rw (e, e') rest
]

-- Rows that are changed in place, each by moves that keep its id.
pub take_rows-Follows :
    (p : RoastReservation → Bool) (f : ℕ → RoastReservation → RoastReservation) (k i id : ℕ)
    (rows : List RoastReservation)
    → ((j : ℕ) (r : RoastReservation)
        → p r ≡ true
        → ((f j r).reservation_id ≡ r.reservation_id) × Moves r (f j r))
    → Follows (find (has_id id) rows) (find (has_id id) (take_rows p f k i rows).1)
take_rows-Follows p f zero i id rows h = stays (find (has_id id) rows)
take_rows-Follows p f (suc k) i id [] h = absent
take_rows-Follows p f (suc k) i id (r ∷ rows) h = elim (Bool-cases (p r)) [
  | inl e ↦ rw e (
      head-Follows id r (f i r) rows (take_rows p f k (suc i) rows).1 (h i r e).0
        (one_move r (f i r) (h i r e).1) (take_rows-Follows p f k (suc i) id rows h))
  | inr e ↦ rw e (
      head-Follows id r r rows (take_rows p f (suc k) i rows).1 refl (done r)
        (take_rows-Follows p f (suc k) i id rows h))
]

pub update-Follows :
    (p : RoastReservation → Bool) (f : RoastReservation → RoastReservation) (id : ℕ)
    (rows : List RoastReservation)
    → ((r : RoastReservation) → ((f r).reservation_id ≡ r.reservation_id) × Moves r (f r))
    → Follows (find (has_id id) rows) (find (has_id id) (update p f rows))
update-Follows p f id [] h = absent
update-Follows p f id (r ∷ rows) h = elim (Bool-cases (p r)) [
  | inl e ↦ rw e (
      head-Follows id r (f r) rows (update p f rows) (h r).0 (one_move r (f r) (h r).1)
        (update-Follows p f id rows h))
  | inr e ↦
      rw e (head-Follows id r r rows (update p f rows) refl (done r) (update-Follows p f id rows h))
]
