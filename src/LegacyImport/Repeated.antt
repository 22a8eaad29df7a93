-- ===== src/LegacyImport/Repeated.antt =====
-- The import of a user who has more than one pig.
use rollpig_cloud.Base.{
  ℕ, ◌+◌, ◌≤◌, ◌≡◌, refl, ap, ◌∙◌, inl, inr, true, false, none, List, [], ◌∷◌, ◌++◌, ◌==◌,
  if◌then◌else◌, any, repeats, select, length, arith, Bool-cases, select-append, length-append,
  count-append_one, ==_refl,
}
use rollpig_cloud.Store.{UserDrawState, Session}
use rollpig_cloud.Progress.{is_draw_state}
use rollpig_cloud.LegacyImport.{
  Pending, ensure_pig_progress, ensure_draw_state, add_collection, import_pigs, import_users,
  repeats, same_draw_state, commit, import_data, import_history, import_group_rolls,
}

-- The rows of a user.
abbrev rows_of : ℕ → List UserDrawState → ℕ
rows_of user rows = length (select (is_draw_state user) rows)

one_of :
    (user : ℕ) (rows : List UserDrawState)
    → 1 ≤ rows_of user rows
    → any (is_draw_state user) rows ≡ true
one_of user [] h = absurd (omega arith)
one_of user (r ∷ rows) h = ground (arith, one_of user rows)

same-any :
    (x : UserDrawState) (rows : List UserDrawState)
    → any (same_draw_state x) rows ≡ any (is_draw_state x.user_id) rows
same-any x [] = refl
same-any x (r ∷ rows) = ground (arith, same-any x rows)

two_of :
    (user : ℕ) (rows : List UserDrawState)
    → 2 ≤ rows_of user rows
    → repeats same_draw_state rows ≡ true
two_of user [] h = absurd (omega arith)
two_of user (r ∷ rows) h = elim (Bool-cases (r.user_id == user)) [
  | inl own ↦
      let is : r.user_id ≡ user = ground arith in
      let rest : 1 ≤ rows_of user rows = ground arith in
      let there : any (same_draw_state r) rows ≡ true =
        same-any r rows ∙ ap (λ z. any (is_draw_state z) rows) is ∙ one_of user rows rest in
      ground (arith, there)
  | inr other ↦ ground (arith, two_of user rows)
]

other-tables :
    (user pig : ℕ) (s : Session) (p : Pending)
    → (ensure_pig_progress user pig s (add_collection user pig s p)).draw_states ≡ p.draw_states
unfolding ensure_pig_progress add_collection
other-tables user pig s p = ground arith

ensure-adds :
    (user other : ℕ) (s : Session) (p : Pending)
    → rows_of other (ensure_draw_state user s p).draw_states
      ≡ rows_of other p.draw_states
        + (if any (is_draw_state user) s.draw_states then 0 else if user == other then 1 else 0)
unfolding ensure_draw_state
ensure-adds user other s p = elim (Bool-cases (any (is_draw_state user) s.draw_states)) [
  | inl old ↦ rw old (omega arith)
  | inr new ↦ rw new (
      count-append_one (is_draw_state other) p.draw_states
        (record { user_id = user; duplicate_streak = 0 }))
]

-- One pig of a user: the draw state is added if none is stored, and no row is taken away.
pig-adds :
    (user pig other : ℕ) (s : Session) (p : Pending)
    → rows_of other
        (ensure_draw_state user s
          (ensure_pig_progress user pig s (add_collection user pig s p))).draw_states
      ≡ rows_of other p.draw_states
        + (if any (is_draw_state user) s.draw_states then 0 else if user == other then 1 else 0)
pig-adds user pig other s p =
    let q = ensure_pig_progress user pig s (add_collection user pig s p) in
    let same = ap (rows_of other) (other-tables user pig s p) in
    omega (arith, ensure-adds user other s q, same)

pigs-keep :
    (user other : ℕ) (pigs : List ℕ) (s : Session) (p : Pending)
    → rows_of other p.draw_states ≤ rows_of other (import_pigs user pigs s p).draw_states
unfolding import_pigs
pigs-keep user other [] s p = omega arith
pigs-keep user other (pig ∷ pigs) s p =
    let next =
      ensure_draw_state user s (ensure_pig_progress user pig s (add_collection user pig s p)) in
    omega (arith, pig-adds user pig other s p, pigs-keep user other pigs s next)

users-keep :
    (other : ℕ) (entries : List (ℕ × List ℕ)) (s : Session) (p : Pending)
    → rows_of other p.draw_states ≤ rows_of other (import_users entries s p).draw_states
unfolding import_users
users-keep other [] s p = omega arith
users-keep other ((user, pigs) ∷ entries) s p =
    omega
      (arith, pigs-keep user other pigs s p, users-keep other entries s (import_pigs user pigs s p))

two-pigs :
    (user pig another : ℕ) (pigs : List ℕ) (s : Session) (p : Pending)
    → any (is_draw_state user) s.draw_states ≡ false
    → 2 ≤ rows_of user (import_pigs user (pig ∷ another ∷ pigs) s p).draw_states
unfolding import_pigs
two-pigs user pig another pigs s p new =
    let first =
      ensure_draw_state user s (ensure_pig_progress user pig s (add_collection user pig s p)) in
    let second =
      ensure_draw_state user s
        (ensure_pig_progress user another s (add_collection user another s first)) in
    let own : ◌≡◌ {A = ℕ}
        (if any (is_draw_state user) s.draw_states then 0 else if user == user then 1 else 0) 1 =
      rw (new, ==_refl user) refl in
    omega (
      arith,
      own,
      pig-adds user pig user s p,
      pig-adds user another user s first,
      pigs-keep user user pigs s second,
    )

in-file :
    (user pig another : ℕ) (pigs : List ℕ) (before after : List (ℕ × List ℕ)) (s : Session)
    (p : Pending)
    → any (is_draw_state user) s.draw_states ≡ false
    → 2
      ≤ rows_of user (import_users (before ++ (user, pig ∷ another ∷ pigs) ∷ after) s p).draw_states
unfolding import_users
in-file user pig another pigs [] after s p new = omega (
  arith,
  two-pigs user pig another pigs s p new,
  users-keep user after s (import_pigs user (pig ∷ another ∷ pigs) s p),
)
in-file user pig another pigs ((u, us) ∷ before) after s p new =
    in-file user pig another pigs before after s (import_pigs u us s p) new

-- Whatever rolls the file has, the import fails as soon as one user who has no stored draw state has
-- two pigs or more in the collections: two draw states of the user are pending, and the commit
-- violates their unique key. No other entry, before or after, changes that.
pub import_data-repeated :
    (history : List (ℕ × List (ℕ × ℕ))) (groups : List (ℕ × List (ℕ × List (ℕ × ℕ))))
    (user pig another : ℕ) (pigs : List ℕ) (before after : List (ℕ × List ℕ)) (s : Session)
    → any (is_draw_state user) s.draw_states ≡ false
    → import_data history groups (before ++ (user, pig ∷ another ∷ pigs) ∷ after) s ≡ none
unfolding import_data commit
import_data-repeated history groups user pig another pigs before after s new =
    let empty : Pending = record {
      rolls = [];
      group_rolls = [];
      collections = [];
      progress = [];
      draw_states = [];
    } in
    let earlier = import_group_rolls groups s (import_history history s empty) in
    let p = import_users (before ++ (user, pig ∷ another ∷ pigs) ∷ after) s earlier in
    let rows = s.draw_states ++ p.draw_states in
    let count : rows_of user rows ≡ rows_of user s.draw_states + rows_of user p.draw_states =
      ap length (select-append (is_draw_state user) s.draw_states p.draw_states)
      ∙ length-append _ _ in
    let twice : repeats same_draw_state rows ≡ true =
      two_of user rows
        (omega (arith, count, in-file user pig another pigs before after s earlier new)) in
    rw (twice, import_data, commit) refl
