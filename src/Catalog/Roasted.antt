-- ===== src/Catalog/Roasted.antt =====
-- The catalog's count of roasts, whose query reads only the events that the user had a part in.
use rollpig_cloud.Base.{
  ℕ, suc, ◌≤◌, ◌≡◌, refl, ap, ◌∙◌, inl, inr, Bool, false, not, ◌&&◌, List, [], ◌∷◌, ◌==◌, is_set,
  contains, select, map, arith, Bool-cases,
}
use rollpig_cloud.Store.{RoastEvent, Session}
use rollpig_cloud.Stats.{distinct, backfire_victims, victims_of, count_roasted_users}
use rollpig_cloud.Stats.Partial.{Rising, count_roasted_users-select}
use rollpig_cloud.Catalog.{numbered, to_stat, is_involved, is_recent, roasted_7d}

select-absent :
    (user : ℕ) (p : ℕ → Bool) (xs : List ℕ)
    → contains user xs ≡ false
    → contains user (select p xs) ≡ false
select-absent user p [] h = refl
select-absent user p (x ∷ xs) h = ground (arith, select-absent user p xs)

distinct-absent :
    (user : ℕ) (xs : List ℕ) → contains user xs ≡ false → contains user (distinct xs) ≡ false
distinct-absent user [] h = refl
distinct-absent user (x ∷ xs) h =
    let rest : contains user (distinct xs) ≡ false = distinct-absent user xs (ground arith) in
    let kept = select-absent user (λ y. not (x == y)) (distinct xs) rest in ground (arith, kept)

victims-absent :
    (user n : ℕ) (row : RoastEvent)
    → is_involved user row ≡ false
    → contains user (backfire_victims (to_stat (n, row))) ≡ false
unfolding is_involved to_stat
victims-absent user n row h = ground arith

not_target :
    (user : ℕ) (row : RoastEvent) → is_involved user row ≡ false → (user == row.target_id) ≡ false
unfolding is_involved
not_target user row h = ground arith

not_involved :
    (user : ℕ) (e : ℕ × RoastEvent)
    → is_involved user e.1 ≡ false
    → contains user (victims_of (to_stat e)) ≡ false
unfolding victims_of to_stat
not_involved user (n, row) h =
    let absent = victims-absent user n row h in
    let all = distinct-absent user _ (select-absent user is_set _ absent) in
    let target : (user == row.target_id) ≡ false = not_target user row h in
    ground (arith, target, all)

select-select :
    (today user : ℕ) (es : List (ℕ × RoastEvent))
    → select (λ e. is_recent today e.1 && is_involved user e.1) es
      ≡ select (λ e. is_involved user e.1) (select (λ e. is_recent today e.1) es)
select-select today user [] = refl
select-select today user (e ∷ es) = ground (arith, select-select today user es)

-- The ids of the rows, from the first one on, after any selection.
numbered-Rising :
    (today user n m : ℕ) (rows : List RoastEvent)
    → n ≤ m
    → Rising to_stat n (select (λ e. is_recent today e.1) (numbered m rows))
unfolding to_stat
numbered-Rising today user n m [] h = tt
numbered-Rising today user n m (r ∷ rows) h = elim (Bool-cases (is_recent today r)) [
  | inl e ↦ rw e (h, numbered-Rising today user (suc m) (suc m) rows (omega arith))
  | inr e ↦ rw e (numbered-Rising today user n (suc m) rows (omega arith))
]

-- The query of the catalog loses nothing: it reads only the events that the user had a part in, and
-- the count of the user is the same as over all the events of the seven days.
pub roasted_7d_complete :
    (today user : ℕ) (s : Session)
    → roasted_7d today user s
      ≡ count_roasted_users
          (map to_stat (select (λ e. is_recent today e.1) (numbered 1 s.events)))
          user
unfolding roasted_7d
roasted_7d_complete today user s =
    ap (λ es. count_roasted_users (map to_stat es) user)
      (select-select today user (numbered 1 s.events))
    ∙ count_roasted_users-select to_stat (λ e. is_involved user e.1) user (λ e. not_involved user e)
        1 _ (omega arith) (numbered-Rising today user 1 1 s.events (omega arith))
