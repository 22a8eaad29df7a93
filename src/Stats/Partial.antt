-- ===== src/Stats/Partial.antt =====
-- The count of one user does not depend on the events in which that user is no victim.
use mathlib.Core.Path.{subst}
use rollpig_cloud.Base.{
  ℕ, suc, ◌<◌, ◌≤◌, ◌≡◌, refl, sym, ap, ◌∙◌, inl, inr, Bool, true, false, List, [], ◌∷◌, ◌==◌, any,
  contains, select, map, is_set, arith, Bool-cases, All,
}
use rollpig_cloud.Stats.{
  StatEvent, Tally, special_eq, special_key, is_special, kind_of, victims_of, count_victim,
  count_each, is_event, count_event, count_all, occurrences, empty_tally, count_roasted_users,
}
use rollpig_cloud.Stats.Counted.{count_each-events}

-- Two tallies say the same of the user.
record Agree (user : ℕ) (t t' : Tally) : Type 0 where
  pub counted : occurrences user t.counts ≡ occurrences user t'.counts
  pub special :
      (e : StatEvent)
      → any (special_eq (special_key e user)) t.special_seen
        ≡ any (special_eq (special_key e user)) t'.special_seen

-- A victim who is not the user.
count_victim-other :
    (user victim : ℕ) (e : StatEvent) (t t' : Tally)
    → (user == victim) ≡ false
    → Agree user t t'
    → Agree user (count_victim e victim t) t'
unfolding count_victim
count_victim-other user victim e t t' other a = elim (Bool-cases (is_special (kind_of e))) [
  | inr plain ↦ rw plain (record { counted = ground (arith, a.counted); special = a.special })
  | inl odd ↦ elim (Bool-cases (any (special_eq (special_key e victim)) t.special_seen)) [
    | inl seen ↦ rw (odd, seen) a
    | inr new ↦
        rw (odd, new)
          (record {
            counted = ground (arith, a.counted);
            special = λ f. ground (arith, a.special f);
          })
  ]
]

Agree-sym : (user : ℕ) (t t' : Tally) → Agree user t t' → Agree user t' t
Agree-sym user t t' a = record { counted = sym a.counted; special = λ e. sym (a.special e) }

-- The user as a victim.
count_victim-own :
    (user : ℕ) (e : StatEvent) (t t' : Tally)
    → Agree user t t'
    → Agree user (count_victim e user t) (count_victim e user t')
unfolding count_victim
count_victim-own user e t t' a = elim (Bool-cases (is_special (kind_of e))) [
  | inr plain ↦ rw plain (record { counted = ground (arith, a.counted); special = a.special })
  | inl odd ↦ elim (Bool-cases (any (special_eq (special_key e user)) t.special_seen)) [
    | inl seen ↦
        let seen' : any (special_eq (special_key e user)) t'.special_seen ≡ true =
          sym (a.special e) ∙ seen in
        rw (odd, seen, seen') a
    | inr new ↦
        let new' : any (special_eq (special_key e user)) t'.special_seen ≡ false =
          sym (a.special e) ∙ new in
        rw (odd, new, new')
          (record {
            counted = ground (arith, a.counted);
            special = λ f. ground (arith, a.special f);
          })
  ]
]

count_victim-Agree :
    (user victim : ℕ) (e : StatEvent) (t t' : Tally)
    → Agree user t t'
    → Agree user (count_victim e victim t) (count_victim e victim t')
count_victim-Agree user victim e t t' a = elim (Bool-cases (user == victim)) [
  | inl same ↦ let is : victim ≡ user = ground arith in rw is (count_victim-own user e t t' a)
  | inr other ↦ Agree-sym user _ _ (
      count_victim-other user victim e t' (count_victim e victim t) other
        (Agree-sym user _ _ (count_victim-other user victim e t t' other a)))
]

count_each-Agree :
    (user : ℕ) (e : StatEvent) (victims : List ℕ) (t t' : Tally)
    → Agree user t t'
    → Agree user (count_each e victims t) (count_each e victims t')
count_each-Agree user e [] t t' a = a
count_each-Agree user e (v ∷ victims) t t' a =
    count_each-Agree user e victims _ _ (count_victim-Agree user v e t t' a)

count_each-other :
    (user : ℕ) (e : StatEvent) (victims : List ℕ) (t t' : Tally)
    → contains user victims ≡ false
    → Agree user t t'
    → Agree user (count_each e victims t) t'
count_each-other user e [] t t' other a = a
count_each-other user e (v ∷ victims) t t' other a =
    count_each-other user e victims _ t' (ground arith)
      (count_victim-other user v e t t' (ground arith) a)

-- All the events that were seen have smaller ids.
abbrev Before : ℕ → Tally → Type 0
Before n t = All (λ k. k.1 < n) t.event_seen

unseen :
    (n : ℕ) (e : StatEvent) (keys : List (ℕ × ℕ))
    → n ≤ e.event_id
    → All (λ k. k.1 < n) keys
    → any (is_event e) keys ≡ false
unseen n e [] h all = refl
unseen n e (k ∷ keys) h all = ground (arith, unseen n e keys h all.1)

later : (n m : ℕ) (keys : List (ℕ × ℕ)) → n ≤ m → All (λ k. k.1 < n) keys → All (λ k. k.1 < m) keys
later n m [] h all = tt
later n m (k ∷ keys) h all = (omega (arith, all.0), later n m keys h all.1)

abbrev marked : StatEvent → Tally → Tally
marked e t = record t { event_seen = (e.date_str, e.event_id) ∷ t.event_seen }

-- An event with a new id is counted.
count_event-new :
    (n : ℕ) (e : StatEvent) (t : Tally)
    → 0 < n
    → n ≤ e.event_id
    → Before n t
    → (count_event e t ≡ count_each e (victims_of e) (marked e t))
      × Before (suc e.event_id) (count_event e t)
unfolding count_event
count_event-new n e t pos h all =
    let set : is_set e.event_id ≡ true = ground arith in
    let new = unseen n e t.event_seen h all in
    let is : count_event e t ≡ count_each e (victims_of e) (marked e t) =
      rw (set, new, count_event) refl in
    let seen : (count_event e t).event_seen ≡ (e.date_str, e.event_id) ∷ t.event_seen =
      ap (λ z. z.event_seen) is ∙ count_each-events e (victims_of e) (marked e t) in
    (
      is,
      subst (All (λ k. k.1 < suc e.event_id)) (sym seen)
          (omega arith, later n (suc e.event_id) t.event_seen (omega arith) all),
    )

-- The events have rising ids.
abbrev pub Rising : {A : Type 0} → (A → StatEvent) → ℕ → List A → Type 0
Rising f n [] = Unit
Rising f n (x ∷ xs) = (n ≤ (f x).event_id) × Rising f (suc (f x).event_id) xs

module _ {A : Type 0} (f : A → StatEvent) (p : A → Bool) (user : ℕ)
    (apart : (x : A) → p x ≡ false → contains user (victims_of (f x)) ≡ false) where
  count_all-Agree :
      (n : ℕ) (xs : List A) (t t' : Tally)
      → 0 < n
      → Rising f n xs
      → Before n t
      → Before n t'
      → Agree user t t'
      → Agree user (count_all (map f (select p xs)) t) (count_all (map f xs) t')
  count_all-Agree n [] t t' pos rising b b' a = a
  count_all-Agree n (x ∷ xs) t t' pos rising b b' a =
      let e = f x in
      let m = suc e.event_id in
      let own' = count_event-new n e t' pos rising.0 b' in
      let marks : Agree user (marked e t) (marked e t') = record {
        counted = a.counted;
        special = a.special;
      } in
      elim (Bool-cases (p x)) [
        | inl kept ↦
            let own = count_event-new n e t pos rising.0 b in
            let next : Agree user (count_event e t) (count_event e t') =
              rw (own.0, own'.0)
                (count_each-Agree user e (victims_of e) (marked e t) (marked e t') marks) in
            rw kept (
              count_all-Agree m xs (count_event e t) (count_event e t') (omega arith) rising.1 own.1
                own'.1 next)
        | inr dropped ↦
            let plain : Agree user t (marked e t') = record {
              counted = a.counted;
              special = a.special;
            } in
            let next : Agree user t (count_event e t') = rw own'.0 (
              Agree-sym user _ _ (
                count_each-other user e (victims_of e) (marked e t') t (apart x dropped)
                  (Agree-sym user _ _ plain))) in
            rw dropped (
              count_all-Agree m xs t (count_event e t') (omega arith) rising.1
                (later n m t.event_seen (omega (arith, rising.0)) b) own'.1 next)
      ]

  pub count_roasted_users-select :
      (n : ℕ) (xs : List A)
      → 0 < n
      → Rising f n xs
      → count_roasted_users (map f (select p xs)) user ≡ count_roasted_users (map f xs) user
  unfolding count_roasted_users
  count_roasted_users-select n xs pos rising =
      (count_all-Agree n xs empty_tally empty_tally pos rising tt tt
        (record { counted = refl; special = λ e. refl })).counted
