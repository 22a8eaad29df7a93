-- ===== src/Stats/Counted.antt =====
-- What the statistics promise.
use rollpig_cloud.Base.{
  ℕ, ◌≡◌, refl, ap, sym, ◌∙◌, inl, inr, Bool, true, List, [], ◌∷◌, ◌++◌, ==_refl, is_set, any,
  arith, Bool-cases,
}
use rollpig_cloud.Stats.{
  StatEvent, Tally, empty_tally, victims_of, count_victim, count_each, is_event, count_event,
  count_all, occurrences, count_roasted_users,
}

pub count_each-events :
    (e : StatEvent) (victims : List ℕ) (t : Tally)
    → (count_each e victims t).event_seen ≡ t.event_seen
unfolding count_victim
count_each-events e [] t = refl
count_each-events e (v ∷ victims) t =
    count_each-events e victims (count_victim e v t) ∙ ground arith

-- The event has been seen.
abbrev seen : StatEvent → Tally → Bool
seen e t = any (is_event e) t.event_seen

count_event-sees :
    (e : StatEvent) (t : Tally) → is_set e.event_id ≡ true → seen e (count_event e t) ≡ true
unfolding count_event
count_event-sees e t h = elim (Bool-cases (seen e t)) [
  | inl s ↦ rw (h, s, count_event) s
  | inr s ↦
      let marked : Tally = record t { event_seen = (e.date_str, e.event_id) ∷ t.event_seen } in
      rw (h, s, count_event)
        (ap (any (is_event e)) (count_each-events e (victims_of e) marked)
          ∙ rw (==_refl e.date_str, ==_refl e.event_id) refl)
]

count_event-keeps :
    (e f : StatEvent) (t : Tally) → seen f t ≡ true → seen f (count_event e t) ≡ true
unfolding count_event
count_event-keeps e f t s = elim (Bool-cases (is_set e.event_id)) [
  | inr h ↦ rw (h, count_event) (ap (any (is_event f)) (count_each-events e (victims_of e) t) ∙ s)
  | inl h ↦ elim (Bool-cases (seen e t)) [
    | inl old ↦ rw (h, old, count_event) s
    | inr new ↦
        let marked : Tally = record t { event_seen = (e.date_str, e.event_id) ∷ t.event_seen } in
        rw (h, new, count_event)
          (ap (any (is_event f)) (count_each-events e (victims_of e) marked) ∙ ground (arith, s))
  ]
]

count_event-skips :
    (e : StatEvent) (t : Tally) → is_set e.event_id ≡ true → seen e t ≡ true → count_event e t ≡ t
unfolding count_event
count_event-skips e t h s = rw (h, s, count_event) refl

count_all-keeps :
    (events : List StatEvent) (f : StatEvent) (t : Tally)
    → seen f t ≡ true
    → seen f (count_all events t) ≡ true
count_all-keeps [] f t s = s
count_all-keeps (e ∷ events) f t s =
    count_all-keeps events f (count_event e t) (count_event-keeps e f t s)

count_all-append :
    (events more : List StatEvent) (t : Tally)
    → count_all (events ++ more) t ≡ count_all more (count_all events t)
count_all-append [] more t = refl
count_all-append (e ∷ events) more t = count_all-append events more (count_event e t)

-- An event with an id that is delivered again, at any later place in the list, changes no count.
count_roasted_users-again :
    (before between after : List StatEvent) (e : StatEvent) (user : ℕ)
    → is_set e.event_id ≡ true
    → count_roasted_users (before ++ (e ∷ (between ++ (e ∷ after)))) user
      ≡ count_roasted_users (before ++ (e ∷ (between ++ after))) user
unfolding count_roasted_users
count_roasted_users-again before between after e user h =
    let t = count_event e (count_all before empty_tally) in
    let there = count_all-keeps between e t (count_event-sees e (count_all before empty_tally) h) in
    ap (λ t. occurrences user t.counts)
      (count_all-append before (e ∷ between ++ e ∷ after) empty_tally
        ∙ count_all-append between (e ∷ after) t
        ∙ ap (count_all after) (count_event-skips e (count_all between t) h there)
        ∙ sym (count_all-append between after t)
        ∙ sym (count_all-append before (e ∷ between ++ after) empty_tally))
