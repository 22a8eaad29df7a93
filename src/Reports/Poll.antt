-- ===== src/Reports/Poll.antt =====
-- When a client that was told to wait is to ask for daily reports again.
use rollpig_cloud.Base.{
  ℕ, ◌+◌, ◌<◌, ◌≡◌, refl, sym, ap, ◌∙◌, inl, inr, Bool, true, false, not, ◌&&◌, ◌||◌, Option, some,
  none, List, [], ◌∷◌, ltb, min, if◌then◌else◌, is_some, is_value, any, find, arith, Bool-cases,
  Option-cases,
}
use rollpig_cloud.Reports.{is_pending, is_claimed, DailyReportDelivery, is_due, retry_deadline}
use rollpig_cloud.Reports.Next.{min_option, candidate_at, claim_time, next_claim_at}

-- Whether the client still waits at `u`.
abbrev is_before : ℕ → Option ℕ → Bool
is_before u none = true
is_before u (some t) = ltb u t

abbrev is_held : List ℕ → DailyReportDelivery → Bool
is_held tokens r = is_claimed r.status && any (is_value r.claim_token) tokens

is_before-min :
    (u : ℕ) (a b : Option ℕ) → is_before u (min_option a b) ≡ (is_before u a && is_before u b)
is_before-min u none b = refl
is_before-min u (some a) none = ground arith
is_before-min u (some a) (some b) = ground arith

candidate-early :
    (tokens : List ℕ) (now u : ℕ) (r : DailyReportDelivery)
    → is_held tokens r ≡ false
    → (is_pending r.status || is_some r.claimed_at) ≡ true
    → u < retry_deadline r.date_str
    → is_before u (claim_time tokens now r) ≡ true
    → is_due u r ≡ false
unfolding claim_time candidate_at is_due
candidate-early tokens now u r free timed early before = ground arith

next_claim_at-early :
    (tokens : List ℕ) (now u : ℕ) (rows : List DailyReportDelivery) (p : DailyReportDelivery → Bool)
    (r : DailyReportDelivery)
    → find p rows ≡ some r
    → is_held tokens r ≡ false
    → (is_pending r.status || is_some r.claimed_at) ≡ true
    → u < retry_deadline r.date_str
    → is_before u (next_claim_at tokens now rows) ≡ true
    → is_due u r ≡ false
unfolding next_claim_at
next_claim_at-early tokens now u [] p r e free timed early before = absurd (cc)
next_claim_at-early tokens now u (x ∷ rows) p r e free timed early before =
    let both = is_before-min u (claim_time tokens now x) (next_claim_at tokens now rows) in
    elim (Bool-cases (p x)) [
      | inl hit ↦
          let same : x ≡ r = ground (arith, hit, e) in
          candidate-early tokens now u r free timed early
            (ap (λ z. is_before u (claim_time tokens now z)) (sym same) ∙ ground (arith, both))
      | inr miss ↦
          next_claim_at-early tokens now u rows p r (ground (arith, miss, e)) free timed early
            (ground (arith, both))
    ]

-- At `t`, before its deadline, a row becomes due: a pending row is due at once, and the lease of
-- another client has stood for five minutes and is due one second later.
abbrev pub comes_due : List ℕ → ℕ → DailyReportDelivery → Bool
comes_due tokens t r =
    ltb t (retry_deadline r.date_str)
    && not (is_held tokens r)
    && (if is_pending r.status then is_due t r else is_due (t + 1) r)

candidate-due :
    (tokens : List ℕ) (now t : ℕ) (r : DailyReportDelivery)
    → claim_time tokens now r ≡ some t
    → comes_due tokens t r ≡ true
unfolding claim_time candidate_at is_due
candidate-due tokens now t r e = ground arith

next_claim_at-due :
    (tokens : List ℕ) (now t : ℕ) (rows : List DailyReportDelivery)
    → next_claim_at tokens now rows ≡ some t
    → any (comes_due tokens t) rows ≡ true
unfolding next_claim_at
next_claim_at-due tokens now t [] e = absurd (cc)
next_claim_at-due tokens now t (x ∷ rows) e = elim (Option-cases (claim_time tokens now x)) [
  | inl no_time ↦
      let rest : next_claim_at tokens now rows ≡ some t = rw no_time at e in
      ground (arith, next_claim_at-due tokens now t rows rest)
  | inr (a, here) ↦ elim (Option-cases (next_claim_at tokens now rows)) [
    | inl last ↦
        let at : claim_time tokens now x ≡ some t = here ∙ rw (here, last) at e in
        ground (arith, candidate-due tokens now t x at)
    | inr (b, more) ↦
        let first : some (min a b) ≡ some t = rw (here, more) at e in
        elim (Bool-cases (ltb b a)) [
          | inl less ↦
              let rest : next_claim_at tokens now rows ≡ some t = ground (arith, more, first) in
              ground (arith, next_claim_at-due tokens now t rows rest)
          | inr other ↦
              let at : claim_time tokens now x ≡ some t = ground (arith, here, first) in
              ground (arith, candidate-due tokens now t x at)
        ]
  ]
]

-- The time that a client is told is the first at which it is worth to ask again. At that time, before
-- its deadline, some row that the client does not hold comes due: it is pending and due, or its lease
-- is due one second later. And at an earlier time `u` no row is due that the client does not hold,
-- where the row is pending or its claim has a time, and `u` is before its deadline.
pub next_claim_at-first :
    (tokens : List ℕ) (now t u : ℕ) (rows : List DailyReportDelivery)
    (p : DailyReportDelivery → Bool) (r : DailyReportDelivery)
    → next_claim_at tokens now rows ≡ some t
    → u < t
    → find p rows ≡ some r
    → is_held tokens r ≡ false
    → (is_pending r.status || is_some r.claimed_at) ≡ true
    → u < retry_deadline r.date_str
    → (any (comes_due tokens t) rows ≡ true) × (is_due u r ≡ false)
next_claim_at-first tokens now t u rows p r e before found free timed early = (
  next_claim_at-due tokens now t rows e,
  next_claim_at-early tokens now u rows p r found free timed early
      (ap (is_before u) e ∙ ground arith),
)
