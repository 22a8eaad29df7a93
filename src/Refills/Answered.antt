-- ===== src/Refills/Answered.antt =====
-- The attempts of POST /prepare of routers/roast_refills.py.
use rollpig_cloud.Base.{
  ℕ, ◌≤◌, ◌≡◌, refl, sym, ap, ◌∙◌, inl, inr, true, false, some, List, [], ◌∷◌, ◌++◌, ◌==◌, ==_refl,
  get_or, find, any, arith, Bool-cases, Option-cases, All-append, repeats, count, count-any,
  count-replace, repeats-counted, count-append_one,
}
use rollpig_cloud.Store.{RefillRequest, Session, Env}
use rollpig_cloud.Refills.{
  has_refill_id, has_active_key, RefillPrepareRequest, new_refill, prepare_refill, current_refill,
  expire_if_needed, is_due, expired_row,
}
use rollpig_cloud.Refills.Keyed.{IsKeyed, IsSingle}
use rollpig_cloud.Refills.Single.{current_refill-IsSingle}
use rollpig_cloud.Refills.Prepared.{opened, before_opening, prepare_refill-leaves}
use rollpig_cloud.Refills.Routes.{same_request_id, same_active_key, attempt, attempts, prepare}

current_refill-ids :
    (now date group id : ℕ) (s : Session)
    → IsSingle s
    → count (has_refill_id id) (current_refill now date group s).1.refills
      ≡ count (has_refill_id id) s.refills
unfolding current_refill expire_if_needed
current_refill-ids now date group id s single =
    let q = has_active_key date group in
    elim (Option-cases (find q s.refills)) [
      | inl e ↦ rw (e, current_refill) refl
      | inr (row, e) ↦ elim (Bool-cases (is_due now row)) [
        | inl due ↦
            let exact =
              count-replace (has_refill_id id) (has_refill_id row.request_id) q s.refills row
                (expired_row row) e (==_refl row.request_id) (single.2 row.request_id) in
            rw (e, due, current_refill) (ground (arith, exact))
        | inr early ↦ rw (e, early, current_refill) refl
      ]
    ]

-- The new row holds an id and a key that no row holds.
opened-IsSingle :
    (env : Env) (req : RefillPrepareRequest) (s : Session)
    → IsSingle s
    → count (has_refill_id env.uuid) s.refills ≡ 0
    → count (has_active_key req.date_str req.group_id) s.refills ≡ 0
    → IsSingle (record s { refills = s.refills ++ opened env req s ∷ [] })
unfolding new_refill
opened-IsSingle env req s single fresh free =
    let row = opened env req s in
    (
      All-append IsKeyed s.refills (row ∷ []) single.0 (refl, tt),
      (λ date group. elim (Bool-cases (has_active_key date group row)) [
        | inl own ↦
            let on : req.date_str ≡ date = ground (arith, own) in
            let of : req.group_id ≡ group = ground (arith, own) in
            let none_there : count (has_active_key date group) s.refills ≡ 0 =
              sym (
                ap (λ d. count (has_active_key d req.group_id) s.refills) on
                ∙ ap (λ g. count (has_active_key date g) s.refills) of)
              ∙ free in
            let exact = count-append_one (has_active_key date group) s.refills row in
            ground (arith, exact, none_there, own)
        | inr other ↦
            let exact = count-append_one (has_active_key date group) s.refills row in
            let known = single.1 date group in ground (arith, exact, known, other)
      ]),
      (λ id. elim (Bool-cases (env.uuid == id)) [
        | inl own ↦
            let is : env.uuid ≡ id = ground (arith, own) in
            let none_there : count (has_refill_id id) s.refills ≡ 0 =
              sym (ap (λ u. count (has_refill_id u) s.refills) is) ∙ fresh in
            let exact = count-append_one (has_refill_id id) s.refills row in
            ground (arith, exact, none_there, own)
        | inr other ↦
            let exact = count-append_one (has_refill_id id) s.refills row in
            let known = single.2 id in ground (arith, exact, known, other)
      ]),
    )

prepare_refill-IsSingle :
    (env : Env) (req : RefillPrepareRequest) (s : Session)
    → IsSingle s
    → any (has_refill_id env.uuid) s.refills ≡ false
    → IsSingle (prepare_refill env req s).1
prepare_refill-IsSingle env req s single fresh =
    let now = get_or req.now_ts env.now in
    let s' = before_opening env req s in
    let kept = current_refill-IsSingle now req.date_str req.group_id s single in
    let absent : count (has_refill_id env.uuid) s'.refills ≡ 0 =
      current_refill-ids now req.date_str req.group_id env.uuid s single
      ∙ count-any (has_refill_id env.uuid) s.refills fresh in
    elim (prepare_refill-leaves env req s single) [
      | inl h ↦ rw h kept
      | inr (h, free) ↦ rw h (opened-IsSingle env req s' kept absent free)
    ]

key-own : (x y : RefillRequest) → same_active_key x y ≡ true → same_active_key x x ≡ true
key-own x y h = elim (Option-cases x.active_key) [
  | inl e ↦ let no : same_active_key x y ≡ false = rw e refl in absurd (ground (arith, no, h))
  | inr (key, e) ↦ rw e (ground (arith, ==_refl key.0, ==_refl key.1))
]

count-never : (rows : List RefillRequest) → count (λ _. false) rows ≡ 0
count-never [] = refl
count-never (row ∷ rows) = count-never rows

key-counted :
    (x : RefillRequest) (rows : List RefillRequest)
    → ((date group : ℕ) → count (has_active_key date group) rows ≤ 1)
    → count (same_active_key x) rows ≤ 1
key-counted x rows single = elim (Option-cases x.active_key) [
  | inl e ↦
      let no : count (same_active_key x) rows ≡ 0 = rw e (count-never rows) in omega (arith, no)
  | inr (key, e) ↦ rw e (single key.0 key.1)
]

attempt-answers :
    (env : Env) (req : RefillPrepareRequest) (s : Session)
    → IsSingle s
    → any (has_refill_id env.uuid) s.refills ≡ false
    → attempt env req s ≡ some (prepare_refill env req s)
unfolding attempt
attempt-answers env req s single fresh =
    let after = (prepare_refill env req s).1.refills in
    let apart = prepare_refill-IsSingle env req s single fresh in
    let ids : repeats same_request_id after ≡ false =
      repeats-counted same_request_id after (λ x y h. ==_refl x.request_id)
        (λ x. apart.2 x.request_id) in
    let keys : repeats same_active_key after ≡ false =
      repeats-counted same_active_key after key-own (λ x. key-counted x after apart.1) in
    rw (ids, keys, attempt) refl

-- If the rows hold their keys apart and the new id is on no row, a vote is prepared at the first
-- attempt: the answer and the tables are those of `prepare_refill`, and the request never ends in the
-- error of the attempts that are used up.
pub prepare-answers :
    (envs : ℕ → Env) (req : RefillPrepareRequest) (s : Session)
    → IsSingle s
    → any (has_refill_id (envs 2).uuid) s.refills ≡ false
    → prepare envs req s ≡ some (prepare_refill (envs 2) req s)
unfolding prepare attempts
prepare-answers envs req s single fresh =
    let first : attempts 3 envs req s ≡ some (prepare_refill (envs 2) req s) =
      rw (attempt-answers (envs 2) req s single fresh, attempts) refl in
    first
