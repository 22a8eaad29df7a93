-- ===== src/Refills/Prepared.antt =====
-- The tables that `prepare_refill` leaves.
use rollpig_cloud.Base.{
  ℕ, ◌≡◌, refl, sym, ap, ◌∙◌, ◌⊎◌, inl, inr, true, false, none, some, [], ◌∷◌, ◌++◌, ==_refl,
  is_some, get_or, find, length, arith, ltb, Bool-cases, Option-cases, All-find, find-passes, count,
  count-any, count-replace, any-is_some,
}
use rollpig_cloud.Store.{RefillRequest, Session, Env}
use rollpig_cloud.Refills.{
  is_voting, has_refill_id, has_active_key, save_refill, is_due, expired_row, expire_if_needed,
  current_refill, RefillPrepareRequest, eligible_users, success_count, new_refill, open_refill,
  prepare_refill,
}
use rollpig_cloud.Refills.Keyed.{IsKeyed, IsSingle}

-- The row that the request opens.
abbrev pub opened : Env → RefillPrepareRequest → Session → RefillRequest
opened env req s =
    new_refill env (get_or req.now_ts env.now) req (length (eligible_users req s))
      (success_count req.date_str req.group_id s)

abbrev pub before_opening : Env → RefillPrepareRequest → Session → Session
before_opening env req s =
    (current_refill (get_or req.now_ts env.now) req.date_str req.group_id s).1

keyed-voting :
    (date group : ℕ) (row : RefillRequest)
    → IsKeyed row
    → has_active_key date group row ≡ true
    → is_voting row.status ≡ true
keyed-voting date group row keyed held = elim (Bool-cases (is_voting row.status)) [
  | inl e ↦ e
  | inr e ↦
      let free : row.active_key ≡ none = keyed ∙ rw e refl in
      let no : has_active_key date group row ≡ false = rw free refl in ground (arith, no, held)
]

-- If no vote is found open, none holds the key afterwards.
current_refill-free :
    (now date group : ℕ) (s : Session)
    → IsSingle s
    → (current_refill now date group s).0 ≡ none
    → count (has_active_key date group) (current_refill now date group s).1.refills ≡ 0
unfolding current_refill expire_if_needed
current_refill-free now date group s single none_open =
    let q = has_active_key date group in
    elim (Option-cases (find q s.refills)) [
      | inl e ↦
          rw (e, current_refill) (count-any q s.refills (any-is_some q s.refills ∙ ap is_some e))
      | inr (row, e) ↦ elim (Bool-cases (is_due now row)) [
        | inl due ↦
            let held : q row ≡ true = find-passes q s.refills row e in
            let one = single.1 date group in
            let id = has_refill_id row.request_id in
            let exact =
              count-replace q id q s.refills row (expired_row row) e (==_refl row.request_id)
                (single.2 row.request_id) in
            let gone : count q (save_refill (expired_row row) s).refills ≡ 0 =
              ground (arith, exact, held, one) in
            rw (e, due, current_refill) gone
        | inr early ↦
            let there : (current_refill now date group s).0 ≡ some row =
              rw (e, early, current_refill) refl in
            absurd (ground (arith, there, none_open))
      ]
    ]

-- A vote that is found is open.
current_refill-votes :
    (now date group : ℕ) (s : Session) (row : RefillRequest)
    → IsSingle s
    → (current_refill now date group s).0 ≡ some row
    → is_voting row.status ≡ true
unfolding current_refill expire_if_needed
current_refill-votes now date group s row single found =
    let q = has_active_key date group in
    elim (Option-cases (find q s.refills)) [
      | inl e ↦
          let missing : (current_refill now date group s).0 ≡ none = rw (e, current_refill) refl in
          absurd (ground (arith, missing, found))
      | inr (held, e) ↦
          let votes : is_voting held.status ≡ true =
            keyed-voting date group held (All-find IsKeyed q s.refills held single.0 e)
              (find-passes q s.refills held e) in
          elim (Bool-cases (is_due now held)) [
            | inl due ↦
                let missing : (current_refill now date group s).0 ≡ none =
                  rw (e, due, current_refill) refl in
                absurd (ground (arith, missing, found))
            | inr early ↦
                let there : (current_refill now date group s).0 ≡ some held =
                  rw (e, early, current_refill) refl in
                let is : held ≡ row = ground (arith, there, found) in
                ap (λ r. is_voting r.status) (sym is) ∙ votes
          ]
    ]

open_refill-leaves :
    (env : Env) (req : RefillPrepareRequest) (s : Session)
    → let now = get_or req.now_ts env.now in
      ((open_refill env now req s).1 ≡ s)
      ⊎ ((open_refill env now req s).1 ≡ record s { refills = s.refills ++ opened env req s ∷ [] })
unfolding open_refill
open_refill-leaves env req s = elim (Bool-cases (ltb (length (eligible_users req s)) 3)) [
  | inl few ↦ inl (rw (few, open_refill) refl)
  | inr enough ↦ inr (rw (enough, open_refill) refl)
]

-- The tables are those without the vote that is over, or the new vote is added where none is open.
pub prepare_refill-leaves :
    (env : Env) (req : RefillPrepareRequest) (s : Session)
    → IsSingle s
    → let s' = before_opening env req s in
      ((prepare_refill env req s).1 ≡ s')
      ⊎ ((prepare_refill env req s).1
          ≡ record s' { refills = s'.refills ++ opened env req s' ∷ [] })
        × (count (has_active_key req.date_str req.group_id) s'.refills ≡ 0)
unfolding prepare_refill
prepare_refill-leaves env req s single =
    let now = get_or req.now_ts env.now in
    let s' = before_opening env req s in
    elim (Option-cases (current_refill now req.date_str req.group_id s).0) [
      | inl e ↦
          let free = current_refill-free now req.date_str req.group_id s single e in
          let same : (prepare_refill env req s).1 ≡ (open_refill env now req s').1 =
            rw (e, prepare_refill) refl in
          elim (open_refill-leaves env req s') [
            | inl h ↦ inl (same ∙ h)
            | inr h ↦ inr (same ∙ h, free)
          ]
      | inr (row, e) ↦
          let votes = current_refill-votes now req.date_str req.group_id s row single e in
          inl (rw (e, votes, prepare_refill) refl)
    ]
