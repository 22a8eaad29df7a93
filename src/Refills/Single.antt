-- ===== src/Refills/Single.antt =====
-- The active keys after each service of services/roast_refills.py but `prepare_refill`.
use rollpig_cloud.Base.{
  ℕ, ◌≡◌, refl, inl, inr, Bool, false, not, ◌&&◌, ◌||◌, none, some, ◌==◌, is_set, get_or, find,
  arith, leb, Bool-cases, Option-cases, All-find,
}
use rollpig_cloud.Store.{RefillRequest, Session, Env}
use rollpig_cloud.Refills.{
  is_voting, has_refill_id, has_active_key, save_refill, is_due, expired_row, expire_if_needed,
  current_refill, get_active_refill, bind_refill_message, fail_refill,
}
use rollpig_cloud.Refills.Complete.{
  RefillCompleteRequest, valid_voters, carries, settle_refill, complete_row, complete_refill,
}
use rollpig_cloud.Activity.{get_group_active_user_ids}
use rollpig_cloud.Refills.Keyed.{IsKeyed, IsSingle, save_refill-IsSingle}

-- A vote that is over frees its key.
closed-IsSingle :
    (r : RefillRequest → Bool) (row row' : RefillRequest) (s : Session)
    → find r s.refills ≡ some row
    → row'.request_id ≡ row.request_id
    → is_voting row'.status ≡ false
    → row'.active_key ≡ none
    → IsSingle s
    → IsSingle (save_refill row' s)
closed-IsSingle r row row' s h same over free single =
    save_refill-IsSingle r row row' s h same (rw (over, free) refl)
      (λ date group held.
        let no : has_active_key date group row' ≡ false = rw free refl in ground (arith, no, held))
      single

pub current_refill-IsSingle :
    (now date group : ℕ) (s : Session) → IsSingle s → IsSingle (current_refill now date group s).1
unfolding current_refill expire_if_needed
current_refill-IsSingle now date group s single =
    elim (Option-cases (find (has_active_key date group) s.refills)) [
      | inl e ↦ rw (e, current_refill) single
      | inr (row, e) ↦
          rw (e, current_refill)
            (elim (Bool-cases (is_due now row)) [
              | inl due ↦ rw due (
                  closed-IsSingle (has_active_key date group) row (expired_row row) s e refl refl
                    refl single)
              | inr early ↦ rw early single
            ])
    ]

pub get_active_refill-IsSingle :
    (now date group : ℕ) (s : Session)
    → IsSingle s
    → IsSingle (get_active_refill now date group s).1
unfolding get_active_refill
get_active_refill-IsSingle now date group s single =
    let kept = current_refill-IsSingle now date group s single in
    elim (Option-cases (current_refill now date group s).0) [
      | inl e ↦ rw (e, get_active_refill) kept
      | inr (row, e) ↦ rw (e, get_active_refill) kept
    ]

pub bind_refill_message-IsSingle :
    (now id message : ℕ) (s : Session)
    → IsSingle s
    → IsSingle (bind_refill_message now id message s).1
unfolding bind_refill_message is_due
bind_refill_message-IsSingle now id message s single =
    elim (Option-cases (find (has_refill_id id) s.refills)) [
      | inl e ↦ rw (e, bind_refill_message) single
      | inr (row, e) ↦
          let keyed = All-find IsKeyed (has_refill_id id) s.refills row single.0 e in
          let bound =
            save_refill-IsSingle (has_refill_id id) row (record row { message_id = message }) s e
              refl keyed (λ date group held. held) single in
          let over =
            closed-IsSingle (has_refill_id id) row (expired_row row) s e refl refl refl single in
          rw (e, bind_refill_message)
            (elim (Bool-cases (is_voting row.status)) [
              | inr ended ↦ rw ended single
              | inl votes ↦ rw votes (elim (Bool-cases (leb row.expires_at now)) [
                | inl due ↦ rw due over
                | inr early ↦
                    let refused =
                      not (is_set message)
                      || (is_set row.message_id && not (row.message_id == message)) in
                    rw early
                      (elim (Bool-cases refused) [ inl e' ↦ rw e' single | inr e' ↦ rw e' bound ])
              ])
            ])
    ]

pub fail_refill-IsSingle :
    (id message reason : ℕ) (s : Session)
    → IsSingle s
    → IsSingle (fail_refill id message reason s).1
unfolding fail_refill
fail_refill-IsSingle id message reason s single =
    elim (Option-cases (find (has_refill_id id) s.refills)) [
      | inl e ↦ rw (e, fail_refill) single
      | inr (row, e) ↦
          let over = closed-IsSingle (has_refill_id id) row _ s e refl refl refl single in
          let refused =
            is_set message && is_set row.message_id && not (row.message_id == message) in
          rw (e, fail_refill)
            (elim (Bool-cases (is_voting row.status)) [
              | inr ended ↦ rw ended single
              | inl votes ↦
                  rw votes
                    (elim (Bool-cases refused) [ inl e' ↦ rw e' single | inr e' ↦ rw e' over ])
            ])
    ]

settle_refill-IsSingle :
    (now : ℕ) (req : RefillCompleteRequest) (row : RefillRequest) (s : Session)
    → find (has_refill_id req.request_id) s.refills ≡ some row
    → IsSingle s
    → IsSingle (settle_refill now req row s).1
unfolding settle_refill
settle_refill-IsSingle now req row s e single =
    let has = has_refill_id req.request_id in
    let voters = valid_voters req (get_group_active_user_ids row.date_str row.group_id s) in
    let settled = closed-IsSingle has row _ s e refl refl refl single in
    elim (Bool-cases (carries req row voters)) [
      | inl e' ↦ rw (e', settle_refill) settled
      | inr e' ↦ rw (e', settle_refill) single
    ]

pub complete_refill-IsSingle :
    (env : Env) (req : RefillCompleteRequest) (s : Session)
    → IsSingle s
    → IsSingle (complete_refill env req s).1
unfolding complete_refill complete_row settle_refill is_due
complete_refill-IsSingle env req s single =
    elim (Option-cases (find (has_refill_id req.request_id) s.refills)) [
      | inl e ↦ rw (e, complete_refill) single
      | inr (row, e) ↦
          let has = has_refill_id req.request_id in
          let now = get_or req.now_ts env.now in
          let over = closed-IsSingle has row (expired_row row) s e refl refl refl single in
          let mismatch =
            not (is_set row.message_id)
            || not (is_set req.message_id)
            || not (row.message_id == req.message_id) in
          rw (e, complete_refill)
            (elim (Bool-cases (is_voting row.status)) [
              | inr ended ↦ rw ended single
              | inl votes ↦ rw votes (elim (Bool-cases mismatch) [
                | inl other ↦ rw other single
                | inr own ↦ rw own (elim (Bool-cases (leb row.expires_at now)) [
                  | inl due ↦ rw due over
                  | inr early ↦ rw early (settle_refill-IsSingle now req row s e single)
                ])
              ])
            ])
    ]
