-- ===== src/Refills/Completed.antt =====
-- What the completion of a refill promises.
use rollpig_cloud.Base.{
  ℕ, ◌≡◌, refl, ap, sym, ◌∙◌, inl, inr, Bool, true, false, not, ◌&&◌, Option, none, some, List, [],
  ◌∷◌, ◌==◌, ==_refl, contains-select, is_some, is_value, get_or, is_set, find, select, any,
  contains, arith, Bool-cases, Option-cases, find-passes, find-update, find-append_none,
  find-update_other, find-append_other,
}
use rollpig_cloud.Usage.{UserUsage, clamp_charge_settings, is_user, new_usage}
use rollpig_cloud.Store.{RefillRequest, succeeded, Session, Env}
use rollpig_cloud.Activity.{get_group_active_user_ids}
use rollpig_cloud.Refills.{is_voting, has_refill_id, save_refill, is_due}
use rollpig_cloud.Refills.Complete.{
  refill_user, refilled_row, reset_roast_charges, RefillCompleteRequest, ended, not_completed,
  valid_voters, carries, settle_refill, complete_row, complete_refill,
}

-- A user's charges are full.
abbrev pub has_charges : ℕ → Option UserUsage → Bool
has_charges n none = false
has_charges n (some row) = is_value row.roast_charges n

any-find :
    (user : ℕ) (usages : List UserUsage)
    → any (is_user user) usages ≡ is_some (find (is_user user) usages)
any-find user [] = refl
any-find user (x ∷ usages) = ground (arith, any-find user usages)

refill_user-full :
    (n now user : ℕ) (usages : List UserUsage)
    → has_charges n (find (is_user user) (refill_user n now user usages)) ≡ true
unfolding refill_user
refill_user-full n now user usages = elim (Option-cases (find (is_user user) usages)) [
  | inl e ↦
      let none_there : any (is_user user) usages ≡ false = any-find user usages ∙ ap is_some e in
      rw (none_there, refill_user)
        (rw
          (
            find-append_none (is_user user) usages (refilled_row n now (new_usage user) ∷ []) e,
            ==_refl user,
            ==_refl n,
          )
          refl)
  | inr (row, e) ↦
      let there : any (is_user user) usages ≡ true = any-find user usages ∙ ap is_some e in
      rw (there, refill_user)
        (rw (find-update (is_user user) (refilled_row n now) usages row (λ x p. p) e, ==_refl n)
          refl)
]

refill_user-others :
    (n now user other : ℕ) (usages : List UserUsage)
    → (user == other) ≡ false
    → find (is_user other) (refill_user n now user usages) ≡ find (is_user other) usages
unfolding refill_user
refill_user-others n now user other usages e = elim (Bool-cases (any (is_user user) usages)) [
  | inl there ↦
      rw (there, refill_user)
        (find-update_other (is_user user) (is_user other) (refilled_row n now) usages
          (λ x p. (ground (arith, p, e), ground (arith, p, e))))
  | inr none_there ↦
      rw (none_there, refill_user)
        (find-append_other (is_user other) usages (refilled_row n now (new_usage user)) e)
]

refill_user-keeps :
    (n now user other : ℕ) (usages : List UserUsage)
    → has_charges n (find (is_user other) usages) ≡ true
    → has_charges n (find (is_user other) (refill_user n now user usages)) ≡ true
refill_user-keeps n now user other usages h = elim (Bool-cases (user == other)) [
  | inl e ↦
      let same : other ≡ user = ground (arith, e) in rw same (refill_user-full n now user usages)
  | inr e ↦ rw (refill_user-others n now user other usages e) h
]

reset-keeps :
    (n now other : ℕ) (users : List ℕ) (usages : List UserUsage)
    → has_charges n (find (is_user other) usages) ≡ true
    → has_charges n (find (is_user other) (reset_roast_charges n now users usages)) ≡ true
reset-keeps n now other [] usages h = h
reset-keeps n now other (user ∷ users) usages h =
    reset-keeps n now other users (refill_user n now user usages)
      (refill_user-keeps n now user other usages h)

-- Each of the users has full charges afterwards.
reset_roast_charges-full :
    (n now user : ℕ) (users : List ℕ) (usages : List UserUsage)
    → contains user users ≡ true
    → has_charges n (find (is_user user) (reset_roast_charges n now users usages)) ≡ true
reset_roast_charges-full n now user [] usages h = ground arith
reset_roast_charges-full n now user (u ∷ users) usages h = elim (Bool-cases (user == u)) [
  | inl e ↦
      let same : user ≡ u = ground (arith, e) in
      reset-keeps n now user users (refill_user n now u usages)
        (rw same (refill_user-full n now u usages))
  | inr e ↦
      reset_roast_charges-full n now user users (refill_user n now u usages) (ground (arith, h, e))
]

-- The tests of the code, one after another.
abbrev pub admits : ℕ → RefillCompleteRequest → RefillRequest → Session → Bool
admits now req row s =
    is_voting row.status
    && is_set row.message_id
    && row.message_id == req.message_id
    && not (is_due now row)
    && carries req row (valid_voters req (get_group_active_user_ids row.date_str row.group_id s))

settle_refill-completed :
    (now : ℕ) (req : RefillCompleteRequest) (row : RefillRequest) (s : Session)
    → (settle_refill now req row s).0.completed
      ≡ carries req row (valid_voters req (get_group_active_user_ids row.date_str row.group_id s))
unfolding settle_refill
settle_refill-completed now req row s =
    elim (Bool-cases (
      carries req row (valid_voters req (get_group_active_user_ids row.date_str row.group_id s)))) [
        | inl e ↦ rw (e, settle_refill) refl
        | inr e ↦ rw (e, settle_refill) refl
      ]

complete_row-completed :
    (now : ℕ) (req : RefillCompleteRequest) (row : RefillRequest) (s : Session)
    → (complete_row now req s (some row)).0.completed ≡ admits now req row s
unfolding complete_row
complete_row-completed now req row s = ground (arith, settle_refill-completed now req row s)

pub complete_refill-admits :
    (env : Env) (req : RefillCompleteRequest) (s : Session) (row : RefillRequest)
    → find (has_refill_id req.request_id) s.refills ≡ some row
    → (complete_refill env req s).0.completed ≡ admits (get_or req.now_ts env.now) req row s
unfolding complete_refill
complete_refill-admits env req s row e =
    ap (λ o. (complete_row (get_or req.now_ts env.now) req s o).0.completed) e
    ∙ complete_row-completed (get_or req.now_ts env.now) req row s

-- The charges to which a completion refills.
abbrev pub full_charges : RefillCompleteRequest → ℕ
full_charges req = (clamp_charge_settings (some req.max_charges) none).0

-- The members that a completion refills.
abbrev benefits : RefillCompleteRequest → RefillRequest → Session → List ℕ
benefits req row s =
    select (λ u. not (contains u (select is_set req.excluded_user_ids)))
      (get_group_active_user_ids row.date_str row.group_id s)

abbrev won_row : ℕ → RefillCompleteRequest → RefillRequest → Session → RefillRequest
won_row now req row s = record row {
  status = succeeded;
  active_key = none;
  completed_at = some now;
  benefited_user_ids = benefits req row s;
}

abbrev won : ℕ → RefillCompleteRequest → RefillRequest → Session → Session
won now req row s =
    save_refill (won_row now req row s) (record s {
      usages = reset_roast_charges (full_charges req) now (benefits req row s) s.usages;
    })

settle_refill-won :
    (now : ℕ) (req : RefillCompleteRequest) (row : RefillRequest) (s : Session)
    → carries req row (valid_voters req (get_group_active_user_ids row.date_str row.group_id s))
      ≡ true
    → (settle_refill now req row s).1 ≡ won now req row s
unfolding settle_refill
settle_refill-won now req row s e = rw (e, settle_refill) refl

complete_row-settles :
    (now : ℕ) (req : RefillCompleteRequest) (row : RefillRequest) (s : Session)
    → admits now req row s ≡ true
    → complete_row now req s (some row) ≡ settle_refill now req row s
unfolding complete_row
complete_row-settles now req row s h = ground arith

complete_refill-won :
    (env : Env) (req : RefillCompleteRequest) (s : Session) (row : RefillRequest)
    → find (has_refill_id req.request_id) s.refills ≡ some row
    → (complete_refill env req s).0.completed ≡ true
    → (complete_refill env req s).1 ≡ won (get_or req.now_ts env.now) req row s
unfolding complete_refill
complete_refill-won env req s row e h =
    let now = get_or req.now_ts env.now in
    let p : admits now req row s ≡ true = sym (complete_refill-admits env req s row e) ∙ h in
    ap (λ o. (complete_row now req s o).1) e
    ∙ ap (λ x. x.1) (complete_row-settles now req row s p)
    ∙ settle_refill-won now req row s (ground (arith, p))

-- A completed refill fills the charges of every member that was active in the group on the day and
-- is not excluded, whether the member voted or not.
pub complete_refill-fills :
    (env : Env) (req : RefillCompleteRequest) (s : Session) (row : RefillRequest) (user : ℕ)
    → find (has_refill_id req.request_id) s.refills ≡ some row
    → (complete_refill env req s).0.completed ≡ true
    → contains user (get_group_active_user_ids row.date_str row.group_id s) ≡ true
    → contains user (select is_set req.excluded_user_ids) ≡ false
    → has_charges (full_charges req) (find (is_user user) (complete_refill env req s).1.usages)
      ≡ true
complete_refill-fills env req s row user e h active kept =
    let now = get_or req.now_ts env.now in
    let users = get_group_active_user_ids row.date_str row.group_id s in
    let member : contains user (benefits req row s) ≡ true =
      contains-select user (λ u. not (contains u (select is_set req.excluded_user_ids))) users
      ∙ ground (arith, active, kept) in
    rw (complete_refill-won env req s row e h)
      (reset_roast_charges-full (full_charges req) now user (benefits req row s) s.usages member)

not_voting :
    (now : ℕ) (req : RefillCompleteRequest) (row : RefillRequest) (s : Session)
    → is_voting row.status ≡ false
    → complete_row now req s (some row) ≡ (not_completed (ended row.status) (some row), s)
unfolding complete_row
not_voting now req row s h = rw h refl

-- A refill is completed once: after a completion every further request for it, whatever it says,
-- is refused and changes nothing.
pub complete_refill-once :
    (env later : Env) (req again : RefillCompleteRequest) (s : Session) (row : RefillRequest)
    → find (has_refill_id req.request_id) s.refills ≡ some row
    → (complete_refill env req s).0.completed ≡ true
    → again.request_id ≡ req.request_id
    → let s' = (complete_refill env req s).1 in
      ((complete_refill later again s').0.completed ≡ false)
      × ((complete_refill later again s').1 ≡ s')
unfolding complete_refill
complete_refill-once env later req again s row e h same =
    let now = get_or req.now_ts env.now in
    let later_now = get_or again.now_ts later.now in
    let w = complete_refill-won env req s row e h in
    let rid : row.request_id ≡ req.request_id =
      ground (arith, find-passes (has_refill_id req.request_id) s.refills row e) in
    let found : find (has_refill_id again.request_id) (won now req row s).refills
        ≡ some (won_row now req row s) =
      ap (λ z. find (has_refill_id z) (won now req row s).refills) (same ∙ sym rid)
      ∙ find-update (has_refill_id row.request_id) (λ _. won_row now req row s) s.refills row
          (λ x p. ==_refl row.request_id) (ap (λ z. find (has_refill_id z) s.refills) rid ∙ e) in
    let closed : complete_row later_now again (won now req row s)
          (find (has_refill_id again.request_id) (won now req row s).refills)
        ≡ (not_completed (ended succeeded) (some (won_row now req row s)), won now req row s) =
      ap (complete_row later_now again (won now req row s)) found
      ∙ not_voting later_now again (won_row now req row s) (won now req row s) refl in
    rw w (ap (λ x. x.0.completed) closed, ap (λ x. x.1) closed)
