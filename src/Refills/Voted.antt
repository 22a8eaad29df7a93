-- ===== src/Refills/Voted.antt =====
-- The active keys after the requests of routers/roast_refills.py in any order.
use rollpig_cloud.Base.{
  ℕ, zero, suc, ◌≡◌, refl, sym, ap, ◌∙◌, inl, inr, true, false, ◌&&◌, ◌||◌, none, some, List, [],
  ◌∷◌, ◌==◌, is_set, get_or, arith, Bool-cases, Option-cases, All, All-append, repeats,
  count_unique,
}
use rollpig_cloud.Store.{RefillRequest, Session, Env}
use rollpig_cloud.Activity.{mark_group_active_users}
use rollpig_cloud.Refills.{
  has_refill_id, has_active_key, RefillPrepareRequest, RefillPrepareResponse, new_refill,
  prepare_refill,
}
use rollpig_cloud.Refills.Keyed.{IsKeyed, IsSingle}
use rollpig_cloud.Refills.Single.{
  current_refill-IsSingle, get_active_refill-IsSingle, bind_refill_message-IsSingle,
  fail_refill-IsSingle, complete_refill-IsSingle,
}
use rollpig_cloud.Refills.Prepared.{opened, before_opening, prepare_refill-leaves}
use rollpig_cloud.Refills.Routes.{
  same_request_id, same_active_key, attempt, attempts, prepare, RefillCall, mark_active_users,
  list_active_users, preparing, bind_message, get_active, fail, complete, serve_call, serve_calls,
}

prepare_refill-IsKeyed :
    (env : Env) (req : RefillPrepareRequest) (s : Session)
    → IsSingle s
    → All IsKeyed (prepare_refill env req s).1.refills
unfolding new_refill
prepare_refill-IsKeyed env req s single =
    let s' = before_opening env req s in
    let kept =
      current_refill-IsSingle (get_or req.now_ts env.now) req.date_str req.group_id s single in
    elim (prepare_refill-leaves env req s single) [
      | inl h ↦ rw h kept.0
      | inr (h, free) ↦
          rw h (All-append IsKeyed s'.refills (opened env req s' ∷ []) kept.0 (refl, tt))
    ]

key-alike :
    (date group : ℕ) (x y : RefillRequest)
    → has_active_key date group x ≡ true
    → has_active_key date group y ≡ true
    → same_active_key x y ≡ true
key-alike date group x y h k = elim (Option-cases x.active_key) [
  | inl e ↦
      let no : has_active_key date group x ≡ false = rw e refl in absurd (ground (arith, no, h))
  | inr (key, e) ↦
      let held : has_active_key date group x ≡ (key.0 == date && key.1 == group) = rw e refl in
      let own : (key.0 == date && key.1 == group) ≡ true = sym held ∙ h in
      let on : key.0 ≡ date = ground (arith, own) in
      let of : key.1 ≡ group = ground (arith, own) in
      let same : same_active_key x y ≡ has_active_key key.0 key.1 y = rw e refl in
      same ∙ ap (λ d. has_active_key d key.1 y) on ∙ ap (λ g. has_active_key date g y) of ∙ k
]

-- An attempt that is not refused leaves the keys apart.
attempt-IsSingle :
    (env : Env) (req : RefillPrepareRequest) (s : Session)
    (answer : RefillPrepareResponse × Session)
    → IsSingle s
    → attempt env req s ≡ some answer
    → IsSingle answer.1
unfolding attempt
attempt-IsSingle env req s answer single h =
    let after = (prepare_refill env req s).1.refills in
    elim (Bool-cases (repeats same_request_id after || repeats same_active_key after)) [
      | inl e ↦
          let refused : attempt env req s ≡ none = rw (e, attempt) refl in
          absurd (ground (arith, refused, h))
      | inr e ↦
          let given : attempt env req s ≡ some (prepare_refill env req s) = rw (e, attempt) refl in
          let is : prepare_refill env req s ≡ answer = ground (arith, given, h) in
          let ids : repeats same_request_id after ≡ false = ground (arith, e) in
          let keys : repeats same_active_key after ≡ false = ground (arith, e) in
          rw (sym is) (
            prepare_refill-IsKeyed env req s single,
            (λ date group.
                count_unique same_active_key (has_active_key date group) after
                  (key-alike date group) keys),
            (λ id.
                count_unique same_request_id (has_refill_id id) after
                  (λ x y p q. ground (arith, p, q)) ids),
          )
    ]

attempts-IsSingle :
    (n : ℕ) (envs : ℕ → Env) (req : RefillPrepareRequest) (s : Session)
    (answer : RefillPrepareResponse × Session)
    → IsSingle s
    → attempts n envs req s ≡ some answer
    → IsSingle answer.1
unfolding attempts
attempts-IsSingle zero envs req s answer single h = absurd (ground (arith, h))
attempts-IsSingle (suc n) envs req s answer single h =
    elim (Option-cases (attempt (envs n) req s)) [
      | inl e ↦
          let later : attempts (suc n) envs req s ≡ attempts n envs req s = rw (e, attempts) refl in
          attempts-IsSingle n envs req s answer single (sym later ∙ h)
      | inr (given, e) ↦
          let now : attempts (suc n) envs req s ≡ some given = rw (e, attempts) refl in
          attempt-IsSingle (envs n) req s answer single (e ∙ sym now ∙ h)
    ]

serve_call-IsSingle : (call : RefillCall) (s : Session) → IsSingle s → IsSingle (serve_call call s)
unfolding serve_call prepare mark_group_active_users
serve_call-IsSingle (mark_active_users date group users) s single =
    elim (Bool-cases (is_set group)) [
      | inl e ↦ rw (e, serve_call) single
      | inr e ↦ rw (e, serve_call) single
    ]
serve_call-IsSingle (list_active_users date group) s single = single
serve_call-IsSingle (preparing envs req) s single = elim (Option-cases (attempts 3 envs req s)) [
  | inl e ↦ rw (e, serve_call) single
  | inr (answer, e) ↦ rw (e, serve_call) (attempts-IsSingle 3 envs req s answer single e)
]
serve_call-IsSingle (bind_message now id message) s single =
    bind_refill_message-IsSingle now id message s single
serve_call-IsSingle (get_active now date group) s single =
    get_active_refill-IsSingle now date group s single
serve_call-IsSingle (fail id message reason) s single =
    fail_refill-IsSingle id message reason s single
serve_call-IsSingle (complete env req) s single = complete_refill-IsSingle env req s single

-- Whatever requests the router serves, in any order: if before them each row held the key of its group
-- and day exactly while its vote was open, and no id and no key was held twice, it is so after them.
-- So a group has one open vote of a day at most.
pub serve_calls-IsSingle :
    (calls : List RefillCall) (s : Session) → IsSingle s → IsSingle (serve_calls calls s)
unfolding serve_calls
serve_calls-IsSingle [] s single = single
serve_calls-IsSingle (call ∷ calls) s single =
    serve_calls-IsSingle calls (serve_call call s) (serve_call-IsSingle call s single)
