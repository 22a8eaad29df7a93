-- ===== src/Refills/Routes.antt =====
-- routers/roast_refills.py: the transactions in which the votes are served.
use rollpig_cloud.Base.{
  ℕ, zero, suc, Bool, false, ◌||◌, ◌==◌, Option, none, some, List, [], ◌∷◌, if◌then◌else◌, repeats,
}
use rollpig_cloud.Store.{RefillRequest, Session, Env}
use rollpig_cloud.Activity.{mark_group_active_users}
use rollpig_cloud.Refills.{
  has_active_key, RefillPrepareRequest, RefillPrepareResponse, prepare_refill, get_active_refill,
  bind_refill_message, fail_refill,
}
use rollpig_cloud.Refills.Complete.{RefillCompleteRequest, complete_refill}

-- The two unique keys of the table; a missing active key is no key.
abbrev pub same_request_id : RefillRequest → RefillRequest → Bool
same_request_id a b = b.request_id == a.request_id

abbrev pub same_active_key : RefillRequest → RefillRequest → Bool
same_active_key a b = elim a.active_key [ none ↦ false | some key ↦ has_active_key key.0 key.1 b ]

-- One attempt of the route: `none` is an `IntegrityError`, with which the transaction is rolled back.
unfoldable pub attempt :
    Env → RefillPrepareRequest → Session → Option (RefillPrepareResponse × Session)
unfolding prepare_refill
attempt env req s =
    let answer = prepare_refill env req s in
    if repeats same_request_id answer.1.refills || repeats same_active_key answer.1.refills
    then none
    else some answer

-- `for _ in range(3)`: each attempt takes the clock and a new id; `none` is the `RuntimeError`.
unfoldable pub attempts :
    ℕ → (ℕ → Env) → RefillPrepareRequest → Session → Option (RefillPrepareResponse × Session)
unfolding attempt
attempts zero envs req s = none
attempts (suc n) envs req s =
    let rest = attempts n envs req s in
    elim (attempt (envs n) req s) [ none ↦ rest | some answer ↦ some answer ]

-- `prepare`
unfoldable pub prepare :
    (ℕ → Env) → RefillPrepareRequest → Session → Option (RefillPrepareResponse × Session)
unfolding attempts
prepare envs req s = attempts 3 envs req s

-- The requests of the router.
pub data RefillCall : Type 0 where
  mark_active_users : ℕ → ℕ → List ℕ → RefillCall
  list_active_users : ℕ → ℕ → RefillCall
  preparing : (ℕ → Env) → RefillPrepareRequest → RefillCall
  bind_message : ℕ → ℕ → ℕ → RefillCall
  get_active : ℕ → ℕ → ℕ → RefillCall
  fail : ℕ → ℕ → ℕ → RefillCall
  complete : Env → RefillCompleteRequest → RefillCall

-- What a request leaves in the tables.
unfoldable pub serve_call : RefillCall → Session → Session
unfolding mark_group_active_users prepare bind_refill_message get_active_refill fail_refill
    complete_refill
serve_call (mark_active_users date group users) s = mark_group_active_users date group users s
serve_call (list_active_users date group) s = s
serve_call (preparing envs req) s = elim (prepare envs req s) [ none ↦ s | some answer ↦ answer.1 ]
serve_call (bind_message now id message) s = (bind_refill_message now id message s).1
serve_call (get_active now date group) s = (get_active_refill now date group s).1
serve_call (fail id message reason) s = (fail_refill id message reason s).1
serve_call (complete env req) s = (complete_refill env req s).1

unfoldable pub serve_calls : List RefillCall → Session → Session
unfolding serve_call
serve_calls [] s = s
serve_calls (call ∷ calls) s = serve_calls calls (serve_call call s)
