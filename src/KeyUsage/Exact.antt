-- ===== src/KeyUsage/Exact.antt =====
-- Each call of the key usage is counted where it belongs, and nowhere else.
use mathlib.Core.Path.{subst}
use rollpig_cloud.Base.{
  ℕ, ◌≡◌, sym, ap, ◌∙◌, inl, inr, Bool, true, false, ◌&&◌, Option, none, some, List, [], ◌∷◌, ◌==◌,
  if◌then◌else◌, is_some, any, find, arith, Bool-cases, Option-cases, find-update,
  find-update_other, find-append_one, find-append_other, any-is_some,
}
use rollpig_cloud.KeyUsage.{
  ApiKeyIdentity, Counters, SourceKeyDailyUsage, UsageTables, upsert_identity, add_counters,
  is_usage, upsert_daily_usage, request_counters, record_key_request, has_negative,
  outcome_counters, record_key_mutation_outcome,
}
use rollpig_cloud.KeyUsage.Totals.{Call, request, outcome, count_one, count_all, identity-usages}

abbrev no_counters : Counters
no_counters = record {
  authenticated_requests = 0;
  successful_requests = 0;
  successful_mutations = 0;
  failed_requests = 0;
  created_records = 0;
  updated_records = 0;
  deleted_records = 0;
  idempotent_hits = 0;
}

abbrev counters_in : Option SourceKeyDailyUsage → Counters
counters_in none = no_counters
counters_in (some row) = row.counters

-- What the table shows for a day, a key and an operation.
abbrev pub counters_of : ℕ → ℕ → ℕ → UsageTables → Counters
counters_of date key operation t = counters_in (find (is_usage date key operation) t.usages)

-- What a call is worth for a day, a key and an operation: nothing, if it is of others or fails.
abbrev worth_if : Bool → Counters → Counters
worth_if b c = if b then c else no_counters

abbrev is_same : ℕ → ℕ → ℕ → ℕ → ℕ → ℕ → Bool
is_same date key operation date' key' operation' =
    date' == date && key' == key && operation' == operation

abbrev worth : ℕ → ℕ → ℕ → Call → Counters
worth date key operation (request today identity is_write op status_code) =
    worth_if (is_same date key operation today identity.key_id op)
      (request_counters is_write status_code)
worth date key operation (outcome today none op o) = no_counters
worth date key operation (outcome today (some identity) op o) =
    if has_negative o
    then no_counters
    else worth_if (is_same date key operation today identity.key_id op) (outcome_counters o)

abbrev pub worth_of : ℕ → ℕ → ℕ → List Call → Counters
worth_of date key operation [] = no_counters
worth_of date key operation (c ∷ cs) =
    add_counters (worth date key operation c) (worth_of date key operation cs)

add_none : (c : Counters) → add_counters c no_counters ≡ c
unfolding add_counters
add_none c = ground arith

none_add : (c : Counters) → add_counters no_counters c ≡ c
unfolding add_counters
none_add c = ground arith

add_assoc :
    (a b c : Counters) → add_counters (add_counters a b) c ≡ add_counters a (add_counters b c)
unfolding add_counters
add_assoc a b c = ground arith

upsert-own :
    (today operation : ℕ) (identity : ApiKeyIdentity) (c : Counters) (t : UsageTables)
    → counters_of today identity.key_id operation (upsert_daily_usage today identity operation c t)
      ≡ add_counters (counters_of today identity.key_id operation t) c
unfolding upsert_daily_usage
upsert-own today operation identity c t =
    let own = is_usage today identity.key_id operation in
    let known = any-is_some own t.usages in
    elim (Option-cases (find own t.usages)) [
      | inl new ↦
          let e : any own t.usages ≡ false = known ∙ ap is_some new in
          rw (e, find-append_one, new) (ground (arith, none_add c))
      | inr (row, old) ↦
          let e : any own t.usages ≡ true = known ∙ ap is_some old in
          rw (e, old)
            (ap counters_in (
              find-update own (λ r. record r { counters = add_counters r.counters c }) t.usages row
                (λ x p. p) old))
    ]

upsert-other :
    (date key op today operation : ℕ) (identity : ApiKeyIdentity) (c : Counters) (t : UsageTables)
    → is_same date key op today identity.key_id operation ≡ false
    → counters_of date key op (upsert_daily_usage today identity operation c t)
      ≡ counters_of date key op t
unfolding upsert_daily_usage
upsert-other date key op today operation identity c t apart =
    let own = is_usage today identity.key_id operation in
    elim (Bool-cases (any own t.usages)) [
      | inl e ↦ rw e (
          ap counters_in (
            find-update_other own (is_usage date key op) _ t.usages
              (λ x p. (ground arith, ground arith))))
      | inr e ↦
          rw e (ap counters_in (find-append_other (is_usage date key op) t.usages _ (ground arith)))
    ]

-- The row of a call, seen under the same key or another one.
upsert-counters :
    (date key op today operation : ℕ) (identity : ApiKeyIdentity) (c : Counters) (t : UsageTables)
    → counters_of date key op (upsert_daily_usage today identity operation c t)
      ≡ add_counters
          (counters_of date key op t)
          (worth_if (is_same date key op today identity.key_id operation) c)
upsert-counters date key op today operation identity c t =
    elim (Bool-cases (is_same date key op today identity.key_id operation)) [
      | inl same ↦
          let d : today ≡ date = ground arith in
          let k : identity.key_id ≡ key = ground arith in
          let o : operation ≡ op = ground arith in
          let all : ◌≡◌ {A = ℕ × ℕ × ℕ} (today, identity.key_id, operation) (date, key, op) =
            λ i. (d i, k i, o i) in
          rw same (
            subst
              (λ z.
                counters_of z.0 z.1 z.2 (upsert_daily_usage today identity operation c t)
                ≡ add_counters (counters_of z.0 z.1 z.2 t) c)
              all (upsert-own today operation identity c t))
      | inr apart ↦ rw apart (
          upsert-other date key op today operation identity c t apart
          ∙ sym (add_none (counters_of date key op t)))
    ]

with_identity :
    (date key op : ℕ) (identity : ApiKeyIdentity) (t : UsageTables)
    → counters_of date key op (upsert_identity identity t) ≡ counters_of date key op t
with_identity date key op identity t =
    ap (λ z. counters_in (find (is_usage date key op) z)) (identity-usages identity t)

count_one-worth :
    (date key op : ℕ) (call : Call) (t : UsageTables)
    → counters_of date key op (count_one call t)
      ≡ add_counters (counters_of date key op t) (worth date key op call)
unfolding count_one record_key_request record_key_mutation_outcome
count_one-worth date key op (request today identity is_write operation status_code) t =
    let c = request_counters is_write status_code in
    upsert-counters date key op today operation identity c (upsert_identity identity t)
    ∙ ap (λ z. add_counters z (worth_if (is_same date key op today identity.key_id operation) c))
        (with_identity date key op identity t)
count_one-worth date key op (outcome today none operation o) t =
    sym (add_none (counters_of date key op t))
count_one-worth date key op (outcome today (some identity) operation o) t =
    elim (Bool-cases (has_negative o)) [
      | inl e ↦
          rw (e, count_one, record_key_mutation_outcome)
            (sym (add_none (counters_of date key op t)))
      | inr e ↦
          let c = outcome_counters o in
          rw (e, count_one, record_key_mutation_outcome)
            (upsert-counters date key op today operation identity c (upsert_identity identity t)
              ∙ ap
                  (λ z.
                    add_counters z
                      (worth_if (is_same date key op today identity.key_id operation) c))
                  (with_identity date key op identity t))
    ]

-- No call is lost and none is counted twice: after any calls, the counters of a day, a key and an
-- operation are what they were and what the calls of that day, key and operation are worth.
-- A request is worth one request, an outcome the records that it names, and an outcome with a
-- negative number nothing.
pub count_all-worth :
    (date key op : ℕ) (calls : List Call) (t : UsageTables)
    → counters_of date key op (count_all calls t)
      ≡ add_counters (counters_of date key op t) (worth_of date key op calls)
unfolding count_all
count_all-worth date key op [] t = sym (add_none (counters_of date key op t))
count_all-worth date key op (c ∷ cs) t =
    count_all-worth date key op cs (count_one c t)
    ∙ ap (λ z. add_counters z (worth_of date key op cs)) (count_one-worth date key op c t)
    ∙ add_assoc (counters_of date key op t) (worth date key op c) (worth_of date key op cs)
