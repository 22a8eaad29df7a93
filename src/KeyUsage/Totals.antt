-- ===== src/KeyUsage/Totals.antt =====
-- What the counters of key usage add up to.
use mathlib.Core.Path.{subst}
use rollpig_cloud.Base.{
  ℕ, ◌+◌, ◌≤◌, ◌≡◌, sym, inl, inr, Bool, Option, none, some, List, [], ◌∷◌, any, All, All-append,
  All-update, arith, Bool-cases,
}
use rollpig_cloud.KeyUsage.{
  ApiKeyIdentity, Counters, SourceKeyDailyUsage, UsageTables, upsert_identity, add_counters,
  is_usage, upsert_daily_usage, request_counters, record_key_request, Outcomes, has_negative,
  outcome_counters, record_key_mutation_outcome,
}

-- One call of the service.
pub data Call : Type 0 where
  request : ℕ → ApiKeyIdentity → Bool → ℕ → ℕ → Call
  outcome : ℕ → Option ApiKeyIdentity → ℕ → Outcomes → Call

-- A call that fails leaves the tables: its transaction is rolled back.
unfoldable pub count_one : Call → UsageTables → UsageTables
unfolding record_key_request record_key_mutation_outcome
count_one (request today identity is_write operation status_code) t =
    record_key_request today identity is_write operation status_code t
count_one (outcome today identity operation o) t =
    elim (record_key_mutation_outcome today identity operation o t) [ none ↦ t | some t' ↦ t' ]

unfoldable pub count_all : List Call → UsageTables → UsageTables
unfolding count_one
count_all [] t = t
count_all (c ∷ cs) t = count_all cs (count_one c t)

-- Every request has succeeded or failed, and only a success is a successful mutation.
pub record IsBalanced (row : SourceKeyDailyUsage) : Type 0 where
  pub answered :
      row.counters.authenticated_requests
      ≡ row.counters.successful_requests + row.counters.failed_requests
  pub mutations : row.counters.successful_mutations ≤ row.counters.successful_requests

abbrev IsBalancedCounters : Counters → Type 0
IsBalancedCounters c =
    (c.authenticated_requests ≡ c.successful_requests + c.failed_requests)
    × (c.successful_mutations ≤ c.successful_requests)

upsert-IsBalanced :
    (today : ℕ) (identity : ApiKeyIdentity) (operation : ℕ) (c : Counters) (t : UsageTables)
    → IsBalancedCounters c
    → All IsBalanced t.usages
    → All IsBalanced (upsert_daily_usage today identity operation c t).usages
unfolding upsert_daily_usage add_counters
upsert-IsBalanced today identity operation c t b all =
    elim (Bool-cases (any (is_usage today identity.key_id operation) t.usages)) [
      | inl e ↦ rw e (
          All-update IsBalanced (is_usage today identity.key_id operation) _ t.usages
            (λ row p h. record {
              answered = omega (arith, h.answered, b.0);
              mutations = omega (arith, h.mutations, b.1);
            })
            all)
      | inr e ↦
          rw e
            (All-append IsBalanced t.usages _ all (record { answered = b.0; mutations = b.1 }, tt))
    ]

pub identity-usages :
    (identity : ApiKeyIdentity) (t : UsageTables) → (upsert_identity identity t).usages ≡ t.usages
unfolding upsert_identity
identity-usages identity t = ground arith

count_one-IsBalanced :
    (call : Call) (t : UsageTables)
    → All IsBalanced t.usages
    → All IsBalanced (count_one call t).usages
unfolding count_one record_key_request record_key_mutation_outcome request_counters outcome_counters
count_one-IsBalanced (request today identity is_write operation status_code) t all =
    upsert-IsBalanced today identity operation (request_counters is_write status_code)
      (upsert_identity identity t) (ground arith, ground arith)
      (subst (All IsBalanced) (sym (identity-usages identity t)) all)
count_one-IsBalanced (outcome today none operation o) t all = all
count_one-IsBalanced (outcome today (some identity) operation o) t all =
    elim (Bool-cases (has_negative o)) [
      | inl e ↦ rw (e, count_one, record_key_mutation_outcome) all
      | inr e ↦
          rw (e, count_one, record_key_mutation_outcome)
            (upsert-IsBalanced today identity operation (outcome_counters o)
              (upsert_identity identity t) (omega arith, omega arith)
              (subst (All IsBalanced) (sym (identity-usages identity t)) all))
    ]

-- After any calls, in each row the successes and the failures add up to the requests, and the
-- successful mutations are among the successes. The rows were so before.
pub count_all-IsBalanced :
    (calls : List Call) (t : UsageTables)
    → All IsBalanced t.usages
    → All IsBalanced (count_all calls t).usages
unfolding count_all
count_all-IsBalanced [] t all = all
count_all-IsBalanced (c ∷ cs) t all =
    count_all-IsBalanced cs (count_one c t) (count_one-IsBalanced c t all)
