-- ===== src/KeyUsage.antt =====
-- services/key_usage.py: how often each key is used, and with what result. The tables are
-- `source_key_identities` and `source_key_daily_usage`.
use rollpig_cloud.Base.{
  ℕ, ◌+◌, Bool, true, false, not, ◌&&◌, ◌||◌, Option, none, some, List, [], ◌∷◌, ◌++◌, ltb, ◌==◌,
  if◌then◌else◌, any, update, ℤ, pos, negsuc,
}
pub mod Totals
pub mod Exact

pub record ApiKeyIdentity : Type 0 where
  pub key_id : ℕ
  pub name : ℕ

pub record SourceKeyIdentity : Type 0 where
  pub key_id : ℕ
  pub key_name : ℕ

-- The eight counters of a row, and what a call adds to them.
pub record Counters : Type 0 where
  pub authenticated_requests : ℕ
  pub successful_requests : ℕ
  pub successful_mutations : ℕ
  pub failed_requests : ℕ
  pub created_records : ℕ
  pub updated_records : ℕ
  pub deleted_records : ℕ
  pub idempotent_hits : ℕ

pub record SourceKeyDailyUsage : Type 0 where
  pub date_str : ℕ
  pub source_key_id : ℕ
  pub operation : ℕ
  pub counters : Counters

pub record UsageTables : Type 0 where
  pub identities : List SourceKeyIdentity
  pub usages : List SourceKeyDailyUsage

-- A key that is known gets the present name; a new one is added.
pub upsert_identity : ApiKeyIdentity → UsageTables → UsageTables
upsert_identity identity t =
    if any (λ (row : SourceKeyIdentity). row.key_id == identity.key_id) t.identities
    then record t {
      identities =
          update (λ (row : SourceKeyIdentity). row.key_id == identity.key_id)
            (λ row. record row { key_name = identity.name }) t.identities;
    }
    else record t {
      identities =
          t.identities ++ record { key_id = identity.key_id; key_name = identity.name } ∷ [];
    }

-- `field + increment`, for every counter.
pub add_counters : Counters → Counters → Counters
add_counters a b = record {
  authenticated_requests = a.authenticated_requests + b.authenticated_requests;
  successful_requests = a.successful_requests + b.successful_requests;
  successful_mutations = a.successful_mutations + b.successful_mutations;
  failed_requests = a.failed_requests + b.failed_requests;
  created_records = a.created_records + b.created_records;
  updated_records = a.updated_records + b.updated_records;
  deleted_records = a.deleted_records + b.deleted_records;
  idempotent_hits = a.idempotent_hits + b.idempotent_hits;
}

abbrev pub is_usage : ℕ → ℕ → ℕ → SourceKeyDailyUsage → Bool
is_usage today key operation row =
    row.date_str == today && row.source_key_id == key && row.operation == operation

-- The row of the day, the key and the operation; the three dialects write the same.
pub upsert_daily_usage : ℕ → ApiKeyIdentity → ℕ → Counters → UsageTables → UsageTables
unfolding add_counters
upsert_daily_usage today identity operation increments t =
    if any (is_usage today identity.key_id operation) t.usages
    then record t {
      usages =
          update (is_usage today identity.key_id operation)
            (λ row. record row { counters = add_counters row.counters increments }) t.usages;
    }
    else record t {
      usages =
          t.usages
          ++ record {
            date_str = today;
            source_key_id = identity.key_id;
            operation = operation;
            counters = increments;
          }
            ∷ [];
    }

abbrev one_if : Bool → ℕ
one_if b = if b then 1 else 0

-- What an authenticated request adds; `is_write` is whether its method is in WRITE_METHODS.
pub request_counters : Bool → ℕ → Counters
request_counters is_write status_code = record {
  authenticated_requests = 1;
  successful_requests = one_if (ltb status_code 400);
  successful_mutations = one_if (ltb status_code 400 && is_write);
  failed_requests = one_if (not (ltb status_code 400));
  created_records = 0;
  updated_records = 0;
  deleted_records = 0;
  idempotent_hits = 0;
}

unfoldable pub record_key_request : ℕ → ApiKeyIdentity → Bool → ℕ → ℕ → UsageTables → UsageTables
unfolding upsert_identity upsert_daily_usage request_counters
record_key_request today identity is_write operation status_code t =
    upsert_daily_usage today identity operation (request_counters is_write status_code)
      (upsert_identity identity t)

pub record Outcomes : Type 0 where
  pub created_records : ℤ
  pub updated_records : ℤ
  pub deleted_records : ℤ
  pub idempotent_hits : ℤ

abbrev is_negative : ℤ → Bool
is_negative (pos n) = false
is_negative (negsuc n) = true

abbrev to_nat : ℤ → ℕ
to_nat (pos n) = n
to_nat (negsuc n) = 0

abbrev pub has_negative : Outcomes → Bool
has_negative o =
    is_negative o.created_records
    || is_negative o.updated_records
    || is_negative o.deleted_records
    || is_negative o.idempotent_hits

pub outcome_counters : Outcomes → Counters
outcome_counters o = record {
  authenticated_requests = 0;
  successful_requests = 0;
  successful_mutations = 0;
  failed_requests = 0;
  created_records = to_nat o.created_records;
  updated_records = to_nat o.updated_records;
  deleted_records = to_nat o.deleted_records;
  idempotent_hits = to_nat o.idempotent_hits;
}

-- Without an identity nothing is counted; a negative number is an error, `none`.
unfoldable pub record_key_mutation_outcome :
    ℕ → Option ApiKeyIdentity → ℕ → Outcomes → UsageTables → Option UsageTables
unfolding upsert_identity upsert_daily_usage outcome_counters
record_key_mutation_outcome today none operation o t = some t
record_key_mutation_outcome today (some identity) operation o t =
    if has_negative o
    then none
    else some (
        upsert_daily_usage today identity operation (outcome_counters o)
          (upsert_identity identity t))
