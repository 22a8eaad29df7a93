-- ===== src/Usage/Rate.antt =====
-- The rate limit that `consume_roast_usage` of services/usage.py keeps.
use rollpig_cloud.Base.{
  ℕ, suc, ◌+◌, ◌-◌, ◌*◌, ◌≤◌, ◌<◌, ◌≡◌, ap, inl, inr, Bool, true, false, Option, none, some, List,
  [], ◌∷◌, arith, if◌then◌else◌, ℤ, clamp, int_or, find-update, find-append_none, clamp_bounds,
  Option-cases, find-passes,
}
use rollpig_cloud.Usage.{
  UserUsage, consume_charge, consume_roast_usage, find_usage, is_user, default_roast_charge_max,
  default_roast_charge_recover_seconds, first_charge,
}
use rollpig_cloud.Usage.Bucket.{IsBucket, budget, consume_charge-budget}

-- Roasts at the given times by one user with one setting, and how many were allowed.
pub roasts : ℕ → Option ℤ → Option ℤ → List UserUsage → List ℕ → ℕ × List UserUsage
roasts user cooldown limit usages [] = (0, usages)
roasts user cooldown limit usages (t ∷ ts) =
    let (response, usages') = consume_roast_usage user (some t) cooldown limit 0 usages in
    let (n, usages'') = roasts user cooldown limit usages' ts in
    ((if response.allowed then suc n else n), usages'')

-- The times do not fall.
abbrev pub Ascending : ℕ → List ℕ → Type 0
Ascending t [] = Unit
Ascending t (s ∷ ts) = (t ≤ s) × Ascending s ts

abbrev pub last_time : ℕ → List ℕ → ℕ
last_time t [] = t
last_time t (s ∷ ts) = last_time s ts

-- The user's row is missing or is a bucket.
abbrev pub IsReady : ℕ → ℕ → Option UserUsage → Type 0
IsReady m now none = Unit
IsReady m now (some row) = IsBucket m now row

-- A missing row stands for a full bucket.
abbrev budget? : ℕ → ℕ → ℕ → Option UserUsage → ℕ
budget? m r now none = m * r
budget? m r now (some row) = budget m r now row

abbrev pub limit_of : Option ℤ → ℕ
limit_of limit = clamp 1 6 (int_or limit default_roast_charge_max)

abbrev pub interval_of : Option ℤ → ℕ
interval_of cooldown = clamp 60 604800 (int_or cooldown default_roast_charge_recover_seconds)

limits_pos : (limit cooldown : Option ℤ) → (0 < limit_of limit) × (0 < interval_of cooldown)
limits_pos limit cooldown = omega (
  arith,
  (clamp_bounds 1 6 (int_or limit default_roast_charge_max) (omega arith)).0,
  (clamp_bounds 60 604800 (int_or cooldown default_roast_charge_recover_seconds) (omega arith)).0,
)

-- Time that passes adds at most itself to a budget.
budget_later :
    (m r s t : ℕ) (o : Option UserUsage)
    → s ≤ t
    → IsReady m s o
    → IsReady m t o × (budget? m r t o ≤ budget? m r s o + (t - s))
budget_later m r s t none le b = (tt, omega arith)
budget_later m r s t (some row) le b = ground arith

consume_charge-user :
    (row : UserUsage) (now m r : ℕ) → (consume_charge row now m r).1.user_id ≡ row.user_id
unfolding consume_charge
consume_charge-user row now m r = ground arith

-- One call on the table, by whether the user has a row.
consume_roast_usage-new :
    (user t : ℕ) (cooldown limit : Option ℤ) (usages : List UserUsage)
    → 0 < t
    → find_usage user usages ≡ none
    → let (response, usages') = consume_roast_usage user (some t) cooldown limit 0 usages in
      let fresh = first_charge user t (limit_of limit) (interval_of cooldown) in
      (find_usage user usages' ≡ some fresh.1) × (response ≡ fresh.0)
unfolding consume_roast_usage find_usage
consume_roast_usage-new user t cooldown limit usages pt e = ground (
  arith,
  find-append_none (is_user user) usages
      ((first_charge user t (limit_of limit) (interval_of cooldown)).1 ∷ []),
)

consume_roast_usage-old :
    (user t : ℕ) (cooldown limit : Option ℤ) (usages : List UserUsage) (row : UserUsage)
    → 0 < t
    → find_usage user usages ≡ some row
    → let (response, usages') = consume_roast_usage user (some t) cooldown limit 0 usages in
      let next = consume_charge row t (limit_of limit) (interval_of cooldown) in
      (find_usage user usages' ≡ some next.1) × (response ≡ next.0)
unfolding consume_roast_usage find_usage
consume_roast_usage-old user t cooldown limit usages row pt e =
    let next = (consume_charge row t (limit_of limit) (interval_of cooldown)).1 in
    let kept : is_user user next ≡ true = ground (
      arith,
      consume_charge-user row t (limit_of limit) (interval_of cooldown),
      find-passes (is_user user) usages row e,
    ) in
    ground (arith, find-update (is_user user) (λ _. next) usages row (λ _ _. kept) e)

first_charge-budget :
    (user t m r : ℕ)
    → 0 < t
    → 0 < m
    → let (response, row) = first_charge user t m r in
      IsBucket m t row × (budget m r t row + (if response.allowed then r else 0) ≤ m * r)
first_charge-budget user t m r pt pm =
    let e : m ≡ suc (m - 1) = omega arith in (ground arith, omega (arith, ap (λ (n : ℕ). n * r) e))

-- One call on the table: the user's row stays a bucket, and pays.
consume_roast_usage-budget :
    (user t : ℕ) (cooldown limit : Option ℤ) (usages : List UserUsage)
    → 0 < t
    → IsReady (limit_of limit) t (find_usage user usages)
    → let m = limit_of limit in
      let r = interval_of cooldown in
      let (response, usages') = consume_roast_usage user (some t) cooldown limit 0 usages in
      IsReady m t (find_usage user usages')
      × (budget? m r t (find_usage user usages') + (if response.allowed then r else 0)
          ≤ budget? m r t (find_usage user usages))
consume_roast_usage-budget user t cooldown limit usages pt b =
    let m = limit_of limit in
    let r = interval_of cooldown in
    let pos = limits_pos limit cooldown in
    elim (Option-cases (find_usage user usages)) [
      | inl e ↦
          let step = consume_roast_usage-new user t cooldown limit usages pt e in
          rw (step.0, step.1, e) (first_charge-budget user t m r pt pos.0)
      | inr (row, e) ↦
          let step = consume_roast_usage-old user t cooldown limit usages row pt e in
          rw (step.0, step.1, e) (consume_charge-budget row t m r pos.0 pos.1 (rw e at b))
    ]

count-price : (b : Bool) (n r : ℕ) → (if b then suc n else n) * r ≡ n * r + (if b then r else 0)
count-price true n r = omega arith
count-price false n r = omega arith

roasts-budget :
    (user t : ℕ) (cooldown limit : Option ℤ) (usages : List UserUsage) (ts : List ℕ)
    → 0 < t
    → IsReady (limit_of limit) t (find_usage user usages)
    → Ascending t ts
    → let r = interval_of cooldown in
      ((roasts user cooldown limit usages ts).0 * r
        ≤ budget? (limit_of limit) r t (find_usage user usages) + (last_time t ts - t))
      × (t ≤ last_time t ts)
unfolding roasts
roasts-budget user t cooldown limit usages [] pt b asc = (omega arith, omega arith)
roasts-budget user t cooldown limit usages (s ∷ ts) pt b asc =
    let r = interval_of cooldown in
    let later = budget_later (limit_of limit) r t s (find_usage user usages) asc.0 b in
    let step = consume_roast_usage-budget user s cooldown limit usages (omega arith) later.0 in
    let usages' = (consume_roast_usage user (some s) cooldown limit 0 usages).1 in
    let rest = roasts-budget user s cooldown limit usages' ts (omega arith) step.0 asc.1 in
    let (response, _) = consume_roast_usage user (some s) cooldown limit 0 usages in
    let n = (roasts user cooldown limit usages' ts).0 in
    (
      omega (arith, step.1, later.1, rest.0, rest.1, count-price response.allowed n r),
      omega (arith, rest.1),
    )

budget?-le : (m r now : ℕ) (o : Option UserUsage) → budget? m r now o ≤ m * r
budget?-le m r now none = omega arith
budget?-le m r now (some row) = omega arith

-- However the calls are spread, the roasts allowed to a user cost at most a full bucket and the time
-- from `t` to the last call: allowed * interval ≤ limit * interval + elapsed. The user has no row
-- yet, or one with at most `limit` charges and a stamp before `t`; the calls are in time order.
pub roasts-rate :
    (user t : ℕ) (cooldown limit : Option ℤ) (usages : List UserUsage) (ts : List ℕ)
    → 0 < t
    → IsReady (limit_of limit) t (find_usage user usages)
    → Ascending t ts
    → (roasts user cooldown limit usages ts).0 * interval_of cooldown
      ≤ limit_of limit * interval_of cooldown + (last_time t ts - t)
roasts-rate user t cooldown limit usages ts pt b asc = omega (
  arith,
  (roasts-budget user t cooldown limit usages ts pt b asc).0,
  budget?-le (limit_of limit) (interval_of cooldown) t (find_usage user usages),
)
