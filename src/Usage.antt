-- ===== src/Usage.antt =====
-- services/usage.py: the charges of ordinary roasts and the daily force chance.
-- Time stamps and stored charges are natural numbers; the settings that a client sends are integers.
pub mod Recovery
pub mod Bucket
pub mod Rate
pub mod Wait
pub mod Force
use rollpig_cloud.Base.{
  ℕ, ◌+◌, ◌-◌, ◌*◌, ◌/◌, ◌%◌, min, max, Bool, true, false, ◌&&◌, ◌||◌, not, Option, none, some,
  List, [], ◌∷◌, ◌++◌, ltb, leb, ◌==◌, if◌then◌else◌, is_some, is_value, or_nonzero, get_or, find,
  update, ℤ, clamp, int_or,
}

abbrev pub default_roast_charge_max : ℕ
default_roast_charge_max = 2

abbrev pub default_roast_charge_recover_seconds : ℕ
default_roast_charge_recover_seconds = 28800

pub record UserUsage : Type 0 where
  pub user_id : ℕ
  pub last_roast_ts : Option ℕ
  pub roast_charges : Option ℕ
  pub roast_charge_updated_ts : Option ℕ
  pub last_force_date : Option ℕ

pub record ConsumeRoastResponse : Type 0 where
  pub allowed : Bool
  pub remaining_seconds : ℕ
  pub charges_left : ℕ
  pub max_charges : ℕ
  pub next_recover_seconds : ℕ

unfoldable pub clamp_charge_settings : Option ℤ → Option ℤ → ℕ × ℕ
clamp_charge_settings max_charges recover_seconds = (
  clamp 1 6 (int_or max_charges default_roast_charge_max),
  clamp 60 604800 (int_or recover_seconds default_roast_charge_recover_seconds),
)

state_from_legacy_last_use : ℕ → ℕ → ℕ → ℕ → ℕ × ℕ
state_from_legacy_last_use last_roast_ts now max_charges recover_seconds =
    let recovered = (now - last_roast_ts) / recover_seconds in
    let charges = min max_charges (1 + recovered) in
    if last_roast_ts == 0 then (max_charges, now) else (
      charges,
      if leb max_charges charges then now else last_roast_ts + recovered * recover_seconds,
    )

-- `updated_ts or now_ts`
abbrev pub stamp_or : ℕ → ℕ → ℕ
stamp_or updated now = if updated == 0 then now else updated

pub recover_charges : ℕ → ℕ → ℕ → ℕ → ℕ → ℕ × ℕ
recover_charges charges updated_ts now max_charges recover_seconds =
    let updated = stamp_or updated_ts now in
    let held = min max_charges charges in
    let recovered = (now - updated) / recover_seconds in
    let charges' = min max_charges (held + recovered) in
    if leb max_charges held
    then (max_charges, now)
    else if recovered == 0
    then (held, updated)
    else (charges', if leb max_charges charges' then now else updated + recovered * recover_seconds)

pub next_recover_seconds : ℕ → ℕ → ℕ → ℕ → ℕ → ℕ
next_recover_seconds charges updated_ts now max_charges recover_seconds =
    if leb max_charges charges
    then 0
    else max 1 (recover_seconds - (now - stamp_or updated_ts now) % recover_seconds)

-- The charges and their time stamp that the stored row stands for, before recovery.
pub stored_charges : UserUsage → ℕ → ℕ → ℕ → ℕ × ℕ
unfolding state_from_legacy_last_use
stored_charges usage now charge_max recover_seconds =
    if is_some usage.roast_charges && is_some usage.roast_charge_updated_ts
    then (get_or usage.roast_charges 0, or_nonzero usage.roast_charge_updated_ts now)
    else state_from_legacy_last_use (get_or usage.last_roast_ts 0) now charge_max recover_seconds

-- The body of `consume_roast_usage` on a row that exists.
unfoldable pub consume_charge : UserUsage → ℕ → ℕ → ℕ → ConsumeRoastResponse × UserUsage
unfolding stored_charges recover_charges next_recover_seconds
consume_charge usage now charge_max recover_seconds =
    let (stored, stored_ts) = stored_charges usage now charge_max recover_seconds in
    let (charges, updated_ts) = recover_charges stored stored_ts now charge_max recover_seconds in
    let remaining = next_recover_seconds charges updated_ts now charge_max recover_seconds in
    let spent_ts = (if leb charge_max charges then now else updated_ts) in
    if charges == 0
    then (
      record {
        allowed = false;
        remaining_seconds = remaining;
        charges_left = 0;
        max_charges = charge_max;
        next_recover_seconds = remaining;
      },
      record usage { roast_charges = some charges; roast_charge_updated_ts = some updated_ts },
    )
    else (
      record {
        allowed = true;
        remaining_seconds = 0;
        charges_left = charges - 1;
        max_charges = charge_max;
        next_recover_seconds =
            next_recover_seconds (charges - 1) spent_ts now charge_max recover_seconds;
      },
      record usage {
        last_roast_ts = some now;
        roast_charges = some (charges - 1);
        roast_charge_updated_ts = some spent_ts;
      },
    )

-- A row of a user who has never roasted: `UserUsage(user_id=…)` with the columns left NULL.
abbrev pub new_usage : ℕ → UserUsage
new_usage user = record {
  user_id = user;
  last_roast_ts = none;
  roast_charges = none;
  roast_charge_updated_ts = none;
  last_force_date = none;
}

abbrev pub is_user : ℕ → UserUsage → Bool
is_user user row = row.user_id == user

-- `UserUsage.user_id == user_id`
unfoldable pub find_usage : ℕ → List UserUsage → Option UserUsage
find_usage user = find (is_user user)

-- The first roast: the row is created with one charge spent.
abbrev pub first_charge : ℕ → ℕ → ℕ → ℕ → ConsumeRoastResponse × UserUsage
first_charge user now charge_max recover_seconds = (
  record {
    allowed = true;
    remaining_seconds = 0;
    charges_left = charge_max - 1;
    max_charges = charge_max;
    next_recover_seconds = next_recover_seconds (charge_max - 1) now now charge_max recover_seconds;
  },
  record (new_usage user) {
    last_roast_ts = some now;
    roast_charges = some (charge_max - 1);
    roast_charge_updated_ts = some now;
  },
)

-- `consume_roast_usage`: `clock` is `time.time()`, which a missing or zero `now_ts` stands for.
unfoldable pub consume_roast_usage :
    ℕ → Option ℕ → Option ℤ → Option ℤ → ℕ → List UserUsage → ConsumeRoastResponse × List UserUsage
unfolding clamp_charge_settings next_recover_seconds find_usage
consume_roast_usage user now_ts cooldown_seconds max_charges clock usages =
    let now = or_nonzero now_ts clock in
    let (charge_max, recover_seconds) = clamp_charge_settings max_charges cooldown_seconds in
    elim (find_usage user usages) [
      | none ↦
          let (response, row) = first_charge user now charge_max recover_seconds in
          (response, usages ++ row ∷ [])
      | some usage ↦
          let (response, row) = consume_charge usage now charge_max recover_seconds in
          (response, update (is_user user) (λ _. row) usages)
    ]

-- `consume_force_usage`: one force chance for a user and a day.
pub consume_force_usage : ℕ → ℕ → List UserUsage → Bool × List UserUsage
unfolding find_usage
consume_force_usage user date usages = elim (find_usage user usages) [
  | none ↦ (true, usages ++ record (new_usage user) { last_force_date = some date } ∷ [])
  | some usage ↦
      if is_value usage.last_force_date date
      then (false, usages)
      else (true, update (is_user user) (λ row. record row { last_force_date = some date }) usages)
]
