-- ===== src/Granting.antt =====
-- routers/protections.py and `sync_pending_protection` of services/protections.py: the protections
-- of a group are granted, replaced and read, and waiting reservations follow them.
pub mod Raised
pub mod Synced
pub mod Replace
use rollpig_cloud.Base.{
  ℕ, ◌+◌, ◌-◌, min, Bool, true, false, not, ◌&&◌, ◌||◌, Option, none, some, List, [], ◌∷◌, ◌++◌,
  ltb, ◌==◌, if◌then◌else◌, is_some, get_or, is_set, find, select, update, any, contains,
  normalized,
}
use rollpig_cloud.Protection.{
  Source, legacy, Sources, no_sources, only_manual, GroupProtection, protection_sources,
  protection_baselines, protection_levels, highest, protection_level, protection_source,
  inherit_global_protection, is_historical_daily_protection,
}
use rollpig_cloud.Store.{
  all_groups, is_super, is_normal, is_pending, pending_notice, RoastReservation, Participant,
  Session,
}
use rollpig_cloud.Reservation.{is_protected_row, activate_in, save}

-- The owner's member row.
abbrev is_owner : RoastReservation → Participant → Bool
is_owner r p = p.reservation_id == r.reservation_id && p.user_id == r.owner_id

-- A paid force chance becomes double fire when the reservation turns into a gathering.
convert_owner : Bool → RoastReservation → Session → Session
convert_owner removed r s =
    if not removed && not (is_set r.protection_required) && is_normal r.force_mode
    then record s {
      participants = update (is_owner r) (λ p. record p { contribution = 2 }) s.participants;
    }
    else s

-- The condition that the protection now sets.
abbrev pub required_now : Bool → GroupProtection → ℕ
required_now removed row = if removed then 0 else 1 + protection_level row

pub retarget : Bool → GroupProtection → RoastReservation → RoastReservation
retarget removed row r = record r {
  protection_required = required_now removed row;
  protection_source = if removed then legacy else protection_source row;
}

-- A reservation that still waits is told again what it lacks, if that has changed.
pub tell_again : ℕ → RoastReservation → RoastReservation
tell_again previous_required r =
    if is_pending r.status && not (previous_required == r.protection_required)
    then record r { waiting_notice = some pending_notice }
    else r

-- If the target has come, the reservation is started if it can be.
pub restart : ℕ → ℕ → Session → RoastReservation → RoastReservation
unfolding tell_again
restart now previous_required s r =
    if is_set r.target_pig_id
    then tell_again previous_required (activate_in r.target_pig_id true now s r).1
    else r

-- One reservation of the loop in `sync_pending_protection`.
sync_one : ℕ → Bool → GroupProtection → RoastReservation → Session → Session
unfolding convert_owner retarget restart
sync_one now removed row r s =
    let s' = convert_owner removed r s in
    if is_super r.force_mode
    then s
    else save (restart now r.protection_required s' (retarget removed row r)) s'

abbrev sync_each : ℕ → Bool → GroupProtection → List RoastReservation → Session → Session
sync_each now removed row [] s = s
sync_each now removed row (r ∷ rs) s = sync_each now removed row rs (sync_one now removed row r s)

-- `group_id or row.group_id`
pub sync_pending_protection : ℕ → GroupProtection → Bool → Option ℕ → Session → Session
unfolding sync_one
sync_pending_protection now row removed group s =
    sync_each now removed row
      (select
        (λ r.
          r.date_str == row.protect_date
          && r.group_id == get_or group row.group_id
          && r.target_id == row.user_id
          && is_pending r.status)
        s.reservations)
      s

-- The row written to the table: updated if it is there, added if not.
pub put_protection : GroupProtection → Session → Session
put_protection row s =
    let same = is_protected_row row.protect_date row.group_id row.user_id in
    if any same s.protections
    then record s { protections = update same (λ _. row) s.protections }
    else record s { protections = s.protections ++ row ∷ [] }

pub record GrantRequest : Type 0 where
  pub group_id : ℕ
  pub user_id : ℕ
  pub level : ℕ
  pub protect_date : ℕ

record GrantResponse : Type 0 where
  pub level : ℕ
  pub changed : Bool

abbrev pub granted_row : GrantRequest → GroupProtection
granted_row req = record {
  protect_date = req.protect_date;
  group_id = req.group_id;
  user_id = req.user_id;
  roast_success_count = 0;
  source_levels = some (only_manual req.level);
  source_baselines = none;
  base_level = req.level;
  consecutive_days = 0;
}

-- A row that was there, or inherited, raised to the level of the request.
pub raise_manual : ℕ → GroupProtection → GroupProtection
unfolding protection_levels
raise_manual level row =
    let raised = ltb (get_or (protection_levels row).manual 0) level in
    let sources =
      (if raised
        then record (protection_sources row) { manual = some level }
        else protection_sources row) in
    let baselines =
      (if raised
        then record (protection_baselines row) { manual = some row.roast_success_count }
        else protection_baselines row) in
    record row {
      source_levels = some sources;
      source_baselines = some baselines;
      base_level = highest sources;
    }

-- The row after a grant, and whether the level rose: of the group's own row and the global one.
pub grant_row :
    GrantRequest → Option GroupProtection → Option GroupProtection → Bool × GroupProtection
unfolding raise_manual inherit_global_protection
grant_row req (some row) global = (ltb (protection_level row) req.level, raise_manual req.level row)
grant_row req none none = (true, granted_row req)
grant_row req none (some old) =
    let row = inherit_global_protection old req.group_id in
    (ltb (protection_level row) req.level, raise_manual req.level row)

-- POST /grant; `none` is the answer 422 for another day than today.
unfoldable grant_protection : ℕ → ℕ → GrantRequest → Session → Option (GrantResponse × Session)
unfolding grant_row put_protection sync_pending_protection
grant_protection today now req s =
    let own = find (is_protected_row req.protect_date req.group_id req.user_id) s.protections in
    let global = find (is_protected_row req.protect_date all_groups req.user_id) s.protections in
    let (changed, row) = grant_row req own global in
    if req.protect_date == today
    then some (
      record { level = protection_level row; changed = changed },
      sync_pending_protection now row false none (put_protection row s),
    )
    else none

record ProtectedResponse : Type 0 where
  pub protected : Bool
  pub base_level : ℕ
  pub level : ℕ
  pub consecutive_days : ℕ
  pub source : Source
  pub daily_base_level : ℕ

abbrev protected_response : Option GroupProtection → ProtectedResponse
protected_response none = record {
  protected = false;
  base_level = 0;
  level = 0;
  consecutive_days = 0;
  source = legacy;
  daily_base_level = 0;
}
protected_response (some row) = record {
  protected = true;
  base_level = row.base_level;
  level = protection_level row;
  consecutive_days = row.consecutive_days;
  source = protection_source row;
  daily_base_level =
      get_or (protection_sources row).daily
        (if is_some row.source_levels then 0 else row.base_level);
}

-- GET /check: the group's own row before the global one.
unfoldable check_protected : ℕ → ℕ → ℕ → Session → ProtectedResponse
check_protected date group user s = elim (find (is_protected_row date group user) s.protections) [
  | some row ↦ protected_response (some row)
  | none ↦ protected_response (find (is_protected_row date all_groups user) s.protections)
]
