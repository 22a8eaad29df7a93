-- ===== src/LegacyImport.antt =====
-- tools/import_legacy_json.py, the import of the rolls and the collections. The session does not flush by itself
-- (`autoflush=False` in db.py), so the queries see the stored rows and not the pending ones.
use rollpig_cloud.Base.{
  ℕ, Bool, false, ◌&&◌, ◌||◌, Option, none, some, List, [], ◌∷◌, ◌++◌, ◌==◌, not, is_set,
  if◌then◌else◌, any, repeats,
}
use rollpig_cloud.Store.{DailyRoll, GroupRoll, Collection, UserPigProgress, UserDrawState, Session}
use rollpig_cloud.Progress.{is_roll, is_collection, is_progress, is_draw_state}
pub mod Repeated

-- What the session will insert when it commits.
pub record Pending : Type 0 where
  pub rolls : List DailyRoll
  pub group_rolls : List GroupRoll
  pub collections : List Collection
  pub progress : List UserPigProgress
  pub draw_states : List UserDrawState

abbrev legacy_roll : ℕ → ℕ → ℕ → DailyRoll
legacy_roll date user pig = record {
  date_str = date;
  user_id = user;
  pig_id = pig;
  is_new_pig = none;
  previous_copies = none;
  copies_after_roll = none;
  previous_expert_level = none;
  expert_level_after_roll = none;
  collection_size_after_roll = none;
  previous_duplicate_streak = none;
  duplicate_streak_after_roll = none;
  resource_version = none;
  appearance_snapshot = none;
}

-- A roll of `data["history"]`; an entry without a pig is left out.
unfoldable pub add_roll : ℕ → ℕ × ℕ → Session → Pending → Pending
add_roll date (user, pig) s p =
    if not (any (is_roll date user) s.rolls) && is_set pig
    then record p { rolls = p.rolls ++ legacy_roll date user pig ∷ [] }
    else p

abbrev is_group_roll : ℕ → ℕ → ℕ → GroupRoll → Bool
is_group_roll date group user row =
    row.date_str == date && row.group_id == group && row.user_id == user

has_group_roll : ℕ → ℕ → ℕ → Session → Bool
has_group_roll date group user s = any (is_group_roll date group user) s.group_rolls

-- A roll of `data["group_rolls"]`.
unfoldable pub add_group_roll : ℕ → ℕ → ℕ × ℕ → Session → Pending → Pending
unfolding has_group_roll
add_group_roll date group (user, pig) s p =
    if not (has_group_roll date group user s) && is_set pig
    then record p {
      group_rolls =
          p.group_rolls
          ++ record { date_str = date; group_id = group; user_id = user; pig_id = pig } ∷ [];
    }
    else p

-- A loop over the entries of a JSON object, whose body sees the stored rows and adds pending ones.
abbrev pub each {ℓ} :
    {A : Type ℓ} → (A → Session → Pending → Pending) → List A → Session → Pending → Pending
each body [] s p = p
each body (x ∷ xs) s p = each body xs s (body x s p)

unfoldable pub import_history : List (ℕ × List (ℕ × ℕ)) → Session → Pending → Pending
unfolding add_roll
import_history = each (λ day. each (add_roll day.0) day.1)

unfoldable pub import_group_rolls : List (ℕ × List (ℕ × List (ℕ × ℕ))) → Session → Pending → Pending
unfolding add_group_roll
import_group_rolls = each (λ day. each (λ group. each (add_group_roll day.0 group.0) group.1) day.1)

unfoldable pub ensure_pig_progress : ℕ → ℕ → Session → Pending → Pending
ensure_pig_progress user pig s p = if any (is_progress user pig) s.progress then p else record p {
  progress =
      p.progress ++ record { user_id = user; pig_id = pig; copies = 1; growth_bonus = 0 } ∷ [];
}

unfoldable pub ensure_draw_state : ℕ → Session → Pending → Pending
ensure_draw_state user s p = if any (is_draw_state user) s.draw_states then p else record p {
  draw_states = p.draw_states ++ record { user_id = user; duplicate_streak = 0 } ∷ [];
}

unfoldable pub add_collection : ℕ → ℕ → Session → Pending → Pending
add_collection user pig s p =
    if any (is_collection user pig) s.collections
    then p
    else record p { collections = p.collections ++ record { user_id = user; pig_id = pig } ∷ [] }

-- The loop over the pigs of a user.
unfoldable pub import_pigs : ℕ → List ℕ → Session → Pending → Pending
unfolding ensure_pig_progress ensure_draw_state add_collection
import_pigs user [] s p = p
import_pigs user (pig ∷ pigs) s p =
    import_pigs user pigs s
      (ensure_draw_state user s (ensure_pig_progress user pig s (add_collection user pig s p)))

-- The loop over `data["collection"]`.
unfoldable pub import_users : List (ℕ × List ℕ) → Session → Pending → Pending
unfolding import_pigs
import_users [] s p = p
import_users ((user, pigs) ∷ entries) s p = import_users entries s (import_pigs user pigs s p)

abbrev same_roll : DailyRoll → DailyRoll → Bool
same_roll a b = is_roll a.date_str a.user_id b

abbrev same_group_roll : GroupRoll → GroupRoll → Bool
same_group_roll a b = is_group_roll a.date_str a.group_id a.user_id b

abbrev same_collection : Collection → Collection → Bool
same_collection a b = a.user_id == b.user_id && a.pig_id == b.pig_id

abbrev same_progress : UserPigProgress → UserPigProgress → Bool
same_progress a b = a.user_id == b.user_id && a.pig_id == b.pig_id

abbrev pub same_draw_state : UserDrawState → UserDrawState → Bool
same_draw_state a b = a.user_id == b.user_id

-- `session.commit()`: `none` is the error of a unique key, with which nothing is stored.
unfoldable pub commit : Session → Pending → Option Session
commit s p =
    let stored = record s {
      rolls = s.rolls ++ p.rolls;
      group_rolls = s.group_rolls ++ p.group_rolls;
      collections = s.collections ++ p.collections;
      progress = s.progress ++ p.progress;
      draw_states = s.draw_states ++ p.draw_states;
    } in
    if repeats same_draw_state stored.draw_states
      || repeats same_progress stored.progress
      || repeats same_collection stored.collections
      || repeats same_roll stored.rolls
      || repeats same_group_roll stored.group_rolls
    then none
    else some stored

unfoldable pub import_data :
    List (ℕ × List (ℕ × ℕ))
    → List (ℕ × List (ℕ × List (ℕ × ℕ)))
    → List (ℕ × List ℕ)
    → Session
    → Option Session
unfolding import_history import_group_rolls import_users commit
import_data history groups collection s =
    let empty : Pending = record {
      rolls = [];
      group_rolls = [];
      collections = [];
      progress = [];
      draw_states = [];
    } in
    commit s
      (import_users collection s (import_group_rolls groups s (import_history history s empty)))
