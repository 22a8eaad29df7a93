-- ===== src/Backfill.antt =====
-- tools/backfill_p1a_progress.py: rows of growth for what was collected before growth was kept.
use rollpig_cloud.Base.{
  ℕ, ◌+◌, Bool, List, [], ◌∷◌, ◌++◌, map, ◌==◌, if◌then◌else◌, any, sorted_set,
}
use rollpig_cloud.Store.{Collection, UserPigProgress, UserDrawState, Session}
use rollpig_cloud.Progress.{is_progress, is_draw_state}
pub mod Same

-- The loop over the collections.
pub backfill_progress : List Collection → List UserPigProgress → List UserPigProgress
backfill_progress [] rows = rows
backfill_progress (c ∷ cs) rows = backfill_progress cs (
    if any (is_progress c.user_id c.pig_id) rows
    then rows
    else rows
      ++ record { user_id = c.user_id; pig_id = c.pig_id; copies = 1; growth_bonus = 0 } ∷ [])

-- The loop over the users that were touched.
pub backfill_draw_states : List ℕ → List UserDrawState → List UserDrawState
backfill_draw_states [] rows = rows
backfill_draw_states (user ∷ users) rows = backfill_draw_states users (
    if any (is_draw_state user) rows
    then rows
    else rows ++ record { user_id = user; duplicate_streak = 0 } ∷ [])

-- `main`, on the tables.
pub backfill : Session → Session
unfolding backfill_progress backfill_draw_states sorted_set
backfill s = record s {
  progress = backfill_progress s.collections s.progress;
  draw_states =
      backfill_draw_states (sorted_set (map (λ c. c.user_id) s.collections)) s.draw_states;
}
