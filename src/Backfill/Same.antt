-- ===== src/Backfill/Same.antt =====
-- The readers of growth see no difference between a backfilled database and one that is not.
use mathlib.Core.Path.{fun_ext}
use rollpig_cloud.Base.{
  ℕ, ◌≡◌, refl, sym, ◌∙◌, inl, inr, true, ◌||◌, Option, none, some, List, [], ◌∷◌, ◌++◌, map, any,
  contains, find, arith, Bool-cases, any-is_some, any-append_one, find-append_one, Rises-unique,
  sorted_set,
}
use rollpig_cloud.Store.{Collection, UserPigProgress, UserDrawState, Session}
use rollpig_cloud.Progress.{
  is_progress, is_collection, is_draw_state, streak_of, get_progress, get_collection,
  get_draw_state,
}
use rollpig_cloud.Progress.Answers.{PigProgressItem, pigs_of, item_of, build_draw_state_response}
use rollpig_cloud.Progress.Shown.{build_draw_state_response-pigs}
use rollpig_cloud.Backfill.{backfill_progress, backfill_draw_states, backfill}

abbrev view : Option UserPigProgress → PigProgressItem
view none = record { copies = 1; growth_bonus = 0 }
view (some row) = record { copies = row.copies; growth_bonus = row.growth_bonus }

abbrev first_copy : Collection → UserPigProgress
first_copy c = record { user_id = c.user_id; pig_id = c.pig_id; copies = 1; growth_bonus = 0 }

backfill-view :
    (user pig : ℕ) (cs : List Collection) (rows : List UserPigProgress)
    → view (find (is_progress user pig) (backfill_progress cs rows))
      ≡ view (find (is_progress user pig) rows)
unfolding backfill_progress
backfill-view user pig [] rows = refl
backfill-view user pig (c ∷ cs) rows =
    elim (Bool-cases (any (is_progress c.user_id c.pig_id) rows)) [
      | inl old ↦ rw old (backfill-view user pig cs rows)
      | inr new ↦ rw new (
          backfill-view user pig cs (rows ++ first_copy c ∷ [])
          ∙ ground (arith, find-append_one (is_progress user pig) rows (first_copy c)))
    ]

own-known :
    (user pig : ℕ) (c : Collection) (rows : List UserPigProgress)
    → any (is_progress c.user_id c.pig_id) rows ≡ true
    → is_collection user pig c ≡ true
    → any (is_progress user pig) rows ≡ true
own-known user pig c rows known own =
    let u : c.user_id ≡ user = ground arith in
    let p : c.pig_id ≡ pig = ground arith in
    (λ i. any (is_progress (sym u i) (sym p i)) rows) ∙ known

backfill-any :
    (user pig : ℕ) (cs : List Collection) (rows : List UserPigProgress)
    → any (is_progress user pig) (backfill_progress cs rows)
      ≡ (any (is_progress user pig) rows || any (is_collection user pig) cs)
unfolding backfill_progress
backfill-any user pig [] rows = ground arith
backfill-any user pig (c ∷ cs) rows =
    elim (Bool-cases (any (is_progress c.user_id c.pig_id) rows)) [
      | inl old ↦
          rw old (backfill-any user pig cs rows ∙ ground (arith, own-known user pig c rows old))
      | inr new ↦ rw new (
          backfill-any user pig cs (rows ++ first_copy c ∷ [])
          ∙ ground (arith, any-append_one (is_progress user pig) rows (first_copy c)))
    ]

backfill-streak :
    (user : ℕ) (users : List ℕ) (rows : List UserDrawState)
    → streak_of (find (is_draw_state user) (backfill_draw_states users rows))
      ≡ streak_of (find (is_draw_state user) rows)
unfolding backfill_draw_states
backfill-streak user [] rows = refl
backfill-streak user (u ∷ users) rows = elim (Bool-cases (any (is_draw_state u) rows)) [
  | inl old ↦ rw old (backfill-streak user users rows)
  | inr new ↦ rw new (
      backfill-streak user users (rows ++ record { user_id = u; duplicate_streak = 0 } ∷ [])
      ∙ ground (
        arith,
        find-append_one (is_draw_state user) rows (record { user_id = u; duplicate_streak = 0 }),
      ))
]

item-view :
    (user pig : ℕ) (s : Session)
    → item_of user s pig ≡ view (find (is_progress user pig) s.progress)
unfolding item_of get_progress
item-view user pig s = ground arith

backfill-item : (user pig : ℕ) (s : Session) → item_of user (backfill s) pig ≡ item_of user s pig
unfolding backfill
backfill-item user pig s =
    item-view user pig (backfill s)
    ∙ backfill-view user pig s.collections s.progress
    ∙ sym (item-view user pig s)

backfill-listed :
    (user pig : ℕ) (s : Session)
    → contains pig (pigs_of user (backfill s)) ≡ contains pig (pigs_of user s)
unfolding backfill get_progress get_collection build_draw_state_response
backfill-listed user pig s =
    let before = (build_draw_state_response-pigs user pig s).0 in
    let after = (build_draw_state_response-pigs user pig (backfill s)).0 in
    let grown = any-is_some (is_progress user pig) (backfill_progress s.collections s.progress) in
    let was = any-is_some (is_progress user pig) s.progress in
    let owned = any-is_some (is_collection user pig) s.collections in
    after
    ∙ ground (arith, grown, was, owned, backfill-any user pig s.collections s.progress)
    ∙ sym before

-- The backfill changes nothing that is read: the draw state of every user is the same with the rows
-- that it adds and without them, where the reader counts a collected pig as one copy.
pub backfill-draw_state :
    (user : ℕ) (s : Session)
    → build_draw_state_response user (backfill s) ≡ build_draw_state_response user s
unfolding build_draw_state_response get_draw_state backfill
backfill-draw_state user s =
    let pigs : pigs_of user (backfill s) ≡ pigs_of user s =
      Rises-unique 0 _ _ (build_draw_state_response-pigs user 0 (backfill s)).1
        (build_draw_state_response-pigs user 0 s).1 (λ z. backfill-listed user z s) in
    let items : item_of user (backfill s) ≡ item_of user s =
      fun_ext (λ pig. backfill-item user pig s) in
    let streak =
      backfill-streak user (sorted_set (map (λ (c : Collection). c.user_id) s.collections))
        s.draw_states in
    λ i. record {
      pig_ids = pigs i;
      progress = map (λ pig. (pig, items i pig)) (pigs i);
      duplicate_streak = streak i;
    }
