-- ===== src/Progress/Roll.antt =====
-- What the first roll of a day does to the growth of its pig, `apply_created_roll_progress` of
-- services/progress.py.
use rollpig_cloud.Base.{
  ℕ, ◌+◌, ◌<◌, ◌≡◌, refl, sym, ap, ◌∙◌, inl, inr, true, false, not, ◌&&◌, List, [], ◌∷◌, arith,
  ◌==◌, if◌then◌else◌, find, update, select, length, is_some, Option-cases, find-append_one,
  find-update, All, All-append, All-update, count-append_one,
}
use rollpig_cloud.Store.{UserPigProgress, Session}
use rollpig_cloud.Progress.{
  is_progress, is_collection, is_draw_state, get_progress, get_collection, get_draw_state, bonus_of,
  copies_of, streak_of, expert_level, ensure_collection, set_copies, set_duplicate_streak,
  collection_size, apply_created_roll_progress,
}
use rollpig_cloud.Progress.Growth.{IsAccounted}

abbrev with_copies : ℕ → UserPigProgress → UserPigProgress
with_copies copies row = record row { copies = copies }

update-copies_bonus :
    (user pig copies user' pig' : ℕ) (rows : List UserPigProgress)
    → bonus_of
        (find (is_progress user' pig') (update (is_progress user pig) (with_copies copies) rows))
      ≡ bonus_of (find (is_progress user' pig') rows)
update-copies_bonus user pig copies user' pig' [] = refl
update-copies_bonus user pig copies user' pig' (r ∷ rows) =
    ground (arith, update-copies_bonus user pig copies user' pig' rows)

abbrev new_progress : ℕ → ℕ → ℕ → UserPigProgress
new_progress user pig copies = record {
  user_id = user;
  pig_id = pig;
  copies = copies;
  growth_bonus = 0;
}

-- Setting the copies of one pig: it has them, and no bonus changes.
set_copies-progress :
    (user pig copies : ℕ) (s : Session) (user' pig' : ℕ)
    → let s' = set_copies user pig copies s in
      (copies_of (get_progress user pig s') 1 ≡ copies)
      × (bonus_of (get_progress user' pig' s') ≡ bonus_of (get_progress user' pig' s))
unfolding set_copies get_progress
set_copies-progress user pig copies s user' pig' =
    elim (Option-cases (find (is_progress user pig) s.progress)) [
      | inl e ↦
          rw (e, set_copies)
            (
              ground (
                arith,
                find-append_one (is_progress user pig) s.progress (new_progress user pig copies),
              ),
              ground (
                arith,
                find-append_one (is_progress user' pig') s.progress (new_progress user pig copies),
              ),
            )
      | inr (row, e) ↦
          rw (e, set_copies)
            (
              ap (λ o. copies_of o 1)
                  (find-update (is_progress user pig) (with_copies copies) s.progress row (λ x h. h)
                    e),
              update-copies_bonus user pig copies user' pig' s.progress,
            )
    ]

set_copies-positive :
    (user pig copies : ℕ) (s : Session)
    → 0 < copies
    → All (λ row. 0 < row.copies) s.progress
    → All (λ row. 0 < row.copies) (set_copies user pig copies s).progress
unfolding set_copies get_progress
set_copies-positive user pig copies s pos all =
    let kept =
      All-update (λ row. 0 < row.copies) (is_progress user pig) (with_copies copies) s.progress
        (λ x h p. pos) all in
    let added =
      All-append (λ row. 0 < row.copies) s.progress (new_progress user pig copies ∷ []) all
        (omega arith) in
    ground (arith, kept, added)

-- Which tables the three writes leave alone.
writes-tables :
    (user pig n : ℕ) (s : Session)
    → ((ensure_collection user pig s).progress ≡ s.progress)
      × ((ensure_collection user pig s).feeds ≡ s.feeds)
      × ((set_copies user pig n s).feeds ≡ s.feeds)
      × ((set_copies user pig n s).collections ≡ s.collections)
      × ((set_duplicate_streak user n s).progress ≡ s.progress)
      × ((set_duplicate_streak user n s).feeds ≡ s.feeds)
      × ((set_duplicate_streak user n s).collections ≡ s.collections)
unfolding ensure_collection set_copies set_duplicate_streak
writes-tables user pig n s = ground arith

ensure_collection-size :
    (user pig : ℕ) (s : Session)
    → let s' = ensure_collection user pig s in
      (is_some (get_collection user pig s') ≡ true)
      × (collection_size user s'
          ≡ collection_size user s + (if is_some (get_collection user pig s) then 0 else 1))
unfolding ensure_collection get_collection collection_size
ensure_collection-size user pig s =
    elim (Option-cases (find (is_collection user pig) s.collections)) [
      | inl e ↦
          rw (e, ensure_collection)
            (
              ground (
                arith,
                find-append_one (is_collection user pig) s.collections
                    (record { user_id = user; pig_id = pig }),
              ),
              rw count-append_one (ground arith),
            )
      | inr (row, e) ↦ rw (e, ensure_collection) (ground (arith, e), ground arith)
    ]

set_duplicate_streak-streak :
    (user streak : ℕ) (s : Session)
    → streak_of (get_draw_state user (set_duplicate_streak user streak s)) ≡ streak
unfolding set_duplicate_streak get_draw_state
set_duplicate_streak-streak user streak s =
    elim (Option-cases (find (is_draw_state user) s.draw_states)) [
      | inl e ↦
          rw (e, set_duplicate_streak)
            (ground (
              arith,
              find-append_one (is_draw_state user) s.draw_states
                  (record { user_id = user; duplicate_streak = streak }),
            ))
      | inr (row, e) ↦
          rw (e, set_duplicate_streak)
            (ap streak_of (
              find-update (is_draw_state user) (λ r. record r { duplicate_streak = streak })
                s.draw_states row (λ x h. h) e))
    ]

-- The session after the three writes, and the numbers that are read back from it.
pub created-written :
    (user pig : ℕ) (s : Session)
    → let (r, s') = apply_created_roll_progress user pig s in
      (s'
        ≡ set_duplicate_streak user r.duplicate_streak_after_roll
            (set_copies user pig r.copies_after_roll (ensure_collection user pig s)))
      × (r.collection_size_after_roll ≡ collection_size user s')
      × (r.copies_after_roll ≡ r.previous_copies + 1)
      × (r.expert_level_after_roll
          ≡ expert_level r.copies_after_roll (bonus_of (get_progress user pig s)))
unfolding apply_created_roll_progress
created-written user pig s = (refl, refl, refl, refl)

-- The tables after the roll, by what each of them depends on.
pub created-tables :
    (user pig user' pig' : ℕ) (s : Session)
    → let (r, s') = apply_created_roll_progress user pig s in
      (copies_of (get_progress user pig s') 1 ≡ r.copies_after_roll)
      × (bonus_of (get_progress user' pig' s') ≡ bonus_of (get_progress user' pig' s))
      × (s'.feeds ≡ s.feeds)
      × (s'.collections ≡ (ensure_collection user pig s).collections)
      × (streak_of (get_draw_state user s') ≡ r.duplicate_streak_after_roll)
unfolding get_progress
created-tables user pig user' pig' s =
    let r = (apply_created_roll_progress user pig s).0 in
    let s₁ = ensure_collection user pig s in
    let s₂ = set_copies user pig r.copies_after_roll s₁ in
    let t₁ = writes-tables user pig 0 s in
    let t₂ = writes-tables user pig r.copies_after_roll s₁ in
    let t₃ = writes-tables user pig r.duplicate_streak_after_roll s₂ in
    let p = set_copies-progress user pig r.copies_after_roll s₁ user' pig' in
    rw ((created-written user pig s).0) (
      rw t₃.4 p.0,
      rw t₃.4 (p.1 ∙ ap (λ l. bonus_of (find (is_progress user' pig') l)) t₁.0),
      t₃.5 ∙ t₂.2 ∙ t₁.1,
      t₃.6 ∙ t₂.3,
      set_duplicate_streak-streak user r.duplicate_streak_after_roll s₂,
    )

-- The result, by what the look-ups found.
created-result :
    (user pig : ℕ) (s : Session)
    → let r = (apply_created_roll_progress user pig s).0 in
      let progress = get_progress user pig s in
      let streak = streak_of (get_draw_state user s) in
      (r.is_new_pig ≡ (not (is_some (get_collection user pig s)) && not (is_some progress)))
      × (r.previous_copies ≡ (if r.is_new_pig then 0 else copies_of progress 1))
      × (r.previous_expert_level ≡ expert_level r.previous_copies (bonus_of progress))
      × (r.previous_duplicate_streak ≡ streak)
      × (r.duplicate_streak_after_roll ≡ (if r.is_new_pig then 0 else streak + 1))
unfolding apply_created_roll_progress
created-result user pig s = (refl, refl, refl, refl, refl)

pub created-collection :
    (user pig : ℕ) (s : Session)
    → let s' = (apply_created_roll_progress user pig s).1 in
      (is_some (get_collection user pig s') ≡ true)
      × (collection_size user s'
          ≡ collection_size user s + (if is_some (get_collection user pig s) then 0 else 1))
unfolding get_collection collection_size
created-collection user pig s =
    let e = (created-tables user pig user pig s).3 in
    let size = ensure_collection-size user pig s in (rw e size.0, rw e size.1)

-- A roll is written through: the stored copies, streak and collection are those of the result, the
-- copies grow by one, and the collection grows by one exactly if the pig was not in it.
apply_created_roll_progress-written :
    (user pig : ℕ) (s : Session)
    → let (r, s') = apply_created_roll_progress user pig s in
      (copies_of (get_progress user pig s') 1 ≡ r.previous_copies + 1)
      × (r.copies_after_roll ≡ r.previous_copies + 1)
      × (streak_of (get_draw_state user s') ≡ r.duplicate_streak_after_roll)
      × (is_some (get_collection user pig s') ≡ true)
      × (r.collection_size_after_roll
          ≡ collection_size user s + (if is_some (get_collection user pig s) then 0 else 1))
apply_created_roll_progress-written user pig s =
    let t = created-tables user pig user pig s in
    let w = created-written user pig s in
    let c = created-collection user pig s in (t.0 ∙ w.2, w.2, t.4, c.0, w.1 ∙ c.1)

-- Rolling the same pig again, with nothing in between, goes on where the first roll stopped: the pig
-- is not new, and its copies, its level and the streak start from those that the first roll left.
apply_created_roll_progress-chain :
    (user pig : ℕ) (s : Session)
    → let (r, s') = apply_created_roll_progress user pig s in
      let r' = (apply_created_roll_progress user pig s').0 in
      (r'.is_new_pig ≡ false)
      × (r'.previous_copies ≡ r.copies_after_roll)
      × (r'.previous_expert_level ≡ r.expert_level_after_roll)
      × (r'.previous_duplicate_streak ≡ r.duplicate_streak_after_roll)
      × (r'.duplicate_streak_after_roll ≡ r.duplicate_streak_after_roll + 1)
apply_created_roll_progress-chain user pig s =
    let (r, s') = apply_created_roll_progress user pig s in
    let t = created-tables user pig user pig s in
    let w = created-written user pig s in
    let next = created-result user pig s' in
    let old : (apply_created_roll_progress user pig s').0.is_new_pig ≡ false =
      next.0 ∙ rw (created-collection user pig s).0 in
    let copies = next.1 ∙ rw old t.0 in
    (old, copies, next.2 ∙ rw (copies, t.1, w.3), next.3 ∙ t.4, next.4 ∙ rw (old, t.4))

created-copies :
    (user pig : ℕ) (s : Session)
    → All (λ row. 0 < row.copies) s.progress
    → All (λ row. 0 < row.copies) (apply_created_roll_progress user pig s).1.progress
created-copies user pig s all =
    let r = (apply_created_roll_progress user pig s).0 in
    let s₁ = ensure_collection user pig s in
    let s₂ = set_copies user pig r.copies_after_roll s₁ in
    let w = created-written user pig s in
    rw (w.0, (writes-tables user pig r.duplicate_streak_after_roll s₂).4)
      (set_copies-positive user pig r.copies_after_roll s₁ (omega (arith, w.2))
        (rw (writes-tables user pig 0 s).0 all))

-- A roll keeps the books of growth.
apply_created_roll_progress-IsAccounted :
    (user pig : ℕ) (s : Session)
    → IsAccounted s
    → IsAccounted (apply_created_roll_progress user pig s).1
apply_created_roll_progress-IsAccounted user pig s a = record {
  bonus_is_fed = λ u p.
      let t = created-tables user pig u p s in
      t.1
      ∙ a.bonus_is_fed u p
      ∙ ap (λ l. length (select (λ r. r.user_id == u && r.pig_id == p) l)) (sym t.2);
  has_copies = created-copies user pig s a.has_copies;
}
