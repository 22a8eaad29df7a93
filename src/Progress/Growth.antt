-- ===== src/Progress/Growth.antt =====
-- The books of growth: what `apply_daily_feed` and `apply_created_roll_progress` of
-- services/progress.py do to copies, bonuses and feeds.
use rollpig_cloud.Base.{
  ℕ, ◌+◌, ◌<◌, ◌≡◌, refl, ap, inl, inr, Bool, true, ◌&&◌, some, List, arith, leb, ◌==◌,
  if◌then◌else◌, find, update, select, length, Option-cases, Bool-cases, find-append_one,
  count-append_one, find-update, find-update_other, All, All-append, All-update, All-find,
}
use rollpig_cloud.Store.{SourceType, UserPigProgress, Session}
use rollpig_cloud.Progress.{
  expert_level, max_expert_level, is_feed, is_progress, get_progress, bonus_of, ensure_progress,
  grow, find_roll, present, apply_daily_feed,
}

-- How often a user has fed a pig.
abbrev feeds_of : ℕ → ℕ → Session → ℕ
feeds_of user pig s = length (select (λ row. row.user_id == user && row.pig_id == pig) s.feeds)

-- Every unit of growth bonus is a feed on record, and every progress row has a copy.
pub record IsAccounted (s : Session) : Type 0 where
  pub bonus_is_fed : (user pig : ℕ) → bonus_of (get_progress user pig s) ≡ feeds_of user pig s
  pub has_copies : All (λ row. 0 < row.copies) s.progress

ensure_progress-bonus :
    (user pig : ℕ) (s : Session) (user' pig' : ℕ)
    → let (row, s') = ensure_progress user pig s in
      (get_progress user pig s' ≡ some row)
      × (bonus_of (get_progress user' pig' s') ≡ bonus_of (get_progress user' pig' s))
      × (s'.feeds ≡ s.feeds)
unfolding ensure_progress get_progress
ensure_progress-bonus user pig s user' pig' = ground (
  arith,
  find-append_one (is_progress user pig) s.progress,
  find-append_one (is_progress user' pig') s.progress
      (record { user_id = user; pig_id = pig; copies = 1; growth_bonus = 0 }),
  find-append_one (is_progress user pig) s.progress
      (record { user_id = user; pig_id = pig; copies = 1; growth_bonus = 0 }),
)

ensure_progress-copies :
    (user pig : ℕ) (s : Session)
    → All (λ row. 0 < row.copies) s.progress
    → let (row, s') = ensure_progress user pig s in
      (0 < row.copies) × All (λ row. 0 < row.copies) s'.progress
unfolding ensure_progress get_progress
ensure_progress-copies user pig s all =
    elim (Option-cases (find (is_progress user pig) s.progress)) [
      | inl e ↦
          rw (e, ensure_progress)
            (omega arith, All-append (λ row. 0 < row.copies) s.progress _ all (omega arith))
      | inr (row, e) ↦
          rw (e, ensure_progress)
            (All-find (λ row. 0 < row.copies) (is_progress user pig) s.progress row all e, all)
    ]

abbrev with_bonus : ℕ → UserPigProgress → UserPigProgress
with_bonus bonus row = record row { growth_bonus = bonus }

-- Is it the same user and the same pig?
abbrev same_pig : ℕ → ℕ → ℕ → ℕ → Bool
same_pig user pig user' pig' = user == user' && pig == pig'

same_pig-eq :
    (user pig user' pig' : ℕ) → same_pig user pig user' pig' ≡ true → (user ≡ user') × (pig ≡ pig')
same_pig-eq user pig user' pig' h = ground arith

bonus_same :
    (user pig user' pig' : ℕ) (s : Session) (row : UserPigProgress)
    → same_pig user pig user' pig' ≡ true
    → get_progress user pig s ≡ some row
    → bonus_of (get_progress user' pig' s) ≡ row.growth_bonus
bonus_same user pig user' pig' s row h e =
    let (eu, ep) = same_pig-eq user pig user' pig' h in rw (← eu, ← ep) (ap bonus_of e)

update-bonus :
    (user pig bonus user' pig' : ℕ) (rows : List UserPigProgress) (row : UserPigProgress)
    → find (is_progress user pig) rows ≡ some row
    → bonus_of
        (find (is_progress user' pig') (update (is_progress user pig) (with_bonus bonus) rows))
      ≡ (if same_pig user pig user' pig'
          then bonus
          else bonus_of (find (is_progress user' pig') rows))
update-bonus user pig bonus user' pig' rows row e =
    elim (Bool-cases (same_pig user pig user' pig')) [
      | inl same ↦
          let (eu, ep) = same_pig-eq user pig user' pig' same in
          rw (same, ← eu, ← ep)
            (ap bonus_of
              (find-update (is_progress user pig) (with_bonus bonus) rows row (λ x h. h) e))
      | inr other ↦ rw other (
          ap bonus_of (
            find-update_other (is_progress user pig) (is_progress user' pig') (with_bonus bonus)
              rows (λ x h. (ground arith, ground arith))))
    ]

-- Growth adds one to the bonus and one to the feeds of the same user and pig, or nothing to either.
grow-bonus :
    (date user pig : ℕ) (source : SourceType) (source_id : ℕ) (row : UserPigProgress) (s : Session)
    (user' pig' : ℕ)
    → get_progress user pig s ≡ some row
    → let s' = (grow date user pig source source_id (row, s)).1 in
      bonus_of (get_progress user' pig' s') + feeds_of user' pig' s
      ≡ bonus_of (get_progress user' pig' s) + feeds_of user' pig' s'
unfolding grow get_progress
grow-bonus date user pig source source_id row s user' pig' e =
    elim (Bool-cases (leb max_expert_level (expert_level row.copies row.growth_bonus))) [
      | inl full ↦ rw (full, grow) refl
      | inr room ↦
          let b = update-bonus user pig (row.growth_bonus + 1) user' pig' s.progress row e in
          rw (room, grow, b, count-append_one)
            (elim (Bool-cases (same_pig user pig user' pig')) [
              | inl same ↦ rw same (omega (arith, bonus_same user pig user' pig' s row same e))
              | inr other ↦ rw other (omega arith)
            ])
    ]

grow-copies :
    (date user pig : ℕ) (source : SourceType) (source_id : ℕ) (row : UserPigProgress) (s : Session)
    → All (λ r. 0 < r.copies) s.progress
    → All (λ r. 0 < r.copies) (grow date user pig source source_id (row, s)).1.progress
unfolding grow
grow-copies date user pig source source_id row s all =
    let kept =
      All-update (λ r. 0 < r.copies) (is_progress user pig) (with_bonus (row.growth_bonus + 1))
        s.progress (λ x h p. p) all in
    elim (Bool-cases (leb max_expert_level (expert_level row.copies row.growth_bonus))) [
      | inl full ↦ rw (full, grow) all
      | inr room ↦ rw (room, grow) kept
    ]

-- A feed request keeps the books: every unit of growth bonus is a feed on record, and every progress
-- row has a copy, whatever the request.
pub apply_daily_feed-IsAccounted :
    (date user : ℕ) (source : SourceType) (source_id : ℕ) (s : Session)
    → IsAccounted s
    → IsAccounted (apply_daily_feed date user source source_id s).1
unfolding apply_daily_feed
apply_daily_feed-IsAccounted date user source source_id s a =
    elim (Option-cases (present (find_roll date user s))) [
      | inl absent ↦ rw (absent, apply_daily_feed) a
      | inr (roll, here) ↦ elim (Option-cases (find (is_feed date user) s.feeds)) [
        | inr (feed, old) ↦ rw (here, old, apply_daily_feed) a
        | inl new ↦
            let (row, s') = ensure_progress user roll.pig_id s in
            let copies = ensure_progress-copies user roll.pig_id s a.has_copies in
            rw (here, new, apply_daily_feed)
              (record {
                bonus_is_fed = λ u p.
                    let e = ensure_progress-bonus user roll.pig_id s u p in
                    omega (
                      arith,
                      grow-bonus date user roll.pig_id source source_id row s' u p e.0,
                      e.1,
                      ap (λ l. length (select (λ r. r.user_id == u && r.pig_id == p) l)) e.2,
                      a.bonus_is_fed u p,
                    );
                has_copies = grow-copies date user roll.pig_id source source_id row s' copies.1;
              })
      ]
    ]
