-- ===== src/Groups/Seen.antt =====
-- What a group has seen of a user stays as it was first seen.
use rollpig_cloud.Base.{
  ℕ, ◌≡◌, refl, sym, ap, ◌∙◌, inl, inr, Bool, true, false, ◌&&◌, ◌||◌, Option, none, some, List, [],
  ◌∷◌, ◌++◌, map, ◌==◌, ==_refl, if◌then◌else◌, is_set, is_some, any, contains, find, select, arith,
  Bool-cases, Option-cases, any-is_some, any-append_one, find-append_one, contains-sorted_set,
  contains-select, normalized,
}
use rollpig_cloud.Store.{GroupRoll, RoastEvent, ActiveUser, Session}
use rollpig_cloud.Activity.{
  is_active, mark_user, mark_users, mark_group_active_users, get_group_active_user_ids,
}
use rollpig_cloud.Groups.{
  GroupRollMarkSeenRequest, is_seen, add_seen, mark_seen, GroupRollItem, to_item, get_group_rolls,
  get_active_groups,
}

abbrev of_user : ℕ → GroupRollItem → Bool
of_user user item = item.user_id == user

-- The entry of a user in the list of a group.
abbrev pub shown_pig : ℕ → ℕ → ℕ → Session → Option GroupRollItem
shown_pig group user date s = find (of_user user) (get_group_rolls group date s)

abbrev item_in : Option GroupRoll → Option GroupRollItem
item_in none = none
item_in (some row) = some (to_item row)

find-listed :
    (group user date : ℕ) (rows : List GroupRoll)
    → find
        (of_user user)
        (map to_item (select (λ row. row.group_id == group && row.date_str == date) rows))
      ≡ item_in (find (is_seen group user date) rows)
find-listed group user date [] = refl
find-listed group user date (r ∷ rows) = ground (arith, find-listed group user date rows)

mark-rolls :
    (date group : ℕ) (users : List ℕ) (s : Session)
    → ((mark_group_active_users date group users s).group_rolls ≡ s.group_rolls)
      × ((mark_group_active_users date group users s).events ≡ s.events)
unfolding mark_group_active_users
mark-rolls date group users s = ground arith

any-mark_user :
    (date group user u : ℕ) (rows : List ActiveUser)
    → any (is_active date group user) (mark_user date group u rows)
      ≡ (any (is_active date group user) rows || user == u)
any-mark_user date group user u rows = elim (Bool-cases (any (is_active date group u) rows)) [
  | inr new ↦ rw new (
      any-append_one (is_active date group user) rows
        (record { date_str = date; group_id = group; user_id = u })
      ∙ ground (arith, ==_refl date, ==_refl group))
  | inl old ↦ rw old (elim (Bool-cases (user == u)) [
    | inr other ↦ rw other (ground arith)
    | inl same ↦
        let e : u ≡ user = ground arith in
        let there : any (is_active date group user) rows ≡ true =
          ap (λ z. any (is_active date group z) rows) (sym e) ∙ old in
        ground (arith, there)
  ])
]

any-mark_users :
    (date group user : ℕ) (users : List ℕ) (rows : List ActiveUser)
    → any (is_active date group user) (mark_users date group users rows)
      ≡ (any (is_active date group user) rows || contains user users)
any-mark_users date group user [] rows = ground arith
any-mark_users date group user (u ∷ users) rows =
    any-mark_users date group user users (mark_user date group u rows)
    ∙ ground (arith, any-mark_user date group user u rows)

listed-active :
    (date group user : ℕ) (rows : List ActiveUser)
    → contains user (
        map
          (λ row. row.user_id)
          (select (λ row. row.date_str == date && row.group_id == group) rows))
      ≡ any (is_active date group user) rows
listed-active date group user [] = refl
listed-active date group user (r ∷ rows) = ground (arith, listed-active date group user rows)

contains-normalized :
    (z : ℕ) (xs : List ℕ) → contains z (normalized xs) ≡ (is_set z && contains z xs)
unfolding normalized
contains-normalized z xs = contains-sorted_set z (select is_set xs) ∙ contains-select z is_set xs

marked-active :
    (date group user : ℕ) (s : Session)
    → is_set group ≡ true
    → is_set user ≡ true
    → contains user
        (get_group_active_user_ids date group (mark_group_active_users date group (user ∷ []) s))
      ≡ true
unfolding mark_group_active_users get_group_active_user_ids
marked-active date group user s g u =
    rw (g, mark_group_active_users)
      (contains-sorted_set user _
        ∙ listed-active date group user _
        ∙ any-mark_users date group user (normalized (user ∷ [])) s.active_users
        ∙ ground (arith, contains-normalized user (user ∷ []), u, ==_refl user))

add_seen-found :
    (req : GroupRollMarkSeenRequest) (rows : List GroupRoll)
    → let seen = is_seen req.group_id req.user_id req.date_str in
      item_in (find seen (add_seen req rows)) ≡ (
        if is_some (item_in (find seen rows))
        then item_in (find seen rows)
        else some (record { user_id = req.user_id; pig_id = req.pig_id }))
unfolding add_seen
add_seen-found req rows =
    let seen = is_seen req.group_id req.user_id req.date_str in
    let known = any-is_some seen rows in
    elim (Option-cases (find seen rows)) [
      | inl e ↦
          let new : any seen rows ≡ false = known ∙ ap is_some e in
          rw (new, find-append_one, e)
            (ground (arith, ==_refl req.group_id, ==_refl req.user_id, ==_refl req.date_str))
      | inr (row, e) ↦ let old : any seen rows ≡ true = known ∙ ap is_some e in rw (old, e) refl
    ]

add_seen-there :
    (req : GroupRollMarkSeenRequest) (rows : List GroupRoll)
    → is_some (find (is_seen req.group_id req.user_id req.date_str) (add_seen req rows)) ≡ true
unfolding add_seen
add_seen-there req rows =
    let seen = is_seen req.group_id req.user_id req.date_str in
    sym (any-is_some seen (add_seen req rows)) ∙ elim (Bool-cases (any seen rows)) [
      | inl old ↦ rw old old
      | inr new ↦
          rw (new, any-append_one)
            (ground (arith, ==_refl req.group_id, ==_refl req.user_id, ==_refl req.date_str))
    ]

listed-group :
    (group user date : ℕ) (rows : List GroupRoll)
    → is_some (find (is_seen group user date) rows) ≡ true
    → contains group (map (λ row. row.group_id) (select (λ row. row.date_str == date) rows)) ≡ true
listed-group group user date [] h = h
listed-group group user date (r ∷ rows) h = ground (arith, listed-group group user date rows)

contains-append :
    (x : ℕ) (xs ys : List ℕ) → contains x (xs ++ ys) ≡ (contains x xs || contains x ys)
contains-append x [] ys = refl
contains-append x (y ∷ xs) ys = ground (arith, contains-append x xs ys)

active-group :
    (group user date : ℕ) (s : Session)
    → is_set group ≡ true
    → is_some (find (is_seen group user date) s.group_rolls) ≡ true
    → contains group (get_active_groups date s) ≡ true
unfolding get_active_groups
active-group group user date s g h =
    let events : List ℕ =
      map (λ row. row.group_id) (select (λ (row : RoastEvent). row.date_str == date) s.events) in
    let rolls : List ℕ =
      map (λ row. row.group_id)
        (select (λ (row : GroupRoll). row.date_str == date) s.group_rolls) in
    contains-sorted_set group (select is_set (events ++ rolls))
    ∙ contains-select group is_set (events ++ rolls)
    ∙ ground
        (arith, g, contains-append group events rolls, listed-group group user date s.group_rolls h)

-- A request of a group for a user's pig on a day: the list of the group shows the pig that was seen
-- first, this one if the user had none; the user is active in the group, and the group on the day.
-- The user and the group are named.
pub mark_seen-shown :
    (req : GroupRollMarkSeenRequest) (s : Session)
    → is_set req.group_id ≡ true
    → is_set req.user_id ≡ true
    → let s' = mark_seen req s in
      let before = shown_pig req.group_id req.user_id req.date_str s in
      (shown_pig req.group_id req.user_id req.date_str s' ≡ (
        if is_some before
        then before
        else some (record { user_id = req.user_id; pig_id = req.pig_id })))
      × (contains req.user_id (get_group_active_user_ids req.date_str req.group_id s') ≡ true)
      × (contains req.group_id (get_active_groups req.date_str s') ≡ true)
unfolding mark_seen get_group_rolls
mark_seen-shown req s g u =
    let group = req.group_id in
    let user = req.user_id in
    let date = req.date_str in
    let s₁ = record s { group_rolls = add_seen req s.group_rolls } in
    let s' = mark_group_active_users date group (user ∷ []) s₁ in
    let rolls : s'.group_rolls ≡ add_seen req s.group_rolls =
      (mark-rolls date group (user ∷ []) s₁).0 in
    let before = find-listed group user date s.group_rolls in
    let after =
      ap (λ l. item_in (find (is_seen group user date) l)) rolls
      ∙ add_seen-found req s.group_rolls in
    (
      find-listed group user date s'.group_rolls ∙ after ∙ rw before refl,
      marked-active date group user s₁ g u,
      active-group group user date s' g (
          ap (λ l. is_some (find (is_seen group user date) l)) rolls
          ∙ add_seen-there req s.group_rolls),
    )
