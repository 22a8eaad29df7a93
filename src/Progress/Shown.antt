-- ===== src/Progress/Shown.antt =====
-- What the answers of services/progress.py show.
use rollpig_cloud.Base.{
  ℕ, ◌≡◌, refl, ◌∙◌, inl, inr, Bool, ◌||◌, some, List, [], ◌∷◌, ◌++◌, map, ◌==◌, is_some, contains,
  find, select, arith, Bool-cases, contains-sorted_set, sorted_set-Rises, Rises,
}
use rollpig_cloud.Store.{DailyRoll, Collection, UserPigProgress, Session}
use rollpig_cloud.Progress.{is_progress, is_collection, get_progress, get_collection}
use rollpig_cloud.Progress.Answers.{
  has_growth, historic_response, current_response, build_lookup_response, pigs_of,
  build_draw_state_response,
}

contains-append :
    (x : ℕ) (xs ys : List ℕ) → contains x (xs ++ ys) ≡ (contains x xs || contains x ys)
contains-append x [] ys = refl
contains-append x (y ∷ xs) ys = ground (arith, contains-append x xs ys)

progress-pigs :
    (user pig : ℕ) (rows : List UserPigProgress)
    → contains pig (map (λ row. row.pig_id) (select (λ row. row.user_id == user) rows))
      ≡ is_some (find (is_progress user pig) rows)
progress-pigs user pig [] = refl
progress-pigs user pig (r ∷ rows) = ground (arith, progress-pigs user pig rows)

collection-pigs :
    (user pig : ℕ) (rows : List Collection)
    → contains pig (map (λ row. row.pig_id) (select (λ row. row.user_id == user) rows))
      ≡ is_some (find (is_collection user pig) rows)
collection-pigs user pig [] = refl
collection-pigs user pig (r ∷ rows) = ground (arith, collection-pigs user pig rows)

-- The draw state lists the pigs of the user in order and each once: those that have grown and those
-- that are only collected, and no others.
pub build_draw_state_response-pigs :
    (user pig : ℕ) (s : Session)
    → (contains pig (build_draw_state_response user s).pig_ids
        ≡ (is_some (get_progress user pig s) || is_some (get_collection user pig s)))
      × Rises 0 (build_draw_state_response user s).pig_ids
unfolding build_draw_state_response pigs_of get_progress get_collection
build_draw_state_response-pigs user pig s =
    let grown : List ℕ =
      map (λ row. row.pig_id)
        (select (λ (row : UserPigProgress). row.user_id == user) s.progress) in
    let owned : List ℕ =
      map (λ row. row.pig_id) (select (λ (row : Collection). row.user_id == user) s.collections) in
    (
      contains-sorted_set pig (grown ++ owned) ∙ contains-append pig grown owned ∙ λ i.
          progress-pigs user pig s.progress i || collection-pigs user pig s.collections i,
      sorted_set-Rises (grown ++ owned),
    )

-- The flag `created` is the only thing in which an answer depends on it.
pub build_lookup_response-created :
    (row : DailyRoll) (c d : Bool) (s : Session)
    → build_lookup_response (some row) c s
      ≡ record (build_lookup_response (some row) d s) { created = c }
unfolding build_lookup_response historic_response current_response
build_lookup_response-created row c d s = elim (Bool-cases (has_growth row)) [
  | inl e ↦ rw e refl
  | inr e ↦ rw e refl
]
