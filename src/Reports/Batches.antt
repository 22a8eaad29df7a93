-- ===== src/Reports/Batches.antt =====
-- The batches of user ids that the ranking asks for.
use rollpig_cloud.Base.{
  ℕ, zero, suc, ◌+◌, ◌-◌, ◌*◌, ◌/◌, ◌≤◌, ◌<◌, ◌≡◌, refl, sym, ap, ◌∙◌, ◌||◌, List, [], ◌∷◌, ◌++◌,
  any, contains, length, All, arith, div-mul-add-mod, mod-lt_pos,
}
use rollpig_cloud.Reports.Profiles.{take, drop, slices, user_id_batches, batch_size, is_asked}

abbrev pub concat : List (List ℕ) → List ℕ
concat [] = []
concat (b ∷ bs) = b ++ concat bs

take-append-drop : (n : ℕ) (ids : List ℕ) → take n ids ++ drop n ids ≡ ids
take-append-drop zero ids = refl
take-append-drop (suc n) [] = refl
take-append-drop (suc n) (x ∷ ids) = ap (λ z. x ∷ z) (take-append-drop n ids)

length-drop : (n : ℕ) (ids : List ℕ) → length (drop n ids) ≡ length ids - n
length-drop zero ids = omega arith
length-drop (suc n) [] = omega arith
length-drop (suc n) (x ∷ ids) = omega (arith, length-drop n ids)

length-take-le : (n : ℕ) (ids : List ℕ) → length (take n ids) ≤ n
length-take-le zero ids = omega arith
length-take-le (suc n) [] = omega arith
length-take-le (suc n) (x ∷ ids) = omega (arith, length-take-le n ids)

concat-slices :
    (size rounds : ℕ) (ids : List ℕ)
    → length ids ≤ rounds * size
    → concat (slices size rounds ids) ≡ ids
concat-slices size zero [] h = refl
concat-slices size zero (x ∷ ids) h = absurd (omega arith)
concat-slices size (suc rounds) ids h =
    let rest : length (drop size ids) ≤ rounds * size = grind (arith, length-drop size ids) in
    ap (λ z. take size ids ++ z) (concat-slices size rounds (drop size ids) rest)
    ∙ take-append-drop size ids

slices-le : (size rounds : ℕ) (ids : List ℕ) → All (λ b. length b ≤ size) (slices size rounds ids)
slices-le size zero ids = tt
slices-le size (suc rounds) ids = (length-take-le size ids, slices-le size rounds (drop size ids))

enough_rounds : (n size : ℕ) → 0 < size → n ≤ ((n + size - 1) / size) * size
enough_rounds n size h =
    let whole = div-mul-add-mod (n + size - 1) size h in
    let rest = mod-lt_pos (n + size - 1) size h in omega (arith, whole, rest)

-- Cutting the ids into batches loses none, adds none and keeps their order: the batches put
-- together again are the ids, and none is longer than the size. The size is not 0.
pub user_id_batches-concat :
    (size : ℕ) (ids : List ℕ)
    → 0 < size
    → (concat (user_id_batches size ids) ≡ ids)
      × All (λ b. length b ≤ size) (user_id_batches size ids)
unfolding user_id_batches
user_id_batches-concat size ids h =
    let rounds = (length ids + size - 1) / size in
    (concat-slices size rounds ids (enough_rounds (length ids) size h), slices-le size rounds ids)

contains-append :
    (x : ℕ) (xs ys : List ℕ) → contains x (xs ++ ys) ≡ (contains x xs || contains x ys)
contains-append x [] ys = refl
contains-append x (y ∷ xs) ys = ground (arith, contains-append x xs ys)

contains-concat :
    (x : ℕ) (batches : List (List ℕ)) → contains x (concat batches) ≡ any (contains x) batches
contains-concat x [] = refl
contains-concat x (b ∷ bs) =
    contains-append x b (concat bs) ∙ ap (λ z. contains x b || z) (contains-concat x bs)

-- The queries in batches ask for the users of the request and for no others.
is_asked-contains : (ids : List ℕ) (user : ℕ) → is_asked ids user ≡ contains user ids
unfolding user_id_batches
is_asked-contains ids user =
    sym (contains-concat user (user_id_batches batch_size ids))
    ∙ ap (contains user) (user_id_batches-concat batch_size ids (omega arith)).0
