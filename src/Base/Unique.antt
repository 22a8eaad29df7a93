-- ===== src/Base/Unique.antt =====
-- Unique keys: which rows share one, and what an update of one row does to their number.
use Prim.Native.Nat.{ℕ, ◌+◌, ◌≤◌}
use mathlib.Core.Path.{◌≡◌, refl, ap}
use mathlib.Core.Logic.{inl, inr}
use mathlib.Core.Bool.{Bool, true, false, ◌||◌}
use mathlib.Core.Option.{some}
use mathlib.Core.List.{List, [], ◌∷◌}
use native.Mathlib.Omega.{arith}
use rollpig_cloud.Base.Tests.{if◌then◌else◌, Bool-cases}
use rollpig_cloud.Base.Table.{length, find, select, update, any}

-- Two rows share a key, by a test on two rows.
abbrev pub repeats {ℓ} : {A : Type ℓ} → (A → A → Bool) → List A → Bool
repeats same [] = false
repeats same (x ∷ xs) = any (same x) xs || repeats same xs

-- The number of the rows that pass the test.
abbrev pub count {ℓ} : {A : Type ℓ} → (A → Bool) → List A → ℕ
count p xs = length (select p xs)

module _ {ℓ} {A : Type ℓ} where
  pub any-count : (p : A → Bool) (xs : List A) → count p xs ≡ 0 → any p xs ≡ false
  any-count p [] h = refl
  any-count p (x ∷ xs) h = ground (arith, any-count p xs)

  pub count-any : (p : A → Bool) (xs : List A) → any p xs ≡ false → count p xs ≡ 0
  count-any p [] h = refl
  count-any p (x ∷ xs) h = ground (arith, count-any p xs)

  pub count-find :
      (p r : A → Bool) (xs : List A) (a : A) → find r xs ≡ some a → p a ≡ true → 1 ≤ count p xs
  count-find p r [] a h k = ground arith
  count-find p r (x ∷ xs) a h k = ground (arith, count-find p r xs a)

  update-none : (p : A → Bool) (f : A → A) (xs : List A) → count p xs ≡ 0 → update p f xs ≡ xs
  update-none p f [] h = refl
  update-none p f (x ∷ xs) h = ground (arith, update-none p f xs)

  -- One row is replaced: the count changes by that row alone.
  pub count-replace :
      (q p r : A → Bool) (xs : List A) (a b : A)
      → find r xs ≡ some a
      → p a ≡ true
      → count p xs ≤ 1
      → count q (update p (λ _. b) xs) + (if q a then 1 else 0)
        ≡ count q xs + (if q b then 1 else 0)
  count-replace q p r [] a b h k one = ground arith
  count-replace q p r (x ∷ xs) a b h k one = elim (Bool-cases (r x)) [
    | inl e ↦
        let is : x ≡ a = ground arith in
        let same : update p (λ _. b) xs ≡ xs =
          update-none p (λ _. b) xs (ground (arith, ap p is, k)) in
        rw (is, k, same) (ground arith)
    | inr e ↦
        let rest : find r xs ≡ some a = ground arith in
        let some_there = count-find p r xs a rest k in
        let not_here : p x ≡ false = ground (arith, some_there) in
        let later = count-replace q p r xs a b rest k (ground arith) in
        rw not_here (ground (arith, later))
  ]

  -- Rows that pass the test share a key, so there is one at most.
  pub count_unique :
      (same : A → A → Bool) (p : A → Bool) (xs : List A)
      → ((x y : A) → p x ≡ true → p y ≡ true → same x y ≡ true)
      → repeats same xs ≡ false
      → count p xs ≤ 1
  count_unique same p [] alike h = omega arith
  count_unique same p (x ∷ xs) alike h = elim (Bool-cases (p x)) [
    | inl e ↦
        let others : count p xs ≡ 0 = count-any p xs (none-other xs (ground arith) e) in
        rw e (omega (arith, others))
    | inr e ↦ rw e (count_unique same p xs alike (ground arith))
  ]
    where
      none-other : (ys : List A) → any (same x) ys ≡ false → p x ≡ true → any p ys ≡ false
      none-other [] n e = refl
      none-other (y ∷ ys) n e = ground (arith, none-other ys, alike x y e)

  any_self :
      (same : A → A → Bool) (x : A) (xs : List A)
      → ((y : A) → same x y ≡ true → same x x ≡ true)
      → same x x ≡ false
      → any (same x) xs ≡ false
  any_self same x [] h e = refl
  any_self same x (y ∷ ys) h e = ground (arith, h y, any_self same x ys h e)

  -- No key is shared if each is held once at most.
  pub repeats-counted :
      (same : A → A → Bool) (xs : List A)
      → ((x y : A) → same x y ≡ true → same x x ≡ true)
      → ((x : A) → count (same x) xs ≤ 1)
      → repeats same xs ≡ false
  repeats-counted same [] own h = refl
  repeats-counted same (x ∷ xs) own h =
      let later = repeats-counted same xs own (λ y. ground (arith, h y)) in
      elim (Bool-cases (same x x)) [
        | inl e ↦
            let here : any (same x) xs ≡ false = any-count (same x) xs (ground (arith, h x)) in
            ground (arith, here, later)
        | inr e ↦ ground (arith, any_self same x xs (own x) e, later)
      ]
