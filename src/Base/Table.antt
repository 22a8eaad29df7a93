-- ===== src/Base/Table.antt =====
-- Database tables as lists of rows in the order of their ids, with the queries that the code makes.
use Prim.Native.Nat.{ℕ, suc, ◌+◌}
use mathlib.Core.Path.{◌≡◌, refl, ap}
use mathlib.Core.Bool.{Bool, true, false, ◌||◌}
use mathlib.Core.Option.{Option, none, some}
use mathlib.Core.List.{List, [], ◌∷◌, ◌++◌}
use native.Mathlib.Omega.{arith}
use mathlib.Core.Logic.{inl, inr}
use rollpig_cloud.Base.Tests.{Bool-cases, if◌then◌else◌, ◌==◌, is_some}

module _ {ℓ} {A : Type ℓ} where
  abbrev pub length : List A → ℕ
  length [] = 0
  length (x ∷ xs) = suc (length xs)

  -- The first row that passes the test: `scalar_one_or_none`.
  abbrev pub find : (A → Bool) → List A → Option A
  find p [] = none
  find p (x ∷ xs) = if p x then some x else find p xs

  -- The rows that pass the test: `WHERE`.
  abbrev pub select : (A → Bool) → List A → List A
  select p [] = []
  select p (x ∷ xs) = if p x then x ∷ select p xs else select p xs

  -- `UPDATE … SET f WHERE p`
  abbrev pub update : (A → Bool) → (A → A) → List A → List A
  update p f [] = []
  update p f (x ∷ xs) = (if p x then f x else x) ∷ update p f xs

  abbrev pub any : (A → Bool) → List A → Bool
  any p [] = false
  any p (x ∷ xs) = p x || any p xs

  abbrev pub sum_by : (A → ℕ) → List A → ℕ
  sum_by f [] = 0
  sum_by f (x ∷ xs) = f x + sum_by f xs

  abbrev pub All {κ} : (A → Type κ) → List A → Type κ
  All P [] = Unit
  All P (x ∷ xs) = P x × All P xs

-- `x in xs`
abbrev pub contains : ℕ → List ℕ → Bool
contains x = any (λ y. x == y)

module _ {ℓ} {A : Type ℓ} where
  pub length-append : (xs ys : List A) → length (xs ++ ys) ≡ length xs + length ys
  length-append [] ys = omega arith
  length-append (x ∷ xs) ys = omega (arith, length-append xs ys)

  pub length-update : (p : A → Bool) (f : A → A) (xs : List A) → length (update p f xs) ≡ length xs
  length-update p f [] = refl
  length-update p f (x ∷ xs) = ap suc (length-update p f xs)

  pub sum_by-append : (f : A → ℕ) (xs ys : List A) → sum_by f (xs ++ ys) ≡ sum_by f xs + sum_by f ys
  sum_by-append f [] ys = omega arith
  sum_by-append f (x ∷ xs) ys = omega (arith, sum_by-append f xs ys)

  pub select-append :
      (p : A → Bool) (xs ys : List A) → select p (xs ++ ys) ≡ select p xs ++ select p ys
  select-append p [] ys = refl
  select-append p (x ∷ xs) ys = ground (arith, select-append p xs ys)

  pub find-passes : (p : A → Bool) (xs : List A) (a : A) → find p xs ≡ some a → p a ≡ true
  find-passes p [] a h = ground arith
  find-passes p (x ∷ xs) a h = ground (arith, find-passes p xs a)

  pub All-update {κ} :
      (P : A → Type κ) (p : A → Bool) (f : A → A) (xs : List A)
      → ((x : A) → p x ≡ true → P x → P (f x))
      → All P xs
      → All P (update p f xs)
  All-update P p f [] h all = tt
  All-update P p f (x ∷ xs) h all = ground (arith, h x, All-update P p f xs h all.1)

  pub All-append {κ} : (P : A → Type κ) (xs ys : List A) → All P xs → All P ys → All P (xs ++ ys)
  All-append P [] ys h k = k
  All-append P (x ∷ xs) ys h k = (h.0, All-append P xs ys h.1 k)

  pub All-find {κ} :
      (P : A → Type κ) (p : A → Bool) (xs : List A) (a : A) → All P xs → find p xs ≡ some a → P a
  All-find P p [] a all h = ground arith
  All-find P p (x ∷ xs) a all h = ground (arith, All-find P p xs a all.1)

  pub find-append_none :
      (p : A → Bool) (xs ys : List A) → find p xs ≡ none → find p (xs ++ ys) ≡ find p ys
  find-append_none p [] ys h = refl
  find-append_none p (x ∷ xs) ys h = ground (arith, find-append_none p xs ys)

  -- An update that keeps the test true changes what the test finds, and nothing else.
  pub find-update :
      (p : A → Bool) (f : A → A) (xs : List A) (a : A)
      → ((x : A) → p x ≡ true → p (f x) ≡ true)
      → find p xs ≡ some a
      → find p (update p f xs) ≡ some (f a)
  find-update p f [] a keep h = ground arith
  find-update p f (x ∷ xs) a keep h = ground (arith, keep x, find-update p f xs a keep)

  -- Rows that the update does not touch are found as before.
  pub find-update_other :
      (p q : A → Bool) (f : A → A) (xs : List A)
      → ((x : A) → p x ≡ true → (q x ≡ false) × (q (f x) ≡ false))
      → find q (update p f xs) ≡ find q xs
  find-update_other p q f [] apart = refl
  find-update_other p q f (x ∷ xs) apart = ground (arith, apart x, find-update_other p q f xs apart)

  pub find-append_other :
      (q : A → Bool) (xs : List A) (a : A) → q a ≡ false → find q (xs ++ a ∷ []) ≡ find q xs
  find-append_other q [] a h = ground arith
  find-append_other q (x ∷ xs) a h = ground (arith, find-append_other q xs a h)

  pub find-append_one :
      (q : A → Bool) (xs : List A) (a : A)
      → find q (xs ++ a ∷ [])
        ≡ (if is_some (find q xs) then find q xs else if q a then some a else none)
  find-append_one q [] a = refl
  find-append_one q (x ∷ xs) a = ground (arith, find-append_one q xs a)

  pub count-append_one :
      (q : A → Bool) (xs : List A) (a : A)
      → length (select q (xs ++ a ∷ [])) ≡ length (select q xs) + (if q a then 1 else 0)
  count-append_one q [] a = ground arith
  count-append_one q (x ∷ xs) a = ground (arith, count-append_one q xs a)

  -- An update that may change what is asked of every row.
  pub All-update_to {κ μ} :
      (P : A → Type κ) (Q : A → Type μ) (p : A → Bool) (f : A → A) (xs : List A)
      → ((x : A) → p x ≡ true → P x → Q (f x))
      → ((x : A) → p x ≡ false → P x → Q x)
      → All P xs
      → All Q (update p f xs)
  All-update_to P Q p f [] hit miss all = tt
  All-update_to P Q p f (x ∷ xs) hit miss all = elim (Bool-cases (p x)) [
    | inl e ↦ (rw e (hit x e all.0), All-update_to P Q p f xs hit miss all.1)
    | inr e ↦ (rw e (miss x e all.0), All-update_to P Q p f xs hit miss all.1)
  ]

  pub All-map {κ μ} :
      (P : A → Type κ) (Q : A → Type μ) (xs : List A) → ((x : A) → P x → Q x) → All P xs → All Q xs
  All-map P Q [] h all = tt
  All-map P Q (x ∷ xs) h all = (h x all.0, All-map P Q xs h all.1)

  -- If no row passes the test, each row fails it.
  pub All-none {κ} :
      (P : A → Type κ) (p : A → Bool) (xs : List A)
      → any p xs ≡ false
      → All P xs
      → All (λ x. P x × (p x ≡ false)) xs
  All-none P p [] h all = tt
  All-none P p (x ∷ xs) h all = ((all.0, ground arith), All-none P p xs (ground arith) all.1)

  -- Writing the same row again changes nothing.
  pub update-update :
      (p : A → Bool) (a : A) (xs : List A)
      → p a ≡ true
      → update p (λ _. a) (update p (λ _. a) xs) ≡ update p (λ _. a) xs
  update-update p a [] h = refl
  update-update p a (x ∷ xs) h = ground (arith, update-update p a xs h)

  pub any-is_some : (p : A → Bool) (xs : List A) → any p xs ≡ is_some (find p xs)
  any-is_some p [] = refl
  any-is_some p (x ∷ xs) = ground (arith, any-is_some p xs)

  pub any-append_one :
      (p : A → Bool) (xs : List A) (a : A) → any p (xs ++ a ∷ []) ≡ (any p xs || p a)
  any-append_one p [] a = ground arith
  any-append_one p (x ∷ xs) a = ground (arith, any-append_one p xs a)
