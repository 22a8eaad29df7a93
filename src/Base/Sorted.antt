-- ===== src/Base/Sorted.antt =====
-- `sorted(…)` and `sorted({…})` of identifiers.
use Prim.Native.Nat.{ℕ, ◌+◌, ◌≤◌, ◌<◌}
use mathlib.Core.Path.{◌≡◌, refl, ap, sym, subst, ◌∙◌}
use mathlib.Core.Logic.{inl, inr}
use mathlib.Core.Bool.{Bool, false, ◌||◌, ◌&&◌}
use mathlib.Core.List.{List, [], ◌∷◌}
use native.Mathlib.Omega.{arith}
use rollpig_cloud.Base.Tests.{if◌then◌else◌, ◌==◌, ltb, is_set, Bool-cases}
use rollpig_cloud.Base.Table.{select, contains}

-- Insertion into a sorted list without repetitions.
unfoldable pub insert_new : ℕ → List ℕ → List ℕ
insert_new x [] = x ∷ []
insert_new x (y ∷ ys) =
    if ltb x y then x ∷ y ∷ ys else if x == y then y ∷ ys else y ∷ insert_new x ys

-- `sorted(set(xs))`
unfoldable pub sorted_set : List ℕ → List ℕ
unfolding insert_new
sorted_set [] = []
sorted_set (x ∷ xs) = insert_new x (sorted_set xs)

-- `sorted({str(x) for x in xs if x})`
unfoldable pub normalized : List ℕ → List ℕ
unfolding sorted_set
normalized xs = sorted_set (select is_set xs)

-- Strictly rising, from above a bound.
abbrev pub Rises : ℕ → List ℕ → Type 0
Rises low [] = Unit
Rises low (x ∷ xs) = (low ≤ x) × Rises (x + 1) xs

insert_new-Rises : (x low : ℕ) (ys : List ℕ) → low ≤ x → Rises low ys → Rises low (insert_new x ys)
unfolding insert_new
insert_new-Rises x low [] h r = (h, tt)
insert_new-Rises x low (y ∷ ys) h r = ground (arith, insert_new-Rises x (y + 1) ys)

pub sorted_set-Rises : (xs : List ℕ) → Rises 0 (sorted_set xs)
unfolding sorted_set
sorted_set-Rises [] = tt
sorted_set-Rises (x ∷ xs) = insert_new-Rises x 0 (sorted_set xs) (omega arith) (sorted_set-Rises xs)

contains-insert_new :
    (z x : ℕ) (ys : List ℕ) → contains z (insert_new x ys) ≡ (z == x || contains z ys)
unfolding insert_new
contains-insert_new z x [] = refl
contains-insert_new z x (y ∷ ys) = ground (arith, contains-insert_new z x ys)

-- Sorting a set neither loses a member nor adds one.
pub contains-sorted_set : (z : ℕ) (xs : List ℕ) → contains z (sorted_set xs) ≡ contains z xs
unfolding sorted_set
contains-sorted_set z [] = refl
contains-sorted_set z (x ∷ xs) =
    ground (arith, contains-insert_new z x (sorted_set xs), contains-sorted_set z xs)

pub contains-select :
    (z : ℕ) (p : ℕ → Bool) (xs : List ℕ) → contains z (select p xs) ≡ (p z && contains z xs)
contains-select z p [] = ground arith
contains-select z p (x ∷ xs) = ground (arith, contains-select z p xs, λ (e : z ≡ x). ap p e)

below : (z low : ℕ) (xs : List ℕ) → z < low → Rises low xs → contains z xs ≡ false
below z low [] h r = refl
below z low (x ∷ xs) h r = ground (arith, below z (x + 1) xs (omega arith) r.1)

heads-le :
    (low x y : ℕ) (xs ys : List ℕ)
    → Rises low (y ∷ ys)
    → contains x (x ∷ xs) ≡ contains x (y ∷ ys)
    → y ≤ x
heads-le low x y xs ys s same = elim (Bool-cases (ltb x y)) [
  | inl less ↦
      let out : contains x (y ∷ ys) ≡ false =
        below x y (y ∷ ys) (ground arith) (omega arith, s.1) in
      absurd (ground (arith, out))
  | inr other ↦ ground arith
]

tails-same :
    (x z : ℕ) (xs ys : List ℕ)
    → Rises (x + 1) xs
    → Rises (x + 1) ys
    → contains z (x ∷ xs) ≡ contains z (x ∷ ys)
    → contains z xs ≡ contains z ys
tails-same x z xs ys r s same = elim (Bool-cases (ltb z (x + 1))) [
  | inl low ↦ below z (x + 1) xs (ground arith) r ∙ sym (below z (x + 1) ys (ground arith) s)
  | inr high ↦ ground arith
]

-- A rising list is determined by its members.
pub Rises-unique :
    (low : ℕ) (xs ys : List ℕ)
    → Rises low xs
    → Rises low ys
    → ((z : ℕ) → contains z xs ≡ contains z ys)
    → xs ≡ ys
Rises-unique low [] [] r s same = refl
Rises-unique low [] (y ∷ ys) r s same = absurd (ground (arith, same y))
Rises-unique low (x ∷ xs) [] r s same = absurd (ground (arith, same x))
Rises-unique low (x ∷ xs) (y ∷ ys) r s same =
    let one = heads-le low x y xs ys s (same x) in
    let two = heads-le low y x ys xs r (sym (same y)) in
    let e : y ≡ x = omega (arith, one, two) in
    let s' : Rises (x + 1) ys = subst (λ z. Rises (z + 1) ys) e s.1 in
    let same' = λ (z : ℕ). tails-same x z xs ys r.1 s' (same z ∙ ap (λ h. contains z (h ∷ ys)) e) in
    λ i. sym e i ∷ Rises-unique (x + 1) xs ys r.1 s' same' i
