-- ===== src/Shared/Sort.antt =====
-- `sort.Slice` by a strict order. It promises an ordered permutation, in no particular order of
-- equal elements: insertion gives one such result.
use Prim.Native.Nat.{ℕ, zero, suc}
use mathlib.Core.Path.{◌≡◌, refl}
use mathlib.Core.Logic.{◌⊎◌, inl, inr}
use mathlib.Core.Bool.{Bool, true, false}
use mathlib.Core.List.{List, [], ◌∷◌}
use native.Mathlib.Omega.{arith}
use alzette.Shared.Tests.{if◌then◌else◌, Bool-cases}
use alzette.Shared.Lists.{length, take, keep, All}

-- Membership, which the tactics take apart.
abbrev pub In : {A : Type 0} → A → List A → Type 0
In x [] = ⊥
In x (y ∷ ys) = (x ≡ y) ⊎ In x ys

module _ {A : Type 0} where
  pub All-In : (P : A → Type 0) (xs : List A) (x : A) → All P xs → In x xs → P x
  All-In P [] x h i = absurd i
  All-In P (y ∷ ys) x h (inl e) = ground (arith, h.0)
  All-In P (y ∷ ys) x h (inr i) = All-In P ys x h.1 i

  pub keep-All : (p : A → Bool) (xs : List A) → All (λ x. p x ≡ true) (keep p xs)
  keep-All p [] = tt
  keep-All p (x ∷ xs) = ground (arith, keep-All p xs)

  pub In-keep : (p : A → Bool) (xs : List A) (x : A) → In x xs → p x ≡ true → In x (keep p xs)
  In-keep p [] x i h = absurd i
  In-keep p (y ∷ ys) x i h = ground (arith, In-keep p ys x)

module _ {A : Type 0} (less : A → A → Bool) where
  unfoldable pub insert : A → List A → List A
  insert x [] = x ∷ []
  insert x (y ∷ ys) = if less x y then x ∷ y ∷ ys else y ∷ insert x ys

  unfoldable pub sort : List A → List A
  unfolding insert
  sort [] = []
  sort (x ∷ xs) = insert x (sort xs)

  -- No element is strictly before one that stands to its left.
  abbrev pub IsOrdered : List A → Type 0
  IsOrdered [] = Unit
  IsOrdered (x ∷ xs) = All (λ y. less y x ≡ false) xs × IsOrdered xs

module _ {A : Type 0} (less : A → A → Bool) where
  length-insert : (x : A) (xs : List A) → length (insert less x xs) ≡ suc (length xs)
  unfolding insert
  length-insert x [] = refl
  length-insert x (y ∷ ys) = ground (arith, length-insert x ys)

  pub length-sort : (xs : List A) → length (sort less xs) ≡ length xs
  unfolding sort
  length-sort [] = refl
  length-sort (x ∷ xs) = omega (arith, length-insert x (sort less xs), length-sort xs)

  In-insert : (x z : A) (xs : List A) → (z ≡ x) ⊎ In z xs → In z (insert less x xs)
  unfolding insert
  In-insert x z [] i = i
  In-insert x z (y ∷ ys) i = ground (arith, In-insert x z ys)

  pub In-sort : (xs : List A) (z : A) → In z xs → In z (sort less xs)
  unfolding sort
  In-sort [] z i = i
  In-sort (x ∷ xs) z (inl e) = In-insert x z (sort less xs) (inl e)
  In-sort (x ∷ xs) z (inr i) = In-insert x z (sort less xs) (inr (In-sort xs z i))

  All-insert : (P : A → Type 0) (x : A) (xs : List A) → P x → All P xs → All P (insert less x xs)
  unfolding insert
  All-insert P x [] p h = (p, tt)
  All-insert P x (y ∷ ys) p h = elim (Bool-cases (less x y)) [
    | inl b ↦ rw (b, insert) (p, h)
    | inr b ↦ rw (b, insert) (h.0, All-insert P x ys p h.1)
  ]

  pub All-sort : (P : A → Type 0) (xs : List A) → All P xs → All P (sort less xs)
  unfolding sort
  All-sort P [] h = tt
  All-sort P (x ∷ xs) h = All-insert P x (sort less xs) h.0 (All-sort P xs h.1)

pub All-take : {A : Type 0} (P : A → Type 0) (n : ℕ) (xs : List A) → All P xs → All P (take n xs)
All-take P zero xs h = tt
All-take P (suc n) [] h = tt
All-take P (suc n) (x ∷ xs) h = (h.0, All-take P n xs h.1)

module _ {A : Type 0} (less : A → A → Bool) where
  pub take-IsOrdered : (n : ℕ) (xs : List A) → IsOrdered less xs → IsOrdered less (take n xs)
  take-IsOrdered zero xs h = tt
  take-IsOrdered (suc n) [] h = tt
  take-IsOrdered (suc n) (x ∷ xs) h = (All-take _ n xs h.0, take-IsOrdered n xs h.1)

-- An order by a number.
module _ {A : Type 0} (less : A → A → Bool) (asym : (x y : A) → less x y ≡ true → less y x ≡ false)
    (trans : (x y z : A) → less y x ≡ false → less z y ≡ false → less z x ≡ false) where
  insert-IsOrdered : (x : A) (xs : List A) → IsOrdered less xs → IsOrdered less (insert less x xs)
  unfolding insert
  insert-IsOrdered x [] h = (tt, tt)
  insert-IsOrdered x (y ∷ ys) h = elim (Bool-cases (less x y)) [
    | inl b ↦ rw (b, insert) ((asym x y b, below y ys (asym x y b) h.0), h)
    | inr b ↦
        rw (b, insert)
          (All-insert less (λ z. less z y ≡ false) x ys b h.0, insert-IsOrdered x ys h.1)
  ]
    where
      below :
          (y : A) (zs : List A)
          → less y x ≡ false
          → All (λ z. less z y ≡ false) zs
          → All (λ z. less z x ≡ false) zs
      below y [] e k = tt
      below y (z ∷ zs) e k = (trans x y z e k.0, below y zs e k.1)

  pub sort-IsOrdered : (xs : List A) → IsOrdered less (sort less xs)
  unfolding sort
  sort-IsOrdered [] = tt
  sort-IsOrdered (x ∷ xs) = insert-IsOrdered x (sort less xs) (sort-IsOrdered xs)
