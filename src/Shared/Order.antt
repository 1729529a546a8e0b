-- ===== src/Shared/Order.antt =====
-- sort.Strings, and strings that are kept once each. Texts are ordered by the numbers of their
-- characters, which is the order of their bytes in UTF-8.
use Prim.Native.Char.{code}
use Prim.Native.String.{String}
use mathlib.Core.Path.{◌≡◌, refl, sym, ◌∙◌}
use mathlib.Core.Logic.{◌⊎◌, inl, inr}
use mathlib.Core.Bool.{Bool, true, false, ◌&&◌, ◌||◌}
use mathlib.Core.List.{List, [], ◌∷◌}
use native.Mathlib.Omega.{arith}
use text.Mathlib.TextEquality.{Char-path}
use alzette.Shared.Tests.{ltb, eqb, Bool-cases, if_cases}
use alzette.Shared.Lists.{All}
use alzette.Shared.Sort.{In, insert, sort, All-In}

unfoldable pub text_less : String → String → Bool
text_less String.[] String.[] = false
text_less String.[] (String.◌∷◌ d t) = true
text_less (String.◌∷◌ c s) String.[] = false
text_less (String.◌∷◌ c s) (String.◌∷◌ d t) =
    ltb (code c) (code d) || (eqb (code c) (code d) && text_less s t)

abbrev Before : String → String → Type 0
Before s t = text_less s t ≡ true

Before-irreflexive : (s : String) → text_less s s ≡ false
unfolding text_less
Before-irreflexive String.[] = refl
Before-irreflexive (String.◌∷◌ c s) = ground (arith, Before-irreflexive s)

Before-trans : (s t u : String) → Before s t → Before t u → Before s u
unfolding text_less
Before-trans String.[] String.[] u h k = absurd cc
Before-trans String.[] (String.◌∷◌ d t) String.[] h k = absurd cc
Before-trans String.[] (String.◌∷◌ d t) (String.◌∷◌ e u) h k = refl
Before-trans (String.◌∷◌ c s) String.[] u h k = absurd cc
Before-trans (String.◌∷◌ c s) (String.◌∷◌ d t) String.[] h k = absurd cc
Before-trans (String.◌∷◌ c s) (String.◌∷◌ d t) (String.◌∷◌ e u) h k =
    ground (arith, h, k, Before-trans s t u)

Before-total : (s t : String) → Before s t ⊎ ((s ≡ t) ⊎ Before t s)
unfolding text_less
Before-total String.[] String.[] = inr (inl refl)
Before-total String.[] (String.◌∷◌ d t) = inl refl
Before-total (String.◌∷◌ c s) String.[] = inr (inr refl)
Before-total (String.◌∷◌ c s) (String.◌∷◌ d t) = elim (Bool-cases (ltb (code c) (code d))) [
  | inl y ↦ inl (ground (arith, y))
  | inr n ↦ elim (Bool-cases (ltb (code d) (code c))) [
    | inl y ↦ inr (inr (ground (arith, y)))
    | inr m ↦
        let same : code c ≡ code d = ground (arith, n, m) in
        elim (Before-total s t) [
          | inl b ↦ inl (ground (arith, same, b))
          | inr (inl e) ↦ inr (inl (rw (Char-path c d same, e) refl))
          | inr (inr b) ↦ inr (inr (ground (arith, same, b)))
        ]
  ]
]

Before-asymmetric : (s t : String) → Before s t → Before t s → ⊥
Before-asymmetric s t h k = let l = Before-irreflexive s in let m = Before-trans s t s h k in cc

-- Each text is before all that follow it.
abbrev pub IsAscending : List String → Type 0
IsAscending [] = Unit
IsAscending (x ∷ xs) = All (λ y. text_less x y ≡ true) xs × IsAscending xs

-- A text after the head is not the head of a list with the same head.
In-tail :
    (a b : String) (xs ys : List String) (z : String)
    → All (λ y. text_less a y ≡ true) xs
    → a ≡ b
    → In z xs
    → In z (b ∷ ys)
    → In z ys
In-tail a b xs ys z all e i (inl p) =
    let q : text_less a z ≡ true = All-In (λ y. text_less a y ≡ true) xs z all i in
    let r : text_less a z ≡ false = rw (p ∙ sym e) (Before-irreflexive a) in absurd cc
In-tail a b xs ys z all e i (inr j) = j

-- Ascending lists with the same members are the same.
pub IsAscending-same :
    (xs ys : List String)
    → IsAscending xs
    → IsAscending ys
    → ((z : String) → In z xs → In z ys)
    → ((z : String) → In z ys → In z xs)
    → xs ≡ ys
IsAscending-same [] [] h k f g = refl
IsAscending-same [] (y ∷ ys) h k f g = absurd (g y (inl refl))
IsAscending-same (x ∷ xs) [] h k f g = absurd (f x (inl refl))
IsAscending-same (x ∷ xs) (y ∷ ys) h k f g =
    let e : x ≡ y = heads (f x (inl refl)) (g y (inl refl)) in
    let rest : xs ≡ ys =
      IsAscending-same xs ys h.1 k.1 (λ z i. In-tail x y xs ys z h.0 e i (f z (inr i)))
        (λ z i. In-tail y x ys xs z k.0 (sym e) i (g z (inr i))) in
    rw (e, rest) refl
  where
    heads : (x ≡ y) ⊎ In x ys → (y ≡ x) ⊎ In y xs → x ≡ y
    heads (inl e) j = e
    heads (inr i) (inl e) = sym e
    heads (inr i) (inr j) =
        absurd (Before-asymmetric x y (All-In _ xs y h.0 j) (All-In _ ys x k.0 i))

-- sort.Strings
abbrev pub sort_strings : List String → List String
sort_strings = sort text_less

All-insert :
    (P : String → Type 0) (x : String) (ys : List String)
    → P x
    → All P ys
    → All P (insert text_less x ys)
unfolding insert
All-insert P x [] p h = (p, tt)
All-insert P x (y ∷ ys) p h =
    if_cases (All P) (text_less x y) _ _ (p, h) (h.0, All-insert P x ys p h.1)

All-map :
    (P Q : String → Type 0) (xs : List String) → ((z : String) → P z → Q z) → All P xs → All Q xs
All-map P Q [] f h = tt
All-map P Q (x ∷ xs) f h = (f x h.0, All-map P Q xs f h.1)

insert-IsAscending :
    (x : String) (ys : List String)
    → (In x ys → ⊥)
    → IsAscending ys
    → IsAscending (insert text_less x ys)
unfolding insert
insert-IsAscending x [] new h = (tt, tt)
insert-IsAscending x (y ∷ ys) new h = elim (Bool-cases (text_less x y)) [
  | inl b ↦ rw (b, insert) ((b, All-map _ _ ys (λ z k. Before-trans x y z b k) h.0), h)
  | inr n ↦
      rw (n, insert)
        (
          All-insert _ x ys (after (Before-total x y) n) h.0,
          insert-IsAscending x ys (λ i. new (inr i)) h.1,
        )
]
  where
    after : Before x y ⊎ ((x ≡ y) ⊎ Before y x) → text_less x y ≡ false → Before y x
    after (inl b) n = absurd cc
    after (inr (inl e)) n = absurd (new (inl e))
    after (inr (inr b)) n = b

-- No text stands in the list twice.
abbrev pub IsDistinct : List String → Type 0
IsDistinct [] = Unit
IsDistinct (x ∷ xs) = (In x xs → ⊥) × IsDistinct xs

In-insert-back :
    (x z : String) (ys : List String) → In z (insert text_less x ys) → (z ≡ x) ⊎ In z ys
unfolding insert
In-insert-back x z [] i = i
In-insert-back x z (y ∷ ys) i = ground (arith, i, In-insert-back x z ys)

pub In-sort-back : (xs : List String) (z : String) → In z (sort_strings xs) → In z xs
unfolding sort
In-sort-back [] z i = i
In-sort-back (x ∷ xs) z i = elim (In-insert-back x z (sort_strings xs) i) [
  | inl e ↦ inl e
  | inr j ↦ inr (In-sort-back xs z j)
]

pub sort_strings-IsAscending : (xs : List String) → IsDistinct xs → IsAscending (sort_strings xs)
unfolding sort
sort_strings-IsAscending [] h = tt
sort_strings-IsAscending (x ∷ xs) h =
    insert-IsAscending x (sort_strings xs) (λ i. h.0 (In-sort-back xs x i))
      (sort_strings-IsAscending xs h.1)
