-- ===== src/Shared/Distinct.antt =====
-- A loop that trims texts, refuses one that fails a test and keeps each once; sorted, its result only
-- depends on which texts there are.
use Prim.Native.String.{String}
use mathlib.Core.Path.{◌≡◌, refl, sym, ap, ◌∙◌}
use mathlib.Core.Logic.{◌⊎◌, inl, inr}
use mathlib.Core.Bool.{Bool, true, false, not}
use mathlib.Core.Option.{Option, none, some}
use mathlib.Core.List.{List, [], ◌∷◌, map}
use native.Mathlib.Omega.{arith}
use text.Mathlib.TextEquality.{eq_iff}
use alzette.Shared.Tests.{if◌then◌else◌, Bool-cases, Option-cases}
use alzette.Shared.Lists.{All, contains}
use alzette.Shared.Sort.{In, In-sort}
use alzette.Shared.Order.{
  IsDistinct, IsAscending, IsAscending-same, sort_strings, sort_strings-IsAscending, In-sort-back,
}
use alzette.Shared.Space.{trim_space}

none_ne_some {ℓ} : {A : Type ℓ} {a : A} → let n : Option A = none in n ≡ some a → ⊥
none_ne_some p = cc

some_injective {ℓ} : {A : Type ℓ} {a b : A} → some a ≡ some b → a ≡ b
some_injective p = cc

contains-In : (xs : List String) (x : String) → contains xs x ≡ true → In x xs
contains-In [] x h = absurd cc
contains-In (y ∷ ys) x h = ground (arith, h, eq_iff y x, contains-In ys x)

In-contains : (xs : List String) (x : String) → contains xs x ≡ false → In x xs → ⊥
In-contains [] x h i = i
In-contains (y ∷ ys) x h (inl e) = ground (arith, h, eq_iff y x, sym e)
In-contains (y ∷ ys) x h (inr i) = In-contains ys x (ground (arith, h)) i

module _ (valid : String → Bool) where
  -- `seen` are the texts before. The result is what is new, in order.
  unfoldable pub collect : List String → List String → Option (List String)
  unfolding trim_space
  collect [] seen = some []
  collect (x ∷ xs) seen =
      let value = trim_space x in
      let skipping = collect xs seen in
      let taking = collect xs (value ∷ seen) in
      if not (valid value)
      then none
      else if contains seen value
      then skipping
      else elim taking [ none ↦ none | some rest ↦ some (value ∷ rest) ]

  -- What a run of the loop finds: texts that are not in `seen`, each once; with them, `seen` has the
  -- trimmed values.
  pub record Collects (xs seen rs : List String) : Type 0 where
    pub distinct : IsDistinct rs
    pub new : (z : String) → In z rs → In z seen → ⊥
    pub only : (z : String) → In z rs → In z (map trim_space xs)
    pub every : (z : String) → In z (map trim_space xs) → In z rs ⊎ In z seen

  collect-Collects :
      (xs seen : List String)
      → All (λ x. valid (trim_space x) ≡ true) xs
      → (rs : List String) × (collect xs seen ≡ some rs) × Collects xs seen rs
  unfolding collect
  collect-Collects [] seen h = (
    [],
    refl,
    record { distinct = tt; new = λ z i j. i; only = λ z i. i; every = λ z i. absurd i },
  )
  collect-Collects (x ∷ xs) seen (h0, h) =
      let v = trim_space x in
      elim (Bool-cases (contains seen v)) [
        | inl y ↦
            let (rs, e, c) = collect-Collects xs seen h in
            (
              rs,
              rw (h0, y, collect) e,
              record {
                distinct = c.distinct;
                new = c.new;
                only = λ z i. inr (c.only z i);
                every = λ z i. elim i [
                  | inl p ↦ inr (rw (p) (contains-In seen v y))
                  | inr j ↦ c.every z j
                ];
              },
            )
        | inr n ↦
            let (rs, e, c) = collect-Collects xs (v ∷ seen) h in
            (
              v ∷ rs,
              rw (h0, n, e, collect) refl,
              record {
                distinct = (λ i. c.new v i (inl refl), c.distinct);
                new = λ z i j. elim i [
                  | inl p ↦ In-contains seen v n (rw (p) at j)
                  | inr k ↦ c.new z k (inr j)
                ];
                only = λ z i. elim i [ inl p ↦ inl p | inr k ↦ inr (c.only z k) ];
                every = λ z i. elim i [
                  | inl p ↦ inl (inl p)
                  | inr j ↦ elim (c.every z j) [
                    | inl k ↦ inl (inr k)
                    | inr (inl p) ↦ inl (inl p)
                    | inr (inr k) ↦ inr k
                  ]
                ];
              },
            )
      ]

  collect-valid :
      (xs seen rs : List String)
      → collect xs seen ≡ some rs
      → All (λ x. valid (trim_space x) ≡ true) xs
  unfolding collect
  collect-valid [] seen rs h = tt
  collect-valid (x ∷ xs) seen rs h =
      let v = trim_space x in
      elim (Bool-cases (valid v)) [
        | inr n ↦ absurd (none_ne_some (rw (n, collect) at h))
        | inl y ↦ elim (Bool-cases (contains seen v)) [
          | inl k ↦ (y, collect-valid xs seen rs (rw (y, k, collect) at h))
          | inr k ↦ elim (Option-cases (collect xs (v ∷ seen))) [
            | inl n ↦ absurd (none_ne_some (rw (y, k, n, collect) at h))
            | inr (r, e) ↦ (y, collect-valid xs (v ∷ seen) r e)
          ]
        ]
      ]

  -- The sorted result of the loop, or none if a text fails the test.
  unfoldable pub normalise : List String → Option (List String)
  unfolding collect
  normalise xs = elim (collect xs []) [ none ↦ none | some rs ↦ some (sort_strings rs) ]

  -- The accepted texts, trimmed: ascending, and just those that were given.
  pub record IsNormal (xs rs : List String) : Type 0 where
    pub accepted : All (λ x. valid (trim_space x) ≡ true) xs
    pub ascending : IsAscending rs
    pub only : (z : String) → In z rs → In z (map trim_space xs)
    pub every : (z : String) → In z (map trim_space xs) → In z rs

  pub normalise-IsNormal : (xs rs : List String) → normalise xs ≡ some rs → IsNormal xs rs
  unfolding normalise
  normalise-IsNormal xs rs h = elim (Option-cases (collect xs [])) [
    | inl n ↦ absurd (none_ne_some (rw (n, normalise) at h))
    | inr (r, e) ↦
        let fine = collect-valid xs [] r e in
        let (r', e', c) = collect-Collects xs [] fine in
        let same : sort_strings r' ≡ rs = some_injective (rw (e', normalise) at h) in
        record {
          accepted = fine;
          ascending = rw (← same) (sort_strings-IsAscending r' c.distinct);
          only = λ z i. c.only z (In-sort-back r' z (rw (← same) at i));
          every = λ z i. elim (c.every z i) [
            | inl j ↦ rw (← same) (In-sort _ r' z j)
            | inr j ↦ absurd j
          ];
        }
  ]

  normalise-some :
      (xs : List String)
      → All (λ x. valid (trim_space x) ≡ true) xs
      → (rs : List String) × (normalise xs ≡ some rs)
  unfolding normalise
  normalise-some xs h =
      let (rs, e, c) = collect-Collects xs [] h in (sort_strings rs, rw (e, normalise) refl)

  In-valid :
      (xs : List String) (z : String)
      → All (λ x. valid (trim_space x) ≡ true) xs
      → In z (map trim_space xs)
      → valid z ≡ true
  In-valid [] z h i = absurd i
  In-valid (x ∷ xs) z h (inl p) = rw (p) h.0
  In-valid (x ∷ xs) z h (inr i) = In-valid xs z h.1 i

  -- Texts of which each is one of the accepted ones are accepted.
  accept :
      (xs ys : List String)
      → ((z : String) → In z (map trim_space ys) → In z (map trim_space xs))
      → All (λ x. valid (trim_space x) ≡ true) xs
      → All (λ x. valid (trim_space x) ≡ true) ys
  accept xs [] f h = tt
  accept xs (y ∷ ys) f h = (
    In-valid xs (trim_space y) h (f (trim_space y) (inl refl)),
    accept xs ys (λ z i. f z (inr i)) h,
  )

  -- The normal form only depends on which texts there are: neither on their order, nor on how often they
  -- are there, nor on the spaces around them.
  pub normalise-same :
      (xs ys : List String)
      → ((z : String) → In z (map trim_space xs) → In z (map trim_space ys))
      → ((z : String) → In z (map trim_space ys) → In z (map trim_space xs))
      → normalise xs ≡ normalise ys
  normalise-same xs ys f g = elim (Option-cases (normalise xs)) [
    | inl n ↦ elim (Option-cases (normalise ys)) [
      | inl m ↦ n ∙ sym m
      | inr (r, m) ↦ absurd (
          none_ne_some
            (sym n ∙ (normalise-some xs (accept ys xs f (normalise-IsNormal ys r m).accepted)).1))
    ]
    | inr (r, n) ↦
        let a = normalise-IsNormal xs r n in
        let (q, m) = normalise-some ys (accept xs ys g a.accepted) in
        let b = normalise-IsNormal ys q m in
        n
        ∙ ap some (
            IsAscending-same r q a.ascending b.ascending (λ z i. b.every z (f z (a.only z i)))
              (λ z i. a.every z (g z (b.only z i))))
        ∙ sym m
  ]
