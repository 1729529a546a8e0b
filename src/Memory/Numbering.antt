-- ===== src/Memory/Numbering.antt =====
-- The invariant of the ledger's two maps: how attempts are numbered within their request.
use alzette.Shared.{
  ℕ, suc, ◌≤◌, String, ◌==◌, eq_iff, ◌≡◌, ◌≢◌, ◌⊎◌, inl, inr, refl, sym, ◌∙◌, none, some, arith,
  Bool-cases, leb, leb→le,
}
use alzette.Shared.Dict.{Dict, get, put, get-put}
use alzette.Platform.{InferenceRequest, ProviderAttempt}

-- A request that is found, with room for attempt `a`.
abbrev pub Holds : InferenceRequest → ProviderAttempt → Type 0
Holds r a =
    (1 ≤ a.attempt_number)
    × (a.attempt_number ≤ r.attempt_count)
    × (a.target_id ≡ r.bound_target_id)
    × (r.route_id ≢ "")

-- Attempt number `n` of request `i` is in the map.
abbrev pub Recorded : Dict ProviderAttempt → String → ℕ → Type 0
Recorded atts i n =
    (k : String) × (a : ProviderAttempt) × (get atts k ≡ some a)
    × (a.inference_request_id ≡ i)
    × (a.attempt_number ≡ n)

pub record IsNumbered (reqs : Dict InferenceRequest) (atts : Dict ProviderAttempt) : Type 0 where
  pub keyed : (k : String) (r : InferenceRequest) → get reqs k ≡ some r → r.id ≡ k
  pub attempt_keyed : (k : String) (a : ProviderAttempt) → get atts k ≡ some a → a.id ≡ k
  pub owned :
      (k : String) (a : ProviderAttempt)
      → get atts k ≡ some a
      → (r : InferenceRequest) × (get reqs a.inference_request_id ≡ some r) × Holds r a
  pub distinct :
      (k l : String) (a b : ProviderAttempt)
      → get atts k ≡ some a
      → get atts l ≡ some b
      → a.inference_request_id ≡ b.inference_request_id
      → a.attempt_number ≡ b.attempt_number
      → k ≡ l
  pub gapless :
      (i : String) (r : InferenceRequest)
      → get reqs i ≡ some r
      → (n : ℕ) → 1 ≤ n
      → n ≤ r.attempt_count
      → Recorded atts i n

module _ {reqs : Dict InferenceRequest} {atts : Dict ProviderAttempt}
    (v : IsNumbered reqs atts) where
  -- A new request has no attempts.
  pub put_fresh-IsNumbered :
      (k : String) (r : InferenceRequest)
      → get reqs k ≡ none
      → r.id ≡ k
      → r.attempt_count ≡ 0
      → IsNumbered (put reqs k r) atts
  put_fresh-IsNumbered k r missing e count = record {
    keyed = λ j x p. ground (arith, get-put reqs k j r, eq_iff k j, v.keyed j x);
    attempt_keyed = v.attempt_keyed;
    owned = λ j a p.
        let (x, found, held) = v.owned j a p in
        (
          x,
          ground (arith, get-put reqs k a.inference_request_id r, eq_iff k a.inference_request_id),
          held,
        );
    distinct = v.distinct;
    gapless =
        λ i x p n lo hi. v.gapless i x (ground (arith, get-put reqs k i r, eq_iff k i)) n lo hi;
  }

  -- An update that keeps the count, and the binding too unless there is no attempt yet.
  pub put_request-IsNumbered :
      (k : String) (r r' : InferenceRequest)
      → get reqs k ≡ some r
      → r'.id ≡ r.id
      → r'.attempt_count ≡ r.attempt_count
      → ((r'.bound_target_id ≡ r.bound_target_id) × (r'.route_id ≡ r.route_id))
        ⊎ (r.attempt_count ≡ 0)
      → IsNumbered (put reqs k r') atts
  put_request-IsNumbered k r r' found same count bound = record {
    keyed = λ j x p. ground (arith, get-put reqs k j r', eq_iff k j, v.keyed j x, v.keyed k r);
    attempt_keyed = v.attempt_keyed;
    owned = λ j a p. owner a (v.owned j a p);
    distinct = v.distinct;
    gapless = λ i x p n lo hi. recorded i x p n lo hi;
  }
    where
      owner :
          (a : ProviderAttempt)
          → (x : InferenceRequest) × (get reqs a.inference_request_id ≡ some x) × Holds x a
          → (x : InferenceRequest) × (get (put reqs k r') a.inference_request_id ≡ some x)
            × Holds x a
      owner a (x, p, held) = elim (Bool-cases (k == a.inference_request_id)) [
        | inl h ↦ (
          r',
          ground (arith, get-put reqs k a.inference_request_id r'),
          ground (arith, eq_iff k a.inference_request_id),
        )
        | inr h ↦ (x, ground (arith, get-put reqs k a.inference_request_id r'), held)
      ]

      recorded :
          (i : String) (x : InferenceRequest)
          → get (put reqs k r') i ≡ some x
          → (n : ℕ) → 1 ≤ n
          → n ≤ x.attempt_count
          → Recorded atts i n
      recorded i x p n lo hi = elim (Bool-cases (k == i)) [
        | inl h ↦
            v.gapless i r (ground (arith, eq_iff k i)) n lo (ground (arith, get-put reqs k i r'))
        | inr h ↦ v.gapless i x (ground (arith, get-put reqs k i r')) n lo hi
      ]

  -- An update of an attempt that keeps its identity, number and target.
  pub put_attempt-IsNumbered :
      (k : String) (a a' : ProviderAttempt)
      → get atts k ≡ some a
      → a'.id ≡ a.id
      → a'.inference_request_id ≡ a.inference_request_id
      → a'.attempt_number ≡ a.attempt_number
      → a'.target_id ≡ a.target_id
      → IsNumbered reqs (put atts k a')
  put_attempt-IsNumbered k a a' found same of_request number target = record {
    keyed = v.keyed;
    attempt_keyed = λ j x p.
        ground (arith, get-put atts k j a', eq_iff k j, v.attempt_keyed j x, v.attempt_keyed k a);
    owned = λ j b p. owner j b p;
    distinct = λ i j b c p q e f.
        let (b', pb, eb, fb) = original i b p in
        let (c', pc, ec, fc) = original j c q in
        v.distinct i j b' c' pb pc (eb ∙ e ∙ sym ec) (fb ∙ f ∙ sym fc);
    gapless = λ i x p n lo hi. recorded i n (v.gapless i x p n lo hi);
  }
    where
      original :
          (j : String) (b : ProviderAttempt)
          → get (put atts k a') j ≡ some b
          → (c : ProviderAttempt) × (get atts j ≡ some c)
            × (c.inference_request_id ≡ b.inference_request_id)
            × (c.attempt_number ≡ b.attempt_number)
      original j b p = elim (Bool-cases (k == j)) [
        | inl h ↦ (
          a,
          ground (arith, eq_iff k j),
          ground (arith, get-put atts k j a'),
          ground (arith, get-put atts k j a'),
        )
        | inr h ↦ (b, ground (arith, get-put atts k j a'), refl, refl)
      ]

      owner :
          (j : String) (b : ProviderAttempt)
          → get (put atts k a') j ≡ some b
          → (x : InferenceRequest) × (get reqs b.inference_request_id ≡ some x) × Holds x b
      owner j b p = elim (Bool-cases (k == j)) [
        | inl h ↦
            let (x, px, held) = v.owned k a found in
            let e : some a' ≡ some b = ground (arith, get-put atts k j a') in
            (x, ground arith, ground arith)
        | inr h ↦ v.owned j b (ground (arith, get-put atts k j a'))
      ]

      recorded : (i : String) (n : ℕ) → Recorded atts i n → Recorded (put atts k a') i n
      recorded i n (j, b, p, e, f) = elim (Bool-cases (k == j)) [
        | inl h ↦ (
          j,
          a',
          ground (arith, get-put atts k j a'),
          ground (arith, eq_iff k j),
          ground (arith, eq_iff k j),
        )
        | inr h ↦ (j, b, ground (arith, get-put atts k j a'), e, f)
      ]

  -- The next attempt of a bound request is added, and counted.
  pub add_attempt-IsNumbered :
      (k : String) (a : ProviderAttempt) (r r' : InferenceRequest)
      → get atts k ≡ none
      → a.id ≡ k
      → get reqs a.inference_request_id ≡ some r
      → a.attempt_number ≡ suc r.attempt_count
      → a.target_id ≡ r.bound_target_id
      → r.route_id ≢ ""
      → r'.id ≡ r.id
      → r'.attempt_count ≡ suc r.attempt_count
      → r'.bound_target_id ≡ r.bound_target_id
      → r'.route_id ≡ r.route_id
      → IsNumbered (put reqs a.inference_request_id r') (put atts k a)
  add_attempt-IsNumbered k a r r' missing e found number target bound same count same_target
        same_route =
      record {
        keyed = λ j x p. ground (arith, get-put reqs i j r', eq_iff i j, v.keyed j x, v.keyed i r);
        attempt_keyed =
            λ j x p. ground (arith, get-put atts k j a, eq_iff k j, v.attempt_keyed j x);
        owned = λ j b p. owner j b p;
        distinct = λ j l b c p q of_request numbers. same_key j l b c p q of_request numbers;
        gapless = λ j x p n lo hi. recorded j x p n lo hi;
      }
    where
      i : String
      i = a.inference_request_id

      -- An attempt that was there before has a number within the old count.
      older :
          (b : ProviderAttempt)
          → (x : InferenceRequest) × (get reqs b.inference_request_id ≡ some x) × Holds x b
          → b.inference_request_id ≡ i
          → b.attempt_number ≤ r.attempt_count
      older b (x, px, held) h = ground arith

      same_key :
          (j l : String) (b c : ProviderAttempt)
          → get (put atts k a) j ≡ some b
          → get (put atts k a) l ≡ some c
          → b.inference_request_id ≡ c.inference_request_id
          → b.attempt_number ≡ c.attempt_number
          → j ≡ l
      same_key j l b c p q h n = ground (
        arith,
        get-put atts k j a,
        get-put atts k l a,
        eq_iff k j,
        eq_iff k l,
        v.distinct j l b c,
        λ (pb : get atts j ≡ some b). older b (v.owned j b pb),
        λ (pc : get atts l ≡ some c). older c (v.owned l c pc),
      )

      moved :
          (b : ProviderAttempt)
          → (x : InferenceRequest) × (get reqs b.inference_request_id ≡ some x) × Holds x b
          → (x : InferenceRequest) × (get (put reqs i r') b.inference_request_id ≡ some x)
            × Holds x b
      moved b (x, px, held) = elim (Bool-cases (i == b.inference_request_id)) [
        | inl h ↦ (
          r',
          ground (arith, get-put reqs i b.inference_request_id r'),
          ground (arith, eq_iff i b.inference_request_id),
        )
        | inr h ↦ (x, ground (arith, get-put reqs i b.inference_request_id r'), held)
      ]

      owner :
          (j : String) (b : ProviderAttempt)
          → get (put atts k a) j ≡ some b
          → (x : InferenceRequest) × (get (put reqs i r') b.inference_request_id ≡ some x)
            × Holds x b
      owner j b p = elim (Bool-cases (k == j)) [
        | inl h ↦
            let e : some a ≡ some b = ground (arith, get-put atts k j a) in
            (
              r',
              ground (
                arith,
                get-put reqs i b.inference_request_id r',
                eq_iff i b.inference_request_id,
              ),
              ground arith,
            )
        | inr h ↦ moved b (v.owned j b (ground (arith, get-put atts k j a)))
      ]

      lift : (j : String) (n : ℕ) → Recorded atts j n → Recorded (put atts k a) j n
      lift j n (l, b, p, f, g) = (l, b, ground (arith, get-put atts k l a, eq_iff k l), f, g)

      recorded :
          (j : String) (x : InferenceRequest)
          → get (put reqs i r') j ≡ some x
          → (n : ℕ) → 1 ≤ n
          → n ≤ x.attempt_count
          → Recorded (put atts k a) j n
      recorded j x p n lo hi = elim (Bool-cases (i == j)) [
        | inl h ↦ elim (Bool-cases (leb n r.attempt_count)) [
          | inl old ↦ lift j n (v.gapless j r (ground (arith, eq_iff i j)) n lo (leb→le _ _ old))
          | inr new ↦ (
            k,
            a,
            ground (arith, get-put atts k k a, eq_iff k k),
            ground (arith, eq_iff i j),
            ground (arith, get-put reqs i j r', eq_iff i j),
          )
        ]
        | inr h ↦ lift j n (v.gapless j x (ground (arith, get-put reqs i j r')) n lo hi)
      ]
