-- ===== src/Memory/Access/Listing.antt =====
-- What ListInferenceRequests returns.
use Prim.Native.Nat.{◌<◌}
use alzette.Shared.{
  ℕ, suc, ◌≤◌, eq_iff, ◌≡◌, ◌⊎◌, true, false, ◌&&◌, List, [], ◌∷◌, All, length, take, keep, ltb,
  zero, inl, inr, Bool-cases, arith,
}
use alzette.Shared.Dict.{values}
use alzette.Shared.Sort.{
  sort, In, IsOrdered, keep-All, In-keep, In-sort, All-sort, All-take, take-IsOrdered,
  sort-IsOrdered,
}
use alzette.Platform.{Principal, UsageFilter, InferenceRequest}
use alzette.Memory.Defs.{Store}
use alzette.Memory.Access.{is_listed, is_newer, page_of, list_inference_requests}

-- The filter's window and model hold of the record: a bound that is zero or empty is no bound.
pub record IsSelected (p : Principal) (f : UsageFilter) (r : InferenceRequest) : Type 0 where
  pub organisation : r.organisation_id ≡ p.organisation_id
  pub project : r.project_id ≡ p.project_id
  pub environment : r.environment_id ≡ p.environment_id
  pub since : f.from ≤ r.started_at
  pub until : (f.to ≡ 0) ⊎ (r.started_at < f.to)
  pub model : (f.model_alias ≡ "") ⊎ (r.model_alias ≡ f.model_alias)

is_listed-IsSelected :
    (p : Principal) (f : UsageFilter) (r : InferenceRequest)
    → is_listed p f r ≡ true
    → IsSelected p f r
unfolding is_listed
is_listed-IsSelected p f r h = ground (
  arith,
  eq_iff r.organisation_id p.organisation_id,
  eq_iff r.project_id p.project_id,
  eq_iff r.environment_id p.environment_id,
  eq_iff f.model_alias "",
  eq_iff r.model_alias f.model_alias,
)

IsSelected-is_listed :
    (p : Principal) (f : UsageFilter) (r : InferenceRequest)
    → IsSelected p f r
    → is_listed p f r ≡ true
unfolding is_listed
IsSelected-is_listed p f r h = ground (
  arith,
  eq_iff r.organisation_id p.organisation_id,
  eq_iff r.project_id p.project_id,
  eq_iff r.environment_id p.environment_id,
  eq_iff f.model_alias "",
  eq_iff r.model_alias f.model_alias,
)

All-map :
    {A : Type 0} {P Q : A → Type 0} → ((x : A) → P x → Q x) → (xs : List A) → All P xs → All Q xs
All-map f [] h = tt
All-map f (x ∷ xs) h = (f x h.0, All-map f xs h.1)

newest_first : (xs : List InferenceRequest) → IsOrdered is_newer (sort is_newer xs)
unfolding is_newer
newest_first = sort-IsOrdered is_newer (λ x y h. ground arith) (λ x y z h k. ground arith)

module _ (p : Principal) (f : UsageFilter) (s : Store) where
  abbrev items : List InferenceRequest
  items = sort is_newer (keep (is_listed p f) (values s.requests))

  items-IsSelected : All (IsSelected p f) items
  items-IsSelected =
      All-sort is_newer (IsSelected p f) _
        (All-map (is_listed-IsSelected p f) _ (keep-All (is_listed p f) (values s.requests)))

length-take : {A : Type 0} (n : ℕ) (xs : List A) → length (take n xs) ≤ n
length-take zero xs = omega arith
length-take (suc n) [] = omega arith
length-take (suc n) (x ∷ xs) = omega (arith, length-take n xs)

abbrev pub IsNewestFirst : List InferenceRequest → Type 0
IsNewestFirst xs = IsOrdered is_newer xs

page_cases :
    (P : List InferenceRequest → Type 0) (n : ℕ) (xs : List InferenceRequest)
    → P xs
    → P (take n xs)
    → P (page_of n xs).requests
unfolding page_of
page_cases P n xs h k = elim (Bool-cases (ltb 0 n && ltb n (length xs))) [
  | inl e ↦ rw (e, page_of) k
  | inr e ↦ rw (e, page_of) h
]

-- Every request of a page lies in the principal's scope, in the filter's window and of its model;
-- the page is newest first, and has at most `limit` requests where the limit is positive.
pub list_inference_requests_sound :
    (p : Principal) (f : UsageFilter) (s : Store)
    → All (IsSelected p f) (list_inference_requests p f s).requests
      × IsNewestFirst (list_inference_requests p f s).requests
      × (0 < f.limit → length (list_inference_requests p f s).requests ≤ f.limit)
unfolding list_inference_requests
list_inference_requests_sound p f s = (
  page_cases (All (IsSelected p f)) f.limit (items p f s) (items-IsSelected p f s)
      (All-take _ f.limit _ (items-IsSelected p f s)),
  page_cases IsNewestFirst f.limit (items p f s) (newest_first selected)
      (take-IsOrdered is_newer f.limit _ (newest_first selected)),
  λ h. bounded h (items p f s),
)
  where
    selected : List InferenceRequest
    selected = keep (is_listed p f) (values s.requests)

    bounded :
        0 < f.limit → (xs : List InferenceRequest) → length (page_of f.limit xs).requests ≤ f.limit
    bounded h xs = ground (arith, length-take f.limit xs)

-- A page that is not marked truncated has every request of the ledger that the principal's scope
-- and the filter select.
pub list_inference_requests_complete :
    (p : Principal) (f : UsageFilter) (s : Store) (r : InferenceRequest)
    → (list_inference_requests p f s).truncated ≡ false
    → In r (values s.requests)
    → IsSelected p f r
    → In r (list_inference_requests p f s).requests
unfolding list_inference_requests
list_inference_requests_complete p f s r whole i h = ground (
  arith,
  In-sort is_newer (keep (is_listed p f) (values s.requests)) r
      (In-keep (is_listed p f) (values s.requests) r i (IsSelected-is_listed p f r h)),
)
