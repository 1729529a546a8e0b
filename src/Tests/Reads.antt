-- ===== src/Tests/Reads.antt =====
-- The theorems on the reads, at the one tenant of the fixtures.
use alzette.Shared.{
  ◌<◌, ◌≤◌, ◌≡◌, ◌≢◌, ◌⊎◌, refl, inl, none, true, false, [], ◌∷◌, All, length, arith,
}
use alzette.Shared.Dict.{get, values}
use alzette.Shared.Sort.{In, sort}
use alzette.Platform.{
  Digest, ok, err, not_found, unauthenticated, Route, UsageFilter, InferenceRequest,
}
use alzette.Memory.Defs.{Store, find_first, find_model, find_route, materialise_route}
use alzette.Memory.Ledger.{started_request}
use alzette.Memory.Access.{
  authenticate, resolve_route, resolve_binding, usable_target, get_inference_request, in_scope,
  is_listed, is_newer, page_of, list_inference_requests, revoke_key,
}
use alzette.Memory.Access.Scope.{
  IsEntitled, IsOwnRequest, IsForeign, resolve_route-IsEntitled, get_inference_request_scope,
}
use alzette.Memory.Access.Listing.{
  IsSelected, IsNewestFirst, list_inference_requests_sound, list_inference_requests_complete,
}
use alzette.Memory.Access.Revocation.{authenticate-revoke_key}
use alzette.Tests.Fixtures.{shop, caller, target_one, key_one, start_one}

abbrev route_one : Route
route_one = record {
  id = "route_1";
  organisation_id = "org_1";
  project_id = "project_1";
  environment_id = "env_1";
  model_id = "model_1";
  model_alias = "general";
  model_version = "1";
  model_enabled = true;
  binding_generation = 7;
  enabled = true;
  target = target_one;
  created_at = 100;
  updated_at = 100;
}

resolved_lem : resolve_route caller "general" shop ≡ ok route_one
unfolding resolve_route resolve_binding usable_target find_model find_route find_first values get
    materialise_route
resolved_lem = refl

resolve_route-IsEntitled_example : IsEntitled caller "general" route_one
resolve_route-IsEntitled_example =
    resolve_route-IsEntitled caller "general" shop route_one resolved_lem

abbrev entry : InferenceRequest
entry = started_request start_one

abbrev ledger : Store
ledger = record shop { requests = ("req_0", entry) ∷ [] }

get_inference_request_scope_example :
    IsOwnRequest caller "req_0" ledger (get_inference_request caller "req_0" ledger)
    ⊎ (((get ledger.requests "req_0" ≡ none) ⊎ IsForeign caller "req_0" ledger)
        × (get_inference_request caller "req_0" ledger ≡ err not_found))
get_inference_request_scope_example = get_inference_request_scope caller "req_0" ledger

abbrev filter : UsageFilter
filter = record { from = 500; to = 2000; model_alias = "general"; limit = 10 }

list_inference_requests_sound_example :
    All (IsSelected caller filter) (list_inference_requests caller filter ledger).requests
    × IsNewestFirst (list_inference_requests caller filter ledger).requests
    × (0 < filter.limit
        → length (list_inference_requests caller filter ledger).requests ≤ filter.limit)
list_inference_requests_sound_example = list_inference_requests_sound caller filter ledger

whole_lem : (list_inference_requests caller filter ledger).truncated ≡ false
unfolding list_inference_requests page_of is_listed is_newer in_scope values started_request sort
whole_lem = refl

entry-IsSelected : IsSelected caller filter entry
unfolding started_request
entry-IsSelected = record {
  organisation = refl;
  project = refl;
  environment = refl;
  since = omega arith;
  until = ground arith;
  model = ground arith;
}

entry-In : In entry (values ledger.requests)
unfolding values
entry-In = inl refl

list_inference_requests_complete_example :
    In entry (list_inference_requests caller filter ledger).requests
list_inference_requests_complete_example =
    list_inference_requests_complete caller filter ledger entry whole_lem entry-In entry-IsSelected

authenticate-revoke_key_example :
    ((revoke_key "alz_k_0123456789abcdef" shop).0 ≡ ok tt)
    × (authenticate "digest_1" (revoke_key "alz_k_0123456789abcdef" shop).1 ≡ err unauthenticated)
    × ((d : Digest)
        → d ≢ "digest_1"
        → authenticate d (revoke_key "alz_k_0123456789abcdef" shop).1 ≡ authenticate d shop)
unfolding get
authenticate-revoke_key_example =
    authenticate-revoke_key "alz_k_0123456789abcdef" "digest_1" key_one shop ((λ h. refl), tt) refl
      refl
