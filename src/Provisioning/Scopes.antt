-- ===== src/Provisioning/Scopes.antt =====
-- ValidateScopes of validate.go.
use Prim.Native.String.{compare}
use text.Mathlib.Text.{is_lt}
use alzette.Shared.{
  String, ◌==◌, Bool, ◌||◌, Option, none, some, List, [], ◌∷◌, ◌++◌, contains, if◌then◌else◌,
}
use alzette.Shared.Sort.{sort}
use alzette.Platform.{scope_inference_write, scope_usage_read, scope_routes_read}

unfoldable pub is_scope : String → Bool
is_scope scope =
    scope == scope_inference_write || (scope == scope_usage_read || scope == scope_routes_read)

-- The loop: `scopes` are the ones found so far.
unfoldable pub collect_scopes : List String → List String → Option (List String)
unfolding is_scope
collect_scopes scopes [] = some scopes
collect_scopes scopes (scope ∷ rest) =
    let more =
      collect_scopes (if contains scopes scope then scopes else scopes ++ scope ∷ []) rest in
    if is_scope scope then more else none

-- `none` where the source returns an error.
unfoldable pub validate_scopes : List String → Option (List String)
unfolding collect_scopes
validate_scopes input = elim (collect_scopes [] input) [
  | none ↦ none
  | some [] ↦ none
  | some (scope ∷ scopes) ↦ some (sort (λ a b. is_lt (compare a b)) (scope ∷ scopes))
]
