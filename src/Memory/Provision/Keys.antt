-- ===== src/Memory/Provision/Keys.antt =====
-- RotateKey of store.go, and the entry of a new key. `new_id` and `generated` are as in Provision.
use alzette.Shared.{
  String, ◌==◌, true, false, ◌&&◌, Option, none, some, List, [], ◌∷◌, if◌then◌else◌,
}
use alzette.Shared.Dict.{Dict, put}
use alzette.Platform.{Time, Result, ok, err, not_found, other}
use alzette.Credentials.{Key}
use alzette.Provisioning.{validate_rotate}
use alzette.Provisioning.Spec.{RotateKeySpec, Url}
use alzette.Memory.Defs.{
  Store, ServiceAccount, ApiKey, find_organisation, find_project, find_environment,
  find_service_account,
}

pub record KeyResult : Type 0 where
  pub key_prefix : String
  pub api_key : String
  pub scopes : List String

-- `if err != nil { return …, err }`, and what follows it.
abbrev pub next {ℓ κ} :
    {A : Type ℓ} {B : Type κ} → Result A × Store → (A → Store → Result B × Store) → Result B × Store
next (err e, s) f = (err e, s)
next (ok a, s) f = f a s

-- The loop over the keys: the active ones of the account are revoked.
unfoldable pub revoke_active : String → Time → Dict ApiKey → Dict ApiKey
revoke_active account_id now [] = []
revoke_active account_id now ((digest, key) ∷ keys) =
    let rest = revoke_active account_id now keys in
    if key.service_account_id == account_id && elim key.revoked_at [ none ↦ true | some t ↦ false ]
    then (digest, record key { revoked_at = some now }) ∷ rest
    else (digest, key) ∷ rest

unfoldable pub find_account : RotateKeySpec → Store → Option ServiceAccount
find_account spec s = elim (find_organisation s.organisations spec.organisation_slug) [
  | none ↦ none
  | some org ↦ elim (find_project s.projects org.id spec.project_slug) [
    | none ↦ none
    | some proj ↦ elim (find_environment s.environments org.id proj.id spec.environment_slug) [
      | none ↦ none
      | some env ↦
          find_service_account s.service_accounts org.id proj.id env.id spec.service_account
    ]
  ]
]

module _ (new_id : String → Option String) where
  -- A generated key of the account is stored under its digest.
  unfoldable pub add_key : Option Key → String → List String → Store → Result Key × Store
  add_key none account_id scopes s = (err other, s)
  add_key (some key) account_id scopes s = elim (new_id "key") [
    | none ↦ (err other, s)
    | some i ↦
        let stored : ApiKey = record {
          id = i;
          service_account_id = account_id;
          prefix = key.prefix;
          digest = key.digest;
          scopes = scopes;
          revoked_at = none;
        } in
        (ok key, record s { keys = put s.keys key.digest stored })
  ]

  -- RotateKey, for an account that is found.
  unfoldable pub rotate_account :
      Option Key → RotateKeySpec → ServiceAccount → Store → Result KeyResult × Store
  unfolding revoke_active add_key
  rotate_account generated spec account s =
      next
        (add_key generated account.id spec.scopes
          (record s { keys = revoke_active account.id s.now s.keys }))
        (λ key s'.
          (ok (record { key_prefix = key.prefix; api_key = key.token; scopes = spec.scopes }), s'))

  unfoldable pub rotate_key :
      (String → Option Url) → Option Key → RotateKeySpec → Store → Result KeyResult × Store
  unfolding validate_rotate find_account rotate_account
  rotate_key parse_url generated input s = elim (validate_rotate parse_url input) [
    | err e ↦ (err e, s)
    | ok spec ↦ elim (find_account spec s) [
      | none ↦ (err not_found, s)
      | some account ↦ rotate_account generated spec account s
    ]
  ]
