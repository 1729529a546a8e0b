-- ===== src/Memory/Provision/Rotation.antt =====
-- What RotateKey does to the keys of the account, and to the others.
use alzette.Shared.{
  String, ◌==◌, eq_iff, ◌≡◌, ◌≢◌, refl, inl, inr, Bool, true, false, ◌&&◌, Option, none, some, [],
  ◌∷◌, arith, Option-cases, if◌then◌else◌,
}
use alzette.Shared.Dict.{Dict, get, put, get-put}
use alzette.Platform.{Time, Digest, ok, Result-cases}
use alzette.Credentials.{Key}
use alzette.Provisioning.{validate_rotate}
use alzette.Provisioning.Spec.{RotateKeySpec, Url}
use alzette.Memory.Defs.{Store, ServiceAccount, ApiKey}
use alzette.Memory.Provision.Keys.{
  KeyResult, add_key, revoke_active, rotate_account, find_account, rotate_key,
}

abbrev is_active : ApiKey → Bool
is_active key = elim key.revoked_at [ none ↦ true | some t ↦ false ]

-- A key after the loop over the keys of an account.
retired : String → Time → ApiKey → ApiKey
retired account_id now key =
    if key.service_account_id == account_id && is_active key
    then record key { revoked_at = some now }
    else key

module _ (new_id : String → Option String) where
  get-revoke_active :
      (a : String) (now : Time) (keys : Dict ApiKey) (d : Digest)
      → get (revoke_active a now keys) d
        ≡ (elim (get keys d) [ none ↦ none | some k ↦ some (retired a now k) ])
  unfolding get revoke_active retired
  get-revoke_active a now [] d = refl
  get-revoke_active a now ((j, key) ∷ keys) d =
      ground (arith, eq_iff j d, get-revoke_active a now keys d)

  -- After the rotation of the account's key from `s` to `t`: the new key is active under its
  -- digest and the account has no other active key, and other accounts' keys are as they were.
  pub record IsRotated (account : ServiceAccount) (key : Key) (s t : Store) : Type 0 where
    pub added : ApiKey
    pub stored : get t.keys key.digest ≡ some added
    pub own : added.service_account_id ≡ account.id
    pub active : added.revoked_at ≡ none
    pub sole :
        (d : Digest) (k : ApiKey)
        → get t.keys d ≡ some k
        → k.service_account_id ≡ account.id
        → k.revoked_at ≡ none
        → d ≡ key.digest
    pub others :
        (d : Digest) (k : ApiKey)
        → d ≢ key.digest
        → get s.keys d ≡ some k
        → k.service_account_id ≢ account.id
        → get t.keys d ≡ some k

  put-IsRotated :
      (key : Key) (account : ServiceAccount) (s : Store) (a : ApiKey)
      → a.service_account_id ≡ account.id
      → a.revoked_at ≡ none
      → IsRotated account key s
          (record s { keys = put (revoke_active account.id s.now s.keys) key.digest a })
  unfolding retired
  put-IsRotated key account s a own active =
      let keys = revoke_active account.id s.now s.keys in
      record {
        added = a;
        stored = ground (arith, get-put keys key.digest key.digest a, eq_iff key.digest key.digest);
        own = own;
        active = active;
        sole = λ d k found of unrevoked. ground (
          arith,
          get-put keys key.digest d a,
          get-revoke_active account.id s.now s.keys d,
          eq_iff key.digest d,
          eq_iff k.service_account_id account.id,
        );
        others = λ d k n found of. ground (
          arith,
          get-put keys key.digest d a,
          get-revoke_active account.id s.now s.keys d,
          eq_iff key.digest d,
          eq_iff k.service_account_id account.id,
        );
      }

  -- A rotation that succeeds, seen from its result.
  pub record Rotated (parse_url : String → Option Url) (generated : Option Key)
      (input : RotateKeySpec) (s t : Store) (r : KeyResult) : Type 0 where
    pub spec : RotateKeySpec
    pub account : ServiceAccount
    pub key : Key
    pub accepted : validate_rotate parse_url input ≡ ok spec
    pub found : find_account spec s ≡ some account
    pub made : generated ≡ some key
    pub secret : r.api_key ≡ key.token
    pub rotated : IsRotated account key s t

  rotate_account-IsRotated :
      (key : Key) (spec : RotateKeySpec) (account : ServiceAccount) (s : Store) (r : KeyResult)
      → (rotate_account new_id (some key) spec account s).0 ≡ ok r
      → (r.api_key ≡ key.token)
        × IsRotated account key s (rotate_account new_id (some key) spec account s).1
  unfolding rotate_account add_key
  rotate_account-IsRotated key spec account s r h = elim (Option-cases (new_id "key")) [
    | inl n ↦ ground (arith, n)
    | inr (i, y) ↦
        rw (y, rotate_account, add_key) (ground (arith, y), put-IsRotated key account s _ refl refl)
  ]

  -- A rotation that succeeds is one of an account that the accepted input names: the generated key
  -- is its only active key, its token is returned, and the other accounts' keys are as they were
  -- under any other digest.
  pub rotate_key-Rotated :
      (parse_url : String → Option Url) (generated : Option Key) (input : RotateKeySpec) (s : Store)
      (r : KeyResult)
      → (rotate_key new_id parse_url generated input s).0 ≡ ok r
      → Rotated parse_url generated input s (rotate_key new_id parse_url generated input s).1 r
  unfolding rotate_key rotate_account add_key
  rotate_key-Rotated parse_url generated input s r h =
      elim (Result-cases (validate_rotate parse_url input)) [
        | inr (e, y) ↦ ground (arith, y)
        | inl (spec, y) ↦ elim (Option-cases (find_account spec s)) [
          | inl n ↦ ground (arith, y, n)
          | inr (account, z) ↦ elim (Option-cases generated) [
            | inl n ↦ ground (arith, y, z, n)
            | inr (key, g) ↦
                let done : (rotate_account new_id (some key) spec account s).0 ≡ ok r =
                  ground (arith, y, z, g) in
                let (secret, rotated) = rotate_account-IsRotated key spec account s r done in
                rw (y, z, g, rotate_key)
                  (record {
                    spec = spec;
                    account = account;
                    key = key;
                    accepted = y;
                    found = z;
                    made = refl;
                    secret = secret;
                    rotated = rotated;
                  })
          ]
        ]
      ]
