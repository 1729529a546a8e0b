-- ===== src/Memory/Access/Revocation.antt =====
-- Revoking a key by its prefix.
use alzette.Shared.{
  String, ◌==◌, eq_iff, ◌≡◌, ◌≢◌, none, some, [], ◌∷◌, All, arith, Bool-cases, ne→eq_false, sym,
  inl, inr, if◌then◌else◌,
}
use alzette.Shared.Dict.{Dict, get}
use alzette.Platform.{Time, Digest, ok, err, unauthenticated}
use alzette.Memory.Defs.{Store, ApiKey}
use alzette.Memory.Access.{authenticate, account_principal, revoke_first, revoke_key}

-- The only key with the prefix is the one with the digest.
abbrev pub IsPrefixOf : String → Digest → Dict ApiKey → Type 0
IsPrefixOf prefix digest keys = All (λ e. e.1.prefix ≡ prefix → e.0 ≡ digest) keys

marked : Time → ApiKey → ApiKey
marked now key = elim key.revoked_at [ none ↦ record key { revoked_at = some now } | some t ↦ key ]

get-revoke_first :
    (prefix : String) (now : Time) (digest : Digest) (key : ApiKey) (keys : Dict ApiKey)
    → IsPrefixOf prefix digest keys
    → get keys digest ≡ some key
    → key.prefix ≡ prefix
    → (keys' : Dict ApiKey) × (revoke_first prefix now keys ≡ some keys')
      × ((d : Digest) → get keys' d ≡ (if digest == d then some (marked now key) else get keys d))
unfolding revoke_first get marked
get-revoke_first prefix now digest key [] own found e = cc
get-revoke_first prefix now digest key ((d, k) ∷ keys) own found e =
    elim (Bool-cases (k.prefix == prefix)) [
      | inl hit ↦ (
        (d, marked now k) ∷ keys,
        ground (arith, own.0, eq_iff k.prefix prefix),
        λ x.
            ground
              (arith, own.0, eq_iff k.prefix prefix, eq_iff d digest, eq_iff digest x, eq_iff d x),
      )
      | inr miss ↦
          let (keys', r, h) =
            get-revoke_first prefix now digest key keys own.1
              (ground (arith, eq_iff k.prefix prefix, eq_iff d digest)) e in
          (
            (d, k) ∷ keys',
            ground arith,
            λ x.
                ground (
                  arith,
                  h x,
                  eq_iff d x,
                  eq_iff digest x,
                  eq_iff d digest,
                  eq_iff k.prefix prefix,
                ),
          )
    ]

authenticate_keys :
    (d : Digest) (s : Store) (keys : Dict ApiKey)
    → get keys d ≡ get s.keys d
    → authenticate d (record s { keys = keys }) ≡ authenticate d s
unfolding authenticate account_principal
authenticate_keys d s keys h = rw (h, authenticate)

-- Revoking the only key with a prefix succeeds; its digest authenticates no more, and any other
-- digest authenticates as before.
pub authenticate-revoke_key :
    (prefix : String) (digest : Digest) (key : ApiKey) (s : Store)
    → IsPrefixOf prefix digest s.keys
    → get s.keys digest ≡ some key
    → key.prefix ≡ prefix
    → ((revoke_key prefix s).0 ≡ ok tt)
      × (authenticate digest (revoke_key prefix s).1 ≡ err unauthenticated)
      × ((d : Digest) → d ≢ digest → authenticate d (revoke_key prefix s).1 ≡ authenticate d s)
unfolding revoke_key
authenticate-revoke_key prefix digest key s own found e =
    let (keys', r, h) = get-revoke_first prefix s.now digest key s.keys own found e in
    (
      rw (r, revoke_key),
      rw (r, revoke_key)
          (unfold authenticate marked in ground (arith, h digest, eq_iff digest digest)),
      λ d n.
          rw (r, revoke_key)
            (authenticate_keys d s keys' (rw (h d, ne→eq_false digest d (λ q. n (sym q))))),
    )
