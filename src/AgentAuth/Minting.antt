-- ===== src/AgentAuth/Minting.antt =====
-- What Mint makes of a list of aliases.
use alzette.Shared.{
  ◌≤◌, String, ◌≡◌, ◌⊎◌, inl, inr, refl, true, false, ◌||◌, not, Option, none, some, List, length,
  map, ltb, eqb, arith, Bool-cases, Option-cases, sym, ◌∙◌, ◌+◌, ◌*◌, suc,
}
use alzette.Shared.Sort.{In}
use alzette.Shared.Space.{trim_space}
use alzette.Shared.Distinct.{IsNormal, normalise, normalise-IsNormal, normalise-same}
use alzette.Platform.{Result, Error, err}
use alzette.Credentials.{Key, generate_from, human_token_marker}
use alzette.AgentAuth.Types.{Identity, MintInput, MintResult, StoreMintInput}
use alzette.AgentAuth.{
  Service, World, minute, valid_alias, valid_opaque, valid_simple_id, normalise_aliases, canonical,
  store_input, mint_credential, mint_valid, mint,
}

-- A list of 1 to 64.
abbrev pub IsListed : List String → Type 0
IsListed xs = (1 ≤ length xs) × (length xs ≤ 64)

normalise_aliases-listed :
    (xs : List String) → IsListed xs → normalise_aliases xs ≡ normalise valid_alias xs
unfolding normalise_aliases
normalise_aliases-listed xs h =
    let e : eqb (length xs) 0 || ltb 64 (length xs) ≡ false = ground (arith, h) in rw (e) refl

module _ {S : Type 0} (service : Service S) where
  -- For lists of 1 to 64 aliases, Mint does the same whatever the order of the aliases is, how often each is
  -- given and how much space is around it: the credential, the store's input with its canonical hash, and the
  -- answer are the same.
  pub mint-same :
      (identity : Identity) (client member key : String) (xs ys : List String) (w : World S)
      → IsListed xs
      → IsListed ys
      → ((z : String) → In z (map trim_space xs) → In z (map trim_space ys))
      → ((z : String) → In z (map trim_space ys) → In z (map trim_space xs))
      → mint service identity
          (record { client_instance_id = client; membership_id = member; model_aliases = xs })
          key
          w
        ≡ mint service identity
            (record { client_instance_id = client; membership_id = member; model_aliases = ys })
            key
            w
  unfolding mint mint_valid mint_credential canonical store_input
  mint-same identity client member key xs ys w h k f g =
      let same : normalise_aliases xs ≡ normalise_aliases ys =
        normalise_aliases-listed xs h
        ∙ (normalise-same valid_alias xs ys f g ∙ sym (normalise_aliases-listed ys k)) in
      rw (same, mint) refl

  -- An error, with the store as it was.
  abbrev pub IsRefused : S → Result MintResult × World S → Type 0
  IsRefused s x = ((e : Error) × (x.0 ≡ err e)) × (x.1.store ≡ s)

  -- The answer is the store's, for a credential of ten minutes in a grant of an hour.
  pub record IsMinted (given : List String) (s : S) (x : Result MintResult × World S) : Type 0 where
    pub input : StoreMintInput
    pub aliases : IsNormal valid_alias given input.model_aliases
    pub member : valid_simple_id input.membership_id ≡ true
    pub token_life : input.token_expires_at ≡ input.now + 10 * minute
    pub grant_life : input.grant_expires_at ≡ input.now + 60 * minute
    pub answer : x.0 ≡ (service.store.mint_agent_credential input s).0
    pub stored : x.1.store ≡ (service.store.mint_agent_credential input s).1

  mint_credential-IsMinted :
      (identity : Identity) (given : MintInput) (xs aliases : List String) (key text : String)
      (c : Key) (w : World S)
      → IsNormal valid_alias xs aliases
      → valid_simple_id given.membership_id ≡ true
      → let x = mint_credential service identity given aliases key text c w in
        IsRefused w.store x ⊎ IsMinted xs w.store x
  unfolding mint_credential store_input
  mint_credential-IsMinted identity given xs aliases key text c w normal member =
      elim (Option-cases (service.new_id w.draws "agr")) [
        | inl n ↦ rw (n, mint_credential) (inl ((_, refl), refl))
        | inr (g, y) ↦ elim (Option-cases (service.new_id (suc w.draws) "aut")) [
          | inl n ↦ rw (y, n, mint_credential) (inl ((_, refl), refl))
          | inr (t, z) ↦ elim (Option-cases (service.new_id (suc (suc w.draws)) "agm")) [
            | inl n ↦ rw (y, z, n, mint_credential) (inl ((_, refl), refl))
            | inr (m, v) ↦
                rw (y, z, v, mint_credential)
                  (inr (record {
                    input =
                        store_input service identity given aliases key text c g t m
                          (service.now w.ticks);
                    aliases = normal;
                    member = member;
                    token_life = refl;
                    grant_life = refl;
                    answer = refl;
                    stored = refl;
                  }))
          ]
        ]
      ]

  mint_valid-IsMinted :
      (identity : Identity) (given : MintInput) (xs aliases : List String) (key : String)
      (w : World S)
      → IsNormal valid_alias xs aliases
      → valid_simple_id given.membership_id ≡ true
      → let x = mint_valid service identity given aliases key w in
        IsRefused w.store x ⊎ IsMinted xs w.store x
  unfolding mint_valid
  mint_valid-IsMinted identity given xs aliases key w normal member =
      elim (Option-cases (service.marshal (canonical service identity given aliases))) [
        | inl n ↦ rw (n, mint_valid) (inl ((_, refl), refl))
        | inr (text, y) ↦
            elim (Option-cases (generate_from service.sha256 w.random human_token_marker)) [
              | inl n ↦ rw (y, n, mint_valid) (inl ((_, refl), refl))
              | inr ((c, rest), z) ↦
                  rw (y, z, mint_valid)
                    (mint_credential-IsMinted identity given xs aliases key text c
                      (record w { random = rest }) normal member)
            ]
      ]

  -- Mint refuses a request and leaves the store as it was; or its answer is the store's, for a valid
  -- membership and for the valid aliases that were given, once each and in ascending order, with a token that
  -- expires after ten minutes and a grant that expires after an hour.
  pub mint-IsMinted :
      (identity : Identity) (given : MintInput) (key : String) (w : World S)
      → let x = mint service identity given key w in
        IsRefused w.store x ⊎ IsMinted given.model_aliases w.store x
  unfolding mint normalise_aliases
  mint-IsMinted identity given key w =
      let xs = given.model_aliases in
      let input : MintInput = record given {
        client_instance_id = trim_space given.client_instance_id;
        membership_id = trim_space given.membership_id;
      } in
      let bad =
        not (valid_opaque service.decode_base64 input.client_instance_id "aci_" 16)
        || (not (valid_simple_id input.membership_id)
            || not (valid_opaque service.decode_base64 key "agm_" 16)) in
      elim (Option-cases (normalise_aliases xs)) [
        | inl n ↦ rw (n, mint) (inl ((_, refl), refl))
        | inr (aliases, y) ↦ elim (Bool-cases bad) [
          | inl b ↦ rw (y, b, mint) (inl ((_, refl), refl))
          | inr b ↦
              rw (y, b, mint)
                (mint_valid-IsMinted identity input xs aliases key w (normal xs aliases y)
                  (ground (arith, b)))
        ]
      ]
    where
      refuted : {a : List String} → let n : Option (List String) = none in n ≡ some a → ⊥
      refuted p = cc

      normal :
          (xs aliases : List String)
          → normalise_aliases xs ≡ some aliases
          → IsNormal valid_alias xs aliases
      normal xs aliases y = elim (Bool-cases (eqb (length xs) 0 || ltb 64 (length xs))) [
        | inl b ↦ absurd (refuted (rw (b) at y))
        | inr b ↦ normalise-IsNormal valid_alias xs aliases (rw (b) at y)
      ]
