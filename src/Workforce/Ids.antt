-- ===== src/Workforce/Ids.antt =====
-- The identifiers that reach the store of people and groups.
use alzette.Shared.{
  ◌<◌, String, len, ◌≡◌, ◌∙◌, ◌⊎◌, inl, inr, refl, true, ◌||◌, not, List, length, map, ltb, eqb,
  if◌then◌else◌, arith, Bool-cases, Option-cases,
}
use alzette.Shared.Sort.{In}
use alzette.Shared.Space.{trim_space}
use alzette.Shared.Distinct.{IsNormal, normalise-IsNormal, normalise-same}
use alzette.Platform.{Result, err, invalid}
use alzette.Platform.Portal.{PortalSession}
use alzette.Workforce.{Service, with_ids, normalise_email, replace_group_people, create_invitation}
use alzette.Workforce.Types.{CreateInvitationInput}
use alzette.Workforce.Input.{valid_id, valid_email, normalise_ids}

-- The normal form of identifiers only depends on which there are: lists that have the same texts, up to
-- order, repetition and the space around them, are refused together or have the same normal form.
pub normalise_ids-same :
    (xs ys : List String)
    → ((z : String) → In z (map trim_space xs) → In z (map trim_space ys))
    → ((z : String) → In z (map trim_space ys) → In z (map trim_space xs))
    → normalise_ids xs ≡ normalise_ids ys
unfolding normalise_ids
normalise_ids-same xs ys f g = normalise-same valid_id xs ys f g

module _ {S : Type 0} (service : Service S) where
  with_ids-cases {ℓ} :
      {A : Type ℓ} (values : List String) (s : S) (next : List String → Result A × S)
      → (with_ids service values s next ≡ (err invalid, s))
        ⊎ ((ids : List String) × IsNormal valid_id values ids
            × (with_ids service values s next ≡ next ids))
  unfolding normalise_ids
  with_ids-cases values s next = elim (Option-cases (normalise_ids values)) [
    | inl n ↦ rw (n, with_ids) (inl refl)
    | inr (ids, y) ↦ inr (ids, normalise-IsNormal valid_id values ids y, rw (y, with_ids) refl)
  ]

  -- ReplaceGroupPeople refuses a request and leaves the store as it was; or the group's identifier is
  -- valid and the answer is the store's, for the valid identifiers of the people that were given, once
  -- each and in ascending order.
  pub replace_group_people-IsNormal :
      (session : PortalSession) (group_id : String) (person_ids : List String) (s : S)
      → let x = replace_group_people service session group_id person_ids s in
        (x ≡ (err invalid, s))
        ⊎ ((valid_id group_id ≡ true)
            × ((ids : List String) × IsNormal valid_id person_ids ids
                × (x ≡ service.store.replace_group_people session group_id ids s)))
  unfolding replace_group_people
  replace_group_people-IsNormal session group_id person_ids s =
      elim (Bool-cases (valid_id group_id)) [
        | inr n ↦ rw (n, replace_group_people) (inl refl)
        | inl y ↦
            rw (y, replace_group_people)
              (elim (with_ids-cases person_ids s
                (λ ids. service.store.replace_group_people session group_id ids s)) [
                  | inl refused ↦ inl refused
                  | inr found ↦ inr (refl, found)
                ])
      ]

  -- CreateInvitation refuses a request and leaves the store as it was; or the answer is the store's for
  -- an address that is valid in normal form and for the valid identifiers of the groups that were given,
  -- at least one, once each and in ascending order.
  pub create_invitation-IsNormal :
      (session : PortalSession) (input : CreateInvitationInput) (s : S)
      → let x = create_invitation service session input s in
        let email = normalise_email service input.email in
        (x ≡ (err invalid, s))
        ⊎ ((valid_email service.parse_address email ≡ true)
            × ((ids : List String) × IsNormal valid_id input.group_ids ids
                × (0 < length ids)
                × (x
                    ≡ service.store.create_invitation session
                        (record {
                          email = email;
                          display_name = trim_space input.display_name;
                          group_ids = ids;
                        })
                        s)))
  unfolding create_invitation
  create_invitation-IsNormal session input s =
      let email = normalise_email service input.email in
      let display_name = trim_space input.display_name in
      elim (with_ids-cases input.group_ids s (λ ids.
        if not (valid_email service.parse_address email)
          || (ltb 255 (len display_name) || eqb (length ids) 0)
        then (err invalid, s)
        else service.store.create_invitation session
            (record { email = email; display_name = display_name; group_ids = ids }) s)) [
              | inl refused ↦ inl refused
              | inr (ids, normal, e) ↦ elim (Bool-cases (valid_email service.parse_address email)) [
                | inr n ↦ inl (e ∙ rw (n) refl)
                | inl y ↦ elim (Bool-cases (ltb 255 (len display_name) || eqb (length ids) 0)) [
                  | inl n ↦ inl (e ∙ rw (y, n) refl)
                  | inr m ↦ inr (y, (ids, normal, ground (arith, m), e ∙ rw (y, m) refl))
                ]
              ]
            ]
