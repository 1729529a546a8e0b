-- ===== src/Tests/People.antt =====
-- People, groups and the credentials of agents: lists of identifiers in another order.
use alzette.Shared.{
  ℕ, ◌+◌, ◌<◌, String, ◌≡◌, ◌⊎◌, inl, inr, refl, true, none, some, List, [], ◌∷◌, length, map,
  arith,
}
use alzette.Shared.Sort.{In, sort}
use alzette.Shared.Order.{text_less}
use alzette.Shared.Space.{trim_space}
use alzette.Shared.Distinct.{IsNormal}
use alzette.Platform.{ok, err, invalid, not_found}
use alzette.Workforce.{Service, create_invitation, replace_group_people, normalise_email}
use alzette.Workforce.Types.{CreateInvitationInput}
use alzette.Workforce.Input.{valid_id, valid_email, normalise_ids}
use alzette.Workforce.Ids.{
  normalise_ids-same, replace_group_people-IsNormal, create_invitation-IsNormal,
}
use alzette.AgentAuth.Types.{Identity, MintInput}
use alzette.AgentAuth.{World, mint, Service as AgentService}
use alzette.AgentAuth.Minting.{IsRefused, IsMinted, mint-same, mint-IsMinted}
use alzette.Tests.Business.{session}

abbrev forth : List String
forth = "group_1" ∷ "group_2" ∷ []

abbrev back : List String
back = "group_2" ∷ "group_1" ∷ "group_2" ∷ []

there : (z : String) → In z (map trim_space forth) → In z (map trim_space back)
unfolding trim_space
there z (inl e) = inr (inl e)
there z (inr (inl e)) = inl e
there z (inr (inr i)) = absurd i

back_again : (z : String) → In z (map trim_space back) → In z (map trim_space forth)
unfolding trim_space
back_again z (inl e) = inr (inl e)
back_again z (inr (inl e)) = inl e
back_again z (inr (inr (inl e))) = inr (inl e)
back_again z (inr (inr (inr i))) = absurd i

normalise_ids-same_example : normalise_ids forth ≡ normalise_ids back
normalise_ids-same_example = normalise_ids-same forth back there back_again

abbrev people : Service ℕ
people = record {
  store = record {
    load_access = λ session n. err not_found;
    load_group = λ session id n. err not_found;
    create_group = λ session input n. (err not_found, n);
    replace_group_people = λ session id ids n. (ok tt, n + 1);
    replace_group_models = λ session id ids n. (ok tt, n + 1);
    disable_group = λ session id n. (ok tt, n + 1);
    create_invitation = λ session input n. (err not_found, n);
    resend_invitation = λ session id n. (err not_found, n);
    revoke_invitation = λ session id n. (ok tt, n + 1);
    assign_initial_owner = λ spec n. (err not_found, n);
  };
  identity = none;
  sha256 = λ s. s;
  lower = λ s. s;
  parse_address = λ s. some s;
}

replace_group_people-IsNormal_example :
    let x = replace_group_people people session "group_1" back 0 in
    (x ≡ (err invalid, 0))
    ⊎ ((valid_id "group_1" ≡ true)
        × ((ids : List String) × IsNormal valid_id back ids
            × (x ≡ people.store.replace_group_people session "group_1" ids 0)))
replace_group_people-IsNormal_example =
    replace_group_people-IsNormal people session "group_1" back 0

abbrev invitation : CreateInvitationInput
invitation = record { email = "ada@acme.example"; display_name = "Ada"; group_ids = back }

create_invitation-IsNormal_example :
    let x = create_invitation people session invitation 0 in
    let email = normalise_email people invitation.email in
    (x ≡ (err invalid, 0))
    ⊎ ((valid_email people.parse_address email ≡ true)
        × ((ids : List String) × IsNormal valid_id invitation.group_ids ids
            × (0 < length ids)
            × (x
                ≡ people.store.create_invitation session
                    (record {
                      email = email;
                      display_name = trim_space invitation.display_name;
                      group_ids = ids;
                    })
                    0)))
create_invitation-IsNormal_example = create_invitation-IsNormal people session invitation 0

abbrev agents : AgentService ℕ
agents = record {
  store = record {
    list_agent_contexts = λ identity n. ok [];
    mint_agent_credential = λ input n. (err not_found, n + 1);
    revoke_agent_grant = λ identity id digest now n. (ok tt, n);
  };
  now = λ n. 7000;
  new_id = λ n prefix. some prefix;
  sha256 = λ s. s;
  decode_base64 =
      λ s. some (1 ∷ 2 ∷ 3 ∷ 4 ∷ 5 ∷ 6 ∷ 7 ∷ 8 ∷ 9 ∷ 10 ∷ 11 ∷ 12 ∷ 13 ∷ 14 ∷ 15 ∷ 16 ∷ []);
  marshal = λ c. some c.subject;
}

abbrev person : Identity
person = record {
  issuer = "https://id.example";
  subject = "ada";
  email = "ada@acme.example";
  email_verified = true;
  display_name = "Ada";
  oauth_client_id = "agent";
}

abbrev entropy : World ℕ
entropy = record {
  store = 0;
  random =
      0 ∷ 1 ∷ 2 ∷ 3 ∷ 4 ∷ 5 ∷ 6 ∷ 7 ∷ 8 ∷ 9 ∷ 10 ∷ 11 ∷ 12 ∷ 13 ∷ 14 ∷ 15 ∷ 16 ∷ 17 ∷ 18 ∷ 19 ∷ 20
      ∷ 21 ∷ 22 ∷ 23 ∷ 24 ∷ 25 ∷ 26 ∷ 27 ∷ 28 ∷ 29 ∷ 30 ∷ 31 ∷ [];
  draws = 0;
  ticks = 0;
}

mint-same_example :
    mint agents person
      (record { client_instance_id = "aci_1"; membership_id = "member_1"; model_aliases = forth })
      "agm_1"
      entropy
    ≡ mint agents person
        (record { client_instance_id = "aci_1"; membership_id = "member_1"; model_aliases = back })
        "agm_1"
        entropy
mint-same_example =
    mint-same agents person "aci_1" "member_1" "agm_1" forth back entropy (omega arith, omega arith)
      (omega arith, omega arith) there back_again

mint-IsMinted_example :
    let given : MintInput = record {
      client_instance_id = "aci_1";
      membership_id = "member_1";
      model_aliases = back;
    } in
    let x = mint agents person given "agm_1" entropy in
    IsRefused agents 0 x ⊎ IsMinted agents back 0 x
mint-IsMinted_example =
    mint-IsMinted agents person
      (record { client_instance_id = "aci_1"; membership_id = "member_1"; model_aliases = back })
      "agm_1" entropy

-- Both lists have the same normal form.
normalise_ids_test : normalise_ids back ≡ some ("group_1" ∷ "group_2" ∷ [])
unfolding normalise_ids trim_space sort text_less
normalise_ids_test = refl
