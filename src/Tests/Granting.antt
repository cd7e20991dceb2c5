-- ===== src/Tests/Granting.antt =====
-- The theorems about the two steps of an OAuth grant.
use lehen.Prelude.{ℕ, ◌+◌, ltb, String, true, false, Option, none, some, [], ◌∷◌, ◌≡◌, refl}
use lehen.Prelude.Effects.{Result, ok, err, is_ok, pure}
use lehen.Auth.Surfaces.{
  IdentityProvider, SiamClaims, claims_local_issuer, verify_siam_token, verify_user_surface_token,
}
use lehen.Api.Connections.{complete_grant_my_connection}
use lehen.Api.Answers.{is_succeeded, IsSiamUser, complete_grant_my_connection_sound}
use lehen.Hub.{text, Connection, CurrentUser, IntegrationInstance, World, Hub}
use lehen.Hub.Toy.{toy}
use lehen.Hub.ToyJson.{zeros, dumps, loads, loads-dumps}
use lehen.Prelude.Dict.{lookup}
use lehen.Hub.Values.{truthy}
use lehen.Prelude.Text.{skip}
use lehen.Prelude.Order.{sorted_set}
use lehen.Arcade.{select}
use lehen.Crypto.Envelope.{encrypt, decrypt, open_blob}
use lehen.Siam.Mapping.{get, normalize, instances_of}
use lehen.Integrations.Adapter.{build_adapter_for_instance}
use lehen.Connections.Rows.{fetch_instance, is_siam_authorized, is_active_for, some_role_allows}
use lehen.Connections.Tokens.{get_valid_access_token}
use lehen.Oauth.Tokens.{OAuthTokens}
use lehen.Oauth.State.{OAuthFlowState, OAuthAuthorizationRequest, encode_state, decode_state}
use lehen.Oauth.Storage.{JsonLaw, IntLaw}
use lehen.Oauth.Expiry.{decode_state-encode_state}
use lehen.Connections.Flow.{gated_instance, initiate_grant, complete_grant}
use lehen.Connections.Completed.{Completion, complete_grant_sound}
use lehen.Connections.Usable.{stored_io, completed_usable}
use lehen.Connections.Initiated.{initiated_binds}
use lehen.Tests.{machine, key, graph, alice, mail, world}
use lehen.Tests.Governing.{machine-CipherLaws}

machine-JsonLaw : JsonLaw machine
machine-JsonLaw doc plain = (doc, loads-dumps doc plain, λ k. refl)

machine-IntLaw : IntLaw machine
machine-IntLaw n = refl

abbrev outlook : IntegrationInstance
outlook = record mail {
  config_public = ("tenant_id", text "tenant") ∷ ("client_id", text "client") ∷ [];
}

abbrev ready : World toy
ready = record (world []) { instances = outlook ∷ [] }

abbrev edge : String
edge = "http://localhost/edge"

abbrev flow : OAuthFlowState
flow = record {
  user_sub = "alice";
  instance_id = "mail";
  nonce = "";
  issued_at = 0;
  code_verifier = "";
  redirect_uri = edge;
}

abbrev minted : Result OAuthAuthorizationRequest → OAuthAuthorizationRequest
minted (ok r) = r
minted (err e) = record { auth_url = ""; state = "" }

abbrev request : OAuthAuthorizationRequest
request = minted (initiate_grant toy machine graph 30 key key (edge ∷ []) alice "mail" edge ready).0

test_initiates :
    (initiate_grant toy machine graph 30 key key (edge ∷ []) alice "mail" edge ready).0 ≡ ok request
unfolding initiate_grant some_role_allows instances_of get normalize sorted_set lookup truthy
    encrypt
test_initiates = refl

-- The state of the first step completes the second.
test_completes :
    is_ok
      (complete_grant toy machine graph 30 key key alice "mail" "code" request.state none ready).0
    ≡ true
unfolding complete_grant encode_state encrypt zeros dumps decrypt open_blob skip loads
    gated_instance some_role_allows instances_of get normalize sorted_set build_adapter_for_instance
    initiate_grant
test_completes = refl

decode_state-encode_state_example :
    (e : String) × ((encode_state toy machine key flow ready).0 ≡ ok e)
    × ((decode_state toy machine key 600 e ready).0 ≡ ok flow)
decode_state-encode_state_example =
    decode_state-encode_state toy machine key 600 flow ready ready machine-CipherLaws
      machine-JsonLaw machine-IntLaw refl

initiated_binds_example :
    (alice.sub ≡ alice.sub) × (mail.id ≡ mail.id) × (ltb 602 0 ≡ false) × (ltb 60 2 ≡ false)
initiated_binds_example =
    initiated_binds toy machine graph 30 key key (edge ∷ []) alice alice "mail" "mail" edge "code"
      none ready ready machine-CipherLaws machine-JsonLaw machine-IntLaw refl request test_initiates
      test_completes

complete_grant_sound_example :
    (flow : OAuthFlowState) × (row : IntegrationInstance) × (c : Connection) × ((decode_state toy
        machine key 600 request.state ready).0
      ≡ ok flow)
    × (flow.user_sub ≡ "alice")
    × (flow.instance_id ≡ "mail")
    × (fetch_instance toy "mail" ready ≡ some row)
    × (row.enabled ≡ true)
    × (is_siam_authorized toy alice "mail" ready ≡ true)
    × (select toy (is_active_for "alice" "mail" c.external_subject) [] ≡ [])
    × ((complete_grant toy machine graph 30 key key alice "mail" "code" request.state none ready).0
        ≡ ok c)
    × ((complete_grant toy machine graph 30 key key alice "mail" "code" request.state none
          ready).1.connections
        ≡ c ∷ [])
    × (is_active_for "alice" "mail" c.external_subject c ≡ true)
    × (select toy
          (is_active_for "alice" "mail" c.external_subject)
          (complete_grant toy machine graph 30 key key alice "mail" "code" request.state none
            ready).1.connections
        ≡ c ∷ [])
complete_grant_sound_example =
    complete_grant_sound toy machine graph 30 key key alice "mail" "code" request.state none ready
      test_completes

completed_usable_example :
    (done : Completion toy machine graph 30 key key alice "mail" "code" request.state none ready)
    × (c : Connection) × ((complete_grant toy machine graph 30 key key alice "mail" "code"
          request.state none ready).0
        ≡ ok c)
    × ((refresh : IntegrationInstance → String → String → ℕ → Option OAuthTokens) (skew now_ts : ℕ)
        → ltb (now_ts + skew) done.answer.tokens.expires_at ≡ true
        → get_valid_access_token toy machine
            (stored_io machine refresh)
            key
            c.id
            skew
            now_ts
            (complete_grant toy machine graph 30 key key alice "mail" "code" request.state none
              ready).1
          ≡ (
            ok (some done.answer.tokens.access_token),
            (complete_grant toy machine graph 30 key key alice "mail" "code" request.state none
                ready).1,
          ))
completed_usable_example =
    completed_usable toy machine graph 30 key key alice "mail" "code" request.state none ready
      machine-CipherLaws machine-JsonLaw machine-IntLaw refl refl test_completes

-- An identity provider whose tokens are all alice's.
abbrev siam : IdentityProvider
siam = record { issuer = "siam"; admin_role = "admin" }

abbrev alice_claims : SiamClaims
alice_claims = record {
  sub = "alice";
  preferred_username = "alice";
  realm_roles = alice.realm_roles;
}

abbrev alice_token : String → Hub toy SiamClaims
alice_token token = pure alice_claims

test_answered :
    is_succeeded
      (complete_grant_my_connection toy machine siam alice_token 30 key key
        (some graph)
        "token"
        "mail"
        "code"
        request.state
        none
        ready).0
    ≡ true
unfolding complete_grant_my_connection verify_user_surface_token verify_siam_token
    claims_local_issuer complete_grant encode_state encrypt zeros dumps decrypt open_blob skip loads
    gated_instance some_role_allows instances_of get normalize sorted_set build_adapter_for_instance
    initiate_grant
test_answered = refl

complete_grant_my_connection_sound_example :
    (user : CurrentUser) × (v : World toy) × (flow : OAuthFlowState) × (row : IntegrationInstance)
    × IsSiamUser toy machine siam alice_token "token" ready user v
    × ((decode_state toy machine key 600 request.state v).0 ≡ ok flow)
    × (flow.user_sub ≡ user.sub)
    × (flow.instance_id ≡ "mail")
    × (fetch_instance toy "mail" v ≡ some row)
    × (row.enabled ≡ true)
    × (is_siam_authorized toy user "mail" v ≡ true)
complete_grant_my_connection_sound_example =
    complete_grant_my_connection_sound toy machine siam alice_token 30 key key graph "token" "mail"
      "code" request.state none ready test_answered
