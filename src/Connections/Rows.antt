-- ===== src/Connections/Rows.antt =====
-- The queries of `UserConnectionsService`, its gates, and `_record_consent`.
use Prim.Native.Nat.{◌*◌, max}
use lehen.Prelude.{
  ℕ, ◌+◌, String, Bool, true, false, Option, none, some, List, [], ◌∷◌, ◌&&◌, ◌||◌, any, ◌==◌,
  is_none,
}
use lehen.Prelude.Text.{colon_joined}
use lehen.Prelude.Effects.{modify, ◌>>=◌}
use lehen.Arcade.{Arcade, select}
use lehen.Hub.{
  Connection, IntegrationInstance, CurrentUser, World, Hub, Host, second, uuid4, request_or_uuid,
}
use lehen.Siam.Mapping.{get, instances_of}

abbrev pub default_privacy_class : String
default_privacy_class = "company"

-- `_connection_id`
unfoldable pub connection_id : String → String → ℕ → String
connection_id user_sub instance_id seq = colon_joined user_sub instance_id seq

-- disconnected_at IS NULL
abbrev pub is_active : Connection → Bool
is_active c = is_none c.disconnected_at

-- WHERE user_sub = :sub AND integration_instance_id = :id
abbrev pub is_of : String → String → Connection → Bool
is_of sub instance_id c = c.user_sub == sub && c.integration_instance_id == instance_id

-- ... AND disconnected_at IS NULL
abbrev pub is_active_of : String → String → Connection → Bool
is_active_of sub instance_id c = is_of sub instance_id c && is_active c

-- ... AND external_subject = :ext AND disconnected_at IS NULL
abbrev pub is_active_for : String → String → String → Connection → Bool
is_active_for sub instance_id ext c =
    is_of sub instance_id c && (c.external_subject == ext && is_active c)

abbrev pub is_empty {ℓ} : {A : Type ℓ} → List A → Bool
is_empty [] = true
is_empty (_ ∷ _) = false

abbrev pub first {ℓ} : {A : Type ℓ} → List A → Option A
first [] = none
first (x ∷ _) = some x

-- SELECT max(connection_seq): null over no rows
abbrev pub max_seq : List Connection → Option ℕ
max_seq [] = none
max_seq (c ∷ cs) =
    some (elim (max_seq cs) [ none ↦ c.connection_seq | some m ↦ max c.connection_seq m ])

-- One role of the user is mapped to the instance.
unfoldable pub some_role_allows : List String → String → List (String × List String) → Bool
some_role_allows [] instance_id mapping = false
some_role_allows (role ∷ roles) instance_id mapping =
    any (λ i. i == instance_id) (instances_of role mapping)
    || some_role_allows roles instance_id mapping

module _ (arcade : Arcade) where
  -- `_fetch_instance`
  unfoldable pub fetch_instance : String → World arcade → Option IntegrationInstance
  fetch_instance instance_id w = first (select arcade (λ i. i.id == instance_id) w.instances)

  -- `_is_siam_authorized`
  unfoldable pub is_siam_authorized : CurrentUser → String → World arcade → Bool
  is_siam_authorized user instance_id w =
      some_role_allows user.realm_roles instance_id (get arcade w)

  -- `_next_seq`
  unfoldable pub next_seq : String → String → World arcade → ℕ
  next_seq sub instance_id w =
      elim (max_seq (select arcade (is_of sub instance_id) w.connections)) [
        | none ↦ 0
        | some m ↦ m + 1
      ]

  unfoldable pub list_for_user : String → World arcade → List Connection
  list_for_user sub w = select arcade (λ c. c.user_sub == sub && is_active c) w.connections

  unfoldable pub record_consent :
      Host
      → ℕ
      → String
      → String
      → String
      → String
      → ℕ
      → String
      → String
      → Option String
      → ℕ
      → Hub arcade Unit
  record_consent host retention_days sub username action instance_id seq privacy ext request_id ts =
      do
        id ← uuid4 arcade host
        request ← request_or_uuid arcade host request_id
        modify (λ w. record w {
          consents =
              arcade.insert
                (record {
                  id = id;
                  ts = ts;
                  user_sub = sub;
                  username = username;
                  action = action;
                  integration_instance_id = instance_id;
                  connection_seq = seq;
                  external_subject = ext;
                  privacy_class = privacy;
                  request_id = request;
                  retain_until = ts + retention_days * (86400 * second);
                })
                w.consents;
        })
