-- ===== src/Me.antt =====
-- hub/src/lehen_hub/user/me_service.py: `MeService`, what a user sees.
pub mod Listing
use lehen.Prelude.{
  ℕ, ◌+◌, String, Bool, true, false, Option, none, some, List, [], ◌∷◌, ◌++◌, map, filter,
  if◌then◌else◌,
}
use Prim.Native.Nat.{◌*◌}
use lehen.Prelude.Dict.{Dict, lookup, insert}
use lehen.Prelude.Order.{text_leb, sorted_set}
use lehen.Prelude.Effects.{gets, modify, pure, ◌>>=◌, ◌>>◌}
use lehen.Arcade.{Arcade}
use lehen.Hub.{
  Connection, Status, stub_connected, connected, stale, disconnected, CurrentUser, Mapping, World,
  Hub, Host, second, uuid4, now, request_or_uuid,
}
use lehen.Siam.Mapping.{get, has_role, instances_of}
use lehen.Connections.Rows.{list_for_user}
use lehen.Integrations.Config.{Rendered, render_for_read}

pub data MeStatus : Type 0 where
  needs_connect shown_connected shown_stale : MeStatus

pub record MeEntry : Type 0 where
  pub instance_id : String
  pub type_id : String
  pub display_name : String
  pub status : MeStatus
  pub connection_id : Option String

pub record Me : Type 0 where
  pub sub : String
  pub username : String
  pub roles : List String
  pub integrations : List MeEntry

-- sorted(texts), which keeps repetitions
unfoldable pub insert_sorted : String → List String → List String
insert_sorted s [] = s ∷ []
insert_sorted s (t ∷ ts) = if text_leb s t then s ∷ t ∷ ts else t ∷ insert_sorted s ts

unfoldable pub sort_texts : List String → List String
unfolding insert_sorted
sort_texts [] = []
sort_texts (s ∷ ss) = insert_sorted s (sort_texts ss)

-- the members of `allowed_instance_ids`
unfoldable pub allowed_ids : Mapping → List String → List String
allowed_ids mapping [] = []
allowed_ids mapping (role ∷ roles) = instances_of role mapping ++ allowed_ids mapping roles

-- {i["id"]: i for i in all_instances}: the last of several rows with one id
unfoldable pub instance_by_id : Dict Rendered → List Rendered → Dict Rendered
instance_by_id d [] = d
instance_by_id d (i ∷ is) = instance_by_id (insert i.id i d) is

-- {c["integration_instance_id"]: c for c in user_connections}
unfoldable pub connections_by_instance : Dict Connection → List Connection → Dict Connection
connections_by_instance d [] = d
connections_by_instance d (c ∷ cs) =
    connections_by_instance (insert c.integration_instance_id c d) cs

-- `_status_for`
unfoldable pub status_for : Option Connection → MeStatus
status_for none = needs_connect
status_for (some c) = elim c.status [
  | stub_connected ↦ shown_connected
  | connected ↦ shown_connected
  | stale ↦ shown_stale
  | disconnected ↦ needs_connect
]

abbrev id_or_none : Option Connection → Option String
id_or_none none = none
id_or_none (some c) = some c.id

abbrev entry_for : Dict Connection → String → Rendered → MeEntry
entry_for connections instance_id instance_row = record {
  instance_id = instance_id;
  type_id = instance_row.type_id;
  display_name = instance_row.display_name;
  status = status_for (lookup instance_id connections);
  connection_id = id_or_none (lookup instance_id connections);
}

-- the instance was found and is enabled
abbrev pub is_shown : Option Rendered → Bool
is_shown none = false
is_shown (some i) = i.enabled

abbrev add_entry : Dict Connection → String → Option Rendered → List MeEntry → List MeEntry
add_entry connections instance_id none rest = rest
add_entry connections instance_id (some i) rest =
    if i.enabled then entry_for connections instance_id i ∷ rest else rest

-- the loop over the sorted ids
unfoldable pub payload_of : Dict Rendered → Dict Connection → List String → List MeEntry
payload_of instances connections [] = []
payload_of instances connections (id ∷ ids) =
    add_entry connections id (lookup id instances) (payload_of instances connections ids)

module _ (arcade : Arcade) where
  -- the instances by id, as `list` of the integrations service renders them; its ORDER BY id is left
  -- out, which matters only where two rows have the same id
  abbrev pub listed_instances : World arcade → Dict Rendered
  listed_instances w = instance_by_id [] (map render_for_read (arcade.rows w.instances))

  -- What `me` answers, which it reads before it writes.
  unfoldable pub me_view : CurrentUser → World arcade → Me
  unfolding sort_texts allowed_ids payload_of
  me_view user w =
      let mapping = get arcade w in
      let matching_roles = sort_texts (filter (λ r. has_role r mapping) user.realm_roles) in
      record {
        sub = user.sub;
        username = user.username;
        roles = matching_roles;
        integrations =
            payload_of (listed_instances w)
              (connections_by_instance [] (list_for_user arcade user.sub w))
              (sorted_set (allowed_ids mapping matching_roles));
      }

  unfoldable pub record_user_login :
      Host → ℕ → CurrentUser → List String → List String → Option String → Hub arcade Unit
  record_user_login host retention_days user roles integration_ids request_id = do
    ts ← now arcade host
    id ← uuid4 arcade host
    request ← request_or_uuid arcade host request_id
    modify (λ w. record w {
      login_events =
          arcade.insert
            (record {
              id = id;
              ts = ts;
              user_sub = user.sub;
              username = user.username;
              roles = roles;
              integrations_resolved = integration_ids;
              request_id = request;
              retain_until = ts + retention_days * (86400 * second);
            })
            w.login_events;
    })

  unfoldable pub me : Host → ℕ → CurrentUser → Option String → Hub arcade Me
  unfolding me_view record_user_login
  me host retention_days user request_id = do
    view ← gets (me_view user)
    record_user_login host retention_days user view.roles
        (map (λ i. i.instance_id) view.integrations) request_id
    pure view
