-- ===== src/Tests/Governing.antt =====
-- The theorems about the admin's services: the mapping, the instances, the audit log, the secrets.
use Prim.Native.String.{count, ◌++◌}
use package.text.Mathlib.TextLemmas.{length-append}
use lehen.Prelude.{
  ◌≤◌, String, true, false, Option, none, some, [], ◌∷◌, ◌≡◌, refl, ap, arith, any, count_if, ◌&&◌,
  ltb, ◌==◌, if◌then◌else◌,
}
use lehen.Prelude.Text.{skip, skip-append}
use lehen.Prelude.Order.{sorted_set, text_leb}
use lehen.Prelude.Dict.{Dict, lookup}
use lehen.Prelude.Effects.{ok}
use lehen.Arcade.{select}
use lehen.Hub.{Value, text, fingerprinted, Mapping, Host}
use lehen.Hub.Toy.{toy}
use lehen.Crypto.Envelope.{CipherLaws, encrypt, decrypt, decrypt-encrypt}
use lehen.Audit.{mask_secrets, mark_secret, fingerprint, record_event}
use lehen.Audit.Masking.{lookup_in, lookup-mask_secrets, mask_secrets-IsLike}
use lehen.Siam.Mapping.{normalize, instances_of, first_mapping, get}
use lehen.Siam.Normal.{is_siam_authorized_lem}
use lehen.Siam.Replace.{replace}
use lehen.Siam.Cascading.{wired, replace_complete}
use lehen.Connections.Rows.{is_siam_authorized, fetch_instance}
use lehen.Connections.Cascade.{is_active_on, revoke_all_for_instance, wipe_rows}
use lehen.Connections.Orphans.{is_lost}
use lehen.Me.{is_shown, listed_instances, me_view, me}
use lehen.Me.Listing.{is_entry, me_lists}
use lehen.Integrations.Registry.{get_type}
use lehen.Integrations.Service.{Changes, update, delete}
use lehen.Integrations.Stopping.{is_on, wired_hook, delete_complete, update_disables}
use lehen.Hub.ToyJson.{count-zeros}
use lehen.Tests.{machine, key, alice, mail, two_mailboxes, world}

sealed_long : (b : String) → 16 ≤ count ("0123456789abcdef" ++ b)
sealed_long b = rw length-append (omega arith)

sealed_opens :
    (b : String)
    → (if ltb (count ("0123456789abcdef" ++ b)) 16
        then none
        else some (skip 16 ("0123456789abcdef" ++ b)))
      ≡ some b
sealed_opens b =
    let short : ltb (count ("0123456789abcdef" ++ b)) 16 ≡ false = ground (arith, sealed_long b) in
    rw short (ap some (skip-append "0123456789abcdef" b))

pub machine-CipherLaws : CipherLaws machine
machine-CipherLaws = record {
  opens = λ key nonce plain. sealed_opens plain;
  tagged = λ key nonce plain. sealed_long plain;
  decodes = λ s. refl;
  unpacks = λ b. refl;
  empty = refl;
  sized = λ n size. count-zeros size;
}

decrypt-encrypt_example :
    (e : String) × ((encrypt toy machine "token" key (world [])).0 ≡ ok e)
    × (decrypt machine e key ≡ ok "token")
decrypt-encrypt_example = decrypt-encrypt toy machine machine-CipherLaws "token" key (world []) refl

abbrev audited : Option (Dict Value)
audited = some (("tenant_id", text "t") ∷ ("client_secret", text "hush") ∷ [])

lookup-mask_secrets_example :
    lookup_in "client_secret" (mask_secrets machine key ("client_secret" ∷ []) audited)
    ≡ some (fingerprinted "hmac-hush")
unfolding lookup mark_secret fingerprint
lookup-mask_secrets_example =
    lookup-mask_secrets machine key ("client_secret" ∷ []) "client_secret" audited

-- Under a digest on which they collide, two secrets cannot be told apart.
abbrev colliding : Host
colliding = record machine { hmac_hex = λ pepper plain. "digest" }

mask_secrets-IsLike_example :
    mask_secrets colliding key
      ("client_secret" ∷ [])
      (some (("tenant_id", text "t") ∷ ("client_secret", text "hush") ∷ []))
    ≡ mask_secrets colliding key
        ("client_secret" ∷ [])
        (some (("tenant_id", text "t") ∷ ("client_secret", text "loud") ∷ []))
mask_secrets-IsLike_example =
    mask_secrets-IsLike colliding key ("client_secret" ∷ [])
      (("tenant_id", text "t") ∷ ("client_secret", text "hush") ∷ [])
      (("tenant_id", text "t") ∷ ("client_secret", text "loud") ∷ [])
      (refl, refl, (refl, (refl, refl), tt))

-- Neither the roles nor the instances are in order, and one instance is there twice.
abbrev messy : Mapping
messy = ("staff", "wiki" ∷ "mail" ∷ "wiki" ∷ []) ∷ ("admin", []) ∷ []

messy-normal : normalize messy ≡ ("admin", []) ∷ ("staff", "mail" ∷ "wiki" ∷ []) ∷ []
unfolding normalize sorted_set text_leb
messy-normal = refl

is_siam_authorized_lem_example :
    is_siam_authorized toy alice "mail" (world []) ≡ any (λ role. role == "staff") alice.realm_roles
unfolding instances_of first_mapping
is_siam_authorized_lem_example = is_siam_authorized_lem toy alice "mail" (world [])

-- The new mapping has no instance for anyone.
replace_complete_example :
    let (r, w) =
      replace toy machine key
        (some (wired toy machine 30 key))
        alice
        (("staff", []) ∷ [])
        none
        (world two_mailboxes) in
    (r ≡ ok (normalize (("staff", []) ∷ [])))
    × (get toy w ≡ normalize (("staff", []) ∷ []))
    × (select toy
          (is_lost toy machine 30
            (get toy (world two_mailboxes))
            (normalize (("staff", []) ∷ []))
            none)
          w.connections
        ≡ [])
replace_complete_example =
    replace_complete toy machine 30 key alice (("staff", []) ∷ []) none (world two_mailboxes)

delete_complete_example :
    let w =
      (delete toy machine key key
        (some (wired_hook toy machine 30 key key))
        alice
        "mail"
        none
        (world two_mailboxes)).1 in
    (select toy (λ i. i.id == "mail") w.instances ≡ [])
    × (select toy (is_active_on "mail") w.connections ≡ [])
unfolding fetch_instance
delete_complete_example =
    delete_complete toy machine 30 key key alice "mail" none mail (world two_mailboxes) refl

abbrev switch_off : Changes
switch_off = record {
  display_name = none;
  config = none;
  enabled = some false;
  multi_connection_allowed = none;
}

update_disables_example :
    let w =
      (update toy machine key key
        (some (wired_hook toy machine 30 key key))
        alice
        "mail"
        switch_off
        none
        (world two_mailboxes)).1 in
    (is_on (fetch_instance toy "mail" w) ≡ false)
    × (select toy (is_active_on "mail") w.connections ≡ [])
unfolding fetch_instance update get_type record_event revoke_all_for_instance wipe_rows
update_disables_example =
    update_disables toy machine 30 key key alice "mail" none switch_off refl mail
      (world two_mailboxes) refl refl refl

-- The instance is listed, for the user's role maps it and it is enabled.
me_lists_example :
    let (r, w) = me toy machine 30 alice none (world two_mailboxes) in
    (r ≡ ok (me_view toy alice (world two_mailboxes)))
    × (count_if (λ _. true) w.login_events ≡ 1)
    × ((instance_id : String)
        → any (is_entry instance_id) (me_view toy alice (world two_mailboxes)).integrations ≡ (
            is_siam_authorized toy alice instance_id (world two_mailboxes)
            && is_shown (lookup instance_id (listed_instances toy (world two_mailboxes)))))
me_lists_example = me_lists toy alice (world two_mailboxes) machine 30 none
