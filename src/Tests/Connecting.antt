-- ===== src/Tests/Connecting.antt =====
-- The theorems about connections_service.py at a user with two mailboxes on one instance.
use lehen.Prelude.{ℕ, ◌+◌, true, none, some, List, [], ◌∷◌, ◌≡◌, refl, arith, count_if, ◌==◌}
use lehen.Prelude.Order.{sorted_set}
use lehen.Prelude.Effects.{ok, err, is_ok, connection_already_exists}
use lehen.Arcade.{select}
use Prim.Native.String.{String}
use lehen.Hub.{Connection, disconnected}
use lehen.Hub.Toy.{toy}
use lehen.Siam.Mapping.{instances_of, normalize, get}
use lehen.Connections.Rows.{fetch_instance, is_siam_authorized, some_role_allows, next_seq}
use lehen.Connections.Grant.{grant, revoke, is_target}
use lehen.Connections.Cascade.{
  is_active_on, revoke_all_for_instance, revoke_for_users_no_longer_authorized, some_role_maps,
}
use lehen.Connections.Gates.{new_connection, grant_iff}
use lehen.Connections.Revocation.{
  revoke_complete, revoke_exact, revoke_all_complete, revoke_all_exact,
}
use lehen.Connections.Orphans.{is_lost, cascade_complete}
use lehen.Connections.Loops.{is_consent}
use lehen.Connections.Invariant.{IsWellFormed}
use lehen.Connections.History.{Call, run, run-IsSound}
use lehen.Crypto.Envelope.{decrypt, open_blob}
use lehen.Connections.Tokens.{
  TokenIo, fetch_connection_row, decode_token_blob, use_tokens, get_valid_access_token,
}
use lehen.Connections.Staleness.{token_or_stale}
use lehen.Tests.{machine, key, graph, alice, mail, mailbox, two_mailboxes, world}

grant_iff_example :
    is_ok (grant toy machine 30 alice "mail" "company" "c" "c" none (world two_mailboxes)).0 ≡ true
unfolding fetch_instance is_siam_authorized get instances_of some_role_allows normalize sorted_set
grant_iff_example =
    (grant_iff toy machine 30 alice "mail" "company" "c" "c" none (world two_mailboxes)).1
      (mail, refl, refl, refl, refl)

-- The second grant of a mailbox.
grant_twice :
    (grant toy machine 30 alice "mail" "company" "a" "a" none (world two_mailboxes)).0
    ≡ err connection_already_exists
unfolding grant fetch_instance is_siam_authorized get instances_of some_role_allows normalize
    sorted_set
grant_twice = refl

third_mailbox : Connection
third_mailbox =
    new_connection toy machine 30 alice "mail" "company" "c" "c" none (world two_mailboxes)

grant_third :
    (grant toy machine 30 alice "mail" "company" "c" "c" none (world two_mailboxes)).0
    ≡ ok third_mailbox
unfolding grant fetch_instance is_siam_authorized get instances_of some_role_allows normalize
    sorted_set third_mailbox
grant_third = refl

-- The number of the new row is the one after the largest.
third_seq : third_mailbox.connection_seq ≡ 2
unfolding third_mailbox next_seq
third_seq = refl

revoke_complete_example :
    let (r, w) = revoke toy machine 30 alice "mail" none none (world two_mailboxes) in
    (r ≡ ok tt)
    × (select toy (is_target "alice" "mail" none) w.connections ≡ [])
    × (count_if (is_consent "alice" "revoked") w.consents ≡ 2)
revoke_complete_example =
    revoke_complete toy machine 30 alice "mail" none none (world two_mailboxes) refl

revoke_exact_example :
    (revoke toy machine 30 alice "mail" (some "a") none (world two_mailboxes)).1.connections
    ≡ record (mailbox "a") { status = disconnected; disconnected_at = some 0 }
      ∷ record (mailbox "b") { connection_seq = 1 }
      ∷ []
revoke_exact_example =
    revoke_exact toy machine 30 alice "mail" (some "a") none (world two_mailboxes) refl
      ((refl, tt), (tt, tt))

revoke_all_complete_example :
    let (r, w) =
      revoke_all_for_instance toy machine 30 "mail" "revoked-by-admin" none (world two_mailboxes) in
    (r ≡ ok 2)
    × (select toy (is_active_on "mail") w.connections ≡ [])
    × ((sub : String)
        → count_if (is_consent sub "revoked-by-admin") w.consents
          ≡ count_if (λ c. c.user_sub == sub) two_mailboxes + 0)
revoke_all_complete_example =
    revoke_all_complete toy machine 30 "revoked-by-admin" none "mail" (world two_mailboxes)

abbrev revoked_mailbox : String → ℕ → Connection
revoked_mailbox ext seq = record (mailbox ext) {
  connection_seq = seq;
  encrypted_credentials = none;
  status = disconnected;
  disconnected_at = some 0;
  revoked_by = some "revoked-by-admin";
  revoked_at = some 0;
}

revoke_all_exact_example :
    (revoke_all_for_instance toy machine 30 "mail" "revoked-by-admin" none
      (world two_mailboxes)).1.connections
    ≡ revoked_mailbox "a" 0 ∷ revoked_mailbox "b" 1 ∷ []
revoke_all_exact_example =
    revoke_all_exact toy machine 30 "revoked-by-admin" none "mail" (world two_mailboxes)
      ((refl, tt), (tt, tt))

-- The role keeps its entry, but loses the instance.
cascade_complete_example :
    let (r, w) =
      revoke_for_users_no_longer_authorized toy machine 30
        (("staff", "mail" ∷ []) ∷ [])
        (("staff", []) ∷ [])
        none
        (world two_mailboxes) in
    (r ≡ ok 2)
    × (select toy
          (is_lost toy machine 30 (("staff", "mail" ∷ []) ∷ []) (("staff", []) ∷ []) none)
          w.connections
        ≡ [])
unfolding some_role_maps
cascade_complete_example =
    cascade_complete toy machine 30 (("staff", "mail" ∷ []) ∷ []) (("staff", []) ∷ []) none
      (world two_mailboxes)

nothing-IsWellFormed : IsWellFormed []
nothing-IsWellFormed = record {
  one_active = λ sub i ext. omega arith;
  one_per_seq = λ sub i n. omega arith;
}

-- A mailbox is granted, granted again, granted as another one, and all are revoked.
abbrev calls : List Call
calls =
    Call.grant_call alice "mail" "company" "a" "a" none
    ∷ Call.grant_call alice "mail" "company" "a" "a" none
    ∷ Call.grant_call alice "mail" "company" "b" "b" none
    ∷ Call.revoke_call alice "mail" none none
    ∷ []

abbrev no_refresh : TokenIo
no_refresh = record {
  dumps = λ tokens. tokens.access_token;
  loads = λ blob. none;
  builds = λ instance_row. true;
  refresh = λ instance_row secret refresh_token now_ts. none;
}

run-IsSound_example :
    IsWellFormed (run toy machine 30 graph no_refresh key key calls (world [])).connections
run-IsSound_example =
    run-IsSound toy machine 30 graph no_refresh key key calls (world []) nothing-IsWellFormed

-- A provider that refreshes nothing.
-- The stored credentials are no envelope: the call makes the connection stale.
token_or_stale_example :
    let w =
      (get_valid_access_token toy machine no_refresh "0123456789abcdef0123456789abcdef"
        "alice:mail:a" 60 1000
        (world two_mailboxes)).1 in
    (fetch_connection_row toy machine no_refresh "0123456789abcdef0123456789abcdef" "alice:mail:a" w
      ≡ none)
    × ((skew' later : ℕ)
        → get_valid_access_token toy machine no_refresh "0123456789abcdef0123456789abcdef"
            "alice:mail:a" skew' later w
          ≡ (ok none, w))
unfolding get_valid_access_token fetch_connection_row decode_token_blob use_tokens decrypt open_blob
token_or_stale_example =
    token_or_stale toy machine no_refresh "0123456789abcdef0123456789abcdef" "alice:mail:a" 60 1000
      (world two_mailboxes) refl
