-- ===== src/LocalAdmin/Service.antt =====
-- `LocalAdminService`: the login, the lockout, the automatic disabling and the bootstrap.
-- The verification against the dummy hash, which only takes time, changes nothing and is left out.
use Prim.Native.Nat.{◌*◌, ◌/◌}
use Prim.Native.String.{◌++◌ as text_append}
use lehen.Prelude.{
  ℕ, ◌+◌, String, Bool, true, false, Option, none, some, not, ltb, leb, is_none, ◌==◌,
  if◌then◌else◌,
}
use lehen.Prelude.Text.{cut}
use lehen.Prelude.Effects.{local_admin_auth, pure, raise, gets, modify, ◌>>=◌, ◌>>◌}
use lehen.Arcade.{Arcade, select}
use lehen.Hub.{
  LocalAdmin, Outcome, rate_limited, no_such_user, account_disabled, locked_out, bad_password,
  success, auto_disabled_on_siam_login, World, Hub, Host, second, now, monotonic, uuid4,
  request_or_uuid,
}
use lehen.Connections.Rows.{first}
use lehen.LocalAdmin.Window.{hit_and_check}

-- The constructor's arguments.
pub record Settings : Type 0 where
  pub signing_key : String
  pub token_ttl_seconds : ℕ
  pub failed_attempts_threshold : ℕ
  pub lockout_duration_seconds : ℕ
  pub rate_limit_per_minute : ℕ

pub record LoginResult : Type 0 where
  pub token : String
  pub expires_at : ℕ
  pub username : String

abbrev pub bootstrap_username : String
bootstrap_username = "admin"

-- `issue_local_admin_token` of auth/local_jwt.py, at a reading of the clock
unfoldable pub issue_local_admin_token : Host → String → String → ℕ → ℕ → String
issue_local_admin_token host username signing_key ttl_seconds ts =
    host.jwt_encode
      (record {
        sub = username;
        preferred_username = username;
        iss = "lehen-hub-local";
        aud = "lehen-hub-admin";
        scope = "admin";
        iat = ts / second;
        exp = ts / second + ttl_seconds;
      })
      signing_key

-- `_verify_password`: an empty hash never matches
abbrev pub verify_password : Host → String → String → Bool
verify_password host password expected_hash =
    if expected_hash == "" then false else host.argon_verify expected_hash password

-- locked_until > now, for a row that has one
abbrev pub is_locked : LocalAdmin → ℕ → Bool
is_locked row ts = elim row.locked_until [ none ↦ false | some until ↦ ltb ts until ]

abbrev pub disable : ℕ → String → LocalAdmin → LocalAdmin
disable ts siam_username row = record row {
  enabled = false;
  disabled_at = some ts;
  disabled_by_siam_username = some siam_username;
}

abbrev pub is_enabled : Option LocalAdmin → Bool
is_enabled none = false
is_enabled (some row) = row.enabled

abbrev pub created_at_or : Option LocalAdmin → ℕ → ℕ
created_at_or none ts = ts
created_at_or (some row) ts = row.created_at

abbrev pub clear_attempts : ℕ → LocalAdmin → LocalAdmin
clear_attempts ts row = record row {
  failed_attempts = 0;
  locked_until = none;
  last_login_at = some ts;
}

module _ (arcade : Arcade) where
  -- `_fetch_row`
  unfoldable pub fetch_row : String → World arcade → Option LocalAdmin
  fetch_row username w = first (select arcade (λ a. a.username == username) w.local_admins)

module _ (arcade : Arcade) (host : Host) (settings : Settings) where
  -- self._rate_limit.hit_and_check(key)
  abbrev pub hit : String → Hub arcade Bool
  hit key = do
    ts ← monotonic arcade host
    answered ← gets (λ w. hit_and_check settings.rate_limit_per_minute key ts w.windows)
    modify (λ w. record w { windows = answered.1 })
    pure answered.0

  -- `_record_login_event`
  unfoldable pub record_login_event :
      String → String → String → Outcome → Option String → Hub arcade Unit
  record_login_event username client_ip user_agent outcome request_id = do
    id ← uuid4 arcade host
    ts ← now arcade host
    request ← request_or_uuid arcade host request_id
    modify (λ w. record w {
      local_admin_login_events =
          arcade.insert
            (record {
              id = id;
              ts = ts;
              username = username;
              client_ip = client_ip;
              user_agent = if user_agent == "" then "-" else cut 512 user_agent;
              outcome = outcome;
              request_id = request;
            })
            w.local_admin_login_events;
    })

  -- the new values of `_record_failed_attempt`
  unfoldable pub fail_attempt : ℕ → ℕ → LocalAdmin → LocalAdmin
  fail_attempt attempts ts row = record row {
    failed_attempts = attempts;
    locked_until =
        if leb settings.failed_attempts_threshold attempts
        then some (ts + settings.lockout_duration_seconds * second)
        else none;
  }

  unfoldable pub record_failed_attempt : LocalAdmin → ℕ → Hub arcade Unit
  record_failed_attempt row ts = modify (λ w. record w {
    local_admins =
        arcade.update (λ a. a.username == row.username) (fail_attempt (row.failed_attempts + 1) ts)
          w.local_admins;
  })

  unfoldable pub record_successful_login : LocalAdmin → ℕ → Hub arcade Unit
  record_successful_login row ts = modify (λ w. record w {
    local_admins =
        arcade.update (λ a. a.username == row.username) (clear_attempts ts) w.local_admins;
  })

  module _ (username password client_ip user_agent : String) (request_id : Option String) where
    -- every refusal leaves an event and raises the same exception
    unfoldable pub refuse : Outcome → Hub arcade LoginResult
    unfolding record_login_event
    refuse outcome = do
      record_login_event username client_ip user_agent outcome request_id
      raise local_admin_auth

    -- from the check of the password on
    unfoldable pub check_password : LocalAdmin → ℕ → Hub arcade LoginResult
    unfolding refuse record_failed_attempt record_successful_login
    check_password row ts =
        if not (verify_password host password row.password_hash)
        then (do record_failed_attempt row ts; refuse bad_password)
        else do
          record_successful_login row ts
          issued ← now arcade host
          record_login_event username client_ip user_agent success request_id
          expires ← now arcade host
          pure (record {
            token =
                issue_local_admin_token host username settings.signing_key
                  settings.token_ttl_seconds issued;
            expires_at = expires + settings.token_ttl_seconds * second;
            username = username;
          })

    unfoldable pub check_row : Option LocalAdmin → ℕ → Hub arcade LoginResult
    unfolding check_password
    check_row none ts = refuse no_such_user
    check_row (some row) ts =
        if not row.enabled
        then refuse account_disabled
        else if is_locked row ts
        then refuse locked_out
        else check_password row ts

    unfoldable pub login : Hub arcade LoginResult
    unfolding check_row fetch_row
    login = do
      ip_ok ← hit (text_append "ip:" client_ip)
      if not ip_ok then refuse rate_limited else do
        user_ok ← hit (text_append "user:" username)
        if not user_ok
            then refuse rate_limited
            else do row ← gets (fetch_row arcade username); ts ← now arcade host; check_row row ts

  unfoldable pub disable_on_siam_admin_login : String → Hub arcade Bool
  unfolding fetch_row record_login_event
  disable_on_siam_admin_login siam_username = do
    row ← gets (fetch_row arcade bootstrap_username)
    if not (is_enabled row) then pure false else do
      ts ← now arcade host
      modify (λ w. record w {
        local_admins =
            arcade.update (λ a. a.username == bootstrap_username) (disable ts siam_username)
              w.local_admins;
      })
      record_login_event bootstrap_username "-" "-" auto_disabled_on_siam_login none
      pure true

  unfoldable pub bootstrap_set_password : String → String → Hub arcade Unit
  unfolding fetch_row
  bootstrap_set_password username password = do
    salted ← gets (λ w. host.argon_hash w.readings password)
    ts ← now arcade host
    existing ← gets (fetch_row arcade username)
    let doc : LocalAdmin = record {
      username = username;
      password_hash = salted;
      enabled = true;
      failed_attempts = 0;
      locked_until = none;
      last_login_at = none;
      created_at = created_at_or existing ts;
      password_rotated_at = ts;
      disabled_at = none;
      disabled_by_siam_username = none;
    }
    modify (λ w. record w {
      local_admins =
          if is_none existing
          then arcade.insert doc w.local_admins
          else arcade.update (λ a. a.username == username) (λ _. doc) w.local_admins;
    })
    id ← uuid4 arcade host
    modify (λ w. record w {
      rotations =
          arcade.insert
            (record {
              id = id;
              ts = ts;
              username = username;
              previous_existed = not (is_none existing);
            })
            w.rotations;
    })
