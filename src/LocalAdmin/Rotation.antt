-- ===== src/LocalAdmin/Rotation.antt =====
-- The automatic disabling and the bootstrap of local_admin_service.py.
use lehen.Prelude.{
  ℕ, String, Bool, true, false, Option, none, some, List, [], ◌∷◌, ◌≡◌, refl, ap, ◌∙◌, map, ◌==◌,
  eq_refl, inl, inr, Bool-cases, Option-cases,
}
use lehen.Prelude.Effects.{Result, ok, is_ok}
use lehen.Arcade.{Arcade, select}
use lehen.Arcade.Counts.{select-update_same, select-insert_new}
use lehen.Hub.{LocalAdmin, World, Host}
use lehen.Connections.Rows.{first}
use lehen.LocalAdmin.Service.{
  Settings, bootstrap_username, is_enabled, fetch_row, disable, created_at_or,
  disable_on_siam_admin_login, bootstrap_set_password, login,
}
use lehen.LocalAdmin.Lockout.{first-map, ip_hit, user_hit, login_iff}

-- What argon2 promises: a hash verifies the password that it was made from, and is not empty.
pub record PasswordLaws (host : Host) : Type 0 where
  pub verifies :
      (n : ℕ) (password : String) → host.argon_verify (host.argon_hash n password) password ≡ true
  pub nonempty : (n : ℕ) (password : String) → (host.argon_hash n password == "") ≡ false

first-none : {R : Type 0} (xs : List R) → first xs ≡ none → xs ≡ []
first-none [] h = refl
first-none (x ∷ xs) h = cc

is_enabled-map :
    (f : LocalAdmin → LocalAdmin)
    → ((a : LocalAdmin) → (f a).enabled ≡ false)
    → (xs : List LocalAdmin) → is_enabled (first (map f xs)) ≡ false
is_enabled-map f h [] = refl
is_enabled-map f h (x ∷ xs) = h x

module _ (arcade : Arcade) (host : Host) (settings : Settings) where
  abbrev row_of : String → World arcade → Option LocalAdmin
  row_of = fetch_row arcade

  -- A disabled or missing account is left alone.
  disable_off :
      (siam_username : String) (w : World arcade)
      → is_enabled (row_of bootstrap_username w) ≡ false
      → disable_on_siam_admin_login arcade host settings siam_username w ≡ (ok false, w)
  unfolding disable_on_siam_admin_login
  disable_off siam_username w off = rw off refl

  module _ (siam_username : String) (w : World arcade) where
    abbrev pub disabled : Result Bool × World arcade
    disabled = disable_on_siam_admin_login arcade host settings siam_username w

    -- After the call the bootstrap account is missing or disabled, and the call says whether it
    -- was enabled before.
    pub disable_complete :
        (disabled.0 ≡ ok (is_enabled (row_of bootstrap_username w)))
        × (is_enabled (row_of bootstrap_username disabled.1) ≡ false)
    unfolding disable_on_siam_admin_login
    disable_complete = elim (Bool-cases (is_enabled (row_of bootstrap_username w))) [
      | inl on ↦
          let ts : ℕ = host.clock w.readings in
          let f = disable ts siam_username in
          let p = λ (a : LocalAdmin). a.username == bootstrap_username in
          rw on (
            refl,
            ap (λ l. is_enabled (first l)) (select-update_same arcade p f w.local_admins (λ c h. h))
                ∙ is_enabled-map f (λ a. refl) (select arcade p w.local_admins),
          )
      | inr off ↦ rw off (refl, off)
    ]

  module _ (username password : String) (w : World arcade) where
    abbrev pub bootstrapped : Result (Unit {0}) × World arcade
    bootstrapped = bootstrap_set_password arcade host settings username password w

    abbrev is_row : LocalAdmin → Bool
    is_row a = a.username == username

    abbrev fresh_row : LocalAdmin
    fresh_row = record {
      username = username;
      password_hash = host.argon_hash w.readings password;
      enabled = true;
      failed_attempts = 0;
      locked_until = none;
      last_login_at = none;
      created_at = created_at_or (row_of username w) (host.clock w.readings);
      password_rotated_at = host.clock w.readings;
      disabled_at = none;
      disabled_by_siam_username = none;
    }

    -- Whether or not there was an account, the one found afterwards is enabled, unlocked, without
    -- failed attempts, and has the hash of the new password.
    fetch-bootstrapped : row_of username bootstrapped.1 ≡ some fresh_row
    unfolding bootstrap_set_password
    fetch-bootstrapped = elim (Option-cases (row_of username w)) [
      | inl missing ↦ rw missing (
          ap first (
            select-insert_new arcade is_row _ w.local_admins (eq_refl username)
              (first-none (select arcade is_row w.local_admins) missing)))
      | inr (old, found) ↦ rw found (
          ap first
            (select-update_same arcade is_row (λ _. _) w.local_admins (λ c h. eq_refl username))
          ∙ first-map (λ _. _) (select arcade is_row w.local_admins) found)
    ]

    -- Where argon2 keeps its promises, a login with the password of a bootstrap, which the
    -- limiter lets pass, returns a token, as long as the accounts stay as the bootstrap
    -- left them.
    pub bootstrap_login :
        PasswordLaws host
        → (client_ip user_agent : String) (request_id : Option String) (w' : World arcade)
        → w'.local_admins ≡ bootstrapped.1.local_admins
        → (ip_hit host settings client_ip w').0 ≡ true
        → (user_hit host settings client_ip username w').0 ≡ true
        → is_ok (login arcade host settings username password client_ip user_agent request_id w').0
          ≡ true
    unfolding fetch_row
    bootstrap_login laws client_ip user_agent request_id w' same ip user =
        (login_iff arcade host settings username password client_ip user_agent request_id w').1 (
          ip,
          user,
          fresh_row,
          ap (λ t. first (select arcade is_row t)) same ∙ fetch-bootstrapped,
          refl,
          refl,
          rw (laws.nonempty w.readings password) (laws.verifies w.readings password),
        )
