-- ===== src/Tests/BreakGlass.antt =====
-- The theorems about local_admin_service.py at one account, two attempts from the threshold.
use Prim.Native.Nat.{◌*◌}
use lehen.Prelude.{
  ◌+◌, String, true, false, none, some, List, [], ◌∷◌, ◌≡◌, ◌⊎◌, refl, arith, count_if,
  if◌then◌else◌, eq_refl, eq_iff, ◌==◌, Bool-cases, inl, inr,
}
use lehen.Prelude.Effects.{err, is_ok, local_admin_auth}
use lehen.Prelude.Dict.{lookup, insert}
use lehen.Hub.{World, LocalAdmin, second}
use lehen.Hub.Toy.{toy}
use lehen.Api.Connections.{http_error, succeeded}
use lehen.Api.LocalLogin.{LocalLoginResponse, local_login}
use lehen.Api.Refusals.{local_login_vague}
use lehen.LocalAdmin.Window.{Hit, hit_and_check, answers, allowed, window_counts}
use lehen.LocalAdmin.Service.{Settings, fetch_row, verify_password, login, bootstrap_set_password}
use lehen.LocalAdmin.Login.{is_success, login_logged}
use lehen.LocalAdmin.Lockout.{login_iff, wrong_password, lockout}
use lehen.LocalAdmin.Rotation.{PasswordLaws, bootstrap_login}
use lehen.Tests.{machine, admin, world}

abbrev settings : Settings
settings = record {
  signing_key = "key";
  token_ttl_seconds = 3600;
  failed_attempts_threshold = 2;
  lockout_duration_seconds = 900;
  rate_limit_per_minute = 5;
}

abbrev start : World toy
start = world []

-- Two hits in a minute are one too many; a minute after the first there is room again.
abbrev hits : List Hit
hits =
    ("ip:a", 1 * second) ∷ ("ip:a", 2 * second) ∷ ("ip:b", 2 * second) ∷ ("ip:a", 63 * second) ∷ []

hits-answers : answers 1 hits [] ≡ true ∷ false ∷ true ∷ true ∷ []
unfolding answers hit_and_check lookup insert
hits-answers = refl

window_counts_example : answers 1 hits [] ≡ allowed 1 [] hits
window_counts_example =
    window_counts 1 hits (omega arith, (omega arith, (omega arith, (omega arith, tt))))

login_logged_example :
    let after = login toy machine settings "admin" "sesame" "10.0.0.1" "curl" none start in
    (count_if (λ _. true) after.1.local_admin_login_events ≡ 1)
    × (count_if is_success after.1.local_admin_login_events ≡ (if is_ok after.0 then 1 else 0) + 0)
login_logged_example =
    login_logged toy machine settings "admin" "sesame" "10.0.0.1" "curl" none start

login_iff_example :
    is_ok (login toy machine settings "admin" "sesame" "10.0.0.1" "curl" none start).0 ≡ true
unfolding hit_and_check lookup insert fetch_row
login_iff_example =
    (login_iff toy machine settings "admin" "sesame" "10.0.0.1" "curl" none start).1
      (refl, refl, admin, refl, refl, refl, refl)

-- The second failed attempt locks the account for a quarter of an hour.
wrong_password_example :
    let after = login toy machine settings "admin" "guess" "10.0.0.1" "curl" none start in
    (after.0 ≡ err local_admin_auth)
    × (fetch_row toy "admin" after.1
        ≡ some (record admin { failed_attempts = 2; locked_until = some (902 * second) }))
unfolding hit_and_check lookup insert fetch_row
wrong_password_example =
    wrong_password toy machine settings "admin" "guess" "10.0.0.1" "curl" none start admin refl refl
      refl refl refl refl

abbrev after_guess : World toy
after_guess = (login toy machine settings "admin" "guess" "10.0.0.1" "curl" none start).1

-- The state after the guess, a minute later.
abbrev later : World toy
later = record start { local_admins = after_guess.local_admins; readings = 60 }

lockout_example :
    is_ok (login toy machine settings "admin" "sesame" "10.0.0.2" "curl" none later).0 ≡ false
unfolding hit_and_check lookup insert fetch_row
lockout_example =
    lockout toy machine settings "admin" "guess" "10.0.0.1" "curl" none start admin refl refl refl
      refl refl refl "sesame" "10.0.0.2" "curl" none later refl refl (omega arith)

hash_nonempty : (s : String) → (String.◌∷◌ "h" s == "") ≡ false
hash_nonempty s = elim (Bool-cases (String.◌∷◌ "h" s == "")) [
  | inl e ↦ let p : String.◌∷◌ "h" s ≡ String.[] = (eq_iff (String.◌∷◌ "h" s) "").0 e in absurd (cc)
  | inr e ↦ e
]

machine-PasswordLaws : PasswordLaws machine
machine-PasswordLaws = record {
  verifies = λ n password. eq_refl (String.◌∷◌ "h" password);
  nonempty = λ n password. hash_nonempty password;
}

-- The next login after a new password for the account.
abbrev renewed : World toy
renewed = record start {
  local_admins = (bootstrap_set_password toy machine settings "admin" "tulip" start).1.local_admins;
  readings = 60;
}

bootstrap_login_example :
    is_ok (login toy machine settings "admin" "tulip" "10.0.0.1" "curl" none renewed).0 ≡ true
unfolding hit_and_check lookup insert
bootstrap_login_example =
    bootstrap_login toy machine settings "admin" "tulip" start machine-PasswordLaws "10.0.0.1"
      "curl" none renewed refl refl refl

-- Signing in with the right password.
local_login_vague_example :
    let answer =
      local_login toy machine (some settings) "admin" "sesame" "10.0.0.1" "curl" none start in
    (answer.0 ≡ http_error 401)
    ⊎ ((response : LocalLoginResponse) × (answer.0 ≡ succeeded response)
        × (row : LocalAdmin) × (fetch_row toy "admin" start ≡ some row)
        × (row.enabled ≡ true)
        × (verify_password machine "sesame" row.password_hash ≡ true))
local_login_vague_example =
    local_login_vague toy machine settings "admin" "sesame" "10.0.0.1" "curl" none start
