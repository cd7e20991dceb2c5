-- ===== src/Api/Refusals.antt =====
-- How the endpoint of the local login refuses.
use lehen.Prelude.{
  ℕ, String, true, Option, none, some, ◌≡◌, refl, sym, subst, ap, ◌∙◌, ◌⊎◌, inl, inr, Bool-cases,
}
use lehen.Prelude.Effects.{Result, ok, err, local_admin_auth, is_ok, Result-cases}
use lehen.Arcade.{Arcade}
use lehen.Hub.{LocalAdmin, World, Host}
use lehen.LocalAdmin.Service.{
  Settings, LoginResult, login, check_row, check_password, refuse, fetch_row, is_locked,
  verify_password, record_failed_attempt, record_successful_login, record_login_event,
}
use lehen.LocalAdmin.Login.{login_cases, moved}
use lehen.LocalAdmin.Lockout.{login_iff}
use lehen.Api.Connections.{succeeded, http_error}
use lehen.Api.LocalLogin.{LocalLoginResponse, local_login_response, local_login, login_answered}

-- A token, or the one exception.
abbrev IsVague : Result LoginResult → Type 0
IsVague (ok result) = Unit
IsVague (err e) = e ≡ local_admin_auth

module _ (arcade : Arcade) (host : Host) (settings : Settings)
    (username password client_ip user_agent : String) (request_id : Option String) where
  check_row-IsVague :
      (found : Option LocalAdmin) (ts : ℕ) (w : World arcade)
      → IsVague
          (check_row arcade host settings username password client_ip user_agent request_id found ts
            w).0
  unfolding check_row check_password refuse record_failed_attempt record_successful_login
      record_login_event
  check_row-IsVague none ts w = refl
  check_row-IsVague (some row) ts w = elim (Bool-cases row.enabled) [
    | inr off ↦ rw off refl
    | inl on ↦ elim (Bool-cases (is_locked row ts)) [
      | inl locked ↦ rw (on, locked) refl
      | inr unlocked ↦ elim (Bool-cases (verify_password host password row.password_hash)) [
        | inl right ↦ rw (on, unlocked, right) tt
        | inr wrong ↦ rw (on, unlocked, wrong) refl
      ]
    ]
  ]

  login-IsVague :
      (w : World arcade)
      → IsVague (login arcade host settings username password client_ip user_agent request_id w).0
  unfolding refuse record_login_event
  login-IsVague w =
      let (windows, readings, path) =
        login_cases arcade host settings username password client_ip user_agent request_id w in
      elim path [
        | inl over ↦ subst (λ x. IsVague x.0) (sym over) refl
        | inr (ts, e) ↦
            subst (λ x. IsVague x.0) (sym e)
              (check_row-IsVague (fetch_row arcade username w) ts (
                moved arcade host settings username password client_ip user_agent request_id w
                  windows readings))
      ]

  -- On a Hub with a local admin, an attempt is answered by a token, where the account exists and is
  -- enabled and the password verifies, or by status 401 for whatever reason it is refused.
  pub local_login_vague :
      (w : World arcade)
      → let answer =
          local_login arcade host
            (some settings)
            username
            password
            client_ip
            user_agent
            request_id
            w in
        (answer.0 ≡ http_error 401)
        ⊎ ((response : LocalLoginResponse) × (answer.0 ≡ succeeded response)
            × (row : LocalAdmin) × (fetch_row arcade username w ≡ some row)
            × (row.enabled ≡ true)
            × (verify_password host password row.password_hash ≡ true))
  unfolding local_login
  local_login_vague w =
      let x = login arcade host settings username password client_ip user_agent request_id w in
      elim (Result-cases x.0) [
        | inr (e, refused) ↦
            let same : e ≡ local_admin_auth = subst IsVague refused (login-IsVague w) in
            inl (ap (λ r. (login_answered arcade host (r, x.1)).0) (refused ∙ ap err same))
        | inl (result, admitted) ↦
            let (ip, user, row, found, on, unlocked, right) =
              (login_iff arcade host settings username password client_ip user_agent request_id w).0
                (ap is_ok admitted) in
            inr (
              local_login_response arcade host result x.1,
              ap (λ r. (login_answered arcade host (r, x.1)).0) admitted,
              row,
              found,
              on,
              right,
            )
      ]
