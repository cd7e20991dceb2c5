-- ===== src/LocalAdmin/Login.antt =====
-- The login of local_admin_service.py: its audit trail, and when it succeeds.
use Prim.Native.String.{◌++◌ as text_append}
use lehen.Prelude.{
  ℕ, suc, ◌+◌, String, Bool, true, false, Option, none, some, List, ◌⊎◌, ◌≡◌, refl, arith, count_if,
  if◌then◌else◌, inl, inr, Bool-cases,
}
use lehen.Prelude.Effects.{Result, is_ok}
use lehen.Prelude.Dict.{Dict}
use lehen.Arcade.{Arcade}
use lehen.Arcade.Counts.{count_if-insert}
use lehen.Hub.{
  LocalAdmin, LocalAdminLoginEvent, Outcome, success, rate_limited, no_such_user, account_disabled,
  locked_out, World, Host,
}
use lehen.LocalAdmin.Window.{hit_and_check}
use lehen.LocalAdmin.Service.{
  Settings, LoginResult, verify_password, is_locked, fetch_row, refuse, check_password, check_row,
  login,
}

abbrev pub is_success : LocalAdminLoginEvent → Bool
is_success e = elim e.outcome [ success ↦ true | _ ↦ false ]

abbrev pub is_failure : Outcome → Bool
is_failure success = false
is_failure _ = true

module _ (arcade : Arcade) (host : Host) (settings : Settings) where
  open arcade use {rows}

  abbrev pub Account : Type 0
  Account = Result LoginResult × World arcade

  -- One more event, which is a success exactly if the call returned.
  pub record Logged (before : World arcade) (after : Account) : Type 0 where
    pub one_event :
        count_if (λ _. true) (rows after.1.local_admin_login_events)
        ≡ suc (count_if (λ _. true) (rows before.local_admin_login_events))
    pub is_faithful :
        count_if is_success (rows after.1.local_admin_login_events)
        ≡ (if is_ok after.0 then 1 else 0)
          + count_if is_success (rows before.local_admin_login_events)

  module _ (username password client_ip user_agent : String) (request_id : Option String) where
    refuse-Logged :
        (o : Outcome)
        → is_failure o ≡ true
        → (w : World arcade)
        → Logged w
            (refuse arcade host settings username password client_ip user_agent request_id o w)
    unfolding refuse
    refuse-Logged success h w = cc
    refuse-Logged o h w = record {
      one_event = rw (count_if-insert arcade) (omega arith);
      is_faithful = rw (count_if-insert arcade) refl;
    }

    check_password-Logged :
        (row : LocalAdmin) (ts : ℕ) (w : World arcade)
        → Logged w (
            check_password arcade host settings username password client_ip user_agent request_id
              row ts w)
    unfolding check_password
    check_password-Logged row ts w =
        elim (Bool-cases (verify_password host password row.password_hash)) [
          | inl good ↦ record {
            one_event = rw good (rw (count_if-insert arcade) (omega arith));
            is_faithful = rw good (rw (count_if-insert arcade) refl);
          }
          | inr bad ↦ record {
            one_event = rw bad (rw (count_if-insert arcade) (omega arith));
            is_faithful = rw bad (rw (count_if-insert arcade) refl);
          }
        ]

    check_row-Logged :
        (found : Option LocalAdmin) (ts : ℕ) (w : World arcade)
        → Logged w (
            check_row arcade host settings username password client_ip user_agent request_id found
              ts w)
    unfolding check_row
    check_row-Logged none ts w = refuse-Logged no_such_user refl w
    check_row-Logged (some row) ts w = elim (Bool-cases row.enabled) [
      | inl on ↦ elim (Bool-cases (is_locked row ts)) [
        | inl shut ↦ rw (on, shut) (refuse-Logged locked_out refl w)
        | inr open' ↦ rw (on, open') (check_password-Logged row ts w)
      ]
      | inr off ↦ rw off (refuse-Logged account_disabled refl w)
    ]

    -- A hit changes the limiter's windows and the readings only.
    abbrev pub moved : World arcade → Dict (List ℕ) → ℕ → World arcade
    moved w windows readings = record w { windows = windows; readings = readings }

    -- A login is refused by the limiter, or goes on to the account.
    pub login_cases :
        (w : World arcade)
        → (windows : Dict (List ℕ)) × (readings : ℕ) × ((login arcade host settings username
                password client_ip user_agent request_id w
              ≡ refuse arcade host settings username password client_ip user_agent request_id
                  rate_limited
                  (moved w windows readings))
            ⊎ ((ts : ℕ) × (login arcade host settings username password client_ip user_agent
                    request_id w
                  ≡ check_row arcade host settings username password client_ip user_agent request_id
                      (fetch_row arcade username w)
                      ts
                      (moved w windows readings))))
    unfolding login
    login_cases w =
        let limit = settings.rate_limit_per_minute in
        let ip =
          hit_and_check limit (text_append "ip:" client_ip) (host.monotonic w.readings) w.windows in
        let user =
          hit_and_check limit (text_append "user:" username) (host.monotonic (w.readings + 1))
            ip.1 in
        elim (Bool-cases ip.0) [
          | inl ip_ok ↦ elim (Bool-cases user.0) [
            | inl user_ok ↦ (
              user.1,
              w.readings + 1 + 1 + 1,
              inr (host.clock (w.readings + 1 + 1), rw (ip_ok, user_ok) refl),
            )
            | inr user_over ↦ (user.1, w.readings + 1 + 1, inl (rw (ip_ok, user_over) refl))
          ]
          | inr ip_over ↦ (ip.1, w.readings + 1, inl (rw ip_over refl))
        ]

    -- Each login, whatever its end, leaves exactly one event, and it is a success event exactly
    -- if the login returned a token.
    pub login_logged :
        (w : World arcade)
        → let after =
            login arcade host settings username password client_ip user_agent request_id w in
          (count_if (λ _. true) (rows after.1.local_admin_login_events)
            ≡ suc (count_if (λ _. true) (rows w.local_admin_login_events)))
          × (count_if is_success (rows after.1.local_admin_login_events)
              ≡ (if is_ok after.0 then 1 else 0)
                + count_if is_success (rows w.local_admin_login_events))
    login_logged w =
        let (windows, readings, path) = login_cases w in
        elim path [
          | inl over ↦
              let r = refuse-Logged rate_limited refl (moved w windows readings) in
              rw over (r.one_event, r.is_faithful)
          | inr (ts, e) ↦
              let r =
                check_row-Logged (fetch_row arcade username w) ts (moved w windows readings) in
              rw e (r.one_event, r.is_faithful)
        ]
