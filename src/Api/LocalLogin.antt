-- ===== src/Api/LocalLogin.antt =====
-- The endpoint of api/admin/local_login.py. The service is none where the path is not configured;
-- the address, the agent and the id of the request are arguments.
use Prim.Native.Nat.{◌/◌}
use lehen.Prelude.{ℕ, ◌+◌, ◌-◌, String, Option, none, some}
use lehen.Prelude.Effects.{Result, ok, err, local_admin_auth}
use lehen.Arcade.{Arcade}
use lehen.Hub.{World, Host, second}
use lehen.LocalAdmin.Service.{Settings, LoginResult, login}
use lehen.Api.Connections.{Response, succeeded, http_error, server_error}

pub record LocalLoginResponse : Type 0 where
  pub access_token : String
  pub expires_in : ℕ

module _ (arcade : Arcade) (host : Host) where
  -- max(0, int(result.expires_at.timestamp() - time.time()))
  abbrev pub local_login_response : LoginResult → World arcade → LocalLoginResponse
  local_login_response result w = record {
    access_token = result.token;
    expires_in = (result.expires_at - host.clock w.readings) / second;
  }

  -- The one except clause.
  abbrev pub login_answered :
      Result LoginResult × World arcade → Response LocalLoginResponse × World arcade
  login_answered (ok result, w) =
      (succeeded (local_login_response result w), record w { readings = w.readings + 1 })
  login_answered (err local_admin_auth, w) = (http_error 401, w)
  login_answered (err e, w) = (server_error, w)

  unfoldable pub local_login :
      Option Settings
      → String
      → String
      → String
      → String
      → Option String
      → World arcade
      → Response LocalLoginResponse × World arcade
  unfolding login
  local_login none username password client_ip user_agent request_id w = (http_error 503, w)
  local_login (some settings) username password client_ip user_agent request_id w =
      login_answered
        (login arcade host settings username password client_ip user_agent request_id w)
