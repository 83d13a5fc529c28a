-- ===== src/Api/Requests/Login.antt =====
-- internal/api/auth/auth.go: the requests of the login.
use jeffrey_s_agenda_tool.Domain.{Uuid}
use jeffrey_s_agenda_tool.Google.{Request}
use jeffrey_s_agenda_tool.Action.{Env}
use jeffrey_s_agenda_tool.Action.Sends.{Sends, sends_rules}
use jeffrey_s_agenda_tool.Store.Requests.Calls.{create_user-Sends, upsert_connected_account-Sends}
use jeffrey_s_agenda_tool.Api.Login.{
  LoginEnv, generate_jwt, connect, handle_google_login, handle_google_callback,
}
use jeffrey_s_agenda_tool.Api.Requests.Steps.{response_rules}

module _ {Allowed : Request → Type 0} (env : Env) (login : LoginEnv) where
  generate_jwt-Sends : (user : Uuid) → Sends Allowed (generate_jwt env login user)
  unfolding generate_jwt
  generate_jwt-Sends user = search sends_rules

  connect-Sends : (info : _) (token : _) → Sends Allowed (connect env login info token)
  unfolding connect
  connect-Sends info token =
      search (response_rules, create_user-Sends, upsert_connected_account-Sends, generate_jwt-Sends)

  pub handle_google_login-Sends : Sends Allowed (handle_google_login env login)
  unfolding handle_google_login
  handle_google_login-Sends = search response_rules

  pub handle_google_callback-Sends :
      (req : _) → Sends Allowed (handle_google_callback env login req)
  unfolding handle_google_callback
  handle_google_callback-Sends req = search (response_rules, connect-Sends) depth 10
