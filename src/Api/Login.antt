-- ===== src/Api/Login.antt =====
-- internal/api/auth/auth.go: the login with Google. The OAuth and the JWT library are parameters.
pub mod State
use jeffrey_s_agenda_tool.Prelude.{
  ℕ, ◌*◌, ◌/◌, Text, text, text_eq, is_empty, ◌++◌, ℤ, ◌+ℤ◌, pos, Bool, not, Option, none, some,
  List, if◌then◌else◌,
}
use jeffrey_s_agenda_tool.Domain.{Uuid, Time, Bytes, ProviderType, User, ConnectedAccount}
use jeffrey_s_agenda_tool.Database.{Err, external}
use jeffrey_s_agenda_tool.Google.{Token, Reply}
use jeffrey_s_agenda_tool.Action.{Env, Action, pure, fail, attempt, ask, clock, ◌>>=◌}
use jeffrey_s_agenda_tool.Store.User.{create_user}
use jeffrey_s_agenda_tool.Store.Account.{UpsertConnectedAccountParams, upsert_connected_account}
use jeffrey_s_agenda_tool.Api.{Payload, Response, write_json, write_json_error, require, report}

-- oauth2v2.Userinfo
pub record UserInfo : Type 0 where
  pub id : Text
  pub email : Text
  pub name : Text

-- jwt.MapClaims of a session: the user, the time of issue and the time of expiry. Their form in the
-- token (whole seconds) is part of `sign`.
pub record Claims : Type 0 where
  pub user_id : Uuid
  pub issued_at : Time
  pub expires_at : Time

pub record LoginEnv : Type 0 where
  -- oauth2.Config.Exchange and AuthCodeURL, and the call of the userinfo service
  pub exchange : ℕ → Text → Reply Token
  pub auth_code_url : Text → Text
  pub get_user_info : ℕ → Token → Reply UserInfo
  pub scopes : List Text
  -- rand.Read of 32 bytes, and their base64 form
  pub random_state : ℕ → Reply Text
  -- jwt.NewWithClaims and SignedString, with HMAC-SHA256
  pub sign : Text → Claims → Reply Text
  pub jwt_secret_key : Text
  pub client_base_url : Text

-- The request of the callback: the cookie, if it came back, and the parameters of the URL.
pub record CallbackRequest : Type 0 where
  pub state_cookie : Option Text
  pub state : Text
  pub code : Text

-- 7 days
abbrev pub session_time : ℕ
session_time = 7 * 24 * 3600 * 1_000_000_000

unfoldable pub claims_of : Uuid → Time → Time → Claims
unfolding ◌+ℤ◌
claims_of user issued now = record {
  user_id = user;
  issued_at = issued;
  expires_at = now +ℤ pos session_time;
}

module _ (env : Env) (login : LoginEnv) where
  unfoldable pub generate_jwt : Uuid → Action Text
  unfolding claims_of
  generate_jwt user =
      if is_empty login.jwt_secret_key
      then fail (external (text "JWT_SECRET_KEY is niet ingesteld"))
      else do
        issued ← clock env
        now ← clock env
        ask (λ n. login.sign login.jwt_secret_key (claims_of user issued now))

  -- The state is sent to the browser as a cookie and in the URL of the login page.
  unfoldable pub handle_google_login : Action Response
  unfolding write_json write_json_error
  handle_google_login =
      attempt (ask login.random_state) (λ _. write_json_error 500 (text "Kon state niet genereren"))
        (λ state. write_json 307 (Payload.redirect (some state) (login.auth_code_url state)))

  unfoldable pub connect_params : User → UserInfo → Token → UpsertConnectedAccountParams
  connect_params user info token = record {
    user_id = user.id;
    provider = ProviderType.google;
    email = info.email;
    provider_user_id = info.id;
    access_token = token.access_token;
    refresh_token = token.refresh_token;
    token_expiry = token.expiry;
    scopes = login.scopes;
  }

  -- The part of the callback after the user info is known.
  unfoldable pub connect : UserInfo → Token → Action Response
  unfolding report connect_params write_json
  connect info token =
      attempt (create_user env info.email info.name)
        (report env 500 (text "Kon gebruiker niet aanmaken: "))
        λ user.
          attempt (upsert_connected_account env (connect_params user info token))
            (report env 500 (text "Kon account niet koppelen: "))
            λ account.
              attempt (generate_jwt user.id)
                (report env 500 (text "Kon authenticatie-token niet genereren: "))
                λ jwt. write_json 303 (
                  Payload.redirect none
                    (login.client_base_url ++ (text "/dashboard?token=" ++ jwt)))

  unfoldable pub handle_google_callback : CallbackRequest → Action Response
  unfolding report require write_json_error
  handle_google_callback req =
      require req.state_cookie (write_json_error 400 (text "Geen state cookie")) λ cookie.
        if not (text_eq req.state cookie)
        then write_json_error 400 (text "Ongeldige state token")
        else attempt (ask (λ n. login.exchange n req.code))
            (report env 500 (text "Kon code niet inwisselen: "))
            λ token.
              if is_empty token.refresh_token
              then write_json_error 400 (text "Geen refresh token ontvangen. Probeer opnieuw.")
              else attempt (ask (λ n. login.get_user_info n token))
                  (report env 500 (text "Kon gebruikersinfo niet ophalen: "))
                  (λ info. connect info token)
