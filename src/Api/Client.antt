-- ===== src/Api/Client.antt =====
-- internal/api/common/common.go: the clients of Google. A client is the token that it sends, since the
-- calls of the client libraries take nothing else from it.
use jeffrey_s_agenda_tool.Domain.{Uuid}
use jeffrey_s_agenda_tool.Google.{Token}
use jeffrey_s_agenda_tool.Action.{Env, Action, pure, ask, ◌>>=◌, ◌>>◌}
use jeffrey_s_agenda_tool.Store.Account.Token.{get_valid_token_for_account}

module _ (env : Env) where
  -- getOAuthClient
  unfoldable pub get_oauth_client : Uuid → Action Token
  get_oauth_client k = get_valid_token_for_account env k

  unfoldable pub get_calendar_client : Uuid → Action Token
  unfolding get_oauth_client
  get_calendar_client k = do token ← get_oauth_client k; ask env.google.new_service; pure token

  unfoldable pub get_gmail_client : Uuid → Action Token
  unfolding get_oauth_client
  get_gmail_client k = do token ← get_oauth_client k; ask env.google.new_service; pure token
