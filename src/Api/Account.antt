-- ===== src/Api/Account.antt =====
-- internal/api/account/account.go, log/log.go and user/user.go
use jeffrey_s_agenda_tool.Prelude.{Text, text, Option}
use jeffrey_s_agenda_tool.Domain.{Uuid}
use jeffrey_s_agenda_tool.Action.{Env, Action, attempt}
use jeffrey_s_agenda_tool.Store.User.{get_user_by_id}
use jeffrey_s_agenda_tool.Store.Account.{get_accounts_for_user, delete_connected_account}
use jeffrey_s_agenda_tool.Store.Log.{get_logs_for_account}
use jeffrey_s_agenda_tool.Api.{
  HttpRequest, Payload, Response, write_json, write_json_error, with_user,
}
use jeffrey_s_agenda_tool.Api.Rule.{with_account}

module _ (env : Env) (parse_uuid : Text → Option Uuid) (user : Option Uuid)
    (req : HttpRequest) where
  unfoldable pub handle_get_connected_accounts : Action Response
  unfolding with_user write_json write_json_error
  handle_get_connected_accounts = with_user user λ user_id.
      attempt (get_accounts_for_user env user_id)
        (λ _. write_json_error 500 (text "Kon accounts niet ophalen"))
        (λ accounts. write_json 200 (Payload.accounts accounts))

  unfoldable pub handle_delete_connected_account : Action Response
  unfolding with_account write_json write_json_error
  handle_delete_connected_account = with_account env parse_uuid user req λ account_id.
      attempt (delete_connected_account env account_id)
        (λ _. write_json_error 500 (text "Kon account niet verwijderen"))
        (λ _. write_json 204 Payload.nothing)

  -- The default limit is 50.
  unfoldable pub handle_get_automation_logs : Action Response
  unfolding with_account write_json write_json_error
  handle_get_automation_logs = with_account env parse_uuid user req λ account_id.
      attempt (get_logs_for_account env account_id 50)
        (λ _. write_json_error 500 (text "Kon logs niet ophalen"))
        (λ logs. write_json 200 (Payload.logs logs))

  unfoldable pub handle_get_me : Action Response
  unfolding with_user write_json write_json_error
  handle_get_me = with_user user λ user_id.
      attempt (get_user_by_id env user_id)
        (λ _. write_json_error 500 (text "Kon gebruiker niet ophalen"))
        (λ user. write_json 200 (Payload.user user))
