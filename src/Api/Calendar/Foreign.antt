-- ===== src/Api/Calendar/Foreign.antt =====
-- internal/api/calendar/calendar.go: an event may be created with the account of another user.
use jeffrey_s_agenda_tool.Prelude.{true, Option, none, some, ◌∷◌, ◌≡◌, refl, find}
use jeffrey_s_agenda_tool.Domain.{Uuid, ConnectedAccount}
use jeffrey_s_agenda_tool.Database.{ok, account_has}
use jeffrey_s_agenda_tool.Google.{Token, CalendarEvent, answer, insert_event}
use jeffrey_s_agenda_tool.Action.{
  Env, World, pure, fail, step, settle, run_statement, receive, continue, attempt, query, ask, send,
  lift, ◌>>=◌, ◌>>◌,
}
use jeffrey_s_agenda_tool.Store.Sql.{scan, select_row}
use jeffrey_s_agenda_tool.Store.Account.{scan_account, get_connected_account_by_id}
use jeffrey_s_agenda_tool.Store.Account.Token.{
  get_decrypted_token, is_valid, get_valid_token_for_account,
}
use jeffrey_s_agenda_tool.Api.{HttpRequest, Payload, require}
use jeffrey_s_agenda_tool.Api.Auth.{AuthEnv}
use jeffrey_s_agenda_tool.Api.Server.{create_event, handle}
use jeffrey_s_agenda_tool.Api.Client.{get_oauth_client, get_calendar_client}
use jeffrey_s_agenda_tool.Api.Calendar.{calendar_id, handle_create_event}

-- Whoever the user is: if the account and the event of the request can be read, the server answers,
-- the account exists and its row decrypts to a token that is valid, and Google answers, then the event
-- is inserted with the token of that account, also where the account is another user's.
pub create_event-inserts :
    (env : Env) (auth : AuthEnv) (req : HttpRequest) (user : Option Uuid) (w : World) (k : Uuid)
    (a : ConnectedAccount) (token : Token) (event created : CalendarEvent)
    → auth.parse_uuid req.account_id ≡ some k
    → req.event ≡ some event
    → env.db_error w.tick ≡ none
    → find (account_has k) w.db.connected_accounts ≡ some a
    → get_decrypted_token env (scan_account a) ≡ ok token
    → env.google.token_valid (step w).tick token ≡ true
    → env.google.new_service (step (step w)).tick ≡ answer tt
    → env.google.event_inserted (step (step (step w))).tick event ≡ answer created
    → ((handle env auth create_event req user w).0
        ≡ ok (record { status = 201; payload = Payload.event created }))
      × ((handle env auth create_event req user w).1.requests
          ≡ insert_event token (calendar_id env auth.parse_uuid req) event ∷ w.requests)
unfolding handle handle_create_event get_calendar_client get_oauth_client
    get_valid_token_for_account get_connected_account_by_id query select_row scan run_statement
    settle receive continue attempt ask send lift is_valid pure fail ◌>>=◌ ◌>>◌ require
create_event-inserts env auth req user w k a token event created parsed read works found decrypted
      valid service inserted =
    rw (parsed, read, works, found, decrypted, valid, service, inserted) (refl, refl)
