-- ===== src/Api/Requests/Clients.antt =====
-- internal/api: a handler that gets a client of Google and then sends at most one request.
use jeffrey_s_agenda_tool.Prelude.{ℕ, Text, arith, Option, none, some, ◌≡◌, refl}
use jeffrey_s_agenda_tool.Domain.{Uuid}
use jeffrey_s_agenda_tool.Database.{Result, ok, err, panic}
use jeffrey_s_agenda_tool.Google.{Token, CalendarEvent, Reply, answer, failed, Request}
use jeffrey_s_agenda_tool.Action.{
  Env, World, Action, pure, fail, receive, continue, attempt, ask, ◌>>=◌, ◌>>◌,
}
use jeffrey_s_agenda_tool.Action.Adds.{Adds, Quiet, Adds-Quiet, Adds-attempt, Adds-if}
use jeffrey_s_agenda_tool.Store.Account.Token.{get_valid_token_for_account}
use jeffrey_s_agenda_tool.Api.{HttpRequest, MailBody, Response, require}
use jeffrey_s_agenda_tool.Api.Auth.{AuthEnv, auth_middleware}
use jeffrey_s_agenda_tool.Api.Client.{get_oauth_client, get_calendar_client, get_gmail_client}
use jeffrey_s_agenda_tool.Api.Calendar.{with_named_account, with_event, with_calendar}
use jeffrey_s_agenda_tool.Api.Gmail.{with_mailbox, with_mail, with_gmail}
use jeffrey_s_agenda_tool.Api.Requests.Rules.{
  Sends-write_json_error, get_calendar_client-Sends, get_gmail_client-Sends,
}

served :
    (r : Reply (Unit {0})) (t token : Token) (w : World)
    → (continue (receive r w).0 fail (λ _. pure t) (receive r w).1).0 ≡ ok token
    → Result.ok t ≡ ok token
unfolding receive continue pure fail
served (answer a) t token w e = e
served (failed x) t token w e = ground arith

client :
    (r : Result Token) (reply : ℕ → Reply (Unit {0})) (w : World) (token : Token)
    → (continue r fail (λ t. attempt (ask reply) fail (λ _. pure t)) w).0 ≡ ok token
    → r ≡ ok token
unfolding continue attempt ask fail
client (ok t) reply w token e = served (reply w.tick) t token _ e
client (err x) reply w token e = e
client panic reply w token e = e

pub get_calendar_client-token :
    (env : Env) (k : Uuid) (w : World) (token : Token)
    → (get_calendar_client env k w).0 ≡ ok token
    → (get_valid_token_for_account env k w).0 ≡ ok token
unfolding get_calendar_client get_oauth_client ◌>>=◌ ◌>>◌ attempt
get_calendar_client-token env k w token e = client _ env.google.new_service _ token e

get_gmail_client-token :
    (env : Env) (k : Uuid) (w : World) (token : Token)
    → (get_gmail_client env k w).0 ≡ ok token
    → (get_valid_token_for_account env k w).0 ≡ ok token
unfolding get_gmail_client get_oauth_client ◌>>=◌ ◌>>◌ attempt
get_gmail_client-token env k w token e = client _ env.google.new_service _ token e

module _ {P : Request → Type 0} where
  pub Adds-require :
      {A B : Type 0} (o : Option A) (m : Action B) (k : A → Action B) (w : World)
      → Quiet m
      → ((a : A) → o ≡ some a → Adds P (k a) w)
      → Adds P (require o m k) w
  unfolding require
  Adds-require none m k w quiet adds = Adds-Quiet m w quiet
  Adds-require (some a) m k w quiet adds = adds a refl

  module _ (env : Env) (parse_uuid : Text → Option Uuid) (req : HttpRequest) (id : Uuid)
      (k : Token → Action Response) (w : World) where
    pub with_calendar-Adds :
        ((token : Token)
          → (get_valid_token_for_account env id w).0 ≡ ok token
          → Adds P (k token) (get_calendar_client env id w).1)
        → Adds P (with_calendar env parse_uuid req id k) w
    unfolding with_calendar
    with_calendar-Adds adds =
        Adds-attempt _ _ k w (get_calendar_client-Sends env id) (λ e. Sends-write_json_error _ _)
          (λ token given. adds token (get_calendar_client-token env id w token given))

    pub with_gmail-Adds :
        ((token : Token)
          → (get_valid_token_for_account env id w).0 ≡ ok token
          → Adds P (k token) (get_gmail_client env id w).1)
        → Adds P (with_gmail env parse_uuid req id k) w
    unfolding with_gmail
    with_gmail-Adds adds =
        Adds-attempt _ _ k w (get_gmail_client-Sends env id) (λ e. Sends-write_json_error _ _)
          (λ token given. adds token (get_gmail_client-token env id w token given))

  module _ (env : Env) (parse_uuid : Text → Option Uuid) (req : HttpRequest) where
    pub with_named_account-Adds :
        (k : Uuid → Action Response) (w : World)
        → ((a : Uuid) → parse_uuid req.account_id ≡ some a → Adds P (k a) w)
        → Adds P (with_named_account env parse_uuid req k) w
    unfolding with_named_account
    with_named_account-Adds k w = Adds-require _ _ k w (Sends-write_json_error _ _)

    pub with_event-Adds :
        (k : CalendarEvent → Action Response) (w : World)
        → ((a : CalendarEvent) → req.event ≡ some a → Adds P (k a) w)
        → Adds P (with_event env parse_uuid req k) w
    unfolding with_event
    with_event-Adds k w = Adds-require _ _ k w (Sends-write_json_error _ _)

    pub with_mailbox-Adds :
        (k : Uuid → Action Response) (w : World)
        → ((a : Uuid) → parse_uuid req.account_id ≡ some a → Adds P (k a) w)
        → Adds P (with_mailbox env parse_uuid req k) w
    unfolding with_mailbox
    with_mailbox-Adds k w = Adds-require _ _ k w (Sends-write_json_error _ _)

    pub with_mail-Adds :
        (k : MailBody → Action Response) (w : World)
        → ((a : MailBody) → req.mail ≡ some a → Adds P (k a) w)
        → Adds P (with_mail env parse_uuid req k) w
    unfolding with_mail
    with_mail-Adds k w = Adds-require _ _ k w (Sends-write_json_error _ _)

  pub auth_middleware-Adds :
      (auth : AuthEnv) (next : Option Uuid → Action Response) (req : HttpRequest) (w : World)
      → ((user : Uuid) → Adds P (next (some user)) w)
      → Adds P (auth_middleware auth next req) w
  unfolding auth_middleware
  auth_middleware-Adds auth next req w adds =
      search (Adds-if, Adds-require, Sends-write_json_error) depth 12
