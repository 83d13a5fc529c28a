-- ===== src/Api.antt =====
-- internal/api: what an HTTP handler is, and internal/api/common/common.go's part of it. A handler is
-- an action that returns the response which it writes; the request's body is what the JSON decoder
-- makes of it, and `none` where it reports an error.
pub mod Rule
pub mod Account
pub mod Auth
pub mod Server
pub mod Login
pub mod Mail
pub mod Client
pub mod Calendar
pub mod Gmail
pub mod Keeps
pub mod Needs
pub mod Permits
pub mod Refusal
pub mod Requests
pub mod Integrity
pub mod Answers
pub mod Access
use jeffrey_s_agenda_tool.Prelude.{ℕ, Text, text, ℤ, Bool, Option, none, some, List, [], ◌∷◌, ◌++◌}
use jeffrey_s_agenda_tool.Json.{Json}
use jeffrey_s_agenda_tool.Domain.{
  Uuid, User, ConnectedAccount, AutomationRule, AutomationLog, GmailAutomationRule,
  GmailRuleTriggerType, GmailRuleActionType,
}
use jeffrey_s_agenda_tool.Database.{Err}
use jeffrey_s_agenda_tool.Google.{CalendarEvent, CalendarListEntry, Message, Label, Draft}
use jeffrey_s_agenda_tool.Action.{Env, Action, pure}

-- The fields of the decoded domain.AutomationRule that the handlers read.
pub record RuleBody : Type 0 where
  pub name : Text
  pub trigger_conditions : Option Json
  pub action_params : Option Json

-- The fields of the decoded domain.GmailAutomationRule that the handler reads.
pub record GmailRuleBody : Type 0 where
  pub name : Text
  pub description : Option Text
  pub is_active : Bool
  pub trigger_type : GmailRuleTriggerType
  pub trigger_conditions : Option Json
  pub action_type : GmailRuleActionType
  pub action_params : Option Json
  pub priority : ℤ

-- The mail to send, or to keep as a draft.
pub record MailBody : Type 0 where
  pub to : List Text
  pub cc : List Text
  pub bcc : List Text
  pub subject : Text
  pub body : Text
  pub is_html : Bool

-- One calendar of the aggregated events.
pub record CalendarChoice : Type 0 where
  pub account_id : Text
  pub calendar_id : Text

-- One of the messages that HandleGetGmailMessages writes.
pub record MessageView : Type 0 where
  pub id : Text
  pub thread_id : Text
  pub subject : Text
  pub sender : Text
  pub recipients : List Text
  pub cc_recipients : List Text
  pub bcc_recipients : List Text
  pub snippet : Text
  pub body : Text
  pub status : Text
  pub is_starred : Bool
  pub has_attachments : Bool
  pub attachment_count : ℕ
  pub size_estimate : ℤ
  pub received_at : Text
  pub labels : List Text
  pub last_synced : Text
  pub created_at : Text
  pub updated_at : Text

pub record HttpRequest : Type 0 where
  pub authorization : Text
  -- chi.URLParam
  pub account_id : Text
  pub rule_id : Text
  pub event_id : Text
  -- r.URL.Query()
  pub query : Text → List Text
  -- json.Decoder.Decode into the type that the handler asks for
  pub body : Option RuleBody
  pub event : Option CalendarEvent
  pub choices : Option (List CalendarChoice)
  pub mail : Option MailBody
  pub gmail_rule : Option GmailRuleBody

-- The value that is written as JSON.
pub data Payload : Type 0 where
  nothing : Payload
  message : Text → Payload
  health_status : Text → Payload
  user : User → Payload
  accounts : List ConnectedAccount → Payload
  rule : AutomationRule → Payload
  rules : List AutomationRule → Payload
  logs : List AutomationLog → Payload
  event : CalendarEvent → Payload
  events : List CalendarEvent → Payload
  calendars : List CalendarListEntry → Payload
  mails : List MessageView → Payload
  sent_mail : Message → Payload
  labels : List Label → Payload
  draft : Draft → Payload
  drafts : List Draft → Payload
  gmail_rule : GmailAutomationRule → Payload
  gmail_rules : List GmailAutomationRule → Payload
  -- http.Redirect, after http.SetCookie of the state cookie or without it
  redirect : Option Text → Text → Payload

pub record Response : Type 0 where
  pub status : ℕ
  pub payload : Payload

-- WriteJSON
unfoldable pub write_json : ℕ → Payload → Action Response
write_json status payload = pure (record { status = status; payload = payload })

-- WriteJSONError
unfoldable pub write_json_error : ℕ → Text → Action Response
unfolding write_json
write_json_error status text = write_json status (Payload.message text)

-- `x, err := ...; if err != nil { refuse; return }` for a result that is computed without effects.
unfoldable pub require : {A B : Type 0} → Option A → Action B → (A → Action B) → Action B
require none refuse k = refuse
require (some a) refuse k = k a

-- GetUserIDFromContext, and the answer of each handler when there is no user.
unfoldable pub with_user : Option Uuid → (Uuid → Action Response) → Action Response
unfolding require write_json_error
with_user found k =
    require found (write_json_error 401 (text "missing or invalid user ID in context")) k

-- A response whose message ends with the text of the error.
unfoldable pub report : Env → ℕ → Text → Err → Action Response
unfolding write_json_error
report env status prefix e = write_json_error status (prefix ++ env.error_text e)

-- r.URL.Query().Get(name): the first value, or the empty text.
unfoldable pub first_value : List Text → Text
first_value [] = []
first_value (v ∷ vs) = v
