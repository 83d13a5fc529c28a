-- ===== src/Api/Requests/Allowed.antt =====
-- internal/api: the requests to Google that change something there and that each route may send.
use jeffrey_s_agenda_tool.Prelude.{Text, text, Option, some, [], ◌≡◌}
use jeffrey_s_agenda_tool.Domain.{Uuid}
use jeffrey_s_agenda_tool.Database.{ok}
use jeffrey_s_agenda_tool.Google.{
  Token, Request, insert_event, update_event, delete_event, send_message, modify_message,
  create_label, create_draft,
}
use jeffrey_s_agenda_tool.Action.{Env, World}
use jeffrey_s_agenda_tool.Store.Account.Token.{get_valid_token_for_account}
use jeffrey_s_agenda_tool.Api.{HttpRequest, MailBody, first_value}
use jeffrey_s_agenda_tool.Api.Calendar.{or_primary}
use jeffrey_s_agenda_tool.Api.Gmail.Compose.{raw_message}
use jeffrey_s_agenda_tool.Api.Server.{
  Route, get_me, get_accounts, delete_account, create_rule, get_rules, update_rule, delete_rule,
  toggle_rule, get_logs, list_calendars, get_calendar_events, create_event, update_event,
  delete_event, get_aggregated_events, get_gmail_messages, send_gmail_message, get_gmail_labels,
  create_gmail_draft, get_gmail_drafts, create_gmail_rule, get_gmail_rules,
}

-- The calendar of the URL, or the primary one.
abbrev pub named_calendar : HttpRequest → Text
named_calendar req = or_primary (first_value (req.query (text "calendarId")))

-- The token is the one that the account of the URL gets in this world.
abbrev pub IsGranted : Env → (Text → Option Uuid) → World → HttpRequest → Token → Type 0
IsGranted env parse_uuid w req token =
    (k : Uuid) × (parse_uuid req.account_id ≡ some k)
    × ((get_valid_token_for_account env k w).0 ≡ ok token)

-- The event of the body goes into the calendar of the URL.
abbrev pub InsertsEvent : (Token → Type 0) → HttpRequest → Request → Type 0
InsertsEvent Grants req (insert_event token calendar event) =
    Grants token × (req.event ≡ some event) × (calendar ≡ named_calendar req)
InsertsEvent Grants req (update_event token calendar id event) = ⊥
InsertsEvent Grants req (delete_event token calendar id) = ⊥
InsertsEvent Grants req (send_message token thread raw) = ⊥
InsertsEvent Grants req (modify_message token id change) = ⊥
InsertsEvent Grants req (create_label token name) = ⊥
InsertsEvent Grants req (create_draft token raw) = ⊥

-- The event of the URL becomes that of the body.
abbrev pub UpdatesEvent : (Token → Type 0) → HttpRequest → Request → Type 0
UpdatesEvent Grants req (insert_event token calendar event) = ⊥
UpdatesEvent Grants req (update_event token calendar id event) =
    Grants token × (req.event ≡ some event) × (calendar ≡ named_calendar req) × (id ≡ req.event_id)
UpdatesEvent Grants req (delete_event token calendar id) = ⊥
UpdatesEvent Grants req (send_message token thread raw) = ⊥
UpdatesEvent Grants req (modify_message token id change) = ⊥
UpdatesEvent Grants req (create_label token name) = ⊥
UpdatesEvent Grants req (create_draft token raw) = ⊥

-- The event of the URL is deleted.
abbrev pub DeletesEvent : (Token → Type 0) → HttpRequest → Request → Type 0
DeletesEvent Grants req (insert_event token calendar event) = ⊥
DeletesEvent Grants req (update_event token calendar id event) = ⊥
DeletesEvent Grants req (delete_event token calendar id) =
    Grants token × (calendar ≡ named_calendar req) × (id ≡ req.event_id)
DeletesEvent Grants req (send_message token thread raw) = ⊥
DeletesEvent Grants req (modify_message token id change) = ⊥
DeletesEvent Grants req (create_label token name) = ⊥
DeletesEvent Grants req (create_draft token raw) = ⊥

-- The mail of the body is sent, in no thread.
abbrev pub SendsMail : (Token → Type 0) → Env → HttpRequest → Request → Type 0
SendsMail Grants env req (insert_event token calendar event) = ⊥
SendsMail Grants env req (update_event token calendar id event) = ⊥
SendsMail Grants env req (delete_event token calendar id) = ⊥
SendsMail Grants env req (send_message token thread raw) =
    Grants token
    × (thread ≡ [])
    × (mail : MailBody) × (req.mail ≡ some mail)
    × (raw ≡ env.encode_base64 (raw_message mail))
SendsMail Grants env req (modify_message token id change) = ⊥
SendsMail Grants env req (create_label token name) = ⊥
SendsMail Grants env req (create_draft token raw) = ⊥

-- The mail of the body becomes a draft.
abbrev pub CreatesDraft : (Token → Type 0) → Env → HttpRequest → Request → Type 0
CreatesDraft Grants env req (insert_event token calendar event) = ⊥
CreatesDraft Grants env req (update_event token calendar id event) = ⊥
CreatesDraft Grants env req (delete_event token calendar id) = ⊥
CreatesDraft Grants env req (send_message token thread raw) = ⊥
CreatesDraft Grants env req (modify_message token id change) = ⊥
CreatesDraft Grants env req (create_label token name) = ⊥
CreatesDraft Grants env req (create_draft token raw) =
    Grants token
    × (mail : MailBody) × (req.mail ≡ some mail)
    × (raw ≡ env.encode_base64 (raw_message mail))

-- What a route may send; most send nothing that changes anything.
abbrev pub Allows : Env → (Text → Option Uuid) → World → Route → HttpRequest → Request → Type 0
Allows env parse_uuid w get_me req q = ⊥
Allows env parse_uuid w get_accounts req q = ⊥
Allows env parse_uuid w delete_account req q = ⊥
Allows env parse_uuid w create_rule req q = ⊥
Allows env parse_uuid w get_rules req q = ⊥
Allows env parse_uuid w update_rule req q = ⊥
Allows env parse_uuid w delete_rule req q = ⊥
Allows env parse_uuid w toggle_rule req q = ⊥
Allows env parse_uuid w get_logs req q = ⊥
Allows env parse_uuid w list_calendars req q = ⊥
Allows env parse_uuid w get_calendar_events req q = ⊥
Allows env parse_uuid w create_event req q = InsertsEvent (IsGranted env parse_uuid w req) req q
Allows env parse_uuid w update_event req q = UpdatesEvent (IsGranted env parse_uuid w req) req q
Allows env parse_uuid w delete_event req q = DeletesEvent (IsGranted env parse_uuid w req) req q
Allows env parse_uuid w get_aggregated_events req q = ⊥
Allows env parse_uuid w get_gmail_messages req q = ⊥
Allows env parse_uuid w send_gmail_message req q =
    SendsMail (IsGranted env parse_uuid w req) env req q
Allows env parse_uuid w get_gmail_labels req q = ⊥
Allows env parse_uuid w create_gmail_draft req q =
    CreatesDraft (IsGranted env parse_uuid w req) env req q
Allows env parse_uuid w get_gmail_drafts req q = ⊥
Allows env parse_uuid w create_gmail_rule req q = ⊥
Allows env parse_uuid w get_gmail_rules req q = ⊥
