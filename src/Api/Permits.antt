-- ===== src/Api/Permits.antt =====
-- internal/api: what a request has to show before its route changes the tables.
use jeffrey_s_agenda_tool.Prelude.{Text, text, true, Option, some, List, ◌≡◌, find, Any}
use jeffrey_s_agenda_tool.Domain.{Uuid, ConnectedAccount, AutomationRule}
use jeffrey_s_agenda_tool.Json.{Json}
use jeffrey_s_agenda_tool.Database.{Db, account_has, rule_has}
use jeffrey_s_agenda_tool.Api.{HttpRequest, CalendarChoice}
use jeffrey_s_agenda_tool.Api.Auth.{AuthEnv, Jwt, trim_prefix, as_string, key_of}
use jeffrey_s_agenda_tool.Api.Server.{
  Route, get_me, get_accounts, delete_account, create_rule, get_rules, update_rule, delete_rule,
  toggle_rule, get_logs, list_calendars, get_calendar_events, create_event, update_event,
  delete_event, get_aggregated_events, get_gmail_messages, send_gmail_message, get_gmail_labels,
  create_gmail_draft, get_gmail_drafts, create_gmail_rule, get_gmail_rules,
}

-- The account of that key exists, and it is the user's.
abbrev pub OwnsAccount : Db → Uuid → Uuid → Type 0
OwnsAccount db k user =
    (a : ConnectedAccount) × (find (account_has k) db.connected_accounts ≡ some a)
    × (a.user_id ≡ user)

abbrev pub OwnsNamedAccount : (Text → Option Uuid) → Db → HttpRequest → Uuid → Type 0
OwnsNamedAccount parse_uuid db req user =
    (k : Uuid) × (parse_uuid req.account_id ≡ some k) × OwnsAccount db k user

abbrev pub OwnsNamedRule : (Text → Option Uuid) → Db → HttpRequest → Uuid → Type 0
OwnsNamedRule parse_uuid db req user =
    (k : Uuid) × (r : AutomationRule) × (parse_uuid req.rule_id ≡ some k)
    × (find (rule_has k) db.automation_rules ≡ some r)
    × OwnsAccount db r.connected_account_id user

-- The account that the route names exists, whoever owns it.
abbrev pub ExistsNamedAccount : (Text → Option Uuid) → Db → HttpRequest → Type 0
ExistsNamedAccount parse_uuid db req =
    (k : Uuid) × (a : ConnectedAccount) × (parse_uuid req.account_id ≡ some k)
    × (find (account_has k) db.connected_accounts ≡ some a)

-- One of the accounts chosen in the body exists, and it is the user's.
abbrev pub OwnsChoice : (Text → Option Uuid) → Db → Uuid → CalendarChoice → Type 0
OwnsChoice parse_uuid db user choice =
    (k : Uuid) × (parse_uuid choice.account_id ≡ some k) × OwnsAccount db k user

abbrev pub OwnsChosenAccount : (Text → Option Uuid) → Db → HttpRequest → Uuid → Type 0
OwnsChosenAccount parse_uuid db req user =
    (choices : List CalendarChoice) × (req.choices ≡ some choices)
    × Any (OwnsChoice parse_uuid db user) choices

-- What has to hold before a route changes the tables; the others only read. The routes on a calendar
-- or on mail change them only where a token is refreshed, and do not look at the owner.
abbrev pub Permits : (Text → Option Uuid) → Db → Route → HttpRequest → Uuid → Type 0
Permits parse_uuid db get_me req user = ⊥
Permits parse_uuid db get_accounts req user = ⊥
Permits parse_uuid db delete_account req user = OwnsNamedAccount parse_uuid db req user
Permits parse_uuid db create_rule req user = OwnsNamedAccount parse_uuid db req user
Permits parse_uuid db get_rules req user = ⊥
Permits parse_uuid db update_rule req user = OwnsNamedRule parse_uuid db req user
Permits parse_uuid db delete_rule req user = OwnsNamedRule parse_uuid db req user
Permits parse_uuid db toggle_rule req user = OwnsNamedRule parse_uuid db req user
Permits parse_uuid db get_logs req user = ⊥
Permits parse_uuid db list_calendars req user = ExistsNamedAccount parse_uuid db req
Permits parse_uuid db get_calendar_events req user = ExistsNamedAccount parse_uuid db req
Permits parse_uuid db create_event req user = ExistsNamedAccount parse_uuid db req
Permits parse_uuid db update_event req user = ExistsNamedAccount parse_uuid db req
Permits parse_uuid db delete_event req user = ExistsNamedAccount parse_uuid db req
Permits parse_uuid db get_aggregated_events req user = OwnsChosenAccount parse_uuid db req user
Permits parse_uuid db get_gmail_messages req user = ExistsNamedAccount parse_uuid db req
Permits parse_uuid db send_gmail_message req user = ExistsNamedAccount parse_uuid db req
Permits parse_uuid db get_gmail_labels req user = ExistsNamedAccount parse_uuid db req
Permits parse_uuid db create_gmail_draft req user = ExistsNamedAccount parse_uuid db req
Permits parse_uuid db get_gmail_drafts req user = ExistsNamedAccount parse_uuid db req
Permits parse_uuid db create_gmail_rule req user = OwnsNamedAccount parse_uuid db req user
Permits parse_uuid db get_gmail_rules req user = ⊥

-- The header carries a token that the JWT library accepts for this user.
abbrev pub Authenticates : AuthEnv → HttpRequest → Uuid → Type 0
Authenticates auth req user =
    (token : Jwt) × (claims : Text → Option Json) × (id : Text) × (auth.parse_jwt
        (trim_prefix req.authorization (text "Bearer ")) (key_of auth)
      ≡ some token)
    × (token.valid ≡ true)
    × (token.claims ≡ some claims)
    × (as_string (claims (text "user_id")) ≡ some id)
    × (auth.parse_uuid id ≡ some user)
