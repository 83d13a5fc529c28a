-- ===== src/Tests/Data.antt =====
-- A small installation for the tests: one user with one account, a rule and an event, and a world
-- outside in which every call succeeds.
use jeffrey_s_agenda_tool.Prelude.{
  Text, text, pos, negsuc, Bool, true, false, Option, none, some, [], ◌∷◌,
}
use jeffrey_s_agenda_tool.Json.{Json, Fields}
use jeffrey_s_agenda_tool.Domain.{
  Uuid, Bytes, User, ConnectedAccount, ProviderType, AccountStatus, AutomationRule,
  GmailAutomationRule, GmailRuleTriggerType, GmailRuleActionType, TriggerConditions, ActionParams,
  AutomationLog, AutomationLogStatus,
}
use jeffrey_s_agenda_tool.Database.{Db, empty_db}
use jeffrey_s_agenda_tool.Google.{
  Token, EventDateTime, CalendarEvent, Message, part, no_parts, History, Reply, answer, failed,
  Google,
}
use jeffrey_s_agenda_tool.Action.{Cipher, Env, World}
use jeffrey_s_agenda_tool.Api.{HttpRequest}
use jeffrey_s_agenda_tool.Store.Account.{UpsertConnectedAccountParams}
use jeffrey_s_agenda_tool.Api.Login.{LoginEnv, CallbackRequest}
use jeffrey_s_agenda_tool.Api.Auth.{AuthEnv}

abbrev pub zeros : Bytes
zeros = 0 ∷ 0 ∷ 0 ∷ 0 ∷ 0 ∷ 0 ∷ 0 ∷ 0 ∷ 0 ∷ 0 ∷ 0 ∷ 0 ∷ []

-- 32 bytes
abbrev pub key : Bytes
key = text "0123456789abcdef0123456789abcdef"

abbrev pub event_time : EventDateTime
event_time = record { date_time = text "2025-01-01T10:00:00Z"; time_zone = [] }

abbrev pub event : CalendarEvent
event = record {
  id = text "e1";
  summary = text "Dienst";
  description = [];
  location = text "Utrecht";
  start = some event_time;
  finish = some (record { date_time = text "2025-01-01T11:00:00Z"; time_zone = [] });
}

abbrev pub token : Token
token = record { access_token = text "access"; refresh_token = text "refresh"; expiry = pos 0 }

abbrev pub new_token : Token
new_token = record { access_token = text "access2"; refresh_token = []; expiry = pos 3600 }

-- A cipher that does not hide anything, which still opens what it seals.
abbrev pub cipher : Cipher
cipher = record {
  seal = λ key nonce plaintext. plaintext;
  unseal = λ key nonce sealed. some sealed;
}

abbrev pub mail : Message
mail = record {
  id = text "m1";
  thread_id = text "t1";
  label_ids = [];
  snippet = [];
  internal_date = 0;
  size_estimate = pos 0;
  payload = some (part [] (text "text/plain") [] none no_parts);
}

abbrev pub google : Bool → Reply Token → Reply History → Google
google valid refreshed history = record {
  token_valid = λ n t. valid;
  refresh = λ n t. refreshed;
  new_service = λ n. answer tt;
  list_calendars = λ n t. answer [];
  list_events = λ n t c q. answer (event ∷ []);
  event_inserted = λ n e. answer e;
  event_updated = λ n e. answer e;
  event_deleted = λ n. answer tt;
  list_messages = λ n t q. answer [];
  get_message = λ n t f id. failed (text "not found");
  list_history = λ n t h. history;
  get_profile = λ n t. answer 7;
  list_labels = λ n t. answer [];
  label_created = λ n name. answer (record { id = name; name = name });
  message_sent = λ n raw. answer mail;
  list_drafts = λ n t. answer [];
  draft_created = λ n raw. answer (record { id = text "d1"; message = mail });
  message_modified = λ n change. answer tt;
}

abbrev pub env_of : Google → Env
env_of services = record {
  now = λ n. pos n;
  gen_random_uuid = λ n. 100;
  db_error = λ n. none;
  encryption_key = key;
  nonce = λ n. answer zeros;
  cipher = cipher;
  google = services;
  to_lower = λ t. t;
  parse_time = λ t. some (pos 1_000_000_000_000);
  format_time = λ t. text "t";
  parse_mail_time = λ t. none;
  add_months = λ t n. t;
  marshal_time = λ t. text "t";
  json_text = λ j. [];
  encode_base64 = λ t. t;
  decode_base64 = λ t. some t;
  error_text = λ e. text "error";
}

abbrev pub env : Env
env = env_of (google true (answer new_token) (failed (text "gone")))

abbrev pub expired_env : Env
expired_env = env_of (google false (answer new_token) (failed (text "gone")))

abbrev pub revoked_env : Env
revoked_env = env_of (google false (failed (text "invalid_grant")) (failed (text "gone")))

abbrev pub user : User
user = record { id = 1; created_at = pos 0; updated_at = pos 0; email = text "a@b.nl"; name = none }

abbrev pub sealed : Text → Bytes
sealed t = 0 ∷ 0 ∷ 0 ∷ 0 ∷ 0 ∷ 0 ∷ 0 ∷ 0 ∷ 0 ∷ 0 ∷ 0 ∷ 0 ∷ t

abbrev pub account : ConnectedAccount
account = record {
  id = 2;
  user_id = 1;
  provider = ProviderType.google;
  email = text "a@b.nl";
  provider_user_id = text "g1";
  access_token = sealed (text "access");
  refresh_token = sealed (text "refresh");
  token_expiry = pos 0;
  scopes = [];
  status = AccountStatus.active;
  created_at = pos 0;
  updated_at = pos 0;
  last_checked = none;
  gmail_history_id = none;
  gmail_last_sync = none;
  gmail_sync_enabled = true;
}

abbrev pub rule : AutomationRule
rule = record {
  id = 3;
  created_at = pos 0;
  updated_at = pos 0;
  connected_account_id = 2;
  name = text "Reminder";
  is_active = true;
  trigger_conditions =
      Json.obj (Fields.field (text "summary_equals") (Json.str (text "Dienst")) Fields.end);
  action_params =
      Json.obj (Fields.field (text "new_event_title") (Json.str (text "Vertrek")) Fields.end);
}

abbrev pub gmail_rule : GmailAutomationRule
gmail_rule = record {
  id = 4;
  created_at = pos 0;
  updated_at = pos 0;
  connected_account_id = 2;
  name = text "Forward";
  is_active = true;
  trigger_conditions = Json.null;
  action_params = Json.null;
  description = none;
  trigger_type = GmailRuleTriggerType.new_message;
  action_type = GmailRuleActionType.forward;
  priority = pos 0;
}

abbrev pub db : Db
db = record empty_db {
  users = user ∷ [];
  connected_accounts = account ∷ [];
  automation_rules = rule ∷ [];
  gmail_automation_rules = gmail_rule ∷ [];
}

abbrev pub world : World
world = record { db = db; tick = 0; requests = [] }

abbrev pub empty_world : World
empty_world = record { db = empty_db; tick = 0; requests = [] }

-- An uuid is written as a single character.
abbrev pub uuid_of : Text → Option Uuid
uuid_of [] = none
uuid_of (c ∷ t) = some c

abbrev pub auth : AuthEnv
auth = record {
  parse_jwt =
      λ t key_of. some (record { valid = true; claims = some (λ name. some (Json.str (1 ∷ []))) });
  parse_uuid = uuid_of;
  jwt_secret_key = text "secret";
}

abbrev pub delete_request : HttpRequest
delete_request = record {
  authorization = text "Bearer x";
  account_id = [];
  rule_id = 3 ∷ [];
  event_id = [];
  query = λ name. [];
  body = none;
  event = none;
  choices = none;
  mail = none;
  gmail_rule = none;
}

abbrev pub conditions : TriggerConditions
conditions = record {
  summary_equals = [];
  summary_contains = text "Dienst" ∷ [];
  location_contains = text "Utrecht" ∷ [];
}

abbrev pub action : ActionParams
action = record {
  offset_minutes = negsuc 29;
  new_event_title = text "Vertrek";
  duration_min = pos 0;
}

-- The reminder for the event was made before.
abbrev pub success_log : AutomationLog
success_log = record {
  id = 1;
  connected_account_id = 2;
  rule_id = some 3;
  timestamp = pos 0;
  status = AutomationLogStatus.success;
  trigger_details =
      some (Json.obj (Fields.field (text "google_event_id") (Json.str (text "e1")) Fields.end));
  action_details = none;
  error_message = [];
}

abbrev pub logged_world : World
logged_world = record world { db = record db { automation_logs = success_log ∷ [] } }

abbrev pub connect_arg : UpsertConnectedAccountParams
connect_arg = record {
  user_id = 1;
  provider = ProviderType.google;
  email = text "a@b.nl";
  provider_user_id = text "g1";
  access_token = text "access3";
  refresh_token = text "refresh3";
  token_expiry = pos 7200;
  scopes = [];
}

abbrev pub login : LoginEnv
login = record {
  exchange = λ n code. answer token;
  auth_code_url = λ state. state;
  get_user_info = λ n t. answer (record { id = text "g1"; email = text "a@b.nl"; name = text "A" });
  scopes = [];
  random_state = λ n. answer (text "state");
  sign = λ key claims. answer (text "jwt");
  jwt_secret_key = text "secret";
  client_base_url = text "http://client";
}

-- The login was started by another browser.
abbrev pub forged_callback : CallbackRequest
forged_callback = record {
  state_cookie = some (text "other");
  state = text "state";
  code = text "code";
}
