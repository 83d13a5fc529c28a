-- ===== src/Worker/Gmail.antt =====
-- internal/worker/gmail/gmail.go, sync.go and processing.go: one synchronisation of an account.
pub mod Payload
pub mod Match
pub mod Actions
pub mod Effects
pub mod Unlogged
pub mod Cursor
pub mod Integrity
use jeffrey_s_agenda_tool.Prelude.{
  ℕ, zero, suc, ◌-◌, ◌*◌, ◌/◌, Text, text, ℤ, pos, negsuc, ◌+ℤ◌, Bool, true, false, Option, none,
  some, List, [], ◌∷◌, ◌++◌, keep, print_uint, print_int, parse_uint, if◌then◌else◌, flat_map, map,
}
use jeffrey_s_agenda_tool.Json.{Json, Fields}
use jeffrey_s_agenda_tool.Domain.{
  Uuid, Time, ConnectedAccount, GmailAutomationRule, AutomationLogStatus,
}
use jeffrey_s_agenda_tool.Database.{Err}
use jeffrey_s_agenda_tool.Google.{Token, Message, MessageFormat, metadata, History}
use jeffrey_s_agenda_tool.Action.{
  Env, Action, pure, lift, attempt, ask, logged, for_each, clock, ◌>>=◌, ◌>>◌,
}
use jeffrey_s_agenda_tool.Store.Log.{CreateLogParams, create_automation_log}
use jeffrey_s_agenda_tool.Store.Gmail.{
  get_gmail_sync_state, update_gmail_sync_state, get_gmail_rules_for_account,
}
use Payload.{store_message_in_db}
use Match.{check_rule_match}
use Actions.{execute_rule_action}

-- {"gmail_message_id": ..., "gmail_thread_id": ...}
abbrev pub message_details : Message → Json
message_details m = Json.obj (
    Fields.field (text "gmail_message_id") (Json.str m.id)
      (Fields.field (text "gmail_thread_id") (Json.str m.thread_id) Fields.end))

unfoldable pub success_params : Uuid → Uuid → Message → Text → CreateLogParams
success_params account rule m details = record {
  connected_account_id = account;
  rule_id = some rule;
  status = AutomationLogStatus.success;
  trigger_details = some (message_details m);
  action_details = some (Json.obj (Fields.field (text "details") (Json.str details) Fields.end));
  error_message = [];
}

unfoldable pub failure_params : Uuid → Uuid → Message → Text → CreateLogParams
failure_params account rule m message = record {
  connected_account_id = account;
  rule_id = some rule;
  status = AutomationLogStatus.failure;
  trigger_details = some (message_details m);
  action_details = none;
  error_message = message;
}

module _ (env : Env) (token : Token) (acc : ConnectedAccount) where
  unfoldable pub log_gmail_automation_success : Uuid → Message → Text → Action (Unit {0})
  log_gmail_automation_success rule m details =
      logged (create_automation_log env (success_params acc.id rule m details))

  unfoldable pub log_gmail_automation_failure : Uuid → Message → Err → Action (Unit {0})
  log_gmail_automation_failure rule m e =
      logged (create_automation_log env (failure_params acc.id rule m (env.error_text e)))

  -- One round of the loop over the rules.
  unfoldable pub apply_rule : Message → GmailAutomationRule → Action (Unit {0})
  apply_rule m rule =
      attempt (lift (check_rule_match env.to_lower m rule)) (λ _. pure tt)
        λ matches.
          if matches
          then attempt (execute_rule_action env token acc m rule)
              (log_gmail_automation_failure rule.id m)
              (λ _. log_gmail_automation_success rule.id m (text "Action executed successfully"))
          else pure tt

  unfoldable pub process_message_against_rules :
      List GmailAutomationRule → Message → Action (Unit {0})
  process_message_against_rules rules m =
      store_message_in_db env acc m >> for_each rules (apply_rule m)

  -- The messages that can be fetched; an error passes over its message.
  unfoldable pub fetch_messages : List Text → Action (List Message)
  fetch_messages [] = pure []
  fetch_messages (id ∷ ids) =
      attempt (ask λ n. env.google.get_message n token metadata id) (λ _. fetch_messages ids)
        λ m. do ms ← fetch_messages ids; pure (m ∷ ms)

  -- Time.Unix(): whole seconds, rounded down.
  unfoldable pub unix : Time → ℤ
  unix (pos n) = pos (n / 1_000_000_000)
  unix (negsuc n) = negsuc (n / 1_000_000_000)

  abbrev pub day : ℕ
  day = 24 * 3600 * 1_000_000_000

  unfoldable pub fetch_recent_messages : Action (List Message)
  unfolding unix print_int ◌+ℤ◌
  fetch_recent_messages = do
    now ← clock env
    listed ← ask λ n. env.google.list_messages n token (record {
      search_query = text "after:" ++ print_int (unix (now +ℤ negsuc (day - 1)));
      label_ids = [];
      max_results = 100;
    })
    fetch_messages (map (λ m. m.id) listed)

  unfoldable pub process_history_items : History → Action (List Message)
  process_history_items h = fetch_messages (flat_map (λ item. item) h.items)

  -- A history id of 0 is not stored.
  unfoldable pub store_history_id : ℕ → Action (Unit {0})
  unfolding print_uint
  store_history_id zero = pure tt
  store_history_id (suc n) = do
    now ← clock env
    logged (update_gmail_sync_state env acc.id (print_uint (suc n)) now)

  unfoldable pub full_sync : Action (List Message)
  full_sync = do
    ms ← fetch_recent_messages
    attempt (ask λ n. env.google.get_profile n token) (λ _. pure tt) store_history_id
    pure ms

  -- When the history is not available the recent messages are fetched, and the state stays.
  unfoldable pub incremental_sync : Option ℕ → Action (List Message)
  incremental_sync none = fetch_recent_messages
  incremental_sync (some start) =
      attempt (ask λ n. env.google.list_history n token start) (λ _. fetch_recent_messages)
        λ h. do ms ← process_history_items h; store_history_id h.history_id; pure ms

  unfoldable pub messages_to_process : Option (Text × Time) → Action (List Message)
  unfolding parse_uint
  messages_to_process none = full_sync
  messages_to_process (some (history_id, last_sync)) = incremental_sync (parse_uint history_id)

  unfoldable pub process_active :
      List GmailAutomationRule → Option (Text × Time) → Action (Unit {0})
  process_active [] state = pure tt
  process_active (r ∷ rs) state = do
    ms ← messages_to_process state
    for_each ms (λ m. logged (process_message_against_rules (r ∷ rs) m))

unfoldable pub process_messages : Env → ConnectedAccount → Token → Action (Unit {0})
process_messages env acc token = do
  ask (env.google.new_service)
  state ← attempt (get_gmail_sync_state env acc.id) (λ _. pure none) (λ s. pure (some s))
  rules ← get_gmail_rules_for_account env acc.id
  process_active env token acc (keep (λ r. r.is_active) rules) state
