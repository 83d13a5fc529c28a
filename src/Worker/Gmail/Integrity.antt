-- ===== src/Worker/Gmail/Integrity.antt =====
-- internal/worker/gmail: the invariant of the database over the processing of messages.
use jeffrey_s_agenda_tool.Prelude.{ℕ, zero, suc, Text, Option, none, some, List, [], ◌∷◌}
use jeffrey_s_agenda_tool.Domain.{ConnectedAccount, GmailAutomationRule, Time}
use jeffrey_s_agenda_tool.Database.{Err}
use jeffrey_s_agenda_tool.Database.Integrity.{IsConsistent}
use jeffrey_s_agenda_tool.Google.{Token, Message, Part}
use jeffrey_s_agenda_tool.Action.{Env}
use jeffrey_s_agenda_tool.Action.Keeps.{Keeps, Keeps-pure, Keeps-crash, keeps_rules}
use jeffrey_s_agenda_tool.Store.Integrity.Rules.{create_automation_log-Keeps}
use jeffrey_s_agenda_tool.Store.Integrity.Gmail.{
  store_gmail_message-Keeps, update_gmail_sync_state-Keeps, get_gmail_sync_state-Keeps,
  get_gmail_rules_for_account-Keeps,
}
use jeffrey_s_agenda_tool.Worker.Gmail.Payload.{store_payload, store_message_in_db}
use jeffrey_s_agenda_tool.Worker.Gmail.Actions.{execute_rule_action}
use jeffrey_s_agenda_tool.Worker.Gmail.Effects.{
  execute-Keeps, fetch_messages-Keeps, fetch_recent_messages-Keeps,
}
use jeffrey_s_agenda_tool.Worker.Gmail.{
  log_gmail_automation_success, log_gmail_automation_failure, apply_rule,
  process_message_against_rules, process_history_items, store_history_id, full_sync,
  incremental_sync, messages_to_process, process_active, process_messages,
}

store_payload-Keeps :
    (env : Env) (acc : ConnectedAccount) (m : Message) (payload : Option Part)
    → Keeps IsConsistent (store_payload env acc m payload)
unfolding store_payload
store_payload-Keeps env acc m none = Keeps-crash
store_payload-Keeps env acc m (some p) = store_gmail_message-Keeps env _

store_message_in_db-Keeps :
    (env : Env) (acc : ConnectedAccount) (m : Message)
    → Keeps IsConsistent (store_message_in_db env acc m)
unfolding store_message_in_db
store_message_in_db-Keeps env acc m = store_payload-Keeps env acc m m.payload

module _ (env : Env) (token : Token) where
  module _ (acc : ConnectedAccount) where
    log_success-Keeps :
        (k : _) (m : Message) (t : Text)
        → Keeps IsConsistent (log_gmail_automation_success env token acc k m t)
    unfolding log_gmail_automation_success
    log_success-Keeps k m t = search (keeps_rules, create_automation_log-Keeps)

    log_failure-Keeps :
        (k : _) (m : Message) (e : Err)
        → Keeps IsConsistent (log_gmail_automation_failure env token acc k m e)
    unfolding log_gmail_automation_failure
    log_failure-Keeps k m e = search (keeps_rules, create_automation_log-Keeps)

    apply_rule-Keeps :
        (m : Message) (rule : GmailAutomationRule)
        → Keeps IsConsistent (apply_rule env token acc m rule)
    unfolding apply_rule execute_rule_action
    apply_rule-Keeps m rule =
        search (keeps_rules, execute-Keeps, log_success-Keeps, log_failure-Keeps)

    process_message_against_rules-Keeps :
        (rules : List GmailAutomationRule) (m : Message)
        → Keeps IsConsistent (process_message_against_rules env token acc rules m)
    unfolding process_message_against_rules
    process_message_against_rules-Keeps rules m =
        search (keeps_rules, store_message_in_db-Keeps, apply_rule-Keeps)

    store_history_id-Keeps : (n : ℕ) → Keeps IsConsistent (store_history_id env token acc n)
    unfolding store_history_id
    store_history_id-Keeps zero = Keeps-pure tt
    store_history_id-Keeps (suc n) = search (keeps_rules, update_gmail_sync_state-Keeps)

    incremental_sync-Keeps :
        (start : Option ℕ) → Keeps IsConsistent (incremental_sync env token acc start)
    unfolding incremental_sync process_history_items
    incremental_sync-Keeps none = fetch_recent_messages-Keeps env token acc
    incremental_sync-Keeps (some start) =
        search
          (keeps_rules, fetch_recent_messages-Keeps, fetch_messages-Keeps, store_history_id-Keeps)

    messages_to_process-Keeps :
        (state : Option (Text × Time))
        → Keeps IsConsistent (messages_to_process env token acc state)
    unfolding messages_to_process full_sync
    messages_to_process-Keeps none =
        search (keeps_rules, fetch_recent_messages-Keeps, store_history_id-Keeps)
    messages_to_process-Keeps (some (h, t)) = incremental_sync-Keeps _

    process_active-Keeps :
        (rules : List GmailAutomationRule) (state : Option (Text × Time))
        → Keeps IsConsistent (process_active env token acc rules state)
    unfolding process_active
    process_active-Keeps [] state = Keeps-pure tt
    process_active-Keeps (r ∷ rs) state =
        search (keeps_rules, messages_to_process-Keeps, process_message_against_rules-Keeps)

pub process_messages-Keeps :
    (env : Env) (acc : ConnectedAccount) (token : Token)
    → Keeps IsConsistent (process_messages env acc token)
unfolding process_messages
process_messages-Keeps env acc token = search (
  keeps_rules, process_active-Keeps, get_gmail_sync_state-Keeps, get_gmail_rules_for_account-Keeps,
)
