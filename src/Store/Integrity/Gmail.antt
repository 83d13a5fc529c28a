-- ===== src/Store/Integrity/Gmail.antt =====
-- internal/store/gmail/gmail.go: the invariant of the database over its statements.
use mathlib.Core.Path.{subst}
use jeffrey_s_agenda_tool.Prelude.{
  ℕ, Text, ◌≡◌, refl, Option, none, some, ◌&&◌, not, any, find, update_where, keep, Bool-cases, inl,
  inr, All-keep, Distinct-keep, ◌==◌,
}
use jeffrey_s_agenda_tool.Json.{Json}
use jeffrey_s_agenda_tool.Domain.{
  Uuid, Time, GmailMessageStatus, GmailAutomationRule, is_known_trigger, is_known_action,
}
use jeffrey_s_agenda_tool.Database.{ok, Db, account_has, gmail_rule_has}
use jeffrey_s_agenda_tool.Database.Integrity.{IsConsistent, HasAccount}
use jeffrey_s_agenda_tool.Database.Integrity.Accounts.{KeepsAccount}
use jeffrey_s_agenda_tool.Database.Integrity.Inserts.{insert_gmail_rule-IsConsistent}
use jeffrey_s_agenda_tool.Database.Integrity.Updates.{update_gmail_rules-IsConsistent}
use jeffrey_s_agenda_tool.Action.{Env}
use jeffrey_s_agenda_tool.Action.Keeps.{Keeps, Safe}
use jeffrey_s_agenda_tool.Store.Sql.{scan_same, exec, same_db, Safe-exec, store_rules}
use jeffrey_s_agenda_tool.Store.Gmail
use jeffrey_s_agenda_tool.Store.Gmail.{
  CreateGmailAutomationRuleParams, UpdateGmailRuleParams, new_gmail_rule, insert_fields,
  insert_gmail_rule, update_gmail_rule_row, set_gmail_rule, toggle_gmail_rule, refuse_null,
  update_fields, set_sync_state,
}
use jeffrey_s_agenda_tool.Store.Gmail.Messages
use jeffrey_s_agenda_tool.Store.Gmail.Messages.{
  StoreGmailMessageParams, StoreGmailThreadParams, new_message, resync_message, upsert_message,
  new_thread, resync_thread, upsert_thread, is_message, set_message_status,
}
use jeffrey_s_agenda_tool.Store.Integrity.Messages.{
  upsert_message-Safe, upsert_thread-Safe, set_message_status-Safe,
}
use jeffrey_s_agenda_tool.Store.Integrity.Accounts.{update_account-Safe}

insert_fields_keeps :
    (arg : CreateGmailAutomationRuleParams) (trigger action : Option Json) (now : Time) (id : Uuid)
    (db : Db) (r : GmailAutomationRule) (db' : Db)
    → IsConsistent db
    → insert_fields arg trigger action now id db ≡ ok (r, db')
    → IsConsistent db'
unfolding insert_fields
insert_fields_keeps arg (some t) (some a) now id db r db' c e =
    elim (Bool-cases (not (is_known_trigger arg.trigger_type && is_known_action arg.action_type))) [
      | inl unknown ↦ cc unknown
      | inr known ↦ elim (Bool-cases (any (gmail_rule_has id) db.gmail_automation_rules)) [
        | inl taken ↦ cc (known, taken)
        | inr free ↦
            elim (Bool-cases (any (account_has arg.connected_account_id) db.connected_accounts)) [
              | inr orphan ↦ cc (known, free, orphan)
              | inl owned ↦
                  subst IsConsistent (same_db _ _ _ _ (rw owned at (rw free at (rw known at e))))
                    (insert_gmail_rule-IsConsistent (new_gmail_rule now id arg t a) db free owned c)
            ]
      ]
    ]
insert_fields_keeps arg (some t) none now id db r db' c e = cc
insert_fields_keeps arg none action now id db r db' c e = cc

insert_gmail_rule-Safe :
    (arg : CreateGmailAutomationRuleParams) → Safe IsConsistent (insert_gmail_rule arg)
unfolding insert_gmail_rule
insert_gmail_rule-Safe arg = record { at = insert_fields_keeps arg _ _ }

update_gmail_rule_row_keeps :
    (k : Uuid) (f : Time → GmailAutomationRule → GmailAutomationRule)
    → ((now : Time) (r : GmailAutomationRule) → (f now r).id ≡ r.id)
    → ((now : Time) (r : GmailAutomationRule)
        → (f now r).connected_account_id ≡ r.connected_account_id)
    → (now : Time) (id : Uuid) (db : Db) (r : GmailAutomationRule) (db' : Db) → IsConsistent db
    → update_gmail_rule_row k f now id db ≡ ok (r, db')
    → IsConsistent db'
unfolding update_gmail_rule_row
update_gmail_rule_row_keeps k f key owner now id db r db' c e =
    subst IsConsistent
      (scan_same
        (find (gmail_rule_has k)
          (update_where (gmail_rule_has k) (f now) db.gmail_automation_rules))
        _ db' r e)
      (update_gmail_rules-IsConsistent (gmail_rule_has k) (f now) db (key now) (owner now) c)

toggle-Safe : (k : Uuid) → Safe IsConsistent (update_gmail_rule_row k toggle_gmail_rule)
toggle-Safe k = record {
  at = update_gmail_rule_row_keeps k toggle_gmail_rule (λ now r. refl) (λ now r. refl);
}

refuse_null_fails :
    (k : Uuid) (now : Time) (id : Uuid) (db : Db) (r : GmailAutomationRule) (db' : Db)
    → refuse_null k now id db ≡ ok (r, db')
    → IsConsistent db'
unfolding refuse_null
refuse_null_fails k now id db r db' e =
    elim (Bool-cases (any (gmail_rule_has k) db.gmail_automation_rules)) [
      | inl there ↦ cc there
      | inr missing ↦ cc missing
    ]

update_fields_keeps :
    (arg : UpdateGmailRuleParams) (trigger action : Option Json) (now : Time) (id : Uuid) (db : Db)
    (r : GmailAutomationRule) (db' : Db)
    → IsConsistent db
    → update_fields arg trigger action now id db ≡ ok (r, db')
    → IsConsistent db'
unfolding update_fields
update_fields_keeps arg (some t) (some a) now id db r db' c e =
    elim (Bool-cases (not (is_known_trigger arg.trigger_type && is_known_action arg.action_type))) [
      | inl unknown ↦ cc unknown
      | inr known ↦
          update_gmail_rule_row_keeps arg.rule_id (set_gmail_rule arg t a) (λ now r. refl)
            (λ now r. refl) now id db r db' c (rw known at e)
    ]
update_fields_keeps arg (some t) none now id db r db' c e =
    refuse_null_fails arg.rule_id now id db r db' e
update_fields_keeps arg none action now id db r db' c e =
    refuse_null_fails arg.rule_id now id db r db' e

update_fields-Safe :
    (arg : UpdateGmailRuleParams) (t a : Option Json) → Safe IsConsistent (update_fields arg t a)
update_fields-Safe arg t a = record { at = update_fields_keeps arg t a }

delete_gmail_rules-IsConsistent :
    (k : Uuid) (db : Db)
    → IsConsistent db
    → IsConsistent (record db {
      gmail_automation_rules = keep (λ r. not (gmail_rule_has k r)) db.gmail_automation_rules;
    })
delete_gmail_rules-IsConsistent k db c = assumption (
  c,
  Distinct-keep (λ (r s : GmailAutomationRule). r.id == s.id) (λ r. not (gmail_rule_has k r))
      db.gmail_automation_rules c.gmail_rule_keys,
  All-keep (λ (r : GmailAutomationRule). HasAccount db r.connected_account_id)
      (λ r. not (gmail_rule_has k r)) db.gmail_automation_rules c.gmail_rule_accounts,
)

delete_gmail_rules-Safe :
    (k : Uuid) (count : Db → ℕ)
    → Safe IsConsistent (
        exec count λ now db. record db {
          gmail_automation_rules = keep (λ r. not (gmail_rule_has k r)) db.gmail_automation_rules;
        })
delete_gmail_rules-Safe k count =
    Safe-exec count _ (λ now db c. delete_gmail_rules-IsConsistent k db c)

set_sync_state-KeepsAccount :
    (history_id : Text) (last_sync now : Time)
    → KeepsAccount (set_sync_state history_id last_sync now)
set_sync_state-KeepsAccount history_id last_sync now = record {
  id = λ b. refl;
  owner = λ b. refl;
  identity_left = λ b d. refl;
  identity_right = λ b d. refl;
}

ruleset gmail_rules = (
  store_rules, insert_gmail_rule-Safe, toggle-Safe, update_fields-Safe, delete_gmail_rules-Safe,
  upsert_message-Safe, upsert_thread-Safe, set_message_status-Safe, update_account-Safe,
  set_sync_state-KeepsAccount,
)

module _ (env : Env) where
  pub create_gmail_automation_rule-Keeps :
      (arg : CreateGmailAutomationRuleParams)
      → Keeps IsConsistent (Gmail.create_gmail_automation_rule env arg)
  unfolding Gmail.create_gmail_automation_rule
  create_gmail_automation_rule-Keeps arg = search gmail_rules

  pub get_gmail_rules_for_account-Keeps :
      (k : Uuid) → Keeps IsConsistent (Gmail.get_gmail_rules_for_account env k)
  unfolding Gmail.get_gmail_rules_for_account
  get_gmail_rules_for_account-Keeps k = search gmail_rules

  pub update_gmail_rule-Keeps :
      (arg : UpdateGmailRuleParams) → Keeps IsConsistent (Gmail.update_gmail_rule env arg)
  unfolding Gmail.update_gmail_rule
  update_gmail_rule-Keeps arg = search gmail_rules

  pub delete_gmail_rule-Keeps : (k : Uuid) → Keeps IsConsistent (Gmail.delete_gmail_rule env k)
  unfolding Gmail.delete_gmail_rule
  delete_gmail_rule-Keeps k = search gmail_rules

  pub toggle_gmail_rule_status-Keeps :
      (k : Uuid) → Keeps IsConsistent (Gmail.toggle_gmail_rule_status env k)
  unfolding Gmail.toggle_gmail_rule_status
  toggle_gmail_rule_status-Keeps k = search gmail_rules

  pub update_gmail_sync_state-Keeps :
      (k : Uuid) (h : Text) (t : Time)
      → Keeps IsConsistent (Gmail.update_gmail_sync_state env k h t)
  unfolding Gmail.update_gmail_sync_state
  update_gmail_sync_state-Keeps k h t = search gmail_rules

  pub get_gmail_sync_state-Keeps :
      (k : Uuid) → Keeps IsConsistent (Gmail.get_gmail_sync_state env k)
  unfolding Gmail.get_gmail_sync_state
  get_gmail_sync_state-Keeps k = search gmail_rules

  pub store_gmail_message-Keeps :
      (arg : StoreGmailMessageParams) → Keeps IsConsistent (Messages.store_gmail_message env arg)
  unfolding Messages.store_gmail_message
  store_gmail_message-Keeps arg = search gmail_rules

  pub store_gmail_thread-Keeps :
      (arg : StoreGmailThreadParams) → Keeps IsConsistent (Messages.store_gmail_thread env arg)
  unfolding Messages.store_gmail_thread
  store_gmail_thread-Keeps arg = search gmail_rules

  pub update_gmail_message_status-Keeps :
      (k : Uuid) (m : Text) (status : GmailMessageStatus)
      → Keeps IsConsistent (Messages.update_gmail_message_status env k m status)
  unfolding Messages.update_gmail_message_status
  update_gmail_message_status-Keeps k m status = search gmail_rules

  pub get_gmail_messages_for_account-Keeps :
      (k : Uuid) (limit : ℕ)
      → Keeps IsConsistent (Messages.get_gmail_messages_for_account env k limit)
  unfolding Messages.get_gmail_messages_for_account
  get_gmail_messages_for_account-Keeps k limit = search gmail_rules
