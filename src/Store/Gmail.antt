-- ===== src/Store/Gmail.antt =====
-- internal/store/gmail/gmail.go: the rules for messages and the state of the synchronisation.
pub mod Messages
use jeffrey_s_agenda_tool.Prelude.{
  ℕ, Text, text, ℤ, Bool, ◌&&◌, ◌||◌, ◌==◌, eqb_ℤ, not, ltb_ℤ, Option, none, some, List, [], ◌∷◌,
  ◌++◌, any, find, keep, length, update_where, if◌then◌else◌,
}
use jeffrey_s_agenda_tool.Json.{Json}
use jeffrey_s_agenda_tool.Domain.{
  Uuid, Time, ConnectedAccount, GmailRuleTriggerType, GmailRuleActionType, GmailAutomationRule,
  is_known_trigger, is_known_action,
}
use jeffrey_s_agenda_tool.Database.{
  to_timestamptz, Result, ok, err, no_rows, external, unique_violation, foreign_key_violation,
  not_null_violation, invalid_enum, account_not_found, nothing_deleted, Db, Statement, account_has,
  gmail_rule_has,
}
use jeffrey_s_agenda_tool.Database.Order.{order_by}
use jeffrey_s_agenda_tool.Action.{Env, Action, pure, lift, attempt, query, ◌>>=◌, ◌>>◌}
use jeffrey_s_agenda_tool.Store.Sql.{scan, select_row, select_rows, exec, or_missing, require_rows}
use jeffrey_s_agenda_tool.Store.Account.{update_account}

pub record CreateGmailAutomationRuleParams : Type 0 where
  pub connected_account_id : Uuid
  pub name : Text
  pub description : Option Text
  pub is_active : Bool
  pub trigger_type : GmailRuleTriggerType
  pub trigger_conditions : Option Json
  pub action_type : GmailRuleActionType
  pub action_params : Option Json
  pub priority : ℤ

pub record UpdateGmailRuleParams : Type 0 where
  pub rule_id : Uuid
  pub name : Text
  pub description : Option Text
  pub trigger_type : GmailRuleTriggerType
  pub trigger_conditions : Option Json
  pub action_type : GmailRuleActionType
  pub action_params : Option Json
  pub priority : ℤ

abbrev pub new_gmail_rule :
    Time → Uuid → CreateGmailAutomationRuleParams → Json → Json → GmailAutomationRule
new_gmail_rule now id arg trigger action = record {
  id = id;
  created_at = now;
  updated_at = now;
  connected_account_id = arg.connected_account_id;
  name = arg.name;
  is_active = arg.is_active;
  trigger_conditions = trigger;
  action_params = action;
  description = arg.description;
  trigger_type = arg.trigger_type;
  action_type = arg.action_type;
  priority = arg.priority;
}

unfoldable pub insert_fields :
    CreateGmailAutomationRuleParams → Option Json → Option Json → Statement GmailAutomationRule
insert_fields arg (some trigger) (some action) now id db =
    if not (is_known_trigger arg.trigger_type && is_known_action arg.action_type)
    then err invalid_enum
    else if any (gmail_rule_has id) db.gmail_automation_rules
    then err unique_violation
    else if any (account_has arg.connected_account_id) db.connected_accounts
    then ok (
      new_gmail_rule now id arg trigger action,
      record db {
        gmail_automation_rules =
            db.gmail_automation_rules ++ new_gmail_rule now id arg trigger action ∷ [];
      },
    )
    else err foreign_key_violation
insert_fields arg (some trigger) none now id db = err not_null_violation
insert_fields arg none action now id db = err not_null_violation

unfoldable pub insert_gmail_rule : CreateGmailAutomationRuleParams → Statement GmailAutomationRule
unfolding insert_fields
insert_gmail_rule arg = insert_fields arg arg.trigger_conditions arg.action_params

unfoldable pub update_gmail_rule_row :
    Uuid → (Time → GmailAutomationRule → GmailAutomationRule) → Statement GmailAutomationRule
unfolding scan
update_gmail_rule_row k change now id db =
    let rules = update_where (gmail_rule_has k) (change now) db.gmail_automation_rules in
    scan (find (gmail_rule_has k) rules) (record db { gmail_automation_rules = rules })

abbrev pub set_gmail_rule :
    UpdateGmailRuleParams → Json → Json → Time → GmailAutomationRule → GmailAutomationRule
set_gmail_rule arg trigger action now r = record r {
  name = arg.name;
  description = arg.description;
  trigger_type = arg.trigger_type;
  trigger_conditions = trigger;
  action_type = arg.action_type;
  action_params = action;
  priority = arg.priority;
  updated_at = now;
}

abbrev pub toggle_gmail_rule : Time → GmailAutomationRule → GmailAutomationRule
toggle_gmail_rule now r = record r { is_active = not r.is_active; updated_at = now }

-- NULL is refused where there is a row to update, and otherwise no row is returned.
unfoldable pub refuse_null : Uuid → Statement GmailAutomationRule
refuse_null k now id db =
    if any (gmail_rule_has k) db.gmail_automation_rules then err not_null_violation else err no_rows

unfoldable pub update_fields :
    UpdateGmailRuleParams → Option Json → Option Json → Statement GmailAutomationRule
unfolding refuse_null update_gmail_rule_row
update_fields arg (some trigger) (some action) now id db =
    if not (is_known_trigger arg.trigger_type && is_known_action arg.action_type)
    then err invalid_enum
    else update_gmail_rule_row arg.rule_id (set_gmail_rule arg trigger action) now id db
update_fields arg (some trigger) none now id db = refuse_null arg.rule_id now id db
update_fields arg none action now id db = refuse_null arg.rule_id now id db

-- ORDER BY priority DESC, created_at DESC
abbrev pub by_priority : GmailAutomationRule → GmailAutomationRule → Bool
by_priority r s =
    ltb_ℤ s.priority r.priority || (eqb_ℤ r.priority s.priority && ltb_ℤ s.created_at r.created_at)

abbrev pub set_sync_state : Text → Time → Time → ConnectedAccount → ConnectedAccount
set_sync_state history_id last_sync now a = record a {
  gmail_history_id = some history_id;
  gmail_last_sync = some (to_timestamptz last_sync);
  updated_at = now;
}

-- Scan into a string and a time.Time, which a NULL makes fail.
unfoldable pub scan_sync_state : ConnectedAccount → Option (Text × Time)
scan_sync_state a = elim a.gmail_history_id [
  | none ↦ none
  | some h ↦ elim a.gmail_last_sync [ none ↦ none | some t ↦ some (h, t) ]
]

unfoldable pub or_null : Option (Text × Time) → Result (Text × Time)
or_null none = err (external (text "cannot scan NULL"))
or_null (some s) = ok s

module _ (env : Env) where
  unfoldable pub create_gmail_automation_rule :
      CreateGmailAutomationRuleParams → Action GmailAutomationRule
  create_gmail_automation_rule arg = query env (insert_gmail_rule arg)

  unfoldable pub get_gmail_rules_for_account : Uuid → Action (List GmailAutomationRule)
  get_gmail_rules_for_account account = query env (
      select_rows λ db.
        order_by by_priority
          (keep (λ r. r.connected_account_id == account) db.gmail_automation_rules))

  unfoldable pub update_gmail_rule : UpdateGmailRuleParams → Action GmailAutomationRule
  update_gmail_rule arg = query env (update_fields arg arg.trigger_conditions arg.action_params)

  unfoldable pub delete_gmail_rule : Uuid → Action (Unit {0})
  delete_gmail_rule k = do
    n ← query env (
        exec (λ db. length (keep (gmail_rule_has k) db.gmail_automation_rules))
          λ now db. record db {
            gmail_automation_rules = keep (λ r. not (gmail_rule_has k r)) db.gmail_automation_rules;
          })
    require_rows nothing_deleted n

  unfoldable pub toggle_gmail_rule_status : Uuid → Action GmailAutomationRule
  toggle_gmail_rule_status k = query env (update_gmail_rule_row k toggle_gmail_rule)

  unfoldable pub update_gmail_sync_state : Uuid → Text → Time → Action (Unit {0})
  update_gmail_sync_state k history_id last_sync = do
    query env (update_account k (set_sync_state history_id last_sync))
    pure tt

  unfoldable pub get_gmail_sync_state : Uuid → Action (Text × Time)
  get_gmail_sync_state k = do
    row ←
        attempt (query env (select_row (λ db. find (account_has k) db.connected_accounts)))
          (or_missing account_not_found) pure
    lift (or_null (scan_sync_state row))
