-- ===== src/Store/Integrity/Rules.antt =====
-- internal/store/rule/rule.go and internal/store/log/log.go: the invariant over their statements.
use mathlib.Core.Path.{subst}
use jeffrey_s_agenda_tool.Prelude.{
  ℕ, Text, true, ◌≡◌, refl, Bool, Option, none, some, ◌&&◌, any, find, update_where, Bool-cases,
  inl, inr, arith,
}
use jeffrey_s_agenda_tool.Json.{Json}
use jeffrey_s_agenda_tool.Domain.{Uuid, Time, AutomationRule}
use jeffrey_s_agenda_tool.Database.{ok, Err, no_rows, Db, account_has, rule_has}
use jeffrey_s_agenda_tool.Database.Cascade.{delete_rules}
use jeffrey_s_agenda_tool.Database.Integrity.{IsConsistent, HasRule}
use jeffrey_s_agenda_tool.Database.Integrity.Inserts.{
  insert_rule-IsConsistent, insert_log-IsConsistent,
}
use jeffrey_s_agenda_tool.Database.Integrity.Updates.{update_rules-IsConsistent}
use jeffrey_s_agenda_tool.Database.Integrity.Deletes.{delete_rules-IsConsistent}
use jeffrey_s_agenda_tool.Action.{Env}
use jeffrey_s_agenda_tool.Action.Keeps.{Keeps, Safe, keeps_rules}
use jeffrey_s_agenda_tool.Store.Sql.{scan_same, exec, same_db, Safe-exec, store_rules}
use jeffrey_s_agenda_tool.Store.Rule
use jeffrey_s_agenda_tool.Store.Rule.{
  CreateAutomationRuleParams, UpdateRuleParams, insert_row, insert_fields, insert_rule,
  update_rule_row, set_rule, toggle, refuse_null, update_fields,
}
use jeffrey_s_agenda_tool.Store.Log
use jeffrey_s_agenda_tool.Store.Log.{
  CreateLogParams, new_log, refers_to_rule, insert_log, found_nothing,
}

insert_row_keeps :
    (row : AutomationRule) (db : Db) (r : AutomationRule) (db' : Db)
    → IsConsistent db
    → insert_row row db ≡ ok (r, db')
    → IsConsistent db'
unfolding insert_row
insert_row_keeps row db r db' c e = elim (Bool-cases (any (rule_has row.id) db.automation_rules)) [
  | inl taken ↦ cc taken
  | inr free ↦
      elim (Bool-cases (any (account_has row.connected_account_id) db.connected_accounts)) [
        | inr orphan ↦ cc (free, orphan)
        | inl owned ↦
            subst IsConsistent (same_db _ _ _ _ (rw owned at (rw free at e)))
              (insert_rule-IsConsistent row db free owned c)
      ]
]

insert_fields_keeps :
    (arg : CreateAutomationRuleParams) (trigger action : Option Json) (now : Time) (id : Uuid)
    (db : Db) (r : AutomationRule) (db' : Db)
    → IsConsistent db
    → insert_fields arg trigger action now id db ≡ ok (r, db')
    → IsConsistent db'
unfolding insert_fields
insert_fields_keeps arg (some t) (some a) now id db r db' c e = insert_row_keeps _ db r db' c e
insert_fields_keeps arg (some t) none now id db r db' c e = cc
insert_fields_keeps arg none action now id db r db' c e = cc

insert_rule-Safe : (arg : CreateAutomationRuleParams) → Safe IsConsistent (insert_rule arg)
unfolding insert_rule
insert_rule-Safe arg = record { at = insert_fields_keeps arg _ _ }

update_rule_row_keeps :
    (k : Uuid) (f : Time → AutomationRule → AutomationRule)
    → ((now : Time) (r : AutomationRule) → (f now r).id ≡ r.id)
    → ((now : Time) (r : AutomationRule) → (f now r).connected_account_id ≡ r.connected_account_id)
    → (now : Time) (id : Uuid) (db : Db) (r : AutomationRule) (db' : Db) → IsConsistent db
    → update_rule_row k f now id db ≡ ok (r, db')
    → IsConsistent db'
unfolding update_rule_row
update_rule_row_keeps k f key owner now id db r db' c e =
    subst IsConsistent
      (scan_same (find (rule_has k) (update_where (rule_has k) (f now) db.automation_rules)) _ db' r
        e)
      (update_rules-IsConsistent (rule_has k) (f now) (key now) (owner now) db c)

toggle-Safe : (k : Uuid) → Safe IsConsistent (update_rule_row k toggle)
toggle-Safe k = record { at = update_rule_row_keeps k toggle (λ now r. refl) (λ now r. refl) }

refuse_null_fails :
    (k : Uuid) (now : Time) (id : Uuid) (db : Db) (r : AutomationRule) (db' : Db)
    → refuse_null k now id db ≡ ok (r, db')
    → IsConsistent db'
unfolding refuse_null
refuse_null_fails k now id db r db' e = elim (Bool-cases (any (rule_has k) db.automation_rules)) [
  | inl there ↦ cc there
  | inr missing ↦ cc missing
]

update_fields_keeps :
    (arg : UpdateRuleParams) (trigger action : Option Json) (now : Time) (id : Uuid) (db : Db)
    (r : AutomationRule) (db' : Db)
    → IsConsistent db
    → update_fields arg trigger action now id db ≡ ok (r, db')
    → IsConsistent db'
unfolding update_fields
update_fields_keeps arg (some t) (some a) now id db r db' c e =
    update_rule_row_keeps arg.rule_id (set_rule arg.name t a) (λ now r. refl) (λ now r. refl) now id
      db r db' c e
update_fields_keeps arg (some t) none now id db r db' c e =
    refuse_null_fails arg.rule_id now id db r db' e
update_fields_keeps arg none action now id db r db' c e =
    refuse_null_fails arg.rule_id now id db r db' e

update_fields-Safe :
    (arg : UpdateRuleParams) (t a : Option Json) → Safe IsConsistent (update_fields arg t a)
update_fields-Safe arg t a = record { at = update_fields_keeps arg t a }

delete_rules-Safe :
    (p : AutomationRule → Bool) (count : Db → ℕ)
    → Safe IsConsistent (exec count (λ now. delete_rules p))
delete_rules-Safe p count = Safe-exec count _ (λ now db c. delete_rules-IsConsistent p db c)

HasRule-of_test : (k : Option Uuid) (db : Db) → refers_to_rule k db ≡ true → HasRule db k
HasRule-of_test none db h = tt
HasRule-of_test (some k) db h = h

insert_log_keeps :
    (arg : CreateLogParams) (now : Time) (id : Uuid) (db : Db) (u : Unit {0}) (db' : Db)
    → IsConsistent db
    → insert_log arg now id db ≡ ok (u, db')
    → IsConsistent db'
unfolding insert_log
insert_log_keeps arg now id db u db' c e =
    elim (Bool-cases (
      any (account_has arg.connected_account_id) db.connected_accounts
      && refers_to_rule arg.rule_id db)) [
        | inr refused ↦ cc refused
        | inl fits ↦ subst IsConsistent (same_db _ _ _ _ (rw fits at e)) (
            insert_log-IsConsistent (new_log now db.next_log_id arg) db refl (ground arith)
              (HasRule-of_test arg.rule_id db (ground arith)) c)
      ]

insert_log-Safe : (arg : CreateLogParams) → Safe IsConsistent (insert_log arg)
insert_log-Safe arg = record { at = insert_log_keeps arg }

ruleset rule_rules = (
  store_rules, insert_rule-Safe, toggle-Safe, update_fields-Safe, delete_rules-Safe,
  insert_log-Safe,
)

module _ (env : Env) where
  pub create_automation_rule-Keeps :
      (arg : CreateAutomationRuleParams) → Keeps IsConsistent (Rule.create_automation_rule env arg)
  unfolding Rule.create_automation_rule
  create_automation_rule-Keeps arg = search rule_rules

  pub get_rule_by_id-Keeps : (k : Uuid) → Keeps IsConsistent (Rule.get_rule_by_id env k)
  unfolding Rule.get_rule_by_id
  get_rule_by_id-Keeps k = search rule_rules

  pub get_rules_for_account-Keeps :
      (k : Uuid) → Keeps IsConsistent (Rule.get_rules_for_account env k)
  unfolding Rule.get_rules_for_account
  get_rules_for_account-Keeps k = search rule_rules

  pub update_rule-Keeps : (arg : UpdateRuleParams) → Keeps IsConsistent (Rule.update_rule env arg)
  unfolding Rule.update_rule
  update_rule-Keeps arg = search rule_rules

  pub toggle_rule_status-Keeps : (k : Uuid) → Keeps IsConsistent (Rule.toggle_rule_status env k)
  unfolding Rule.toggle_rule_status
  toggle_rule_status-Keeps k = search rule_rules

  pub verify_rule_ownership-Keeps :
      (k user : Uuid) → Keeps IsConsistent (Rule.verify_rule_ownership env k user)
  unfolding Rule.verify_rule_ownership
  verify_rule_ownership-Keeps k user = search rule_rules

  pub delete_rule-Keeps : (k : Uuid) → Keeps IsConsistent (Rule.delete_rule env k)
  unfolding Rule.delete_rule
  delete_rule-Keeps k = search rule_rules

  pub create_automation_log-Keeps :
      (arg : CreateLogParams) → Keeps IsConsistent (Log.create_automation_log env arg)
  unfolding Log.create_automation_log
  create_automation_log-Keeps arg = search rule_rules

  found_nothing-Keeps : (e : Err) → Keeps IsConsistent (found_nothing env e)
  unfolding found_nothing
  found_nothing-Keeps no_rows = search keeps_rules
  found_nothing-Keeps other = search keeps_rules

  pub has_log_for_trigger-Keeps :
      (k : Uuid) (event : Text) → Keeps IsConsistent (Log.has_log_for_trigger env k event)
  unfolding Log.has_log_for_trigger
  has_log_for_trigger-Keeps k event = search (rule_rules, found_nothing-Keeps)

  pub get_logs_for_account-Keeps :
      (k : Uuid) (limit : ℕ) → Keeps IsConsistent (Log.get_logs_for_account env k limit)
  unfolding Log.get_logs_for_account
  get_logs_for_account-Keeps k limit = search rule_rules
