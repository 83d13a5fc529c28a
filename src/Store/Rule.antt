-- ===== src/Store/Rule.antt =====
-- internal/store/rule/rule.go
pub mod Toggle
use jeffrey_s_agenda_tool.Prelude.{
  Text, Bool, true, ◌&&◌, ◌==◌, not, ltb_ℤ, Option, none, some, List, [], ◌∷◌, ◌++◌, any, find,
  keep, length, update_where, if◌then◌else◌,
}
use jeffrey_s_agenda_tool.Json.{Json}
use jeffrey_s_agenda_tool.Domain.{Uuid, Time, AutomationRule}
use jeffrey_s_agenda_tool.Database.{
  Result, ok, err, unique_violation, foreign_key_violation, not_null_violation, rule_not_found,
  forbidden, nothing_deleted, no_rows, Db, Statement, account_has, rule_has,
}
use jeffrey_s_agenda_tool.Database.Cascade.{delete_rules}
use jeffrey_s_agenda_tool.Database.Order.{order_by}
use jeffrey_s_agenda_tool.Action.{Env, Action, pure, attempt, query, ◌>>=◌, ◌>>◌}
use jeffrey_s_agenda_tool.Store.Sql.{scan, select_row, select_rows, exec, or_missing, require_rows}

pub record CreateAutomationRuleParams : Type 0 where
  pub connected_account_id : Uuid
  pub name : Text
  pub trigger_conditions : Option Json
  pub action_params : Option Json

pub record UpdateRuleParams : Type 0 where
  pub rule_id : Uuid
  pub name : Text
  pub trigger_conditions : Option Json
  pub action_params : Option Json

-- A new rule is active: DEFAULT true.
abbrev pub new_rule : Time → Uuid → Uuid → Text → Json → Json → AutomationRule
new_rule now id account name trigger action = record {
  id = id;
  created_at = now;
  updated_at = now;
  connected_account_id = account;
  name = name;
  is_active = true;
  trigger_conditions = trigger;
  action_params = action;
}

-- The constraints of the table, on the row that is to be inserted.
unfoldable pub insert_row : AutomationRule → Db → Result (AutomationRule × Db)
insert_row row db =
    if any (rule_has row.id) db.automation_rules
    then err unique_violation
    else if any (account_has row.connected_account_id) db.connected_accounts
    then ok (row, record db { automation_rules = db.automation_rules ++ row ∷ [] })
    else err foreign_key_violation

-- A nil json.RawMessage is NULL, which the columns refuse.
unfoldable pub insert_fields :
    CreateAutomationRuleParams → Option Json → Option Json → Statement AutomationRule
insert_fields arg (some trigger) (some action) now id db =
    insert_row (new_rule now id arg.connected_account_id arg.name trigger action) db
insert_fields arg (some trigger) none now id db = err not_null_violation
insert_fields arg none action now id db = err not_null_violation

unfoldable pub insert_rule : CreateAutomationRuleParams → Statement AutomationRule
unfolding insert_fields insert_row
insert_rule arg = insert_fields arg arg.trigger_conditions arg.action_params

-- UPDATE automation_rules SET ... WHERE id = k RETURNING ...
unfoldable pub update_rule_row :
    Uuid → (Time → AutomationRule → AutomationRule) → Statement AutomationRule
unfolding scan
update_rule_row k change now id db =
    let rules = update_where (rule_has k) (change now) db.automation_rules in
    scan (find (rule_has k) rules) (record db { automation_rules = rules })

abbrev pub set_rule : Text → Json → Json → Time → AutomationRule → AutomationRule
set_rule name trigger action now r = record r {
  name = name;
  trigger_conditions = trigger;
  action_params = action;
  updated_at = now;
}

abbrev pub toggle : Time → AutomationRule → AutomationRule
toggle now r = record r { is_active = not r.is_active; updated_at = now }

-- NULL is refused where there is a row to update, and otherwise no row is returned.
unfoldable pub refuse_null : Uuid → Statement AutomationRule
refuse_null k now id db =
    if any (rule_has k) db.automation_rules then err not_null_violation else err no_rows

unfoldable pub update_fields :
    UpdateRuleParams → Option Json → Option Json → Statement AutomationRule
unfolding refuse_null update_rule_row
update_fields arg (some trigger) (some action) now id db =
    update_rule_row arg.rule_id (set_rule arg.name trigger action) now id db
update_fields arg (some trigger) none now id db = refuse_null arg.rule_id now id db
update_fields arg none action now id db = refuse_null arg.rule_id now id db

abbrev pub later_rule : AutomationRule → AutomationRule → Bool
later_rule r s = ltb_ℤ s.created_at r.created_at

-- The join of a rule with the account that it refers to.
abbrev pub belongs_to : Uuid → Db → AutomationRule → Bool
belongs_to user db r =
    any (λ a. a.id == r.connected_account_id && a.user_id == user) db.connected_accounts

module _ (env : Env) where
  unfoldable pub create_automation_rule : CreateAutomationRuleParams → Action AutomationRule
  create_automation_rule arg = query env (insert_rule arg)

  unfoldable pub get_rule_by_id : Uuid → Action AutomationRule
  get_rule_by_id k =
      attempt (query env (select_row (λ db. find (rule_has k) db.automation_rules)))
        (or_missing rule_not_found) pure

  unfoldable pub get_rules_for_account : Uuid → Action (List AutomationRule)
  get_rules_for_account account = query env (
      select_rows λ db.
        order_by later_rule (keep (λ r. r.connected_account_id == account) db.automation_rules))

  unfoldable pub update_rule : UpdateRuleParams → Action AutomationRule
  update_rule arg = query env (update_fields arg arg.trigger_conditions arg.action_params)

  unfoldable pub toggle_rule_status : Uuid → Action AutomationRule
  toggle_rule_status k = query env (update_rule_row k toggle)

  unfoldable pub verify_rule_ownership : Uuid → Uuid → Action (Unit {0})
  verify_rule_ownership k user = do
    attempt
        (query env
          (select_row (λ db. find (λ r. r.id == k && belongs_to user db r) db.automation_rules)))
        (or_missing forbidden) pure
    pure tt

  unfoldable pub delete_rule : Uuid → Action (Unit {0})
  delete_rule k = do
    n ← query env (
        exec (λ db. length (keep (rule_has k) db.automation_rules))
          (λ now. delete_rules (rule_has k)))
    require_rows nothing_deleted n
