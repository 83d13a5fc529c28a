-- ===== src/Api/Rule.antt =====
-- internal/api/rule/rule.go
pub mod Created
use jeffrey_s_agenda_tool.Prelude.{Text, text, not, ◌==◌, Option, if◌then◌else◌}
use jeffrey_s_agenda_tool.Domain.{Uuid}
use jeffrey_s_agenda_tool.Action.{Env, Action, attempt}
use jeffrey_s_agenda_tool.Store.Account.{get_connected_account_by_id}
use jeffrey_s_agenda_tool.Store.Rule.{
  CreateAutomationRuleParams, UpdateRuleParams, create_automation_rule, get_rule_by_id,
  get_rules_for_account, update_rule, toggle_rule_status, delete_rule,
}
use jeffrey_s_agenda_tool.Api.{
  RuleBody, HttpRequest, Payload, Response, write_json, write_json_error, require, with_user,
}

unfoldable pub create_params : Uuid → RuleBody → CreateAutomationRuleParams
create_params account body = record {
  connected_account_id = account;
  name = body.name;
  trigger_conditions = body.trigger_conditions;
  action_params = body.action_params;
}

unfoldable pub update_params : Uuid → RuleBody → UpdateRuleParams
update_params rule body = record {
  rule_id = rule;
  name = body.name;
  trigger_conditions = body.trigger_conditions;
  action_params = body.action_params;
}

module _ (env : Env) (parse_uuid : Text → Option Uuid) (user : Option Uuid)
    (req : HttpRequest) where
  -- The start of a handler on an account: it exists, and it is the user's.
  unfoldable pub with_account : (Uuid → Action Response) → Action Response
  unfolding require with_user write_json_error
  with_account k =
      require (parse_uuid req.account_id) (write_json_error 400 (text "Ongeldig account ID"))
        λ account_id. with_user user λ user_id.
          attempt (get_connected_account_by_id env account_id)
            (λ _. write_json_error 404 (text "Account niet gevonden"))
            λ account.
              if not (account.user_id == user_id)
              then write_json_error 404 (text "Account niet gevonden")
              else k account_id

  -- The start of a handler on a rule: it exists, and it is of an account of the user.
  unfoldable pub with_rule : (Uuid → Action Response) → Action Response
  unfolding require with_user write_json_error
  with_rule k =
      require (parse_uuid req.rule_id) (write_json_error 400 (text "Ongeldig rule ID")) λ rule_id.
        with_user user λ user_id.
          attempt (get_rule_by_id env rule_id)
            (λ _. write_json_error 404 (text "Rule niet gevonden"))
            λ rule.
              attempt (get_connected_account_by_id env rule.connected_account_id)
                (λ _. write_json_error 403 (text "Geen toegang tot deze rule"))
                λ account.
                  if not (account.user_id == user_id)
                  then write_json_error 403 (text "Geen toegang tot deze rule")
                  else k rule_id

  unfoldable pub handle_create_rule : Action Response
  unfolding require write_json write_json_error create_params
  handle_create_rule = with_account λ account_id.
      require req.body (write_json_error 400 (text "Ongeldige request body")) λ body.
        attempt (create_automation_rule env (create_params account_id body))
          (λ _. write_json_error 500 (text "Kon rule niet creren"))
          (λ rule. write_json 201 (Payload.rule rule))

  unfoldable pub handle_get_rules : Action Response
  unfolding write_json write_json_error
  handle_get_rules = with_account λ account_id.
      attempt (get_rules_for_account env account_id)
        (λ _. write_json_error 500 (text "Kon rules niet ophalen"))
        (λ rules. write_json 200 (Payload.rules rules))

  unfoldable pub handle_update_rule : Action Response
  unfolding require write_json write_json_error update_params
  handle_update_rule = with_rule λ rule_id.
      require req.body (write_json_error 400 (text "Ongeldige request body")) λ body.
        attempt (update_rule env (update_params rule_id body))
          (λ _. write_json_error 500 (text "Kon rule niet updaten"))
          (λ rule. write_json 200 (Payload.rule rule))

  unfoldable pub handle_delete_rule : Action Response
  unfolding write_json write_json_error
  handle_delete_rule = with_rule λ rule_id.
      attempt (delete_rule env rule_id)
        (λ _. write_json_error 500 (text "Kon rule niet verwijderen"))
        (λ _. write_json 204 Payload.nothing)

  unfoldable pub handle_toggle_rule : Action Response
  unfolding write_json write_json_error
  handle_toggle_rule = with_rule λ rule_id.
      attempt (toggle_rule_status env rule_id)
        (λ _. write_json_error 500 (text "Kon rule status niet togglen"))
        (λ rule. write_json 200 (Payload.rule rule))
