-- ===== src/Api/Access.antt =====
-- internal/api: who may change what through the routes.
use jeffrey_s_agenda_tool.Prelude.{not-false, Text, is_empty, not, Option, some, ◌≡◌, refl, ◌⊎◌}
use jeffrey_s_agenda_tool.Domain.{Uuid}
use jeffrey_s_agenda_tool.Database.{Db}
use jeffrey_s_agenda_tool.Action.{Env, World, Action}
use jeffrey_s_agenda_tool.Store.Sql.{store_rules}
use jeffrey_s_agenda_tool.Store.User.{get_user_by_id}
use jeffrey_s_agenda_tool.Store.Log.{get_logs_for_account}
use jeffrey_s_agenda_tool.Store.Rule.{get_rules_for_account}
use jeffrey_s_agenda_tool.Store.Account.{get_accounts_for_user}
use jeffrey_s_agenda_tool.Api.{HttpRequest, Response, require, with_user}
use jeffrey_s_agenda_tool.Api.Rule.{
  with_account, with_rule, handle_create_rule, handle_get_rules, handle_update_rule,
  handle_delete_rule, handle_toggle_rule,
}
use jeffrey_s_agenda_tool.Api.Account.{
  handle_get_me, handle_get_connected_accounts, handle_delete_connected_account,
  handle_get_automation_logs,
}
use jeffrey_s_agenda_tool.Store.Gmail.{get_gmail_rules_for_account}
use jeffrey_s_agenda_tool.Api.Gmail.{handle_create_gmail_rule, handle_get_gmail_rules}
use jeffrey_s_agenda_tool.Api.Needs.Google.{
  list_calendars-Needs, get_calendar_events-Needs, create_event-Needs, update_event-Needs,
  delete_event-Needs, get_aggregated_events-Needs, get_gmail_messages-Needs,
  send_gmail_message-Needs, get_gmail_labels-Needs, create_gmail_draft-Needs,
  get_gmail_drafts-Needs,
}
use jeffrey_s_agenda_tool.Api.Keeps.{write_json-Keeps, write_json_error-Keeps}
use jeffrey_s_agenda_tool.Api.Auth.{AuthEnv, auth_middleware}
use jeffrey_s_agenda_tool.Api.Needs.{
  Needs, Needs-reads, Needs-holds, Needs-write_json_error, Needs-require, Needs-if, Needs-account,
  Needs-rule, weaken, owner_of,
}
use jeffrey_s_agenda_tool.Api.Server.{
  Route, get_me, get_accounts, delete_account, create_rule, get_rules, update_rule, delete_rule,
  toggle_rule, get_logs, list_calendars, get_calendar_events, create_event, update_event,
  delete_event, get_aggregated_events, get_gmail_messages, send_gmail_message, get_gmail_labels,
  create_gmail_draft, get_gmail_drafts, create_gmail_rule, get_gmail_rules, handle, serve,
}
use jeffrey_s_agenda_tool.Api.Permits.{OwnsNamedAccount, OwnsNamedRule, Permits, Authenticates}

module _ (env : Env) (parse_uuid : Text → Option Uuid) (u : Uuid) (req : HttpRequest)
    (db : Db) where
  module _ {Q : Type 0} (k : Uuid → Action Response) where
    with_account-Needs :
        ((id : Uuid) → OwnsNamedAccount parse_uuid db req u → Needs db Q (k id))
        → Needs db Q (with_account env parse_uuid (some u) req k)
    unfolding with_account with_user require
    with_account-Needs nk =
        Needs-require (parse_uuid req.account_id) _ _ (Needs-write_json_error _ _) λ id parsed.
          Needs-account env id _ _ (λ e. Needs-write_json_error _ _)
            λ a found.
              Needs-if _ _ _ (Needs-write_json_error _ _)
                λ own. nk id (id, parsed, (a, found, owner_of a u own))

    with_rule-Needs :
        ((id : Uuid) → OwnsNamedRule parse_uuid db req u → Needs db Q (k id))
        → Needs db Q (with_rule env parse_uuid (some u) req k)
    unfolding with_rule with_user require
    with_rule-Needs nk =
        Needs-require (parse_uuid req.rule_id) _ _ (Needs-write_json_error _ _) λ id parsed.
          Needs-rule env id _ _ (λ e. Needs-write_json_error _ _)
            λ r rule_found.
              Needs-account env r.connected_account_id _ _ (λ e. Needs-write_json_error _ _)
                λ a found.
                  Needs-if _ _ _ (Needs-write_json_error _ _)
                    λ own. nk id (id, r, parsed, rule_found, (a, found, owner_of a u own))

ruleset read_rules = (store_rules, write_json-Keeps, write_json_error-Keeps)

module _ (env : Env) (auth : AuthEnv) (u : Uuid) (req : HttpRequest) (db : Db) where
  handle-Needs :
      (route : Route)
      → Needs db (Permits auth.parse_uuid db route req u) (handle env auth route req (some u))
  unfolding handle handle_get_me handle_get_connected_accounts handle_delete_connected_account
      handle_create_rule handle_get_rules handle_update_rule handle_delete_rule handle_toggle_rule
      handle_get_automation_logs with_user require get_user_by_id get_accounts_for_user
      get_rules_for_account get_logs_for_account get_gmail_rules_for_account
      handle_create_gmail_rule handle_get_gmail_rules
  handle-Needs get_me = Needs-reads _ (search read_rules)
  handle-Needs get_accounts = Needs-reads _ (search read_rules)
  handle-Needs delete_account =
      with_account-Needs env auth.parse_uuid u req db _ (λ k own. Needs-holds _ own)
  handle-Needs create_rule =
      with_account-Needs env auth.parse_uuid u req db _ (λ k own. Needs-holds _ own)
  handle-Needs get_rules =
      with_account-Needs env auth.parse_uuid u req db _ (λ k own. Needs-reads _ (search read_rules))
  handle-Needs update_rule =
      with_rule-Needs env auth.parse_uuid u req db _ (λ k own. Needs-holds _ own)
  handle-Needs delete_rule =
      with_rule-Needs env auth.parse_uuid u req db _ (λ k own. Needs-holds _ own)
  handle-Needs toggle_rule =
      with_rule-Needs env auth.parse_uuid u req db _ (λ k own. Needs-holds _ own)
  handle-Needs get_logs =
      with_account-Needs env auth.parse_uuid u req db _ (λ k own. Needs-reads _ (search read_rules))
  handle-Needs list_calendars = list_calendars-Needs env auth.parse_uuid req db
  handle-Needs get_calendar_events = get_calendar_events-Needs env auth.parse_uuid req db
  handle-Needs create_event = create_event-Needs env auth.parse_uuid req db
  handle-Needs update_event = update_event-Needs env auth.parse_uuid req db
  handle-Needs delete_event = delete_event-Needs env auth.parse_uuid req db
  handle-Needs get_aggregated_events = get_aggregated_events-Needs env auth.parse_uuid u db req
  handle-Needs get_gmail_messages = get_gmail_messages-Needs env auth.parse_uuid req db
  handle-Needs send_gmail_message = send_gmail_message-Needs env auth.parse_uuid req db
  handle-Needs get_gmail_labels = get_gmail_labels-Needs env auth.parse_uuid req db
  handle-Needs create_gmail_draft = create_gmail_draft-Needs env auth.parse_uuid req db
  handle-Needs get_gmail_drafts = get_gmail_drafts-Needs env auth.parse_uuid req db
  handle-Needs create_gmail_rule =
      with_account-Needs env auth.parse_uuid u req db _ (λ k own. Needs-holds _ own)
  handle-Needs get_gmail_rules =
      with_account-Needs env auth.parse_uuid u req db _ (λ k own. Needs-reads _ (search read_rules))

auth_middleware-Needs :
    (auth : AuthEnv) (next : Option Uuid → Action Response) (req : HttpRequest) (db : Db)
    (Q : Type 0)
    → ((user : Uuid) → Authenticates auth req user → Needs db Q (next (some user)))
    → Needs db Q (auth_middleware auth next req)
unfolding auth_middleware
auth_middleware-Needs auth next req db Q nn =
    Needs-if (is_empty req.authorization) _ _ (Needs-write_json_error _ _) λ header.
      Needs-require _ _ _ (Needs-write_json_error _ _) λ token parsed.
        Needs-if (not token.valid) _ _ (Needs-write_json_error _ _) λ invalid.
          Needs-require _ _ _ (Needs-write_json_error _ _) λ claims claimed.
            Needs-require _ _ _ (Needs-write_json_error _ _) λ id named.
              Needs-require _ _ _ (Needs-write_json_error _ _) λ user is_user.
                nn user (
                  token,
                  claims,
                  id,
                  parsed,
                  not-false token.valid invalid,
                  claimed,
                  named,
                  is_user,
                )

-- A request to a route leaves every table as it is, or its header authenticates a user, and what the
-- route needs holds in the tables as the request finds them: for accounts, rules and Gmail rules, that
-- the user owns the account that the route names, or the account of the rule that it names; for the
-- aggregated events, that the user owns one of the chosen accounts; for the other routes on a calendar
-- or on mail, that the account that they name exists. The routes that only read leave the tables as
-- they are.
pub serve-IsAuthorized :
    (env : Env) (auth : AuthEnv) (route : Route) (req : HttpRequest) (w : World)
    → ((serve env auth route req w).1.db ≡ w.db)
      ⊎ ((user : Uuid) × Authenticates auth req user × Permits auth.parse_uuid w.db route req user)
unfolding serve
serve-IsAuthorized env auth route req w =
    let served =
      auth_middleware-Needs auth (handle env auth route req) req w.db _
        λ user known. weaken (handle-Needs env auth user req w.db route) (λ q. (user, known, q)) in
    served.at w refl
