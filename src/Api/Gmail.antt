-- ===== src/Api/Gmail.antt =====
-- internal/api/gmail/gmail.go: the handlers.
pub mod Compose
pub mod Messages
use jeffrey_s_agenda_tool.Prelude.{Text, text, Option, none, some, List, [], ◌∷◌}
use jeffrey_s_agenda_tool.Domain.{Uuid}
use jeffrey_s_agenda_tool.Google.{Token, MessagesQuery, send_message, create_draft}
use jeffrey_s_agenda_tool.Action.{Env, Action, pure, attempt, ask, send, ◌>>=◌}
use jeffrey_s_agenda_tool.Store.Gmail.{
  CreateGmailAutomationRuleParams, create_gmail_automation_rule, get_gmail_rules_for_account,
}
use jeffrey_s_agenda_tool.Api.{
  HttpRequest, GmailRuleBody, MailBody, Payload, Response, write_json, write_json_error, require,
  report, first_value,
}
use jeffrey_s_agenda_tool.Api.Client.{get_gmail_client}
use jeffrey_s_agenda_tool.Api.Rule.{with_account}
use Compose.{raw_message}
use Messages.{max_results_of, transform_messages}

unfoldable pub gmail_rule_params : Uuid → GmailRuleBody → CreateGmailAutomationRuleParams
gmail_rule_params account body = record {
  connected_account_id = account;
  name = body.name;
  description = body.description;
  is_active = body.is_active;
  trigger_type = body.trigger_type;
  trigger_conditions = body.trigger_conditions;
  action_type = body.action_type;
  action_params = body.action_params;
  priority = body.priority;
}

module _ (env : Env) (parse_uuid : Text → Option Uuid) (req : HttpRequest) where
  -- The account of the URL, whose owner is not looked at.
  unfoldable pub with_mailbox : (Uuid → Action Response) → Action Response
  unfolding require write_json_error
  with_mailbox k =
      require (parse_uuid req.account_id) (write_json_error 400 (text "Ongeldig account ID")) k

  unfoldable pub with_gmail : Uuid → (Token → Action Response) → Action Response
  unfolding write_json_error
  with_gmail k use_client =
      attempt (get_gmail_client env k)
        (λ _. write_json_error 500 (text "Kon Gmail client niet initialiseren")) use_client

  unfoldable pub with_mail : (MailBody → Action Response) → Action Response
  unfolding require write_json_error
  with_mail k = require req.mail (write_json_error 400 (text "Ongeldige request body")) k

  unfoldable pub messages_query : MessagesQuery
  unfolding first_value max_results_of
  messages_query = record {
    search_query = first_value (req.query (text "q"));
    label_ids = req.query (text "labelIds");
    max_results = max_results_of (first_value (req.query (text "maxResults")));
  }

  unfoldable pub handle_get_gmail_messages : Action Response
  unfolding with_mailbox with_gmail messages_query write_json report
  handle_get_gmail_messages = with_mailbox λ k. with_gmail k λ token.
      attempt (ask λ n. env.google.list_messages n token messages_query)
        (report env 500 (text "Kon berichten niet ophalen: "))
        λ entries.
          transform_messages env token entries >>= λ views. write_json 200 (Payload.mails views)

  -- The raw message is encoded in base64 for the service.
  unfoldable pub handle_send_gmail_message : Action Response
  unfolding with_mailbox with_gmail with_mail raw_message write_json report
  handle_send_gmail_message = with_mailbox λ k. with_mail λ mail. with_gmail k λ token.
      let raw = env.encode_base64 (raw_message mail) in
      attempt (send (send_message token [] raw) (λ n. env.google.message_sent n raw))
        (report env 500 (text "Kon email niet versturen: "))
        (λ sent. write_json 200 (Payload.sent_mail sent))

  unfoldable pub handle_get_gmail_labels : Action Response
  unfolding with_mailbox with_gmail write_json report
  handle_get_gmail_labels = with_mailbox λ k. with_gmail k λ token.
      attempt (ask λ n. env.google.list_labels n token)
        (report env 500 (text "Kon labels niet ophalen: "))
        (λ labels. write_json 200 (Payload.labels labels))

  unfoldable pub handle_create_gmail_draft : Action Response
  unfolding with_mailbox with_gmail with_mail raw_message write_json report
  handle_create_gmail_draft = with_mailbox λ k. with_mail λ mail. with_gmail k λ token.
      let raw = env.encode_base64 (raw_message mail) in
      attempt (send (create_draft token raw) (λ n. env.google.draft_created n raw))
        (report env 500 (text "Kon draft niet creren: "))
        (λ created. write_json 201 (Payload.draft created))

  unfoldable pub handle_get_gmail_drafts : Action Response
  unfolding with_mailbox with_gmail write_json report
  handle_get_gmail_drafts = with_mailbox λ k. with_gmail k λ token.
      attempt (ask λ n. env.google.list_drafts n token)
        (report env 500 (text "Kon drafts niet ophalen: "))
        (λ drafts. write_json 200 (Payload.drafts drafts))

module _ (env : Env) (parse_uuid : Text → Option Uuid) (user : Option Uuid)
    (req : HttpRequest) where
  unfoldable pub handle_create_gmail_rule : Action Response
  unfolding with_account require gmail_rule_params write_json write_json_error
  handle_create_gmail_rule = with_account env parse_uuid user req λ account_id.
      require req.gmail_rule (write_json_error 400 (text "Ongeldige request body")) λ body.
        attempt (create_gmail_automation_rule env (gmail_rule_params account_id body))
          (λ _. write_json_error 500 (text "Kon Gmail rule niet creren"))
          (λ rule. write_json 201 (Payload.gmail_rule rule))

  unfoldable pub handle_get_gmail_rules : Action Response
  unfolding with_account write_json write_json_error
  handle_get_gmail_rules = with_account env parse_uuid user req λ account_id.
      attempt (get_gmail_rules_for_account env account_id)
        (λ _. write_json_error 500 (text "Kon Gmail rules niet ophalen"))
        (λ rules. write_json 200 (Payload.gmail_rules rules))
