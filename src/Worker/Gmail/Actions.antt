-- ===== src/Worker/Gmail/Actions.antt =====
-- internal/worker/gmail/actions.go, and of helpers.go the labels and the text of a reply.
use jeffrey_s_agenda_tool.Prelude.{
  Text, text, text_eq, has_prefix, Option, none, some, List, [], ◌∷◌, ◌++◌, find, if◌then◌else◌,
}
use jeffrey_s_agenda_tool.Json.{Json}
use jeffrey_s_agenda_tool.Domain.{ConnectedAccount, GmailAutomationRule, GmailRuleActionType}
use jeffrey_s_agenda_tool.Database.{invalid_json, label_not_found, unknown_action}
use jeffrey_s_agenda_tool.Google.{
  Token, Part, Message, Label, ModifyMessageRequest, send_message, modify_message, create_label,
  Header,
}
use jeffrey_s_agenda_tool.Action.{Env, Action, pure, fail, crash, ask, send, ◌>>=◌, ◌>>◌}
use jeffrey_s_agenda_tool.Worker.Gmail.Payload.{part_headers, get_header_value}
use jeffrey_s_agenda_tool.Worker.Gmail.Match.{unmarshal_text}

unfoldable pub reply_subject : Option Text → Text
unfolding has_prefix
reply_subject none = text "Re:"
reply_subject (some s) = if has_prefix s (text "Re:") then s else text "Re: " ++ s

unfoldable pub reply_references : Option Text → Text
reply_references none = []
reply_references (some id) =
    text "References: " ++ (id ++ (text "\r\nIn-Reply-To: " ++ (id ++ text "\r\n")))

-- The message before it is encoded; a message without a From header is dereferenced.
unfoldable pub reply_text : List Header → Text → Text → Option Text → Action Text
unfolding reply_subject reply_references
reply_text headers body from none = crash
reply_text headers body from (some to) = pure (
    text "To: "
    ++ (to
        ++ (text "\r\nFrom: "
            ++ (from
                ++ (text "\r\nSubject: "
                    ++ (reply_subject (get_header_value headers (text "Subject"))
                        ++ (text "\r\n"
                            ++ (reply_references (get_header_value headers (text "Message-ID"))
                                ++ (text "Content-Type: text/plain; charset=UTF-8\r\n\r\n"
                                    ++ body)))))))))

unfoldable pub create_reply_raw : Env → Option Part → Text → Text → Action Text
unfolding reply_text
create_reply_raw env none body from = crash
create_reply_raw env (some p) body from = do
  raw ← reply_text (part_headers p) body from (get_header_value (part_headers p) (text "From"))
  pure (env.encode_base64 raw)

-- The error of json.Unmarshal.
unfoldable pub or_invalid : Option Text → Action Text
or_invalid none = fail invalid_json
or_invalid (some s) = pure s

-- A parameter of the action.
unfoldable pub param : Text → Json → Action Text
unfolding unmarshal_text or_invalid
param name j = or_invalid (unmarshal_text name j)

module _ (env : Env) (token : Token) where
  find_label : Text → List Label → Option Label
  find_label name labels = find (λ l. text_eq l.name name) labels

  unfoldable pub or_create : Text → Option Label → Action Label
  or_create name (some l) = pure l
  or_create name none = send (create_label token name) (λ n. env.google.label_created n name)

  unfoldable pub or_not_found : Option Label → Action Label
  or_not_found (some l) = pure l
  or_not_found none = fail label_not_found

  unfoldable pub get_or_create_label : Text → Action Label
  unfolding find_label
  get_or_create_label name = do
    labels ← ask (λ n. env.google.list_labels n token)
    or_create name (find_label name labels)

  unfoldable pub get_label_by_name : Text → Action Label
  unfolding find_label
  get_label_by_name name = do
    labels ← ask (λ n. env.google.list_labels n token)
    or_not_found (find_label name labels)

  -- Users.Messages.Modify
  unfoldable pub modify : Text → List Text → List Text → Action (Unit {0})
  modify id add remove =
      let change : ModifyMessageRequest = record {
        add_label_ids = add;
        remove_label_ids = remove;
      } in
      send (modify_message token id change) (λ n. env.google.message_modified n change)

  unfoldable pub execute_auto_reply :
      ConnectedAccount → Message → GmailAutomationRule → Action (Unit {0})
  execute_auto_reply acc m rule = do
    body ← param (text "reply_text") rule.action_params
    raw ← create_reply_raw env m.payload body acc.email
    send (send_message token m.thread_id raw) (λ n. env.google.message_sent n raw)
    pure tt

  unfoldable pub execute_add_label : Message → GmailAutomationRule → Action (Unit {0})
  execute_add_label m rule = do
    name ← param (text "label_name") rule.action_params
    label ← get_or_create_label name
    modify m.id (label.id ∷ []) []

  unfoldable pub execute_remove_label : Message → GmailAutomationRule → Action (Unit {0})
  execute_remove_label m rule = do
    name ← param (text "label_name") rule.action_params
    label ← get_label_by_name name
    modify m.id [] (label.id ∷ [])

  -- executeForward, which only writes to the process log.
  unfoldable pub execute_forward : Action (Unit {0})
  execute_forward = pure tt

  unfoldable pub execute :
      GmailRuleActionType → ConnectedAccount → Message → GmailAutomationRule → Action (Unit {0})
  execute GmailRuleActionType.auto_reply acc m rule = execute_auto_reply acc m rule
  execute GmailRuleActionType.forward acc m rule = execute_forward
  execute GmailRuleActionType.add_label acc m rule = execute_add_label m rule
  execute GmailRuleActionType.remove_label acc m rule = execute_remove_label m rule
  execute GmailRuleActionType.mark_read acc m rule = modify m.id [] (text "UNREAD" ∷ [])
  execute GmailRuleActionType.mark_unread acc m rule = modify m.id (text "UNREAD" ∷ []) []
  execute GmailRuleActionType.archive acc m rule = modify m.id [] (text "INBOX" ∷ [])
  execute GmailRuleActionType.trash acc m rule = modify m.id (text "TRASH" ∷ []) []
  execute GmailRuleActionType.star acc m rule = modify m.id (text "STARRED" ∷ []) []
  execute GmailRuleActionType.unstar acc m rule = modify m.id [] (text "STARRED" ∷ [])
  execute (GmailRuleActionType.other t) acc m rule = fail unknown_action

  unfoldable pub execute_rule_action :
      ConnectedAccount → Message → GmailAutomationRule → Action (Unit {0})
  unfolding execute
  execute_rule_action acc m rule = execute rule.action_type acc m rule
