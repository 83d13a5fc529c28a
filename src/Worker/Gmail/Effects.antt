-- ===== src/Worker/Gmail/Effects.antt =====
-- internal/worker/gmail: the tables under the actions of the rules and the fetching of messages.
use jeffrey_s_agenda_tool.Prelude.{Text, Option, none, some, List, [], ◌∷◌}
use jeffrey_s_agenda_tool.Domain.{ConnectedAccount, GmailAutomationRule, GmailRuleActionType}
use jeffrey_s_agenda_tool.Database.{Db}
use jeffrey_s_agenda_tool.Google.{Token, Message, Part, Header, Label}
use jeffrey_s_agenda_tool.Json.{Json}
use jeffrey_s_agenda_tool.Action.{Env}
use jeffrey_s_agenda_tool.Action.Keeps.{
  Keeps, Keeps-pure, Keeps-fail, Keeps-crash, Keeps-ask, Keeps-attempt, Keeps-bind, keeps_rules,
}
use jeffrey_s_agenda_tool.Worker.Gmail.Actions.{
  or_invalid, param, reply_text, create_reply_raw, or_create, or_not_found, get_or_create_label,
  get_label_by_name, modify, execute_auto_reply, execute_add_label, execute_remove_label,
  execute_forward, execute,
}
use jeffrey_s_agenda_tool.Worker.Gmail.{fetch_messages, fetch_recent_messages}

pub or_invalid-Keeps : {P : Db → Type 0} (value : Option Text) → Keeps P (or_invalid value)
unfolding or_invalid
or_invalid-Keeps none = Keeps-fail _
or_invalid-Keeps (some s) = Keeps-pure s

pub param-Keeps : {P : Db → Type 0} (name : Text) (j : Json) → Keeps P (param name j)
unfolding param
param-Keeps name j = or_invalid-Keeps _

pub reply_text-Keeps :
    {P : Db → Type 0} (hs : List Header) (body from : Text) (to : Option Text)
    → Keeps P (reply_text hs body from to)
unfolding reply_text
reply_text-Keeps hs body from none = Keeps-crash
reply_text-Keeps hs body from (some to) = Keeps-pure _

pub create_reply_raw-Keeps :
    {P : Db → Type 0} (env : Env) (p : Option Part) (body from : Text)
    → Keeps P (create_reply_raw env p body from)
unfolding create_reply_raw
create_reply_raw-Keeps env none body from = Keeps-crash
create_reply_raw-Keeps env (some p) body from = search (keeps_rules, reply_text-Keeps)

module _ (env : Env) (token : Token) where
  pub or_create-Keeps :
      {P : Db → Type 0} (name : Text) (l : Option Label) → Keeps P (or_create env token name l)
  unfolding or_create
  or_create-Keeps name (some l) = Keeps-pure l
  or_create-Keeps name none = search keeps_rules

  pub or_not_found-Keeps : {P : Db → Type 0} (l : Option Label) → Keeps P (or_not_found env token l)
  unfolding or_not_found
  or_not_found-Keeps (some l) = Keeps-pure l
  or_not_found-Keeps none = Keeps-fail _

  pub modify-Keeps :
      {P : Db → Type 0} (id : Text) (add remove : List Text)
      → Keeps P (modify env token id add remove)
  unfolding modify
  modify-Keeps id add remove = search keeps_rules

  pub execute-Keeps :
      {P : Db → Type 0} (t : GmailRuleActionType) (acc : ConnectedAccount) (m : Message)
      (rule : GmailAutomationRule)
      → Keeps P (execute env token t acc m rule)
  unfolding execute execute_auto_reply execute_add_label execute_remove_label execute_forward
      get_or_create_label get_label_by_name
  execute-Keeps GmailRuleActionType.auto_reply acc m rule =
      search (keeps_rules, param-Keeps, create_reply_raw-Keeps)
  execute-Keeps GmailRuleActionType.forward acc m rule = Keeps-pure tt
  execute-Keeps GmailRuleActionType.add_label acc m rule =
      search (keeps_rules, param-Keeps, or_create-Keeps, modify-Keeps)
  execute-Keeps GmailRuleActionType.remove_label acc m rule =
      search (keeps_rules, param-Keeps, or_not_found-Keeps, modify-Keeps)
  execute-Keeps GmailRuleActionType.mark_read acc m rule = modify-Keeps _ _ _
  execute-Keeps GmailRuleActionType.mark_unread acc m rule = modify-Keeps _ _ _
  execute-Keeps GmailRuleActionType.archive acc m rule = modify-Keeps _ _ _
  execute-Keeps GmailRuleActionType.trash acc m rule = modify-Keeps _ _ _
  execute-Keeps GmailRuleActionType.star acc m rule = modify-Keeps _ _ _
  execute-Keeps GmailRuleActionType.unstar acc m rule = modify-Keeps _ _ _
  execute-Keeps (GmailRuleActionType.other t) acc m rule = Keeps-fail _

  module _ (acc : ConnectedAccount) where
    pub fetch_messages-Keeps :
        {P : Db → Type 0} (ids : List Text) → Keeps P (fetch_messages env token acc ids)
    unfolding fetch_messages
    fetch_messages-Keeps [] = Keeps-pure []
    fetch_messages-Keeps (id ∷ ids) =
        Keeps-attempt _ _ _ (Keeps-ask _) (λ _. fetch_messages-Keeps ids)
          (λ m. Keeps-bind _ _ (fetch_messages-Keeps ids) (λ ms. Keeps-pure (m ∷ ms)))

    pub fetch_recent_messages-Keeps :
        {P : Db → Type 0} → Keeps P (fetch_recent_messages env token acc)
    unfolding fetch_recent_messages
    fetch_recent_messages-Keeps = search (keeps_rules, fetch_messages-Keeps)
