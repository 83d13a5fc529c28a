-- ===== src/Tests/Requests.antt =====
-- Requests to the server at the small installation, and a mailbox with one message.
use jeffrey_s_agenda_tool.Prelude.{text, is_empty, true, false, none, some, [], ◌∷◌, refl}
use jeffrey_s_agenda_tool.Json.{Json}
use jeffrey_s_agenda_tool.Domain.{Uuid}
use jeffrey_s_agenda_tool.Google.{Message, Google, answer, failed}
use jeffrey_s_agenda_tool.Action.{Env, World}
use jeffrey_s_agenda_tool.Api.{HttpRequest, RuleBody, CalendarChoice, MailBody}
use jeffrey_s_agenda_tool.Api.Auth.{AuthEnv}
use jeffrey_s_agenda_tool.Api.Permits.{Authenticates}
use jeffrey_s_agenda_tool.Api.Answers.Steps.{GivesPayloads}
use jeffrey_s_agenda_tool.Api.Gmail.Compose.Lines.{IsUnbroken-of_all, IsLine}
use jeffrey_s_agenda_tool.Api.Gmail.Compose.Read.{HasPlainAddresses}
use jeffrey_s_agenda_tool.Api.Gmail.Messages.Status.{ListsBare}
use jeffrey_s_agenda_tool.Tests.Data.{
  env_of, google, new_token, mail, event, auth, db, world, account, delete_request,
}

abbrev pub event_request : HttpRequest
event_request = record delete_request { account_id = 2 ∷ []; event = some event }

abbrev pub rule_body : RuleBody
rule_body = record {
  name = text "Vertrek";
  trigger_conditions = some Json.null;
  action_params = some Json.null;
}

abbrev pub rule_request : HttpRequest
rule_request = record delete_request { account_id = 2 ∷ []; body = some rule_body }

abbrev pub choice : CalendarChoice
choice = record { account_id = 2 ∷ []; calendar_id = [] }

abbrev pub foreign_choice : CalendarChoice
foreign_choice = record { account_id = 5 ∷ []; calendar_id = [] }

abbrev pub aggregate_request : HttpRequest
aggregate_request = record delete_request { choices = some (choice ∷ foreign_choice ∷ []) }

-- The account of user 1, and one of user 9.
abbrev pub two_owners : World
two_owners = record world {
  db = record db {
    connected_accounts =
        account ∷ record account { id = 5; user_id = 9; provider_user_id = text "g9" } ∷ [];
  };
}

abbrev pub mail_body : MailBody
mail_body = record {
  to = text "a@b.nl" ∷ [];
  cc = [];
  bcc = [];
  subject = text "Dienst";
  body = text "Tot zo";
  is_html = false;
}

abbrev pub two_lines : MailBody
two_lines = record mail_body { subject = text "Dienst\r\nBcc: c@d.nl" }

-- A JWT library that accepts no token.
abbrev pub strict_auth : AuthEnv
strict_auth = record auth { parse_jwt = λ t key_of. none }

abbrev pub unread_mail : Message
unread_mail = record mail { label_ids = text "UNREAD" ∷ text "STARRED" ∷ [] }

-- The mailbox has one unread message with a star; its entry in a list has no labels.
abbrev pub mailbox : Google
mailbox = record (google true (answer new_token) (failed (text "gone"))) {
  list_messages = λ n t q. answer (mail ∷ []);
  get_message = λ n t f id. answer unread_mail;
}

abbrev pub mail_env : Env
mail_env = env_of mailbox

pub nobody : (user : Uuid) → Authenticates strict_auth delete_request user → ⊥
nobody user (token, claims, id, parsed, valid, claimed, named, is_user) = cc

pub plain : HasPlainAddresses mail_body
plain = record { to = (IsUnbroken-of_all (text "a@b.nl") refl, tt); cc = tt; bcc = tt }

pub two_plain : HasPlainAddresses two_lines
two_plain = record { to = (IsUnbroken-of_all (text "a@b.nl") refl, tt); cc = tt; bcc = tt }

pub mail_gives : GivesPayloads mail_env
mail_gives n t f id m given empty = cc

pub mail_bare : ListsBare mail_env
mail_bare n t q [] e = tt
mail_bare n t q (m ∷ []) e = (cc, tt)
mail_bare n t q (m ∷ m' ∷ ms) e = cc

pub is_line : IsLine (text "Bcc: c@d.nl")
unfolding is_empty
is_line = (refl, IsUnbroken-of_all (text "Bcc: c@d.nl") refl)
