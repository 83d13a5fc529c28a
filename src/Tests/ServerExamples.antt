-- ===== src/Tests/ServerExamples.antt =====
-- The theorems on the routes of the server, and on the server with the worker.
use mathlib.Core.List.{Perm}
use jeffrey_s_agenda_tool.Prelude.{text, pos, some, [], ◌∷◌, refl, Text, ◌++◌, List, ◌≡◌}
use jeffrey_s_agenda_tool.Json.{Json}
use jeffrey_s_agenda_tool.Domain.{AutomationRule}
use jeffrey_s_agenda_tool.Store.Rule.{new_rule, later_rule}
use jeffrey_s_agenda_tool.Database.Order.{IsOrdered}
use jeffrey_s_agenda_tool.Api.Rule.{handle_create_rule, handle_get_rules}
use jeffrey_s_agenda_tool.Api.Rule.Created.{handle_get_rules-create}
use jeffrey_s_agenda_tool.Database.{ok}
use jeffrey_s_agenda_tool.Database.Integrity.{IsConsistent}
use jeffrey_s_agenda_tool.Google.{Request}
use jeffrey_s_agenda_tool.Action.{World}
use jeffrey_s_agenda_tool.Action.Answers.{IsAnswer}
use jeffrey_s_agenda_tool.Api.{Payload}
use jeffrey_s_agenda_tool.Api.Server.{
  create_event, delete_rule, get_gmail_messages, protected, serve, serve_call,
}
use jeffrey_s_agenda_tool.Api.Refusal.{serve-Refuses}
use jeffrey_s_agenda_tool.Api.Requests.Allowed.{Allows}
use jeffrey_s_agenda_tool.Api.Requests.{serve-Allows}
use jeffrey_s_agenda_tool.Action.Adds.{AtMostOne}
use jeffrey_s_agenda_tool.Api.Answers.{serve_call-IsAnswer}
use jeffrey_s_agenda_tool.Worker.{check_accounts}
use jeffrey_s_agenda_tool.System.{
  request, cycle, requested, cycled, here, next, Explains, Reach-IsConsistent, Reach-Explains,
}
use jeffrey_s_agenda_tool.Tests.Data.{
  env, world, account, rule, uuid_of, auth, login, delete_request,
}
use jeffrey_s_agenda_tool.Tests.Facts.{db-IsConsistent}
use jeffrey_s_agenda_tool.Tests.Requests.{
  event_request, rule_request, rule_body, strict_auth, nobody, mail_env, mail_gives,
}

-- A cycle of the worker, and then an event that is created by a request.
abbrev later_world : World
later_world =
    (serve_call env auth login (protected create_event event_request)
      (check_accounts env world).1).1

serve-Refuses_example :
    (t : Text) × (serve env strict_auth delete_rule delete_request world
      ≡ (ok (record { status = 401; payload = Payload.message t }), world))
serve-Refuses_example = serve-Refuses env strict_auth delete_rule delete_request world nobody

serve-Allows_example :
    AtMostOne
      (Allows env auth.parse_uuid world create_event event_request)
      world
      (serve env auth create_event event_request world).1
serve-Allows_example = serve-Allows env auth create_event event_request world

serve_call-IsAnswer_example :
    IsAnswer (serve_call mail_env auth login (protected get_gmail_messages event_request) world).0
serve_call-IsAnswer_example =
    serve_call-IsAnswer mail_env auth login (protected get_gmail_messages event_request) world
      mail_gives

Reach-IsConsistent_example : IsConsistent later_world.db
Reach-IsConsistent_example = Reach-IsConsistent db-IsConsistent (
    next (next here (cycled env)) (requested env auth login (protected create_event event_request)))

Reach-Explains_example :
    (sent : List Request) × (later_world.requests ≡ sent ++ world.requests)
    × Explains
        ((
          request env auth login (protected create_event event_request),
          (check_accounts env world).1,
        )
          ∷ (cycle env, world)
          ∷ [])
        sent
Reach-Explains_example = Reach-Explains (
    next (next here (cycled env)) (requested env auth login (protected create_event event_request)))

handle_get_rules-create_example :
    (created : AutomationRule) × (rules : List AutomationRule) × (created
      ≡ new_rule (pos 1) 100 2 (text "Vertrek") Json.null Json.null)
    × ((handle_create_rule env uuid_of (some 1) rule_request world).0
        ≡ ok (record { status = 201; payload = Payload.rule created }))
    × ((handle_get_rules env uuid_of
          (some 1)
          rule_request
          (handle_create_rule env uuid_of (some 1) rule_request world).1).0
        ≡ ok (record { status = 200; payload = Payload.rules rules }))
    × IsOrdered later_rule rules
    × Perm rules (created ∷ rule ∷ [])
handle_get_rules-create_example =
    handle_get_rules-create env uuid_of rule_request 1 2 world account rule_body Json.null Json.null
      (λ n. refl) refl refl refl refl refl refl refl
