-- ===== src/Tests/GoogleExamples.antt =====
-- The theorems on the handlers for calendars and for mail.
use jeffrey_s_agenda_tool.Prelude.{join, text, some, List, [], ◌∷◌, ◌≡◌, ◌≤◌, refl}
use jeffrey_s_agenda_tool.Database.{ok}
use jeffrey_s_agenda_tool.Google.{CalendarEvent, insert_event}
use jeffrey_s_agenda_tool.Action.{step}
use jeffrey_s_agenda_tool.Action.Ensures.{Satisfies}
use jeffrey_s_agenda_tool.Api.{Payload}
use jeffrey_s_agenda_tool.Api.Server.{create_event, get_aggregated_events, handle}
use jeffrey_s_agenda_tool.Api.Calendar.{calendar_id}
use jeffrey_s_agenda_tool.Api.Calendar.Foreign.{create_event-inserts}
use jeffrey_s_agenda_tool.Api.Calendar.Owned.{Collects, get_aggregated_events-Collects}
use jeffrey_s_agenda_tool.Api.Gmail.{handle_get_gmail_messages}
use jeffrey_s_agenda_tool.Api.Gmail.Compose.{content_type, raw_message}
use jeffrey_s_agenda_tool.Api.Gmail.Compose.Lines.{Reads, IsUnbroken-of_all}
use jeffrey_s_agenda_tool.Api.Gmail.Compose.Read.{raw_message-Reads, raw_message-injects}
use jeffrey_s_agenda_tool.Api.Gmail.Messages.{max_results_of, transform_messages}
use jeffrey_s_agenda_tool.Api.Gmail.Messages.Views.{
  Selects, max_results_of_bounds, transform_messages-Selects,
}
use jeffrey_s_agenda_tool.Api.Gmail.Messages.Status.{AreRead, handle_get_gmail_messages-AreRead}
use jeffrey_s_agenda_tool.Tests.Data.{env, world, auth, account, token, event, mail, uuid_of}
use jeffrey_s_agenda_tool.Tests.Facts.{stored}
use jeffrey_s_agenda_tool.Tests.Requests.{
  event_request, choice, aggregate_request, foreign_choice, two_owners, mail_body, two_lines, plain,
  two_plain, is_line, mail_env, mail_bare,
}

-- User 9 creates an event with the account of user 1.
create_event-inserts_example :
    ((handle env auth create_event event_request (some 9) world).0
      ≡ ok (record { status = 201; payload = Payload.event event }))
    × ((handle env auth create_event event_request (some 9) world).1.requests
        ≡ insert_event token (calendar_id env uuid_of event_request) event ∷ [])
create_event-inserts_example =
    create_event-inserts env auth event_request (some 9) world 2 account token event event refl refl
      refl refl stored refl refl refl

-- User 1 asks for the events of an own account and of one of user 9.
get_aggregated_events-Collects_example :
    (events : List CalendarEvent) × ((handle env auth get_aggregated_events aggregate_request
        (some 1)
        two_owners).0
      ≡ ok (record { status = 200; payload = Payload.events events }))
    × Collects env uuid_of 1 two_owners.db
        (env.format_time (env.now two_owners.tick))
        (env.format_time (env.add_months (env.now two_owners.tick) 3))
        (step two_owners)
        (choice ∷ foreign_choice ∷ [])
        events
get_aggregated_events-Collects_example =
    get_aggregated_events-Collects env auth aggregate_request 1 (choice ∷ foreign_choice ∷ [])
      two_owners refl

raw_message-Reads_example :
    Reads
      (raw_message mail_body)
      (text "To: a@b.nl"
        ∷ text "Subject: Dienst"
        ∷ text "Content-Type: text/plain; charset=UTF-8"
        ∷ [])
      (text "Tot zo")
unfolding join content_type
raw_message-Reads_example =
    raw_message-Reads mail_body plain (IsUnbroken-of_all (text "Dienst") refl)

raw_message-injects_example :
    Reads
      (raw_message two_lines)
      (text "To: a@b.nl"
        ∷ text "Subject: Dienst"
        ∷ text "Bcc: c@d.nl"
        ∷ text "Content-Type: text/plain; charset=UTF-8"
        ∷ [])
      (text "Tot zo")
unfolding join content_type
raw_message-injects_example =
    raw_message-injects two_lines (text "Dienst") (text "Bcc: c@d.nl") two_plain refl
      (IsUnbroken-of_all (text "Dienst") refl) is_line

max_results_of_bounds_example :
    (1 ≤ max_results_of (text "9000")) × (max_results_of (text "9000") ≤ 500)
max_results_of_bounds_example = max_results_of_bounds (text "9000")

transform_messages-Selects_example :
    Satisfies (Selects (mail ∷ [])) (transform_messages mail_env token (mail ∷ []) world).0
transform_messages-Selects_example = transform_messages-Selects mail_env token (mail ∷ []) world

handle_get_gmail_messages-AreRead_example :
    Satisfies
      (λ r. AreRead r.payload)
      (handle_get_gmail_messages mail_env uuid_of event_request world).0
handle_get_gmail_messages-AreRead_example =
    handle_get_gmail_messages-AreRead mail_env uuid_of event_request world mail_bare
