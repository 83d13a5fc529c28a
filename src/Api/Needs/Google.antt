-- ===== src/Api/Needs/Google.antt =====
-- internal/api/calendar and gmail: what the handlers on Google need before they change the tables.
use jeffrey_s_agenda_tool.Prelude.{Text, Option, some, List, [], ◌∷◌, ◌≡◌, inl, inr, find, Any}
use jeffrey_s_agenda_tool.Domain.{Uuid, ConnectedAccount}
use jeffrey_s_agenda_tool.Database.{Db, account_has}
use jeffrey_s_agenda_tool.Google.{Token, CalendarEvent}
use jeffrey_s_agenda_tool.Action.{Env, Action, ◌>>=◌}
use jeffrey_s_agenda_tool.Action.Keeps.{Keeps-fail, Keeps-clock}
use jeffrey_s_agenda_tool.Store.Account.Token.{get_valid_token_for_account}
use jeffrey_s_agenda_tool.Api.{HttpRequest, CalendarChoice, MailBody, Response, require, with_user}
use jeffrey_s_agenda_tool.Api.Client.{get_oauth_client, get_calendar_client, get_gmail_client}
use jeffrey_s_agenda_tool.Api.Calendar.{
  with_named_account, with_calendar, with_event, chosen_events, aggregate, handle_create_event,
  handle_update_event, handle_delete_event, handle_get_calendar_events, handle_list_calendars,
  handle_get_aggregated_events,
}
use jeffrey_s_agenda_tool.Api.Gmail.{
  with_mailbox, with_gmail, with_mail, handle_get_gmail_messages, handle_send_gmail_message,
  handle_get_gmail_labels, handle_create_gmail_draft, handle_get_gmail_drafts,
}
use jeffrey_s_agenda_tool.Api.Keeps.{or_from_now-Keeps, transform_messages-Keeps}
use jeffrey_s_agenda_tool.Api.Permits.{ExistsNamedAccount, OwnsChoice, OwnsChosenAccount}
use jeffrey_s_agenda_tool.Api.Needs.{
  Needs, Needs-reads, Needs-holds, Needs-write_json_error, Needs-require, Needs-if, Needs-account,
  Needs-attempt, Needs-bind, Needs-pure, Needs-ask, needs_rules, weaken, owner_of,
}

module _ {db : Db} (env : Env) where
  token-Needs :
      {Q : Type 0} (k : Uuid)
      → ((a : ConnectedAccount) → find (account_has k) db.connected_accounts ≡ some a → Q)
      → Needs db Q (get_valid_token_for_account env k)
  unfolding get_valid_token_for_account ◌>>=◌
  token-Needs k q =
      Needs-account env k _ _ (λ e. Needs-reads _ (Keeps-fail e))
        (λ a found. Needs-holds _ (q a found))

  pub get_calendar_client-Needs :
      {Q : Type 0} (k : Uuid)
      → ((a : ConnectedAccount) → find (account_has k) db.connected_accounts ≡ some a → Q)
      → Needs db Q (get_calendar_client env k)
  unfolding get_calendar_client get_oauth_client
  get_calendar_client-Needs k q = Needs-bind _ _ (token-Needs k q) (λ t. search needs_rules)

  pub get_gmail_client-Needs :
      {Q : Type 0} (k : Uuid)
      → ((a : ConnectedAccount) → find (account_has k) db.connected_accounts ≡ some a → Q)
      → Needs db Q (get_gmail_client env k)
  unfolding get_gmail_client get_oauth_client
  get_gmail_client-Needs k q = Needs-bind _ _ (token-Needs k q) (λ t. search needs_rules)

module _ {db : Db} (env : Env) (parse_uuid : Text → Option Uuid) (req : HttpRequest) where
  with_calendar-Needs :
      (k : Uuid) (use_client : Token → Action Response)
      → parse_uuid req.account_id ≡ some k
      → ((t : Token) → Needs db (ExistsNamedAccount parse_uuid db req) (use_client t))
      → Needs db
          (ExistsNamedAccount parse_uuid db req)
          (with_calendar env parse_uuid req k use_client)
  unfolding with_calendar
  with_calendar-Needs k use_client parsed n =
      Needs-attempt _ _ _ (get_calendar_client-Needs env k (λ a found. (k, a, parsed, found)))
        (λ e. Needs-write_json_error _ _) n

  with_gmail-Needs :
      (k : Uuid) (use_client : Token → Action Response)
      → parse_uuid req.account_id ≡ some k
      → ((t : Token) → Needs db (ExistsNamedAccount parse_uuid db req) (use_client t))
      → Needs db (ExistsNamedAccount parse_uuid db req) (with_gmail env parse_uuid req k use_client)
  unfolding with_gmail
  with_gmail-Needs k use_client parsed n =
      Needs-attempt _ _ _ (get_gmail_client-Needs env k (λ a found. (k, a, parsed, found)))
        (λ e. Needs-write_json_error _ _) n

  -- The start of a handler on the account of the URL, with what it needs.
  module _ (k : Uuid → Action Response) where
    with_named_account-Needs :
        ((id : Uuid)
          → parse_uuid req.account_id ≡ some id
          → Needs db (ExistsNamedAccount parse_uuid db req) (k id))
        → Needs db (ExistsNamedAccount parse_uuid db req) (with_named_account env parse_uuid req k)
    unfolding with_named_account
    with_named_account-Needs n = Needs-require _ _ _ (Needs-write_json_error _ _) n

    with_mailbox-Needs :
        ((id : Uuid)
          → parse_uuid req.account_id ≡ some id
          → Needs db (ExistsNamedAccount parse_uuid db req) (k id))
        → Needs db (ExistsNamedAccount parse_uuid db req) (with_mailbox env parse_uuid req k)
    unfolding with_mailbox
    with_mailbox-Needs n = Needs-require _ _ _ (Needs-write_json_error _ _) n

  with_event-Needs :
      {Q : Type 0} (k : CalendarEvent → Action Response)
      → ((event : CalendarEvent) → Needs db Q (k event))
      → Needs db Q (with_event env parse_uuid req k)
  unfolding with_event
  with_event-Needs k n = Needs-require _ _ _ (Needs-write_json_error _ _) (λ event read. n event)

  with_mail-Needs :
      {Q : Type 0} (k : MailBody → Action Response)
      → ((mail : MailBody) → Needs db Q (k mail))
      → Needs db Q (with_mail env parse_uuid req k)
  unfolding with_mail
  with_mail-Needs k n = Needs-require _ _ _ (Needs-write_json_error _ _) (λ mail read. n mail)

ruleset google_rules =
    (needs_rules, with_calendar-Needs, with_gmail-Needs, with_event-Needs, with_mail-Needs)

module _ (env : Env) (parse_uuid : Text → Option Uuid) (req : HttpRequest) (db : Db) where
  pub create_event-Needs :
      Needs db (ExistsNamedAccount parse_uuid db req) (handle_create_event env parse_uuid req)
  unfolding handle_create_event
  create_event-Needs =
      with_named_account-Needs env parse_uuid req _ (λ k parsed. search google_rules)

  pub update_event-Needs :
      Needs db (ExistsNamedAccount parse_uuid db req) (handle_update_event env parse_uuid req)
  unfolding handle_update_event
  update_event-Needs =
      with_named_account-Needs env parse_uuid req _ (λ k parsed. search google_rules)

  pub delete_event-Needs :
      Needs db (ExistsNamedAccount parse_uuid db req) (handle_delete_event env parse_uuid req)
  unfolding handle_delete_event
  delete_event-Needs =
      with_named_account-Needs env parse_uuid req _ (λ k parsed. search google_rules)

  pub list_calendars-Needs :
      Needs db (ExistsNamedAccount parse_uuid db req) (handle_list_calendars env parse_uuid req)
  unfolding handle_list_calendars
  list_calendars-Needs =
      with_named_account-Needs env parse_uuid req _ (λ k parsed. search google_rules)

  pub get_calendar_events-Needs :
      Needs db
        (ExistsNamedAccount parse_uuid db req)
        (handle_get_calendar_events env parse_uuid req)
  unfolding handle_get_calendar_events
  get_calendar_events-Needs = with_named_account-Needs env parse_uuid req _ λ k parsed.
      Needs-bind _ _ (Needs-reads _ (or_from_now-Keeps env _ _)) λ time_min.
        Needs-bind _ _ (Needs-reads _ (or_from_now-Keeps env _ _)) λ time_max. search google_rules

  pub get_gmail_messages-Needs :
      Needs db (ExistsNamedAccount parse_uuid db req) (handle_get_gmail_messages env parse_uuid req)
  unfolding handle_get_gmail_messages
  get_gmail_messages-Needs = with_mailbox-Needs env parse_uuid req _ λ k parsed.
      with_gmail-Needs env parse_uuid req k _ parsed λ token.
        Needs-attempt _ _ _ (Needs-ask _) (λ e. search needs_rules)
          λ entries.
            Needs-bind _ _ (Needs-reads _ (transform_messages-Keeps env token entries))
              (λ views. search needs_rules)

  pub send_gmail_message-Needs :
      Needs db (ExistsNamedAccount parse_uuid db req) (handle_send_gmail_message env parse_uuid req)
  unfolding handle_send_gmail_message
  send_gmail_message-Needs =
      with_mailbox-Needs env parse_uuid req _ (λ k parsed. search google_rules)

  pub get_gmail_labels-Needs :
      Needs db (ExistsNamedAccount parse_uuid db req) (handle_get_gmail_labels env parse_uuid req)
  unfolding handle_get_gmail_labels
  get_gmail_labels-Needs = with_mailbox-Needs env parse_uuid req _ (λ k parsed. search google_rules)

  pub create_gmail_draft-Needs :
      Needs db (ExistsNamedAccount parse_uuid db req) (handle_create_gmail_draft env parse_uuid req)
  unfolding handle_create_gmail_draft
  create_gmail_draft-Needs =
      with_mailbox-Needs env parse_uuid req _ (λ k parsed. search google_rules)

  pub get_gmail_drafts-Needs :
      Needs db (ExistsNamedAccount parse_uuid db req) (handle_get_gmail_drafts env parse_uuid req)
  unfolding handle_get_gmail_drafts
  get_gmail_drafts-Needs = with_mailbox-Needs env parse_uuid req _ (λ k parsed. search google_rules)

module _ (env : Env) (parse_uuid : Text → Option Uuid) (user : Uuid) (db : Db) where
  chosen_events-Needs :
      (time_min time_max : Text) (choice : CalendarChoice)
      → Needs db
          (OwnsChoice parse_uuid db user choice)
          (chosen_events env parse_uuid user time_min time_max choice)
  unfolding chosen_events
  chosen_events-Needs time_min time_max choice =
      Needs-require (parse_uuid choice.account_id) _ _ (Needs-pure []) λ k parsed.
        Needs-account env k _ _ (λ e. Needs-pure [])
          λ a found.
            Needs-if _ _ _ (Needs-pure [])
              λ own. Needs-holds _ (k, parsed, (a, found, owner_of a user own))

  aggregate-Needs :
      (time_min time_max : Text) (choices : List CalendarChoice)
      → Needs db
          (Any (OwnsChoice parse_uuid db user) choices)
          (aggregate env parse_uuid user time_min time_max choices)
  unfolding aggregate
  aggregate-Needs time_min time_max [] = Needs-pure []
  aggregate-Needs time_min time_max (choice ∷ choices) =
      Needs-bind _ _ (weaken (chosen_events-Needs time_min time_max choice) (λ q. inl q)) λ events.
        Needs-bind _ _ (weaken (aggregate-Needs time_min time_max choices) (λ q. inr q))
          (λ later. Needs-pure _)

  pub get_aggregated_events-Needs :
      (req : HttpRequest)
      → Needs db
          (OwnsChosenAccount parse_uuid db req user)
          (handle_get_aggregated_events env parse_uuid (some user) req)
  unfolding handle_get_aggregated_events with_user require
  get_aggregated_events-Needs req =
      Needs-require req.choices _ _ (Needs-write_json_error _ _) λ choices read.
        Needs-bind _ _ (Needs-reads _ (Keeps-clock env)) λ now.
          Needs-bind _ _ (weaken (aggregate-Needs _ _ choices) (λ q. (choices, read, q)))
            (λ events. search needs_rules)
