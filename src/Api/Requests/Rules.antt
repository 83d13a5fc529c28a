-- ===== src/Api/Requests/Rules.antt =====
-- internal/api: the requests of the steps that the handlers share.
use jeffrey_s_agenda_tool.Prelude.{ℕ, Text, Option, none, some, List, [], ◌∷◌, ◌≡◌, refl}
use jeffrey_s_agenda_tool.Domain.{Uuid, Time}
use jeffrey_s_agenda_tool.Database.{Err}
use jeffrey_s_agenda_tool.Google.{Token, Message, Part, Request}
use jeffrey_s_agenda_tool.Action.{Env, Action}
use jeffrey_s_agenda_tool.Action.Sends.{
  Sends, Sends-pure, Sends-crash, Sends-bind, Sends-attempt, sends_rules,
}
use jeffrey_s_agenda_tool.Api.{
  HttpRequest, CalendarChoice, Payload, Response, write_json, write_json_error, require, report,
}
use jeffrey_s_agenda_tool.Api.Client.{get_oauth_client, get_calendar_client, get_gmail_client}
use jeffrey_s_agenda_tool.Api.Calendar.{
  or_from_now, with_named_account, with_calendar, chosen_events, aggregate,
}
use jeffrey_s_agenda_tool.Api.Gmail.{with_mailbox, with_gmail}
use jeffrey_s_agenda_tool.Api.Gmail.Messages.{transform, transform_entry, transform_messages}
use jeffrey_s_agenda_tool.Store.Requests.{
  get_connected_account_by_id-Sends, get_valid_token_for_account-Sends,
}

module _ {Allowed : Request → Type 0} where
  pub Sends-write_json : (n : ℕ) (p : Payload) → Sends Allowed (write_json n p)
  unfolding write_json
  Sends-write_json n p = Sends-pure _

  pub Sends-write_json_error : (n : ℕ) (t : Text) → Sends Allowed (write_json_error n t)
  unfolding write_json_error
  Sends-write_json_error n t = Sends-write_json n _

  pub Sends-report : (env : Env) (n : ℕ) (t : Text) (e : Err) → Sends Allowed (report env n t e)
  unfolding report
  Sends-report env n t e = Sends-write_json_error n _

  pub Sends-require :
      {A B : Type 0} (o : Option A) (m : Action B) (k : A → Action B)
      → Sends Allowed m
      → ((a : A) → o ≡ some a → Sends Allowed (k a))
      → Sends Allowed (require o m k)
  unfolding require
  Sends-require none m k sm sk = sm
  Sends-require (some a) m k sm sk = sk a refl

  pub require_any-Sends :
      {A B : Type 0} (o : Option A) (m : Action B) (k : A → Action B)
      → Sends Allowed m
      → ((a : A) → Sends Allowed (k a))
      → Sends Allowed (require o m k)
  require_any-Sends o m k sm sk = Sends-require o m k sm (λ a e. sk a)

  get_oauth_client-Sends : (env : Env) (k : Uuid) → Sends Allowed (get_oauth_client env k)
  unfolding get_oauth_client
  get_oauth_client-Sends env k = get_valid_token_for_account-Sends env k

  pub get_calendar_client-Sends : (env : Env) (k : Uuid) → Sends Allowed (get_calendar_client env k)
  unfolding get_calendar_client
  get_calendar_client-Sends env k = search (sends_rules, get_oauth_client-Sends)

  pub get_gmail_client-Sends : (env : Env) (k : Uuid) → Sends Allowed (get_gmail_client env k)
  unfolding get_gmail_client
  get_gmail_client-Sends env k = search (sends_rules, get_oauth_client-Sends)

  pub or_from_now-Sends :
      (env : Env) (shift : Time → Time) (t : Text) → Sends Allowed (or_from_now env shift t)
  unfolding or_from_now
  or_from_now-Sends env shift t = search sends_rules

  transform-Sends :
      (env : Env) (entry m : Message) (p : Option Part) → Sends Allowed (transform env entry m p)
  unfolding transform
  transform-Sends env entry m none = Sends-crash
  transform-Sends env entry m (some p) = search sends_rules

  transform_entry-Sends :
      (env : Env) (token : Token) (entry : Message)
      → Sends Allowed (transform_entry env token entry)
  unfolding transform_entry
  transform_entry-Sends env token entry = search (sends_rules, transform-Sends)

  pub transform_messages-Sends :
      (env : Env) (token : Token) (entries : List Message)
      → Sends Allowed (transform_messages env token entries)
  unfolding transform_messages
  transform_messages-Sends env token [] = Sends-pure []
  transform_messages-Sends env token (entry ∷ entries) =
      Sends-bind _ _ (transform_entry-Sends env token entry) (λ views.
        Sends-bind _ _ (transform_messages-Sends env token entries) (λ later. Sends-pure _))

  module _ (env : Env) (parse_uuid : Text → Option Uuid) where
    chosen_events-Sends :
        (user : Uuid) (time_min time_max : Text) (choice : CalendarChoice)
        → Sends Allowed (chosen_events env parse_uuid user time_min time_max choice)
    unfolding chosen_events
    chosen_events-Sends user time_min time_max choice =
        search
          (
            sends_rules, require_any-Sends, get_connected_account_by_id-Sends,
            get_calendar_client-Sends,
          )
          depth 8

    pub aggregate-Sends :
        (user : Uuid) (time_min time_max : Text) (choices : List CalendarChoice)
        → Sends Allowed (aggregate env parse_uuid user time_min time_max choices)
    unfolding aggregate
    aggregate-Sends user time_min time_max [] = Sends-pure []
    aggregate-Sends user time_min time_max (choice ∷ choices) =
        Sends-bind _ _ (chosen_events-Sends user time_min time_max choice) (λ events.
          Sends-bind _ _ (aggregate-Sends user time_min time_max choices) (λ later. Sends-pure _))

    module _ (req : HttpRequest) where
      pub with_named_account-Sends :
          (k : Uuid → Action Response)
          → ((id : Uuid) → Sends Allowed (k id))
          → Sends Allowed (with_named_account env parse_uuid req k)
      unfolding with_named_account
      with_named_account-Sends k sk =
          Sends-require _ _ _ (Sends-write_json_error _ _) (λ id parsed. sk id)

      pub with_mailbox-Sends :
          (k : Uuid → Action Response)
          → ((id : Uuid) → Sends Allowed (k id))
          → Sends Allowed (with_mailbox env parse_uuid req k)
      unfolding with_mailbox
      with_mailbox-Sends k sk =
          Sends-require _ _ _ (Sends-write_json_error _ _) (λ id parsed. sk id)

      pub with_calendar-Sends :
          (id : Uuid) (k : Token → Action Response)
          → ((t : Token) → Sends Allowed (k t))
          → Sends Allowed (with_calendar env parse_uuid req id k)
      unfolding with_calendar
      with_calendar-Sends id k sk =
          Sends-attempt _ _ _ (get_calendar_client-Sends env id) (λ e. Sends-write_json_error _ _)
            sk

      pub with_gmail-Sends :
          (id : Uuid) (k : Token → Action Response)
          → ((t : Token) → Sends Allowed (k t))
          → Sends Allowed (with_gmail env parse_uuid req id k)
      unfolding with_gmail
      with_gmail-Sends id k sk =
          Sends-attempt _ _ _ (get_gmail_client-Sends env id) (λ e. Sends-write_json_error _ _) sk
