-- ===== src/Api/Answers/Steps.antt =====
-- internal/api: the results of the steps of the handlers.
use jeffrey_s_agenda_tool.Prelude.{ℕ, Text, Option, none, some, List, [], ◌∷◌, ◌≡◌, ◌≢◌, refl}
use jeffrey_s_agenda_tool.Domain.{Uuid}
use jeffrey_s_agenda_tool.Database.{Err}
use jeffrey_s_agenda_tool.Google.{Token, Message, Part, Reply, answer, failed}
use jeffrey_s_agenda_tool.Action.{Env, World, Action, receive, continue, attempt, ask, step}
use jeffrey_s_agenda_tool.Action.Returns.{Returns, returns_rules}
use jeffrey_s_agenda_tool.Action.Answers.{
  IsAnswer, Answers, Answers-pure, Answers-bind, answers_rules,
}
use jeffrey_s_agenda_tool.Api.{
  HttpRequest, CalendarChoice, Payload, Response, write_json, write_json_error, require, report,
  with_user,
}
use jeffrey_s_agenda_tool.Api.Client.{get_calendar_client, get_gmail_client}
use jeffrey_s_agenda_tool.Api.Rule.{with_account, with_rule}
use jeffrey_s_agenda_tool.Api.Calendar.{or_from_now, chosen_events, aggregate}
use jeffrey_s_agenda_tool.Api.Gmail.Messages.{transform, transform_entry, transform_messages}
use jeffrey_s_agenda_tool.Store.Returns.{
  get_connected_account_by_id-Returns, get_valid_token_for_account-Returns,
  get_rules_for_account-Returns,
}
use jeffrey_s_agenda_tool.Store.Returns.Calls.{
  get_user_by_id-Returns, create_user-Returns, upsert_connected_account-Returns,
  get_accounts_for_user-Returns, delete_connected_account-Returns, create_automation_rule-Returns,
  get_rule_by_id-Returns, update_rule-Returns, toggle_rule_status-Returns, delete_rule-Returns,
  get_logs_for_account-Returns, create_gmail_automation_rule-Returns,
  get_gmail_rules_for_account-Returns,
}

-- The service answers a request for a message with a payload.
abbrev pub GivesPayloads : Env → Type 0
GivesPayloads env =
    (n : ℕ) (t : Token) (f : _) (id : Text) (m : Message)
    → env.google.get_message n t f id ≡ answer m
    → m.payload ≢ none

pub Answers-write_json : (n : ℕ) (p : Payload) → Answers (write_json n p)
unfolding write_json
Answers-write_json n p = Answers-pure _

pub Answers-write_json_error : (n : ℕ) (t : Text) → Answers (write_json_error n t)
unfolding write_json_error
Answers-write_json_error n t = Answers-write_json n _

pub Answers-report : (env : Env) (n : ℕ) (t : Text) (e : Err) → Answers (report env n t e)
unfolding report
Answers-report env n t e = Answers-write_json_error n _

pub Answers-require :
    {A B : Type 0} (o : Option A) (m : Action B) (k : A → Action B)
    → Answers m
    → ((a : A) → Answers (k a))
    → Answers (require o m k)
unfolding require
Answers-require none m k rm rk = rm
Answers-require (some a) m k rm rk = rk a

received :
    {A B : Type 0} (r : Reply A) (h : Err → Action B) (k : A → Action B) (w : World)
    → ((e : Err) → Answers (h e))
    → ((a : A) → r ≡ answer a → Answers (k a))
    → IsAnswer (continue (receive r w).0 h k (receive r w).1).0
unfolding receive continue
received (answer a) h k w rh rk = (rk a refl).at (step w)
received (failed t) h k w rh rk = (rh _).at (step w)

-- What follows an answer may use that it was given.
pub attempt-ask-Answers :
    {A B : Type 0} (reply : ℕ → Reply A) (h : Err → Action B) (k : A → Action B)
    → ((e : Err) → Answers (h e))
    → ((n : ℕ) (a : A) → reply n ≡ answer a → Answers (k a))
    → Answers (attempt (ask reply) h k)
unfolding attempt ask
attempt-ask-Answers reply h k rh rk = record {
  at = λ w. received (reply w.tick) h k w rh (rk w.tick);
}

pub or_from_now-Answers : (env : Env) (shift : _) (t : Text) → Answers (or_from_now env shift t)
unfolding or_from_now
or_from_now-Answers env shift t = search answers_rules

module _ (env : Env) (gives : GivesPayloads env) where
  pub transform-Answers :
      (entry m : Message) (p : Option Part) → p ≢ none → Answers (transform env entry m p)
  unfolding transform
  transform-Answers entry m none given = absurd (given refl)
  transform-Answers entry m (some p) given = search answers_rules

  pub transform_entry-Answers :
      (token : Token) (entry : Message) → Answers (transform_entry env token entry)
  unfolding transform_entry
  transform_entry-Answers token entry =
      attempt-ask-Answers _ _ _
        (λ e.
          attempt-ask-Answers _ _ _ (λ e'. Answers-pure [])
            (λ n m given. transform-Answers entry m m.payload (gives n token _ entry.id m given)))
        (λ n m given. transform-Answers entry m m.payload (gives n token _ entry.id m given))

  pub transform_messages-Answers :
      (token : Token) (entries : List Message) → Answers (transform_messages env token entries)
  unfolding transform_messages
  transform_messages-Answers token [] = Answers-pure []
  transform_messages-Answers token (entry ∷ entries) =
      Answers-bind _ _ (transform_entry-Answers token entry) (λ views.
        Answers-bind _ _ (transform_messages-Answers token entries) (λ later. Answers-pure _))

pub ruleset response_rules =
    (answers_rules, Answers-write_json, Answers-write_json_error, Answers-report, Answers-require)

module _ (env : Env) where
  pub get_calendar_client-Returns : (k : Uuid) → Returns (get_calendar_client env k)
  unfolding get_calendar_client
  get_calendar_client-Returns k = search (returns_rules, get_valid_token_for_account-Returns)

  pub get_gmail_client-Returns : (k : Uuid) → Returns (get_gmail_client env k)
  unfolding get_gmail_client
  get_gmail_client-Returns k = search (returns_rules, get_valid_token_for_account-Returns)

pub ruleset store_calls = (
  response_rules, get_user_by_id-Returns, get_connected_account_by_id-Returns,
  get_accounts_for_user-Returns, delete_connected_account-Returns, create_automation_rule-Returns,
  get_rule_by_id-Returns, get_rules_for_account-Returns, update_rule-Returns,
  toggle_rule_status-Returns, delete_rule-Returns, get_logs_for_account-Returns,
  create_gmail_automation_rule-Returns, get_gmail_rules_for_account-Returns,
)

module _ (env : Env) (parse_uuid : Text → Option Uuid) where
  module _ (u : Option Uuid) (req : HttpRequest) (k : Uuid → Action Response) where
    pub with_account-Answers :
        ((id : Uuid) → Answers (k id)) → Answers (with_account env parse_uuid u req k)
    unfolding with_account with_user
    with_account-Answers kk = search store_calls depth 10

    pub with_rule-Answers :
        ((id : Uuid) → Answers (k id)) → Answers (with_rule env parse_uuid u req k)
    unfolding with_rule with_user
    with_rule-Answers kk = search store_calls depth 12

  pub chosen_events-Answers :
      (user : Uuid) (time_min time_max : Text) (choice : CalendarChoice)
      → Answers (chosen_events env parse_uuid user time_min time_max choice)
  unfolding chosen_events
  chosen_events-Answers user time_min time_max choice =
      search (store_calls, get_calendar_client-Returns) depth 8

  pub aggregate-Answers :
      (user : Uuid) (time_min time_max : Text) (choices : List CalendarChoice)
      → Answers (aggregate env parse_uuid user time_min time_max choices)
  unfolding aggregate
  aggregate-Answers user time_min time_max [] = Answers-pure []
  aggregate-Answers user time_min time_max (choice ∷ choices) =
      Answers-bind _ _ (chosen_events-Answers user time_min time_max choice) (λ events.
        Answers-bind _ _ (aggregate-Answers user time_min time_max choices)
          (λ later. Answers-pure _))

pub ruleset handler_rules = (
  store_calls, with_account-Answers, with_rule-Answers, get_calendar_client-Returns,
  get_gmail_client-Returns, aggregate-Answers, or_from_now-Answers,
)
