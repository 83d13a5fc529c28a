-- ===== src/Api/Calendar/Owned.antt =====
-- internal/api/calendar/calendar.go: whose events HandleGetAggregatedEvents shows.
use jeffrey_s_agenda_tool.Prelude.{
  ℕ, Text, text, false, not, ◌==◌, Option, none, some, List, [], ◌∷◌, ◌++◌, ◌≡◌, refl, sym, ◌∙◌,
  arith, ◌⊎◌, inl, inr, find,
}
use jeffrey_s_agenda_tool.Domain.{Uuid, ConnectedAccount}
use jeffrey_s_agenda_tool.Database.{ok, Db, account_has}
use jeffrey_s_agenda_tool.Google.{Token, CalendarEvent, ListQuery, Reply, answer, failed}
use jeffrey_s_agenda_tool.Action.{
  Env, World, pure, step, receive, continue, attempt, ask, clock, ◌>>=◌,
}
use jeffrey_s_agenda_tool.Action.Keeps.{Keeps, Keeps-ask, keeps_rules}
use jeffrey_s_agenda_tool.Action.Returns.{Returns-ask}
use jeffrey_s_agenda_tool.Action.Yields.{
  Yields, Yields-pure, Yields-if, Yields-attempt, Yields-bind, Yields-require,
}
use jeffrey_s_agenda_tool.Store.Returns.{get_connected_account_by_id-Returns}
use jeffrey_s_agenda_tool.Store.Account.{get_connected_account_by_id}
use jeffrey_s_agenda_tool.Store.Account.Token.{get_valid_token_for_account}
use jeffrey_s_agenda_tool.Store.Account.Owners.{
  owner, SameOwners, get_connected_account_by_id-owner, get_connected_account_by_id-owners,
  get_valid_token_for_account-owners,
}
use jeffrey_s_agenda_tool.Api.{HttpRequest, CalendarChoice, Payload, write_json, require, with_user}
use jeffrey_s_agenda_tool.Api.Auth.{AuthEnv}
use jeffrey_s_agenda_tool.Api.Server.{get_aggregated_events, handle}
use jeffrey_s_agenda_tool.Api.Permits.{OwnsAccount}
use jeffrey_s_agenda_tool.Api.Client.{get_oauth_client, get_calendar_client}
use jeffrey_s_agenda_tool.Api.Calendar.{
  or_primary, chosen_events, aggregate, handle_get_aggregated_events,
}
use jeffrey_s_agenda_tool.Api.Answers.Steps.{get_calendar_client-Returns}
use jeffrey_s_agenda_tool.Api.Requests.Clients.{get_calendar_client-token}

abbrev pub period : Text → Text → ListQuery
period from until = record {
  time_min = from;
  time_max = until;
  max_results = none;
  order_by = text "startTime";
}

module _ (env : Env) (parse_uuid : Text → Option Uuid) (user : Uuid) (db : Db)
    (from until : Text) where
  -- The events are Google's reply for the calendar of the choice, to the token that its account gets
  -- after the account was read in u. In db the account is the user's.
  abbrev pub IsReply : World → CalendarChoice → List CalendarEvent → Type 0
  IsReply u choice events =
      (k : Uuid) × (parse_uuid choice.account_id ≡ some k)
      × OwnsAccount db k user
      × (token : Token) × ((get_valid_token_for_account env k
            (get_connected_account_by_id env k u).1).0
          ≡ ok token)
      × (n : ℕ) × (env.google.list_events n token (or_primary choice.calendar_id)
            (period from until)
          ≡ answer events)

  -- From u on, the events are those of the choices, one choice after the other: nothing, or a reply.
  pub data Collects : World → List CalendarChoice → List CalendarEvent → Type 0 where
    no_choice : {u : World} → Collects u [] []
    chosen :
        {u : World} {choices : List CalendarChoice} {later : List CalendarEvent}
        (choice : CalendarChoice) (events : List CalendarEvent)
        → (events ≡ []) ⊎ IsReply u choice events
        → Collects (chosen_events env parse_uuid user from until choice u).1 choices later
        → Collects u (choice ∷ choices) (events ++ later)

owned :
    (o : Option ConnectedAccount) (user id : Uuid)
    → owner o ≡ some id
    → not (id == user) ≡ false
    → (a : ConnectedAccount) × (o ≡ some a) × (a.user_id ≡ user)
owned none user id e same = absurd (ground arith)
owned (some a) user id e same = (a, refl, ground arith)

received : {A : Type 0} (r : Reply A) (w : World) (a : A) → (receive r w).0 ≡ ok a → r ≡ answer a
unfolding receive
received (answer b) w a e = ground arith
received (failed t) w a e = absurd (ground arith)

asked :
    {A : Type 0} (reply : ℕ → Reply A) (w : World) (a : A)
    → (ask reply w).0 ≡ ok a
    → reply w.tick ≡ answer a
unfolding ask
asked reply w a e = received (reply w.tick) w a e

module _ (env : Env) (parse_uuid : Text → Option Uuid) (user : Uuid) (db : Db)
    (from until : Text) where
  get_calendar_client-owners : (k : Uuid) → Keeps (SameOwners db) (get_calendar_client env k)
  unfolding get_calendar_client get_oauth_client
  get_calendar_client-owners k = search (keeps_rules, get_valid_token_for_account-owners)

  chosen_events-Yields :
      (choice : CalendarChoice) (u : World)
      → Yields
          (SameOwners db)
          (λ es. (es ≡ []) ⊎ IsReply env parse_uuid user db from until u choice es)
          (chosen_events env parse_uuid user from until choice)
          u
  unfolding chosen_events
  chosen_events-Yields choice u =
      let Q : List CalendarEvent → Type 0 =
        λ es. (es ≡ []) ⊎ IsReply env parse_uuid user db from until u choice es in
      Yields-require Q _ _ _ u (Yields-pure Q [] _ (inl refl)) λ k parsed.
        Yields-attempt Q _ _ _ u (get_connected_account_by_id-Returns env k)
          (get_connected_account_by_id-owners db env k) (λ e. Yields-pure Q [] _ (inl refl))
          λ account same found.
            Yields-if Q _ _ _ _ (λ other. Yields-pure Q [] _ (inl refl))
              λ own.
                Yields-attempt Q _ _ _ _ (get_calendar_client-Returns env k)
                  (get_calendar_client-owners k) (λ e. Yields-pure Q [] _ (inl refl))
                  λ token _ given.
                    Yields-attempt Q _ _ _ _ (Returns-ask _) (Keeps-ask _)
                      (λ e. Yields-pure Q [] _ (inl refl))
                      λ es _ answered. Yields-pure Q es _ (
                        inr (
                          k,
                          parsed,
                          owned (find (account_has k) db.connected_accounts) user account.user_id
                              (sym (same k)
                                ∙ get_connected_account_by_id-owner env k u account found)
                              own,
                          token,
                          get_calendar_client-token env k _ token given,
                          _,
                          asked _ _ es answered,
                        ))

  aggregate-Yields :
      (choices : List CalendarChoice) (u : World)
      → Yields
          (SameOwners db)
          (Collects env parse_uuid user db from until u choices)
          (aggregate env parse_uuid user from until choices)
          u
  unfolding aggregate
  aggregate-Yields [] u = Yields-pure _ [] u no_choice
  aggregate-Yields (choice ∷ choices) u =
      Yields-bind _ _ _ _ u (chosen_events-Yields choice u) λ es reply.
        Yields-bind _ _ _ _ _ (aggregate-Yields choices _)
          λ later collected. Yields-pure _ (es ++ later) _ (chosen choice es reply collected)

-- Whatever fails on the way, a body with choices is answered with events. These are, one choice after
-- the other, nothing or Google's reply for the calendar of that choice, to the token that its account
-- gets at that point; a choice gives events only if its account is the user's in the tables as the
-- request finds them, whatever the other choices are.
pub get_aggregated_events-Collects :
    (env : Env) (auth : AuthEnv) (req : HttpRequest) (user : Uuid) (choices : List CalendarChoice)
    (w : World)
    → req.choices ≡ some choices
    → (events : List CalendarEvent) × ((handle env auth get_aggregated_events req (some user) w).0
        ≡ ok (record { status = 200; payload = Payload.events events }))
      × Collects env auth.parse_uuid user w.db
          (env.format_time (env.now w.tick))
          (env.format_time (env.add_months (env.now w.tick) 3))
          (step w)
          choices
          events
unfolding handle handle_get_aggregated_events with_user require write_json clock ◌>>=◌ attempt
    continue pure
get_aggregated_events-Collects env auth req user choices w read =
    let from = env.format_time (env.now w.tick) in
    let until = env.format_time (env.add_months (env.now w.tick) 3) in
    let (events, e, collected, same) =
      (aggregate-Yields env auth.parse_uuid user w.db from until choices (step w)).at (λ k. refl) in
    rw (read, e) (events, refl, collected)
