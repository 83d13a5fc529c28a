-- ===== src/Lib.antt =====
-- Jeffrey's Agenda Tool: a server that watches the Google accounts of its users, creates calendar
-- reminders by rules, and applies rules to their mail.
--
-- The parts of the program, and the files that model them (paths from the repository's root):
--   internal/domain                    Domain: the types that all layers exchange
--   db/migrations/*.up.sql             Database: the tables, what a deletion takes with it
--                                      (Cascade), ORDER BY (Order), and the constraints as an
--                                      invariant (Integrity)
--   internal/crypto                    Crypto: Encrypt and Decrypt of the stored tokens
--   internal/store/user, account,      Store.User, Store.Account (with Token, which hands out valid
--     rule, log, gmail                 tokens), Store.Rule, Store.Log, Store.Gmail: one function per
--                                      method, each with its SQL statements as functions on tables
--   internal/store/store.go            Store.Integrity.Calls: the Storer interface as data
--   internal/worker/worker.go          Worker: checkAccounts, processAccount
--   internal/worker/calendar           Worker.Calendar: ProcessEvents, with the test of the trigger
--                                      (Trigger) and the arithmetic of the times (Reminder)
--   internal/worker/gmail              Worker.Gmail: ProcessMessages, with Payload, Match, Actions
--   internal/api                       Api: the handlers of rules (Rule), of accounts, logs and the
--                                      user (Account), of calendars (Calendar) and of mail (Gmail,
--                                      with Messages for what is shown of a message and Compose for
--                                      the text of a mail), the clients of Google (Client), the
--                                      authentication (Auth), the routes (Server), the login with
--                                      Google (Login) and the texts of a mail (Mail)
--   cmd/server/main.go                 System: the server and the worker on one database, as steps
--                                      in any order, with the history of the steps taken
-- A handler or the worker calls the store, the store runs SQL statements on the tables, and the store
-- and the worker call Google. Each Go function that does so is an Action (Action.antt): a function of
-- a World, which holds the tables, the number of steps taken and the requests sent to Google, to a
-- result and a new World. `attempt` is a call with `if err != nil`, `>>=` one that passes the error
-- on, `logged` one whose error goes to the process log alone, `for_each` a loop over a slice. A result
-- is a value, an error that callers can tell apart, or a panic. Snake case names the Go functions:
-- get_valid_token_for_account is GetValidTokenForAccount.
-- Each way to build an action has a rule in Action.Keeps (on the tables), Action.Sends (on the requests
-- to Google), Action.Adds (on a single request, by the world at the start), Action.Ticks (on the
-- number of steps), Action.Returns, Action.Answers and Action.Yields (on the kind of result) and
-- Action.Ensures (on the value), from which the proofs about a handler are searched or composed.
--
-- Code outside the repository is a parameter. An Env (Action.antt) gives, as functions of the number
-- of the step: the clock, the uuids that the database draws, the failure of a statement, the random
-- source, AES-GCM, every reply of Google (Google.antt), the parsing and formatting of times, lower
-- case, base64 and the text of an error. An AuthEnv (Api/Auth.antt) gives the JWT and the uuid
-- library, a LoginEnv (Api/Login.antt) the OAuth library. Hypotheses on them are named: OpensSealed
-- (AES-GCM), FillsNonce (the random source), GivesPayloads (a message that Google returns has a
-- payload), GivesTimes (an event that it lists has a start and an end), ListsBare (the entries of a
-- list of messages have no labels).
--
-- How the model represents the program:
--   * A text is the list of its code points; bytes of an ASCII text are its code points. A JSON column
--     is a JSON value. A uuid is a number; a time is in nanoseconds from the Unix epoch. A column
--     of type timestamptz keeps microseconds: to_timestamptz cuts the times that the program sends to
--     the database; the clock of the database, now() in a statement, has no more digits.
--   * A statement that fails changes nothing. The failure that the Env may give to any statement also
--     stands for the constraints of the schema that are not written out (lengths, the form of an
--     e-mail address, the range of a priority). A table is a list of rows in insertion order, which
--     is also the order of a SELECT without ORDER BY.
--   * An error that is wrapped with %w stays the same error. Durations and the product of minutes keep
--     the wrap-around of int64 (Prelude/Integers.antt); history ids are parsed as uint64.
--   * The goroutines of a cycle, which share only the database and Google, run one after the other.
--   * The start and the end of an event are pointers that may be nil: reading through a nil one is a
--     panic, and GivesTimes says that Google gives both. A message may lack its payload.
--   * A client of Google is the token that it sends, since its calls take nothing else from it. A query
--     parameter is the list of its values; a body is what the JSON decoder makes of it.
--   * A handler ends with the status and the value that is written. What a handler writes after the
--     status has gone out, and what goes to the process log alone, is left out.
--   * Every loop is over a finite slice and is a recursion on its list, so no fuel is needed.
--
-- Not modelled: the ticker of the worker and its timeout (a cycle may come at any time); the matching of
-- a path with a route and CORS, which are libraries; the logger; the connection to the database and the
-- running of the migrations; the settings that cmd/server reads; the mock of the store. These are pure
-- I/O or configuration.
--
-- The theorems are applied to a small installation in Tests.
pub mod Prelude
pub mod Json
pub mod Domain
pub mod Database
pub mod Google
pub mod Action
pub mod Crypto
pub mod Store
pub mod Worker
pub mod Api
pub mod System
pub mod Tests
