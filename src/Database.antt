-- ===== src/Database.antt =====
-- The tables of db/migrations/*.up.sql that the program reads and writes, in insertion order, and
-- the errors that a caller can tell apart. A statement is a function of the clock, of the uuid that
-- gen_random_uuid() draws, and of the tables; one that fails changes nothing.
pub mod Integrity
pub mod Cascade
pub mod Order
use jeffrey_s_agenda_tool.Prelude.{
  ℕ, ◌+◌, ◌*◌, ◌/◌, pos, negsuc, Text, Bool, ◌&&◌, ◌==◌, Option, none, some, List, text_eq,
}
use jeffrey_s_agenda_tool.Domain.{
  Uuid, Time, User, ConnectedAccount, AutomationRule, AutomationLog, GmailAutomationRule,
  GmailMessage, GmailThread, provider_eq,
}

-- A time in a column of type timestamptz: whole microseconds, rounded down as pgx sends it.
unfoldable pub to_timestamptz : Time → Time
to_timestamptz (pos n) = pos (n / 1000 * 1000)
to_timestamptz (negsuc n) = negsuc (n / 1000 * 1000 + 999)

pub data Err : Type 0 where
  -- pgx.ErrNoRows and the constraint violations of PostgreSQL
  no_rows unique_violation foreign_key_violation not_null_violation invalid_enum : Err
  -- errors.New and fmt.Errorf of the store
  user_not_found account_not_found rule_not_found forbidden nothing_updated nothing_deleted : Err
  -- package crypto
  bad_key ciphertext_too_short decryption_failed : Err
  -- store.ErrTokenRevoked
  token_revoked : Err
  -- encoding/json and the worker
  invalid_json label_not_found unknown_action : Err
  -- an error of the driver, of the random source or of a Google service, with its text
  external : Text → Err

pub data Result {ℓ} (A : Type ℓ) : Type ℓ where
  ok : A → Result A
  err : Err → Result A
  -- a nil dereference, which no caller recovers from
  panic : Result A

pub record Db : Type 0 where
  pub users : List User
  pub connected_accounts : List ConnectedAccount
  pub automation_rules : List AutomationRule
  pub automation_logs : List AutomationLog
  -- the sequence of the bigserial key of automation_logs
  pub next_log_id : ℕ
  pub gmail_automation_rules : List GmailAutomationRule
  pub gmail_messages : List GmailMessage
  pub gmail_threads : List GmailThread

abbrev pub empty_db : Db
empty_db = record {
  users = List.[];
  connected_accounts = List.[];
  automation_rules = List.[];
  automation_logs = List.[];
  next_log_id = 1;
  gmail_automation_rules = List.[];
  gmail_messages = List.[];
  gmail_threads = List.[];
}

-- A statement that returns A.
abbrev pub Statement : Type 0 → Type 0
Statement A = Time → Uuid → Db → Result (A × Db)

-- The keys of the tables: PRIMARY KEY (id) and the UNIQUE constraints.
module _ (k : Uuid) where
  abbrev pub user_has : User → Bool
  user_has u = u.id == k

  abbrev pub account_has : ConnectedAccount → Bool
  account_has a = a.id == k

  abbrev pub rule_has : AutomationRule → Bool
  rule_has r = r.id == k

  abbrev pub gmail_rule_has : GmailAutomationRule → Bool
  gmail_rule_has r = r.id == k

  abbrev pub message_has : GmailMessage → Bool
  message_has m = m.id == k

  abbrev pub thread_has : GmailThread → Bool
  thread_has t = t.id == k

-- UNIQUE (email)
abbrev pub same_email : User → User → Bool
same_email u v = text_eq u.email v.email

-- UNIQUE (user_id, provider, provider_user_id)
abbrev pub same_identity : ConnectedAccount → ConnectedAccount → Bool
same_identity a b =
    a.user_id == b.user_id
    && provider_eq a.provider b.provider
    && text_eq a.provider_user_id b.provider_user_id

-- UNIQUE (connected_account_id, gmail_message_id)
abbrev pub same_message : GmailMessage → GmailMessage → Bool
same_message m n =
    m.connected_account_id == n.connected_account_id
    && text_eq m.gmail_message_id n.gmail_message_id

-- UNIQUE (connected_account_id, gmail_thread_id)
abbrev pub same_thread : GmailThread → GmailThread → Bool
same_thread m n =
    m.connected_account_id == n.connected_account_id && text_eq m.gmail_thread_id n.gmail_thread_id
