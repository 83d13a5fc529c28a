-- ===== src/Database/Integrity.antt =====
-- The constraints of the schema as an invariant: keys are unique and references lead to a row.
pub mod Accounts
pub mod Inserts
pub mod Updates
pub mod Deletes
use jeffrey_s_agenda_tool.Prelude.{◌≡◌, true, ◌==◌, ◌<◌, Option, none, some, any, All, Distinct}
use jeffrey_s_agenda_tool.Domain.{
  Uuid, User, ConnectedAccount, AutomationRule, AutomationLog, GmailAutomationRule, GmailMessage,
  GmailThread,
}
use jeffrey_s_agenda_tool.Database.{
  Db, user_has, account_has, rule_has, same_email, same_identity, same_message, same_thread,
  empty_db,
}

abbrev pub HasUser : Db → Uuid → Type 0
HasUser db k = any (user_has k) db.users ≡ true

abbrev pub HasAccount : Db → Uuid → Type 0
HasAccount db k = any (account_has k) db.connected_accounts ≡ true

-- A nullable reference to automation_rules.
abbrev pub HasRule : Db → Option Uuid → Type 0
HasRule db none = Unit {0}
HasRule db (some k) = any (rule_has k) db.automation_rules ≡ true

pub record IsConsistent (db : Db) : Type 0 where
  pub user_keys : Distinct (λ (u v : User). u.id == v.id) db.users
  pub user_emails : Distinct same_email db.users
  pub account_keys : Distinct (λ (a b : ConnectedAccount). a.id == b.id) db.connected_accounts
  pub account_identities : Distinct same_identity db.connected_accounts
  pub account_users : All (λ (a : ConnectedAccount). HasUser db a.user_id) db.connected_accounts
  pub rule_keys : Distinct (λ (r s : AutomationRule). r.id == s.id) db.automation_rules
  pub rule_accounts :
      All (λ (r : AutomationRule). HasAccount db r.connected_account_id) db.automation_rules
  pub log_keys : Distinct (λ (l m : AutomationLog). l.id == m.id) db.automation_logs
  pub log_sequence : All (λ (l : AutomationLog). l.id < db.next_log_id) db.automation_logs
  pub log_accounts :
      All (λ (l : AutomationLog). HasAccount db l.connected_account_id) db.automation_logs
  pub log_rules : All (λ (l : AutomationLog). HasRule db l.rule_id) db.automation_logs
  pub gmail_rule_keys :
      Distinct (λ (r s : GmailAutomationRule). r.id == s.id) db.gmail_automation_rules
  pub gmail_rule_accounts :
      All
        (λ (r : GmailAutomationRule). HasAccount db r.connected_account_id)
        db.gmail_automation_rules
  pub message_ids : Distinct (λ (m n : GmailMessage). m.id == n.id) db.gmail_messages
  pub message_keys : Distinct same_message db.gmail_messages
  pub message_accounts :
      All (λ (m : GmailMessage). HasAccount db m.connected_account_id) db.gmail_messages
  pub thread_ids : Distinct (λ (t u : GmailThread). t.id == u.id) db.gmail_threads
  pub thread_keys : Distinct same_thread db.gmail_threads
  pub thread_accounts :
      All (λ (t : GmailThread). HasAccount db t.connected_account_id) db.gmail_threads

pub IsConsistent-empty_db : IsConsistent empty_db
IsConsistent-empty_db = record {
  user_keys = tt;
  user_emails = tt;
  account_keys = tt;
  account_identities = tt;
  account_users = tt;
  rule_keys = tt;
  rule_accounts = tt;
  log_keys = tt;
  log_sequence = tt;
  log_accounts = tt;
  log_rules = tt;
  gmail_rule_keys = tt;
  gmail_rule_accounts = tt;
  message_ids = tt;
  message_keys = tt;
  message_accounts = tt;
  thread_ids = tt;
  thread_keys = tt;
  thread_accounts = tt;
}
