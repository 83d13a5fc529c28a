-- ===== src/Database/Cascade.antt =====
-- Deletions and what the schema's ON DELETE clauses take with them.
use jeffrey_s_agenda_tool.Prelude.{
  Bool, ◌&&◌, not, ◌==◌, Option, none, some, any, keep, map, if◌then◌else◌,
}
use jeffrey_s_agenda_tool.Domain.{Uuid, ConnectedAccount, AutomationRule, AutomationLog}
use jeffrey_s_agenda_tool.Database.{Db}

-- ON DELETE SET NULL, at a log whose rule is among those deleted.
abbrev pub detached : (Uuid → Bool) → Option Uuid → Option Uuid
detached gone none = none
detached gone (some k) = if gone k then none else some k

abbrev pub detach : (Uuid → Bool) → AutomationLog → AutomationLog
detach gone l = record l { rule_id = detached gone l.rule_id }

-- Is k the id of a rule that the condition selects?
abbrev pub gone_rule : (AutomationRule → Bool) → Db → Uuid → Bool
gone_rule p db k = any (λ r. p r && r.id == k) db.automation_rules

abbrev pub gone_account : (ConnectedAccount → Bool) → Db → Uuid → Bool
gone_account p db k = any (λ a. p a && a.id == k) db.connected_accounts

-- DELETE FROM automation_rules
unfoldable pub delete_rules : (AutomationRule → Bool) → Db → Db
delete_rules p db = record db {
  automation_rules = keep (λ r. not (p r)) db.automation_rules;
  automation_logs = map (detach (gone_rule p db)) db.automation_logs;
}

-- The rows of the Gmail tables and the logs that belong to an account of the set.
unfoldable pub delete_owned : (Uuid → Bool) → Db → Db
delete_owned gone db = record db {
  automation_logs = keep (λ l. not (gone l.connected_account_id)) db.automation_logs;
  gmail_automation_rules = keep (λ r. not (gone r.connected_account_id)) db.gmail_automation_rules;
  gmail_messages = keep (λ m. not (gone m.connected_account_id)) db.gmail_messages;
  gmail_threads = keep (λ t. not (gone t.connected_account_id)) db.gmail_threads;
}

-- DELETE FROM connected_accounts, ON DELETE CASCADE in every table that refers to it.
unfoldable pub delete_accounts : (ConnectedAccount → Bool) → Db → Db
unfolding delete_rules delete_owned
delete_accounts p db =
    let gone = gone_account p db in
    let rest = delete_owned gone (delete_rules (λ r. gone r.connected_account_id) db) in
    record rest { connected_accounts = keep (λ a. not (p a)) db.connected_accounts }

-- DELETE FROM users WHERE id = k
unfoldable pub delete_user_row : Uuid → Db → Db
unfolding delete_accounts
delete_user_row k db =
    let rest = delete_accounts (λ a. a.user_id == k) db in
    record rest { users = keep (λ u. not (u.id == k)) db.users }
