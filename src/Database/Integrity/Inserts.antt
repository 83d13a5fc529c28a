-- ===== src/Database/Integrity/Inserts.antt =====
-- New rows of the tables that refer to accounts, and new users.
use jeffrey_s_agenda_tool.Prelude.{
  ℕ, suc, ◌<◌, ◌≤◌, refl, List, All, false, ◌≡◌, Option, none, some, [], ◌∷◌, ◌++◌, ◌==◌, any,
  any-append, All-mono, All-append, Distinct-append, arith,
}
use jeffrey_s_agenda_tool.Domain.{
  Uuid, User, ConnectedAccount, AutomationRule, AutomationLog, GmailAutomationRule, GmailMessage,
  GmailThread,
}
use jeffrey_s_agenda_tool.Database.{
  Db, user_has, rule_has, gmail_rule_has, message_has, thread_has, same_email, same_message,
  same_thread,
}
use jeffrey_s_agenda_tool.Database.Integrity.{HasUser, HasAccount, HasRule, IsConsistent}

HasUser-append :
    (k : Uuid) (u : User) (db : Db)
    → HasUser db k
    → HasUser (record db { users = db.users ++ u ∷ [] }) k
HasUser-append k u db h = ground (arith, any-append (user_has k) db.users (u ∷ []))

pub insert_user-IsConsistent :
    (u : User) (db : Db)
    → any (user_has u.id) db.users ≡ false
    → any (λ v. same_email v u) db.users ≡ false
    → IsConsistent db
    → IsConsistent (record db { users = db.users ++ u ∷ [] })
insert_user-IsConsistent u db new_key new_email c = assumption (
  c,
  Distinct-append (λ (u v : User). u.id == v.id) u db.users new_key c.user_keys,
  Distinct-append same_email u db.users new_email c.user_emails,
  All-mono (λ (a : ConnectedAccount) h. HasUser-append a.user_id u db h) db.connected_accounts
      c.account_users,
)

module _ (r : AutomationRule) (db : Db) where
  abbrev extended : Db
  extended = record db { automation_rules = db.automation_rules ++ r ∷ [] }

  kept : (k : Option Uuid) → HasRule db k → HasRule extended k
  kept none h = h
  kept (some k) h = ground (arith, any-append (rule_has k) db.automation_rules (r ∷ []))

  pub insert_rule-IsConsistent :
      any (rule_has r.id) db.automation_rules ≡ false
      → HasAccount db r.connected_account_id
      → IsConsistent db
      → IsConsistent extended
  insert_rule-IsConsistent new_key owner c = assumption (
    c,
    Distinct-append (λ (r s : AutomationRule). r.id == s.id) r db.automation_rules new_key
        c.rule_keys,
    All-append (λ (s : AutomationRule). HasAccount db s.connected_account_id) db.automation_rules
        (r ∷ []) c.rule_accounts (owner, tt),
    All-mono (λ (l : AutomationLog) h. kept l.rule_id h) db.automation_logs c.log_rules,
  )

-- A key from the sequence is in no row.
below_sequence :
    (k n : ℕ) (logs : List AutomationLog)
    → n ≤ k
    → All (λ (l : AutomationLog). l.id < n) logs
    → any (λ (l : AutomationLog). l.id == k) logs ≡ false
below_sequence k n [] h all = refl
below_sequence k n (l ∷ ls) h (low, all) = ground (arith, below_sequence k n ls h all)

pub insert_log-IsConsistent :
    (l : AutomationLog) (db : Db)
    → l.id ≡ db.next_log_id
    → HasAccount db l.connected_account_id
    → HasRule db l.rule_id
    → IsConsistent db
    → IsConsistent (record db {
      automation_logs = db.automation_logs ++ l ∷ [];
      next_log_id = suc db.next_log_id;
    })
insert_log-IsConsistent l db drawn owner rule c = assumption (
  c,
  Distinct-append (λ (l m : AutomationLog). l.id == m.id) l db.automation_logs
      (below_sequence l.id db.next_log_id db.automation_logs (omega arith) c.log_sequence)
      c.log_keys,
  All-append (λ (m : AutomationLog). m.id < suc db.next_log_id) db.automation_logs (l ∷ [])
      (All-mono (λ (m : AutomationLog) h. omega arith) db.automation_logs c.log_sequence)
      (omega arith, tt),
  All-append (λ (m : AutomationLog). HasAccount db m.connected_account_id) db.automation_logs
      (l ∷ []) c.log_accounts (owner, tt),
  All-append (λ (m : AutomationLog). HasRule db m.rule_id) db.automation_logs (l ∷ []) c.log_rules
      (rule, tt),
)

pub insert_gmail_rule-IsConsistent :
    (r : GmailAutomationRule) (db : Db)
    → any (gmail_rule_has r.id) db.gmail_automation_rules ≡ false
    → HasAccount db r.connected_account_id
    → IsConsistent db
    → IsConsistent (record db { gmail_automation_rules = db.gmail_automation_rules ++ r ∷ [] })
insert_gmail_rule-IsConsistent r db new_key owner c = assumption (
  c,
  Distinct-append (λ (r s : GmailAutomationRule). r.id == s.id) r db.gmail_automation_rules new_key
      c.gmail_rule_keys,
  All-append (λ (s : GmailAutomationRule). HasAccount db s.connected_account_id)
      db.gmail_automation_rules (r ∷ []) c.gmail_rule_accounts (owner, tt),
)

pub insert_message-IsConsistent :
    (m : GmailMessage) (db : Db)
    → any (λ n. same_message n m) db.gmail_messages ≡ false
    → any (message_has m.id) db.gmail_messages ≡ false
    → HasAccount db m.connected_account_id
    → IsConsistent db
    → IsConsistent (record db { gmail_messages = db.gmail_messages ++ m ∷ [] })
insert_message-IsConsistent m db new_key new_id owner c = assumption (
  c,
  Distinct-append (λ (m n : GmailMessage). m.id == n.id) m db.gmail_messages new_id c.message_ids,
  Distinct-append same_message m db.gmail_messages new_key c.message_keys,
  All-append (λ (n : GmailMessage). HasAccount db n.connected_account_id) db.gmail_messages (m ∷ [])
      c.message_accounts (owner, tt),
)

pub insert_thread-IsConsistent :
    (t : GmailThread) (db : Db)
    → any (λ u. same_thread u t) db.gmail_threads ≡ false
    → any (thread_has t.id) db.gmail_threads ≡ false
    → HasAccount db t.connected_account_id
    → IsConsistent db
    → IsConsistent (record db { gmail_threads = db.gmail_threads ++ t ∷ [] })
insert_thread-IsConsistent t db new_key new_id owner c = assumption (
  c,
  Distinct-append (λ (t u : GmailThread). t.id == u.id) t db.gmail_threads new_id c.thread_ids,
  Distinct-append same_thread t db.gmail_threads new_key c.thread_keys,
  All-append (λ (u : GmailThread). HasAccount db u.connected_account_id) db.gmail_threads (t ∷ [])
      c.thread_accounts (owner, tt),
)
