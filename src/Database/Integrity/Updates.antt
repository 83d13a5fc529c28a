-- ===== src/Database/Integrity/Updates.antt =====
-- Updates in place that leave the keys and the references of a row alone.
use jeffrey_s_agenda_tool.Prelude.{
  text_eq, Bool, ◌≡◌, ap, ◌∙◌, Option, none, some, ◌==◌, any-update, All-mono, All-update,
  Distinct-update, update_where,
}
use jeffrey_s_agenda_tool.Domain.{
  Uuid, User, ConnectedAccount, AutomationRule, AutomationLog, GmailAutomationRule, GmailMessage,
  GmailThread,
}
use jeffrey_s_agenda_tool.Database.{Db, user_has, rule_has, same_email, same_message, same_thread}
use jeffrey_s_agenda_tool.Database.Integrity.{HasRule, IsConsistent}

pub update_users-IsConsistent :
    (p : User → Bool) (f : User → User) (db : Db)
    → ((u : User) → (f u).id ≡ u.id)
    → ((u : User) → (f u).email ≡ u.email)
    → IsConsistent db
    → IsConsistent (record db { users = update_where p f db.users })
update_users-IsConsistent p f db id email c = assumption (
  c,
  Distinct-update (λ (u v : User). u.id == v.id) p f (λ u v. ap (λ i. i == v.id) (id u))
      (λ u v. ap (λ i. u.id == i) (id v)) db.users c.user_keys,
  Distinct-update same_email p f (λ u v. ap (λ e. text_eq e v.email) (email u))
      (λ u v. ap (λ e. text_eq u.email e) (email v)) db.users c.user_emails,
  All-mono
      (λ (a : ConnectedAccount) h.
        any-update p (user_has a.user_id) f (λ u. ap (λ i. i == a.user_id) (id u)) db.users ∙ h)
      db.connected_accounts c.account_users,
)

module _ (p : AutomationRule → Bool) (f : AutomationRule → AutomationRule)
    (id : (r : AutomationRule) → (f r).id ≡ r.id)
    (owner : (r : AutomationRule) → (f r).connected_account_id ≡ r.connected_account_id)
    (db : Db) where
  abbrev updated : Db
  updated = record db { automation_rules = update_where p f db.automation_rules }

  kept : (k : Option Uuid) → HasRule db k → HasRule updated k
  kept none h = h
  kept (some k) h =
      any-update p (rule_has k) f (λ r. ap (λ i. i == k) (id r)) db.automation_rules ∙ h

  pub update_rules-IsConsistent : IsConsistent db → IsConsistent updated
  update_rules-IsConsistent c = assumption (
    c,
    Distinct-update (λ (r s : AutomationRule). r.id == s.id) p f (λ r s. ap (λ i. i == s.id) (id r))
        (λ r s. ap (λ i. r.id == i) (id s)) db.automation_rules c.rule_keys,
    All-update p f (λ r h. rw (owner r) h) db.automation_rules c.rule_accounts,
    All-mono (λ (l : AutomationLog) h. kept l.rule_id h) db.automation_logs c.log_rules,
  )

pub update_gmail_rules-IsConsistent :
    (p : GmailAutomationRule → Bool) (f : GmailAutomationRule → GmailAutomationRule) (db : Db)
    → ((r : GmailAutomationRule) → (f r).id ≡ r.id)
    → ((r : GmailAutomationRule) → (f r).connected_account_id ≡ r.connected_account_id)
    → IsConsistent db
    → IsConsistent
        (record db { gmail_automation_rules = update_where p f db.gmail_automation_rules })
update_gmail_rules-IsConsistent p f db id owner c = assumption (
  c,
  Distinct-update (λ (r s : GmailAutomationRule). r.id == s.id) p f
      (λ r s. ap (λ i. i == s.id) (id r)) (λ r s. ap (λ i. r.id == i) (id s))
      db.gmail_automation_rules c.gmail_rule_keys,
  All-update p f (λ r h. rw (owner r) h) db.gmail_automation_rules c.gmail_rule_accounts,
)

pub update_messages-IsConsistent :
    (p : GmailMessage → Bool) (f : GmailMessage → GmailMessage) (db : Db)
    → ((m n : GmailMessage) → same_message (f m) n ≡ same_message m n)
    → ((m n : GmailMessage) → same_message m (f n) ≡ same_message m n)
    → ((m : GmailMessage) → (f m).id ≡ m.id)
    → ((m : GmailMessage) → (f m).connected_account_id ≡ m.connected_account_id)
    → IsConsistent db
    → IsConsistent (record db { gmail_messages = update_where p f db.gmail_messages })
update_messages-IsConsistent p f db left right id owner c = assumption (
  c,
  Distinct-update (λ (m n : GmailMessage). m.id == n.id) p f (λ m n. ap (λ i. i == n.id) (id m))
      (λ m n. ap (λ i. m.id == i) (id n)) db.gmail_messages c.message_ids,
  Distinct-update same_message p f left right db.gmail_messages c.message_keys,
  All-update p f (λ m h. rw (owner m) h) db.gmail_messages c.message_accounts,
)

pub update_threads-IsConsistent :
    (p : GmailThread → Bool) (f : GmailThread → GmailThread) (db : Db)
    → ((t u : GmailThread) → same_thread (f t) u ≡ same_thread t u)
    → ((t u : GmailThread) → same_thread t (f u) ≡ same_thread t u)
    → ((t : GmailThread) → (f t).id ≡ t.id)
    → ((t : GmailThread) → (f t).connected_account_id ≡ t.connected_account_id)
    → IsConsistent db
    → IsConsistent (record db { gmail_threads = update_where p f db.gmail_threads })
update_threads-IsConsistent p f db left right id owner c = assumption (
  c,
  Distinct-update (λ (t u : GmailThread). t.id == u.id) p f (λ t u. ap (λ i. i == u.id) (id t))
      (λ t u. ap (λ i. t.id == i) (id u)) db.gmail_threads c.thread_ids,
  Distinct-update same_thread p f left right db.gmail_threads c.thread_keys,
  All-update p f (λ t h. rw (owner t) h) db.gmail_threads c.thread_accounts,
)
