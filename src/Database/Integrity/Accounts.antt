-- ===== src/Database/Integrity/Accounts.antt =====
-- Changes of connected_accounts that keep the database consistent.
use jeffrey_s_agenda_tool.Prelude.{
  Bool, ◌≡◌, ap, ◌∙◌, ◌==◌, All-mono, All-update, Distinct-update, any-update, false, [], ◌∷◌, ◌++◌,
  any-append, Distinct-append, All-append, arith, any, update_where,
}
use jeffrey_s_agenda_tool.Domain.{
  Uuid, ConnectedAccount, AutomationRule, AutomationLog, GmailAutomationRule, GmailMessage,
  GmailThread,
}
use jeffrey_s_agenda_tool.Database.{Db, account_has, same_identity}
use jeffrey_s_agenda_tool.Database.Integrity.{HasUser, HasAccount, IsConsistent}

-- An update that leaves the key, the owner and the identity of a row alone.
pub record KeepsAccount (f : ConnectedAccount → ConnectedAccount) : Type 0 where
  pub id : (a : ConnectedAccount) → (f a).id ≡ a.id
  pub owner : (a : ConnectedAccount) → (f a).user_id ≡ a.user_id
  pub identity_left : (a b : ConnectedAccount) → same_identity (f a) b ≡ same_identity a b
  pub identity_right : (a b : ConnectedAccount) → same_identity a (f b) ≡ same_identity a b

module _ (p : ConnectedAccount → Bool) (f : ConnectedAccount → ConnectedAccount)
    (keeps : KeepsAccount f) (db : Db) where
  abbrev updated : Db
  updated = record db { connected_accounts = update_where p f db.connected_accounts }

  still_there : (k : Uuid) → HasAccount db k → HasAccount updated k
  still_there k h =
      any-update p (account_has k) f (λ a. ap (λ i. i == k) (keeps.id a)) db.connected_accounts ∙ h

  pub update_accounts-IsConsistent : IsConsistent db → IsConsistent updated
  update_accounts-IsConsistent c = assumption (
    c,
    Distinct-update (λ (a b : ConnectedAccount). a.id == b.id) p f
        (λ a b. ap (λ i. i == b.id) (keeps.id a)) (λ a b. ap (λ i. a.id == i) (keeps.id b))
        db.connected_accounts c.account_keys,
    Distinct-update same_identity p f keeps.identity_left keeps.identity_right db.connected_accounts
        c.account_identities,
    All-update p f (λ a h. rw (keeps.owner a) h) db.connected_accounts c.account_users,
    All-mono (λ (r : AutomationRule) h. still_there r.connected_account_id h) db.automation_rules
        c.rule_accounts,
    All-mono (λ (l : AutomationLog) h. still_there l.connected_account_id h) db.automation_logs
        c.log_accounts,
    All-mono (λ (r : GmailAutomationRule) h. still_there r.connected_account_id h)
        db.gmail_automation_rules c.gmail_rule_accounts,
    All-mono (λ (m : GmailMessage) h. still_there m.connected_account_id h) db.gmail_messages
        c.message_accounts,
    All-mono (λ (t : GmailThread) h. still_there t.connected_account_id h) db.gmail_threads
        c.thread_accounts,
  )

-- A row of an existing user with a new key and a new identity.
module _ (a : ConnectedAccount) (db : Db) where
  abbrev extended : Db
  extended = record db { connected_accounts = db.connected_accounts ++ a ∷ [] }

  kept : (k : Uuid) → HasAccount db k → HasAccount extended k
  kept k h = ground (arith, any-append (account_has k) db.connected_accounts (a ∷ []))

  pub insert_account-IsConsistent :
      any (account_has a.id) db.connected_accounts ≡ false
      → any (λ b. same_identity b a) db.connected_accounts ≡ false
      → HasUser db a.user_id
      → IsConsistent db
      → IsConsistent extended
  insert_account-IsConsistent new_key new_identity owner c = assumption (
    c,
    Distinct-append (λ (a b : ConnectedAccount). a.id == b.id) a db.connected_accounts new_key
        c.account_keys,
    Distinct-append same_identity a db.connected_accounts new_identity c.account_identities,
    All-append (λ (b : ConnectedAccount). HasUser db b.user_id) db.connected_accounts (a ∷ [])
        c.account_users (owner, tt),
    All-mono (λ (r : AutomationRule) h. kept r.connected_account_id h) db.automation_rules
        c.rule_accounts,
    All-mono (λ (l : AutomationLog) h. kept l.connected_account_id h) db.automation_logs
        c.log_accounts,
    All-mono (λ (r : GmailAutomationRule) h. kept r.connected_account_id h)
        db.gmail_automation_rules c.gmail_rule_accounts,
    All-mono (λ (m : GmailMessage) h. kept m.connected_account_id h) db.gmail_messages
        c.message_accounts,
    All-mono (λ (t : GmailThread) h. kept t.connected_account_id h) db.gmail_threads
        c.thread_accounts,
  )
