-- ===== src/Database/Integrity/Deletes.antt =====
-- db/migrations: the references under deletions with their cascades.
use jeffrey_s_agenda_tool.Prelude.{
  Bool, true, false, ◌≡◌, refl, Option, none, some, List, [], ◌∷◌, inl, inr, Bool-cases, not, ◌==◌,
  any, any-keep_rest, keep, All-keep, All-keep_mono, All-map, Distinct-keep, Distinct-map, ◌<◌,
  arith,
}
use jeffrey_s_agenda_tool.Domain.{
  Uuid, User, ConnectedAccount, AutomationRule, AutomationLog, GmailAutomationRule, GmailMessage,
  GmailThread,
}
use jeffrey_s_agenda_tool.Database.{
  Db, user_has, account_has, rule_has, same_email, same_identity, same_message, same_thread,
}
use jeffrey_s_agenda_tool.Database.Cascade.{
  detached, detach, gone_rule, gone_account, delete_rules, delete_owned, delete_accounts,
  delete_user_row,
}
use jeffrey_s_agenda_tool.Database.Integrity.{HasUser, HasAccount, HasRule, IsConsistent}

-- A log that keeps its rule refers to one that is left.
detached-HasRule :
    (p : AutomationRule → Bool) (k : Option Uuid) (db : Db)
    → HasRule db k
    → HasRule (delete_rules p db) (detached (gone_rule p db) k)
unfolding delete_rules
detached-HasRule p none db h = tt
detached-HasRule p (some k) db h = elim (Bool-cases (gone_rule p db k)) [
  | inl e ↦ rw e tt
  | inr e ↦ rw e (any-keep_rest p (rule_has k) db.automation_rules h e)
]

pub delete_rules-IsConsistent :
    (p : AutomationRule → Bool) (db : Db) → IsConsistent db → IsConsistent (delete_rules p db)
unfolding delete_rules
delete_rules-IsConsistent p db c = assumption (
  c,
  Distinct-keep (λ (r s : AutomationRule). r.id == s.id) (λ r. not (p r)) db.automation_rules
      c.rule_keys,
  All-keep (λ (r : AutomationRule). HasAccount db r.connected_account_id) (λ r. not (p r))
      db.automation_rules c.rule_accounts,
  Distinct-map (λ (l m : AutomationLog). l.id == m.id) (detach (gone_rule p db)) (λ l m. refl)
      db.automation_logs c.log_keys,
  All-map (λ (l : AutomationLog). l.id < db.next_log_id) (detach (gone_rule p db))
      (λ (l : AutomationLog) h. h) db.automation_logs c.log_sequence,
  All-map (λ (l : AutomationLog). HasAccount db l.connected_account_id) (detach (gone_rule p db))
      (λ (l : AutomationLog) h. h) db.automation_logs c.log_accounts,
  All-map (λ (l : AutomationLog). HasRule (delete_rules p db) l.rule_id) (detach (gone_rule p db))
      (λ (l : AutomationLog) h. detached-HasRule p l.rule_id db h) db.automation_logs c.log_rules,
)

-- What an account of the set owned is gone, and every other row still has its account.
module _ (p : ConnectedAccount → Bool) (db : Db) where
  abbrev gone : Uuid → Bool
  gone = gone_account p db

  abbrev owned_gone : Db
  owned_gone = delete_owned gone (delete_rules (λ r. gone r.connected_account_id) db)

  not-eq-true : (b : Bool) → not b ≡ true → b ≡ false
  not-eq-true true h = cc
  not-eq-true false h = refl

  account_left :
      (k : Uuid) → HasAccount db k → not (gone k) ≡ true → HasAccount (delete_accounts p db) k
  unfolding delete_accounts
  account_left k h e =
      any-keep_rest p (account_has k) db.connected_accounts h (not-eq-true (gone k) e)

  pub delete_accounts-IsConsistent : IsConsistent db → IsConsistent (delete_accounts p db)
  unfolding delete_accounts
  delete_accounts-IsConsistent c =
      let d = delete_rules-IsConsistent (λ r. gone r.connected_account_id) db c in
      assumption (
        c,
        d,
        Distinct-keep (λ (a b : ConnectedAccount). a.id == b.id) (λ a. not (p a))
            db.connected_accounts c.account_keys,
        Distinct-keep same_identity (λ a. not (p a)) db.connected_accounts c.account_identities,
        All-keep (λ (a : ConnectedAccount). HasUser db a.user_id) (λ a. not (p a))
            db.connected_accounts c.account_users,
        All-keep_mono
            {Q = λ (r : AutomationRule). HasAccount (delete_accounts p db) r.connected_account_id}
            (λ r. not (gone r.connected_account_id))
            (λ r h e. account_left r.connected_account_id h e) db.automation_rules c.rule_accounts,
        Distinct-keep (λ (l m : AutomationLog). l.id == m.id)
            (λ l. not (gone l.connected_account_id))
            (delete_rules (λ r. gone r.connected_account_id) db).automation_logs d.log_keys,
        All-keep (λ (l : AutomationLog). l.id < db.next_log_id)
            (λ l. not (gone l.connected_account_id))
            (delete_rules (λ r. gone r.connected_account_id) db).automation_logs d.log_sequence,
        All-keep_mono
            {Q = λ (l : AutomationLog). HasAccount (delete_accounts p db) l.connected_account_id}
            (λ l. not (gone l.connected_account_id))
            (λ l h e. account_left l.connected_account_id h e)
            (delete_rules (λ r. gone r.connected_account_id) db).automation_logs d.log_accounts,
        All-keep (λ (l : AutomationLog). HasRule (delete_accounts p db) l.rule_id)
            (λ l. not (gone l.connected_account_id))
            (delete_rules (λ r. gone r.connected_account_id) db).automation_logs d.log_rules,
        Distinct-keep (λ (r s : GmailAutomationRule). r.id == s.id)
            (λ r. not (gone r.connected_account_id)) db.gmail_automation_rules c.gmail_rule_keys,
        All-keep_mono
            {Q = λ (r : GmailAutomationRule).
              HasAccount (delete_accounts p db) r.connected_account_id}
            (λ r. not (gone r.connected_account_id))
            (λ r h e. account_left r.connected_account_id h e) db.gmail_automation_rules
            c.gmail_rule_accounts,
        Distinct-keep (λ (m n : GmailMessage). m.id == n.id)
            (λ m. not (gone m.connected_account_id)) db.gmail_messages c.message_ids,
        Distinct-keep same_message (λ m. not (gone m.connected_account_id)) db.gmail_messages
            c.message_keys,
        All-keep_mono
            {Q = λ (m : GmailMessage). HasAccount (delete_accounts p db) m.connected_account_id}
            (λ m. not (gone m.connected_account_id))
            (λ m h e. account_left m.connected_account_id h e) db.gmail_messages c.message_accounts,
        Distinct-keep (λ (t u : GmailThread). t.id == u.id) (λ t. not (gone t.connected_account_id))
            db.gmail_threads c.thread_ids,
        Distinct-keep same_thread (λ t. not (gone t.connected_account_id)) db.gmail_threads
            c.thread_keys,
        All-keep_mono
            {Q = λ (t : GmailThread). HasAccount (delete_accounts p db) t.connected_account_id}
            (λ t. not (gone t.connected_account_id))
            (λ t h e. account_left t.connected_account_id h e) db.gmail_threads c.thread_accounts,
      )

user_left :
    (k j : Uuid) (users : List User)
    → any (user_has j) users ≡ true
    → not (j == k) ≡ true
    → any (user_has j) (keep (λ u. not (u.id == k)) users) ≡ true
user_left k j [] h e = cc
user_left k j (u ∷ us) h e = ground (arith, user_left k j us)

pub delete_user_row-IsConsistent :
    (k : Uuid) (db : Db) → IsConsistent db → IsConsistent (delete_user_row k db)
unfolding delete_user_row
delete_user_row-IsConsistent k db c =
    let d = delete_accounts-IsConsistent (λ a. a.user_id == k) db c in
    assumption (
      d,
      Distinct-keep (λ (u v : User). u.id == v.id) (λ u. not (u.id == k)) db.users c.user_keys,
      Distinct-keep same_email (λ u. not (u.id == k)) db.users c.user_emails,
      All-keep_mono {Q = λ (a : ConnectedAccount). HasUser (delete_user_row k db) a.user_id}
          (λ a. not (a.user_id == k)) (λ a h e. user_left k a.user_id db.users h e)
          db.connected_accounts c.account_users,
    )
