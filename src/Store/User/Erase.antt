-- ===== src/Store/User/Erase.antt =====
-- internal/store/user/user.go: DeleteUser, with the schema's ON DELETE clauses.
use jeffrey_s_agenda_tool.Prelude.{
  Bool, true, false, not, ◌&&◌, ◌==◌, none, List, [], ◌∷◌, ◌≡◌, refl, any, keep, length-keep, All,
  All-mono, arith, Bool-cases, inl, inr,
}
use jeffrey_s_agenda_tool.Domain.{
  Uuid, ConnectedAccount, AutomationRule, AutomationLog, GmailAutomationRule, GmailMessage,
  GmailThread,
}
use jeffrey_s_agenda_tool.Database.{ok, Db, user_has, account_has}
use jeffrey_s_agenda_tool.Database.Cascade.{delete_accounts, delete_user_row}
use jeffrey_s_agenda_tool.Database.Integrity.{IsConsistent, HasAccount}
use jeffrey_s_agenda_tool.Database.Integrity.Deletes.{delete_user_row-IsConsistent}
use jeffrey_s_agenda_tool.Action.{
  Env, World, attempt, continue, query, run_statement, settle, pure, fail, ◌>>=◌,
}
use jeffrey_s_agenda_tool.Store.Sql.{exec, require_rows}
use jeffrey_s_agenda_tool.Store.User.{delete_user}

-- The key is that of an account of another user.
abbrev pub OfOthers : Uuid → Db → Uuid → Type 0
OfOthers user db k =
    any (λ a. account_has k a && not (a.user_id == user)) db.connected_accounts ≡ true

-- Neither the user nor an account of theirs is left, and every row belongs to an account of another
-- user.
pub record IsErased (user : Uuid) (db : Db) : Type 0 where
  pub no_user : any (user_has user) db.users ≡ false
  pub no_account : any (λ a. a.user_id == user) db.connected_accounts ≡ false
  pub rules :
      All (λ (r : AutomationRule). OfOthers user db r.connected_account_id) db.automation_rules
  pub logs : All (λ (l : AutomationLog). OfOthers user db l.connected_account_id) db.automation_logs
  pub gmail_rules :
      All
        (λ (r : GmailAutomationRule). OfOthers user db r.connected_account_id)
        db.gmail_automation_rules
  pub messages :
      All (λ (m : GmailMessage). OfOthers user db m.connected_account_id) db.gmail_messages
  pub threads : All (λ (t : GmailThread). OfOthers user db t.connected_account_id) db.gmail_threads

any-keep-not : {A : Type 0} (p : A → Bool) (xs : List A) → any p (keep (λ x. not (p x)) xs) ≡ false
any-keep-not p [] = refl
any-keep-not p (x ∷ xs) = elim (Bool-cases (p x)) [
  | inl e ↦ rw e (any-keep-not p xs)
  | inr e ↦ rw (e, e) (any-keep-not p xs)
]

of_others :
    (user k : Uuid) (accounts : List ConnectedAccount)
    → any (λ a. a.user_id == user) accounts ≡ false
    → any (account_has k) accounts ≡ true
    → any (λ a. account_has k a && not (a.user_id == user)) accounts ≡ true
of_others user k [] none_left h = cc
of_others user k (a ∷ accounts) none_left h = ground (arith, of_others user k accounts)

consistent-IsErased :
    (user : Uuid) (db : Db)
    → any (user_has user) db.users ≡ false
    → any (λ a. a.user_id == user) db.connected_accounts ≡ false
    → IsConsistent db
    → IsErased user db
consistent-IsErased user db no_user no_account c =
    let others : (k : Uuid) → HasAccount db k → OfOthers user db k =
      λ k h. of_others user k db.connected_accounts no_account h in
    record {
      no_user = no_user;
      no_account = no_account;
      rules = All-mono (λ r. others r.connected_account_id) db.automation_rules c.rule_accounts;
      logs = All-mono (λ l. others l.connected_account_id) db.automation_logs c.log_accounts;
      gmail_rules =
          All-mono (λ r. others r.connected_account_id) db.gmail_automation_rules
            c.gmail_rule_accounts;
      messages = All-mono (λ m. others m.connected_account_id) db.gmail_messages c.message_accounts;
      threads = All-mono (λ t. others t.connected_account_id) db.gmail_threads c.thread_accounts;
    }

deleted-IsErased :
    (user : Uuid) (db : Db) → IsConsistent db → IsErased user (delete_user_row user db)
unfolding delete_user_row delete_accounts
deleted-IsErased user db c =
    consistent-IsErased user (delete_user_row user db) (any-keep-not (user_has user) db.users)
      (any-keep-not (λ a. a.user_id == user) db.connected_accounts)
      (delete_user_row-IsConsistent user db c)

-- In a consistent database, if the user exists and the server answers, DeleteUser succeeds, and
-- neither the user nor an account of theirs nor any row of such an account is left.
pub delete_user-IsErased :
    (env : Env) (user : Uuid) (w : World)
    → IsConsistent w.db
    → env.db_error w.tick ≡ none
    → any (user_has user) w.db.users ≡ true
    → ((delete_user env user w).0 ≡ ok tt) × IsErased user (delete_user env user w).1.db
unfolding delete_user query exec run_statement settle attempt continue ◌>>=◌ require_rows pure fail
delete_user-IsErased env user w c works exists =
    let (n, count) = length-keep (user_has user) w.db.users exists in
    rw (works, count) (refl, deleted-IsErased user w.db c)
