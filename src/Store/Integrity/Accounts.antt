-- ===== src/Store/Integrity/Accounts.antt =====
-- internal/store/account/account.go: the invariant of the database over its statements.
use mathlib.Core.Path.{subst}
use jeffrey_s_agenda_tool.Prelude.{
  ℕ, Text, ◌≡◌, refl, Bool, Option, none, some, any, find, any_of_find-none, Bool-cases, inl, inr,
}
use jeffrey_s_agenda_tool.Domain.{Uuid, Time, Bytes, AccountStatus, ConnectedAccount}
use jeffrey_s_agenda_tool.Database.{ok, Err, external, Db, user_has, account_has, same_identity}
use jeffrey_s_agenda_tool.Database.Cascade.{delete_accounts}
use jeffrey_s_agenda_tool.Database.Integrity.{IsConsistent}
use jeffrey_s_agenda_tool.Database.Integrity.Accounts.{
  KeepsAccount, update_accounts-IsConsistent, insert_account-IsConsistent,
}
use jeffrey_s_agenda_tool.Database.Integrity.Deletes.{delete_accounts-IsConsistent}
use jeffrey_s_agenda_tool.Action.{Env}
use jeffrey_s_agenda_tool.Action.Keeps.{Keeps, Safe, keeps_rules}
use jeffrey_s_agenda_tool.Crypto.{encrypt}
use jeffrey_s_agenda_tool.Google.{Token}
use jeffrey_s_agenda_tool.Store.Sql.{exec, same_db, Safe-exec, store_rules}
use jeffrey_s_agenda_tool.Store.Account
use jeffrey_s_agenda_tool.Store.Account.{
  UpsertConnectedAccountParams, UpdateAccountTokensParams, new_account, reconnect, upsert_at,
  upsert_account, update_account, set_tokens, set_access_token, set_last_checked, set_status,
  set_stored_tokens, encrypt_refresh_token,
}
use jeffrey_s_agenda_tool.Store.Account.Token.{
  is_valid, on_refresh_error, refresh_token, get_valid_token_for_account,
}

upsert_at_keeps :
    (o : Option ConnectedAccount) (arg : UpsertConnectedAccountParams) (access refresh : Bytes)
    (now : Time) (id : Uuid) (db : Db) (a : ConnectedAccount) (db' : Db)
    → find (λ b. same_identity b (new_account now id arg access refresh)) db.connected_accounts ≡ o
    → IsConsistent db
    → upsert_at o arg access refresh now id db ≡ ok (a, db')
    → IsConsistent db'
unfolding upsert_at
upsert_at_keeps (some b) arg access refresh now id db a db' found c e =
    subst IsConsistent (same_db _ _ _ _ e) (
      update_accounts-IsConsistent _ (reconnect now arg access refresh)
        (record {
          id = λ b. refl;
          owner = λ b. refl;
          identity_left = λ b d. refl;
          identity_right = λ b d. refl;
        })
        db c)
upsert_at_keeps none arg access refresh now id db a db' found c e =
    elim (Bool-cases (any (account_has id) db.connected_accounts)) [
      | inl taken ↦ cc taken
      | inr free ↦ elim (Bool-cases (any (user_has arg.user_id) db.users)) [
        | inr orphan ↦ cc (free, orphan)
        | inl owned ↦ subst IsConsistent (same_db _ _ _ _ (rw owned at (rw free at e))) (
            insert_account-IsConsistent (new_account now id arg access refresh) db free
              (any_of_find-none (λ b. same_identity b (new_account now id arg access refresh))
                db.connected_accounts found)
              owned c)
      ]
    ]

upsert_account-Safe :
    (arg : UpsertConnectedAccountParams) (access refresh : Bytes)
    → Safe IsConsistent (upsert_account arg access refresh)
unfolding upsert_account
upsert_account-Safe arg access refresh = record {
  at = λ now id db a db' c e. upsert_at_keeps _ arg access refresh now id db a db' refl c e;
}

pub update_account-Safe :
    (k : Uuid) (change : Time → ConnectedAccount → ConnectedAccount)
    → ((now : Time) → KeepsAccount (change now))
    → Safe IsConsistent (update_account k change)
unfolding update_account
update_account-Safe k change keeps =
    Safe-exec _ _
      λ now db c. update_accounts-IsConsistent (account_has k) (change now) (keeps now) db c

delete_accounts-Safe :
    (p : ConnectedAccount → Bool) (count : Db → ℕ)
    → Safe IsConsistent (exec count (λ now. delete_accounts p))
delete_accounts-Safe p count = Safe-exec count _ (λ now db c. delete_accounts-IsConsistent p db c)

set_tokens-KeepsAccount :
    (arg : UpdateAccountTokensParams) (access refresh : Bytes) (now : Time)
    → KeepsAccount (set_tokens arg access refresh now)
set_tokens-KeepsAccount arg access refresh now = record {
  id = λ b. refl;
  owner = λ b. refl;
  identity_left = λ b d. refl;
  identity_right = λ b d. refl;
}

set_access_token-KeepsAccount :
    (arg : UpdateAccountTokensParams) (access : Bytes) (now : Time)
    → KeepsAccount (set_access_token arg access now)
set_access_token-KeepsAccount arg access now = record {
  id = λ b. refl;
  owner = λ b. refl;
  identity_left = λ b d. refl;
  identity_right = λ b d. refl;
}

set_last_checked-KeepsAccount : (now : Time) → KeepsAccount (set_last_checked now)
set_last_checked-KeepsAccount now = record {
  id = λ b. refl;
  owner = λ b. refl;
  identity_left = λ b d. refl;
  identity_right = λ b d. refl;
}

set_status-KeepsAccount :
    (status : AccountStatus) (now : Time) → KeepsAccount (set_status status now)
set_status-KeepsAccount status now = record {
  id = λ b. refl;
  owner = λ b. refl;
  identity_left = λ b d. refl;
  identity_right = λ b d. refl;
}

set_stored_tokens-KeepsAccount :
    (access refresh : Bytes) (expiry now : Time)
    → KeepsAccount (set_stored_tokens access refresh expiry now)
set_stored_tokens-KeepsAccount access refresh expiry now = record {
  id = λ b. refl;
  owner = λ b. refl;
  identity_left = λ b d. refl;
  identity_right = λ b d. refl;
}

ruleset account_rules = (
  store_rules, upsert_account-Safe, update_account-Safe, delete_accounts-Safe,
  set_tokens-KeepsAccount, set_access_token-KeepsAccount, set_last_checked-KeepsAccount,
  set_status-KeepsAccount,
)

module _ (env : Env) where
  encrypt-Keeps : (b : Bytes) → Keeps IsConsistent (encrypt env b)
  unfolding encrypt
  encrypt-Keeps b = search keeps_rules

  pub upsert_connected_account-Keeps :
      (arg : UpsertConnectedAccountParams)
      → Keeps IsConsistent (Account.upsert_connected_account env arg)
  unfolding Account.upsert_connected_account
  upsert_connected_account-Keeps arg = search (account_rules, encrypt-Keeps)

  encrypt_refresh_token-Keeps : (t : Text) → Keeps IsConsistent (encrypt_refresh_token env t)
  unfolding encrypt_refresh_token
  encrypt_refresh_token-Keeps t = search (keeps_rules, encrypt-Keeps)

  pub get_connected_account_by_id-Keeps :
      (k : Uuid) → Keeps IsConsistent (Account.get_connected_account_by_id env k)
  unfolding Account.get_connected_account_by_id
  get_connected_account_by_id-Keeps k = search account_rules

  pub update_account_tokens-Keeps :
      (arg : UpdateAccountTokensParams) → Keeps IsConsistent (Account.update_account_tokens env arg)
  unfolding Account.update_account_tokens
  update_account_tokens-Keeps arg = search (account_rules, encrypt-Keeps) depth 8

  pub update_account_last_checked-Keeps :
      (k : Uuid) → Keeps IsConsistent (Account.update_account_last_checked env k)
  unfolding Account.update_account_last_checked
  update_account_last_checked-Keeps k = search account_rules

  pub get_active_accounts-Keeps : Keeps IsConsistent (Account.get_active_accounts env)
  unfolding Account.get_active_accounts
  get_active_accounts-Keeps = search account_rules

  pub get_accounts_for_user-Keeps :
      (user : Uuid) → Keeps IsConsistent (Account.get_accounts_for_user env user)
  unfolding Account.get_accounts_for_user
  get_accounts_for_user-Keeps user = search account_rules

  pub verify_account_ownership-Keeps :
      (k user : Uuid) → Keeps IsConsistent (Account.verify_account_ownership env k user)
  unfolding Account.verify_account_ownership
  verify_account_ownership-Keeps k user = search account_rules

  pub delete_connected_account-Keeps :
      (k : Uuid) → Keeps IsConsistent (Account.delete_connected_account env k)
  unfolding Account.delete_connected_account
  delete_connected_account-Keeps k = search account_rules

  pub update_account_status-Keeps :
      (k : Uuid) (status : AccountStatus)
      → Keeps IsConsistent (Account.update_account_status env k status)
  unfolding Account.update_account_status
  update_account_status-Keeps k status = search account_rules

  pub update_connected_account_token-Keeps :
      (k : Uuid) (access refresh : Bytes) (expiry : Time)
      → Keeps IsConsistent (Account.update_connected_account_token env k access refresh expiry)
  unfolding Account.update_connected_account_token
  update_connected_account_token-Keeps k access refresh expiry =
      search (account_rules, set_stored_tokens-KeepsAccount)

  on_refresh_error-Keeps : (k : Uuid) (e : Err) → Keeps IsConsistent (on_refresh_error env k e)
  unfolding on_refresh_error
  on_refresh_error-Keeps k (external t) = search (keeps_rules, update_account_status-Keeps)
  on_refresh_error-Keeps k other = search keeps_rules

  refresh_token-Keeps : (k : Uuid) (token : Token) → Keeps IsConsistent (refresh_token env k token)
  unfolding refresh_token
  refresh_token-Keeps k token =
      search (keeps_rules, on_refresh_error-Keeps, update_account_tokens-Keeps)

  is_valid-Keeps : (token : Token) → Keeps IsConsistent (is_valid env token)
  unfolding is_valid
  is_valid-Keeps token = record { at = λ w c. c }

  pub get_valid_token_for_account-Keeps :
      (k : Uuid) → Keeps IsConsistent (get_valid_token_for_account env k)
  unfolding get_valid_token_for_account
  get_valid_token_for_account-Keeps k =
      search (keeps_rules, get_connected_account_by_id-Keeps, is_valid-Keeps, refresh_token-Keeps)
        depth 8
