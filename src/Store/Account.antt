-- ===== src/Store/Account.antt =====
-- internal/store/account/account.go
pub mod Rows
pub mod Ticks
pub mod Owners
pub mod Token
pub mod Connect
use jeffrey_s_agenda_tool.Prelude.{
  ℕ, Text, Bool, true, false, ◌&&◌, ◌==◌, ltb_ℤ, Option, none, some, List, [], ◌∷◌, ◌++◌, any, find,
  keep, length, map, update_where, is_empty, if◌then◌else◌,
}
use jeffrey_s_agenda_tool.Domain.{
  Uuid, Time, Bytes, ProviderType, AccountStatus, ConnectedAccount, is_active_status,
}
use jeffrey_s_agenda_tool.Database.{
  Err, Result, ok, err, unique_violation, foreign_key_violation, account_not_found, forbidden,
  nothing_updated, nothing_deleted, Db, Statement, user_has, account_has, same_identity,
  to_timestamptz,
}
use jeffrey_s_agenda_tool.Database.Cascade.{delete_accounts}
use jeffrey_s_agenda_tool.Database.Order.{order_by}
use jeffrey_s_agenda_tool.Action.{Env, Action, pure, attempt, query, ◌>>=◌, ◌>>◌}
use jeffrey_s_agenda_tool.Crypto.{encrypt}
use jeffrey_s_agenda_tool.Store.Sql.{select_row, select_rows, exec, or_missing, require_rows}

pub record UpsertConnectedAccountParams : Type 0 where
  pub user_id : Uuid
  pub provider : ProviderType
  pub email : Text
  pub provider_user_id : Text
  pub access_token : Text
  pub refresh_token : Text
  pub token_expiry : Time
  pub scopes : List Text

pub record UpdateAccountTokensParams : Type 0 where
  pub account_id : Uuid
  pub new_access_token : Text
  pub new_refresh_token : Text
  pub new_token_expiry : Time

-- Every SELECT and RETURNING of this file lists thirteen columns, and the three gmail_* columns are
-- not among them: in the struct that Scan fills they keep Go's zero values.
unfoldable pub scan_account : ConnectedAccount → ConnectedAccount
scan_account row = record row {
  gmail_history_id = none;
  gmail_last_sync = none;
  gmail_sync_enabled = false;
}

-- The row of an INSERT, with the defaults of the columns that it leaves out.
abbrev pub new_account :
    Time → Uuid → UpsertConnectedAccountParams → Bytes → Bytes → ConnectedAccount
new_account now id arg access refresh = record {
  id = id;
  user_id = arg.user_id;
  provider = arg.provider;
  email = arg.email;
  provider_user_id = arg.provider_user_id;
  access_token = access;
  refresh_token = refresh;
  token_expiry = to_timestamptz arg.token_expiry;
  scopes = arg.scopes;
  status = AccountStatus.active;
  created_at = now;
  updated_at = now;
  last_checked = none;
  gmail_history_id = none;
  gmail_last_sync = none;
  gmail_sync_enabled = true;
}

-- DO UPDATE SET: the e-mail address is not among the columns.
abbrev pub reconnect :
    Time → UpsertConnectedAccountParams → Bytes → Bytes → ConnectedAccount → ConnectedAccount
reconnect now arg access refresh a = record a {
  access_token = access;
  refresh_token = refresh;
  token_expiry = to_timestamptz arg.token_expiry;
  scopes = arg.scopes;
  status = AccountStatus.active;
  updated_at = now;
}

unfoldable pub upsert_at :
    Option ConnectedAccount
    → UpsertConnectedAccountParams
    → Bytes
    → Bytes
    → Statement ConnectedAccount
upsert_at (some a) arg access refresh now id db = ok (
  scan_account (reconnect now arg access refresh a),
  record db {
    connected_accounts =
        update_where (λ b. same_identity b (new_account now id arg access refresh))
          (reconnect now arg access refresh) db.connected_accounts;
  },
)
upsert_at none arg access refresh now id db =
    if any (account_has id) db.connected_accounts
    then err unique_violation
    else if any (user_has arg.user_id) db.users
    then ok (
      scan_account (new_account now id arg access refresh),
      record db {
        connected_accounts = db.connected_accounts ++ new_account now id arg access refresh ∷ [];
      },
    )
    else err foreign_key_violation

unfoldable pub upsert_account :
    UpsertConnectedAccountParams → Bytes → Bytes → Statement ConnectedAccount
unfolding upsert_at scan_account
upsert_account arg access refresh now id db =
    upsert_at
      (find (λ b. same_identity b (new_account now id arg access refresh)) db.connected_accounts)
      arg access refresh now id db

-- UPDATE connected_accounts SET ... WHERE id = k
unfoldable pub update_account : Uuid → (Time → ConnectedAccount → ConnectedAccount) → Statement ℕ
unfolding exec
update_account k change =
    exec (λ db. length (keep (account_has k) db.connected_accounts))
      λ now db. record db {
        connected_accounts = update_where (account_has k) (change now) db.connected_accounts;
      }

abbrev pub later_account : ConnectedAccount → ConnectedAccount → Bool
later_account a b = ltb_ℤ b.created_at a.created_at

abbrev pub set_tokens :
    UpdateAccountTokensParams → Bytes → Bytes → Time → ConnectedAccount → ConnectedAccount
set_tokens arg access refresh now a = record a {
  access_token = access;
  refresh_token = refresh;
  token_expiry = to_timestamptz arg.new_token_expiry;
  updated_at = now;
}

abbrev pub set_access_token :
    UpdateAccountTokensParams → Bytes → Time → ConnectedAccount → ConnectedAccount
set_access_token arg access now a = record a {
  access_token = access;
  token_expiry = to_timestamptz arg.new_token_expiry;
  updated_at = now;
}

abbrev pub set_last_checked : Time → ConnectedAccount → ConnectedAccount
set_last_checked now a = record a { updated_at = now; last_checked = some now }

abbrev pub set_status : AccountStatus → Time → ConnectedAccount → ConnectedAccount
set_status status now a = record a { status = status; updated_at = now }

abbrev pub set_stored_tokens : Bytes → Bytes → Time → Time → ConnectedAccount → ConnectedAccount
set_stored_tokens access refresh expiry now a = record a {
  access_token = access;
  refresh_token = refresh;
  token_expiry = to_timestamptz expiry;
  updated_at = now;
}

module _ (env : Env) where
  -- An absent refresh token is stored as NULL, and not encrypted.
  unfoldable pub encrypt_refresh_token : Text → Action Bytes
  encrypt_refresh_token t = if is_empty t then pure [] else encrypt env t

  unfoldable pub upsert_connected_account : UpsertConnectedAccountParams → Action ConnectedAccount
  unfolding encrypt_refresh_token
  upsert_connected_account arg = do
    access ← encrypt env arg.access_token
    refresh ← encrypt_refresh_token arg.refresh_token
    query env (upsert_account arg access refresh)

  unfoldable pub get_connected_account_by_id : Uuid → Action ConnectedAccount
  get_connected_account_by_id k = do
    row ←
        attempt (query env (select_row (λ db. find (account_has k) db.connected_accounts)))
          (or_missing account_not_found) pure
    pure (scan_account row)

  unfoldable pub update_account_tokens : UpdateAccountTokensParams → Action (Unit {0})
  update_account_tokens arg = do
    access ← encrypt env arg.new_access_token
    n ←
        if is_empty arg.new_refresh_token
        then query env (update_account arg.account_id (set_access_token arg access))
        else do
          refresh ← encrypt env arg.new_refresh_token
          query env (update_account arg.account_id (set_tokens arg access refresh))
    require_rows nothing_updated n

  unfoldable pub update_account_last_checked : Uuid → Action (Unit {0})
  update_account_last_checked k = do query env (update_account k set_last_checked); pure tt

  unfoldable pub get_active_accounts : Action (List ConnectedAccount)
  get_active_accounts = query env (
      select_rows
        λ db. map scan_account (keep (λ a. is_active_status a.status) db.connected_accounts))

  unfoldable pub get_accounts_for_user : Uuid → Action (List ConnectedAccount)
  get_accounts_for_user user = query env (
      select_rows λ db.
        map scan_account
          (order_by later_account (keep (λ a. a.user_id == user) db.connected_accounts)))

  unfoldable pub verify_account_ownership : Uuid → Uuid → Action (Unit {0})
  verify_account_ownership k user = do
    attempt
        (query env
          (select_row (λ db. find (λ a. a.id == k && a.user_id == user) db.connected_accounts)))
        (or_missing forbidden) pure
    pure tt

  unfoldable pub delete_connected_account : Uuid → Action (Unit {0})
  delete_connected_account k = do
    n ← query env (
        exec (λ db. length (keep (account_has k) db.connected_accounts))
          (λ now. delete_accounts (account_has k)))
    require_rows nothing_deleted n

  unfoldable pub update_account_status : Uuid → AccountStatus → Action (Unit {0})
  update_account_status k status = do query env (update_account k (set_status status)); pure tt

  -- The tokens are given as they are stored; no row is required.
  unfoldable pub update_connected_account_token : Uuid → Bytes → Bytes → Time → Action (Unit {0})
  update_connected_account_token k access refresh expiry = do
    query env (update_account k (set_stored_tokens access refresh expiry))
    pure tt
