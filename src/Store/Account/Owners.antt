-- ===== src/Store/Account/Owners.antt =====
-- internal/store/account/account.go: handing out a token leaves every account with its owner.
use jeffrey_s_agenda_tool.Prelude.{
  Text, Bool, ◌==◌, Bool-cases, inl, inr, Option, none, some, List, [], ◌∷◌, ◌≡◌, refl, ap, ◌∙◌,
  find, update_where, arith,
}
use jeffrey_s_agenda_tool.Domain.{Uuid, Time, Bytes, AccountStatus, ConnectedAccount}
use jeffrey_s_agenda_tool.Database.{Err, account_not_found, ok, Db, account_has}
use jeffrey_s_agenda_tool.Google.{Token}
use jeffrey_s_agenda_tool.Action.{
  Env, World, pure, fail, attempt, continue, query, run_statement, settle, ◌>>=◌,
}
use jeffrey_s_agenda_tool.Action.Keeps.{Keeps, Safe, keeps_rules}
use jeffrey_s_agenda_tool.Crypto.{encrypt}
use jeffrey_s_agenda_tool.Store.Sql.{scan, select_row, or_missing, Safe-exec, store_rules}
use jeffrey_s_agenda_tool.Store.Account.{
  UpdateAccountTokensParams, update_account, scan_account, set_tokens, set_access_token, set_status,
  get_connected_account_by_id, update_account_status, update_account_tokens,
}
use jeffrey_s_agenda_tool.Store.Account.Token.{
  is_valid, on_refresh_error, refresh_token, get_valid_token_for_account,
}

abbrev pub owner : Option ConnectedAccount → Option Uuid
owner none = none
owner (some a) = some a.user_id

-- Both databases give every key the same owner, or none.
abbrev pub SameOwners : Db → Db → Type 0
SameOwners before db =
    (k : Uuid)
    → owner (find (account_has k) db.connected_accounts)
      ≡ owner (find (account_has k) before.connected_accounts)

owner-update :
    (p q : ConnectedAccount → Bool) (f : ConnectedAccount → ConnectedAccount)
    → ((a : ConnectedAccount) → p (f a) ≡ p a)
    → ((a : ConnectedAccount) → (f a).user_id ≡ a.user_id)
    → (rows : List ConnectedAccount) → owner (find p (update_where q f rows)) ≡ owner (find p rows)
owner-update p q f same own [] = refl
owner-update p q f same own (a ∷ rows) = elim (Bool-cases (q a)) [
  | inl hit ↦ elim (Bool-cases (p a)) [
    | inl here ↦ rw (hit, same a, here) (ap some (own a))
    | inr later ↦ rw (hit, same a, later) (owner-update p q f same own rows)
  ]
  | inr miss ↦ elim (Bool-cases (p a)) [
    | inl here ↦ rw (miss, here) refl
    | inr later ↦ rw (miss, later) (owner-update p q f same own rows)
  ]
]

module _ (before : Db) where
  update_account-owners :
      (k : Uuid) (change : Time → ConnectedAccount → ConnectedAccount)
      → ((now : Time) (a : ConnectedAccount) → (change now a).id ≡ a.id)
      → ((now : Time) (a : ConnectedAccount) → (change now a).user_id ≡ a.user_id)
      → Safe (SameOwners before) (update_account k change)
  unfolding update_account
  update_account-owners k change same own = Safe-exec _ _ λ now db h i.
      owner-update (account_has i) (account_has k) (change now)
        (λ a. ap (λ id. id == i) (same now a)) (own now) db.connected_accounts
      ∙ h i

  set_status-owners :
      (k : Uuid) (s : AccountStatus) → Safe (SameOwners before) (update_account k (set_status s))
  set_status-owners k s = update_account-owners k _ (λ now a. refl) (λ now a. refl)

  set_access_token-owners :
      (arg : UpdateAccountTokensParams) (b : Bytes)
      → Safe (SameOwners before) (update_account arg.account_id (set_access_token arg b))
  set_access_token-owners arg b = update_account-owners _ _ (λ now a. refl) (λ now a. refl)

  set_tokens-owners :
      (arg : UpdateAccountTokensParams) (b c : Bytes)
      → Safe (SameOwners before) (update_account arg.account_id (set_tokens arg b c))
  set_tokens-owners arg b c = update_account-owners _ _ (λ now a. refl) (λ now a. refl)

  module _ (env : Env) where
    encrypt-owners : (b : Bytes) → Keeps (SameOwners before) (encrypt env b)
    unfolding encrypt
    encrypt-owners b = search keeps_rules

    update_account_status-owners :
        (k : Uuid) (s : AccountStatus) → Keeps (SameOwners before) (update_account_status env k s)
    unfolding update_account_status
    update_account_status-owners k s = search (keeps_rules, set_status-owners)

    on_refresh_error-owners :
        (k : Uuid) (e : Err) → Keeps (SameOwners before) (on_refresh_error env k e)
    unfolding on_refresh_error
    on_refresh_error-owners k (Err.external t) = search (keeps_rules, update_account_status-owners)
    on_refresh_error-owners k e = search keeps_rules

    update_account_tokens-owners :
        (arg : UpdateAccountTokensParams)
        → Keeps (SameOwners before) (update_account_tokens env arg)
    unfolding update_account_tokens
    update_account_tokens-owners arg =
        search (store_rules, encrypt-owners, set_access_token-owners, set_tokens-owners) depth 8

    refresh_token-owners :
        (k : Uuid) (token : Token) → Keeps (SameOwners before) (refresh_token env k token)
    unfolding refresh_token
    refresh_token-owners k token =
        search (keeps_rules, on_refresh_error-owners, update_account_tokens-owners) depth 8

    is_valid-owners : (token : Token) → Keeps (SameOwners before) (is_valid env token)
    unfolding is_valid
    is_valid-owners token = record { at = λ w h. h }

    pub get_connected_account_by_id-owners :
        (k : Uuid) → Keeps (SameOwners before) (get_connected_account_by_id env k)
    unfolding get_connected_account_by_id
    get_connected_account_by_id-owners k = search store_rules

    pub get_valid_token_for_account-owners :
        (k : Uuid) → Keeps (SameOwners before) (get_valid_token_for_account env k)
    unfolding get_valid_token_for_account
    get_valid_token_for_account-owners k =
        search
          (keeps_rules, get_connected_account_by_id-owners, is_valid-owners, refresh_token-owners)
          depth 8

scanned :
    (o : Option ConnectedAccount) (failure : Option Text) (w : World) (acc : ConnectedAccount)
    → (attempt
        (attempt (run_statement failure (scan o w.db)) (or_missing account_not_found) pure)
        fail
        (λ a. pure (scan_account a))
        w).0
      ≡ ok acc
    → owner o ≡ some acc.user_id
unfolding attempt run_statement settle scan continue or_missing pure fail scan_account
scanned o (some t) w acc e = absurd (ground arith)
scanned none none w acc e = absurd (ground arith)
scanned (some a) none w acc e = ground arith

-- The account that is given has the owner of the key.
pub get_connected_account_by_id-owner :
    (env : Env) (k : Uuid) (w : World) (acc : ConnectedAccount)
    → (get_connected_account_by_id env k w).0 ≡ ok acc
    → owner (find (account_has k) w.db.connected_accounts) ≡ some acc.user_id
unfolding get_connected_account_by_id query select_row ◌>>=◌
get_connected_account_by_id-owner env k w acc e =
    scanned (find (account_has k) w.db.connected_accounts) (env.db_error w.tick) w acc e
