-- ===== src/Store/Account/Token/Refresh.antt =====
-- internal/store/account/account.go: what GetValidTokenForAccount leaves behind.
use jeffrey_s_agenda_tool.Prelude.{
  ℕ, suc, Text, text, contains, true, false, ◌&&◌, none, some, List, [], ◌∷◌, ◌≡◌, refl, any, find,
  update_where, arith,
}
use jeffrey_s_agenda_tool.Domain.{Uuid, Time, AccountStatus, ConnectedAccount, is_active_status}
use jeffrey_s_agenda_tool.Database.{token_revoked, ok, err, Db, account_has}
use jeffrey_s_agenda_tool.Google.{Token, failed}
use jeffrey_s_agenda_tool.Action.{
  Env, World, pure, fail, settle, run_statement, receive, continue, attempt, query, ask, lift,
  logged, ◌>>=◌, ◌>>◌,
}
use jeffrey_s_agenda_tool.Store.Sql.{scan, select_row, exec}
use jeffrey_s_agenda_tool.Store.Account.{
  scan_account, set_status, update_account, update_account_status, get_connected_account_by_id,
}
use jeffrey_s_agenda_tool.Store.Account.Token.{
  get_decrypted_token, is_valid, on_refresh_error, refresh_token, get_valid_token_for_account,
}

-- No account of that key is active.
abbrev pub IsClosed : Uuid → Db → Type 0
IsClosed k db =
    any (λ a. account_has k a && is_active_status a.status) db.connected_accounts ≡ false

set_status-IsClosed :
    (k : Uuid) (now : Time) (rows : List ConnectedAccount)
    → any
        (λ a. account_has k a && is_active_status a.status)
        (update_where (account_has k) (set_status AccountStatus.revoked now) rows)
      ≡ false
set_status-IsClosed k now [] = refl
set_status-IsClosed k now (a ∷ rows) = ground (arith, set_status-IsClosed k now rows)

-- When Google answers the refresh with an error that names invalid_grant, and the server answers,
-- the caller gets the error that the access was revoked, and afterwards no account of that key is
-- active.
pub refresh_token-IsClosed :
    (env : Env) (k : Uuid) (token : Token) (w : World) (t : Text)
    → env.google.refresh w.tick token ≡ failed t
    → contains t (text "invalid_grant") ≡ true
    → ((n : ℕ) → env.db_error n ≡ none)
    → ((refresh_token env k token w).0 ≡ err token_revoked)
      × IsClosed k (refresh_token env k token w).1.db
unfolding refresh_token on_refresh_error ask receive attempt continue ◌>>◌ ◌>>=◌ logged
    update_account_status update_account exec query run_statement settle pure fail
refresh_token-IsClosed env k token w t refused named works =
    rw (refused, named, works (suc w.tick)) (refl, set_status-IsClosed k _ w.db.connected_accounts)

-- If the server answers, the account exists, and its row decrypts to a token that is still valid,
-- then GetValidTokenForAccount returns this token and the tables stay as they are.
pub get_valid_token-valid :
    (env : Env) (k : Uuid) (w : World) (acc : ConnectedAccount) (token : Token)
    → env.db_error w.tick ≡ none
    → find (account_has k) w.db.connected_accounts ≡ some acc
    → get_decrypted_token env (scan_account acc) ≡ ok token
    → env.google.token_valid (suc w.tick) token ≡ true
    → ((get_valid_token_for_account env k w).0 ≡ ok token)
      × ((get_valid_token_for_account env k w).1.db ≡ w.db)
unfolding get_valid_token_for_account get_connected_account_by_id query select_row scan
    run_statement settle attempt continue ◌>>=◌ lift is_valid pure fail
get_valid_token-valid env k w acc token works found decrypted valid =
    rw (works, found, decrypted, valid) (refl, refl)
