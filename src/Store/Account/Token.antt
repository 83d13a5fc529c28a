-- ===== src/Store/Account/Token.antt =====
-- internal/store/account/account.go: getDecryptedToken and GetValidTokenForAccount, which hands out
-- a token that is valid now, and refreshes and stores it first where it has expired.
pub mod Refresh
pub mod Stored
use jeffrey_s_agenda_tool.Prelude.{text, contains, is_empty, Bool, [], ◌∷◌, if◌then◌else◌}
use jeffrey_s_agenda_tool.Domain.{Uuid, Bytes, AccountStatus, ConnectedAccount}
use jeffrey_s_agenda_tool.Database.{Err, token_revoked, external, Result, ok, err, panic}
use jeffrey_s_agenda_tool.Google.{Token}
use jeffrey_s_agenda_tool.Action.{
  Env, Action, pure, fail, lift, step, attempt, ask, logged, ◌>>=◌, ◌>>◌,
}
use jeffrey_s_agenda_tool.Crypto.{decrypt}
use jeffrey_s_agenda_tool.Store.Account.{
  get_connected_account_by_id, update_account_status, update_account_tokens,
  UpdateAccountTokensParams,
}

infixl 5 ◌then◌
abbrev pub ◌then◌ : {A B : Type 0} → Result A → (A → Result B) → Result B
ok a then k = k a
err e then k = err e
panic then k = panic

module _ (env : Env) where
  -- A refresh token that is NULL stays empty.
  unfoldable pub decrypt_refresh_token : Bytes → Result Bytes
  decrypt_refresh_token [] = ok []
  decrypt_refresh_token (b ∷ bs) = decrypt env (b ∷ bs)

  unfoldable pub get_decrypted_token : ConnectedAccount → Result Token
  unfolding decrypt_refresh_token
  get_decrypted_token acc = decrypt env acc.access_token then λ access.
      decrypt_refresh_token acc.refresh_token then λ refresh.
      ok (record { access_token = access; refresh_token = refresh; expiry = acc.token_expiry })

  -- Token.Valid()
  unfoldable pub is_valid : Token → Action Bool
  is_valid token w = (ok (env.google.token_valid w.tick token), step w)

  -- The error of the refresh: revoked access closes the account.
  unfoldable pub on_refresh_error : Uuid → Err → Action Token
  on_refresh_error k (external t) =
      if contains t (text "invalid_grant")
      then logged (update_account_status env k AccountStatus.revoked) >> fail token_revoked
      else fail (external t)
  on_refresh_error k other = fail other

  -- Without a new refresh token the old one is kept.
  unfoldable pub keep_refresh_token : Token → Token → Token
  keep_refresh_token old new =
      if is_empty new.refresh_token then record new { refresh_token = old.refresh_token } else new

  unfoldable pub refresh_params : Uuid → Token → UpdateAccountTokensParams
  refresh_params k token = record {
    account_id = k;
    new_access_token = token.access_token;
    new_refresh_token = token.refresh_token;
    new_token_expiry = token.expiry;
  }

  unfoldable pub refresh_token : Uuid → Token → Action Token
  unfolding keep_refresh_token refresh_params
  refresh_token k token =
      attempt (ask λ n. env.google.refresh n token) (on_refresh_error k) λ answered. do
        let new = keep_refresh_token token answered
        update_account_tokens env (refresh_params k new)
        pure new

  unfoldable pub get_valid_token_for_account : Uuid → Action Token
  get_valid_token_for_account k = do
    acc ← get_connected_account_by_id env k
    token ← lift (get_decrypted_token acc)
    valid ← is_valid token
    if valid then pure token else refresh_token acc.id token
