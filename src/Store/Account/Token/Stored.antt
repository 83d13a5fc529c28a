-- ===== src/Store/Account/Token/Stored.antt =====
-- internal/store/account/account.go: the row of an account after a refresh of its token.
use jeffrey_s_agenda_tool.Prelude.{
  ℕ, suc, is_empty, true, false, none, some, [], ◌∷◌, ◌≡◌, refl, any, find, find-update,
  length-keep, length,
}
use jeffrey_s_agenda_tool.Domain.{Uuid, Bytes, ConnectedAccount}
use jeffrey_s_agenda_tool.Database.{ok, account_has, to_timestamptz}
use jeffrey_s_agenda_tool.Google.{Token, answer}
use jeffrey_s_agenda_tool.Action.{
  Env, World, pure, fail, settle, run_statement, receive, continue, attempt, query, ask, step,
  ◌>>=◌, ◌>>◌,
}
use jeffrey_s_agenda_tool.Crypto.{key_size, decrypt}
use jeffrey_s_agenda_tool.Crypto.RoundTrip.{OpensSealed, FillsNonce, decrypt-encrypt}
use jeffrey_s_agenda_tool.Store.Sql.{exec, require_rows}
use jeffrey_s_agenda_tool.Store.Account.{
  scan_account, set_tokens, update_account, update_account_tokens,
}
use jeffrey_s_agenda_tool.Store.Account.Token.{
  decrypt_refresh_token, get_decrypted_token, keep_refresh_token, refresh_params, refresh_token,
}

pub decrypt_stored :
    (env : Env) (c plaintext : Bytes)
    → length env.encryption_key ≡ key_size
    → decrypt env c ≡ ok plaintext
    → decrypt_refresh_token env c ≡ ok plaintext
unfolding decrypt_refresh_token decrypt
decrypt_stored env [] plaintext fits h = cc (rw fits at h)
decrypt_stored env (b ∷ c) plaintext fits h = h

-- Both tokens of the row are encryptions, so the row decrypts to the two plaintexts.
pub get_decrypted_token-row :
    (env : Env) (acc : ConnectedAccount) (access refresh : Bytes)
    → decrypt env acc.access_token ≡ ok access
    → decrypt_refresh_token env acc.refresh_token ≡ ok refresh
    → get_decrypted_token env (scan_account acc)
      ≡ ok (record { access_token = access; refresh_token = refresh; expiry = acc.token_expiry })
unfolding get_decrypted_token scan_account
get_decrypted_token-row env acc access refresh a r = rw (a, r) refl

-- The token as its columns hold it: the expiry is cut to microseconds.
abbrev pub as_stored : Token → Token
as_stored token = record token { expiry = to_timestamptz token.expiry }

-- When Google answers the refresh with a token, which gets the old refresh token where it has
-- none, then, if that is not empty, the random source answers and fills the nonces, the server
-- answers, AES-GCM opens what it has sealed, the key has 32 bytes and the account exists: the
-- caller gets this token, and the row of the account decrypts to it, with the expiry cut to
-- microseconds.
pub refresh_token-stores :
    (env : Env) (k : Uuid) (old new : Token) (w : World)
    → OpensSealed env
    → FillsNonce env
    → length env.encryption_key ≡ key_size
    → ((n : ℕ) → (b : Bytes) × (env.nonce n ≡ answer b))
    → ((n : ℕ) → env.db_error n ≡ none)
    → any (account_has k) w.db.connected_accounts ≡ true
    → env.google.refresh w.tick old ≡ answer new
    → is_empty (keep_refresh_token env old new).refresh_token ≡ false
    → ((refresh_token env k old w).0 ≡ ok (keep_refresh_token env old new))
      × (acc : ConnectedAccount) × (find
            (account_has k)
            (refresh_token env k old w).1.db.connected_accounts
          ≡ some acc)
      × (get_decrypted_token env (scan_account acc)
          ≡ ok (as_stored (keep_refresh_token env old new)))
unfolding refresh_token update_account_tokens update_account exec query run_statement settle ask
    receive attempt continue ◌>>=◌ ◌>>◌ require_rows refresh_params pure fail is_empty
    get_decrypted_token
refresh_token-stores env k old new w opens fills fits draws works exists refreshed kept =
    let token = keep_refresh_token env old new in
    let (a, sealed_a, opened_a) =
      decrypt-encrypt env token.access_token (step w) opens fills fits (draws (suc w.tick)).0
        (draws (suc w.tick)).1 in
    let (r, sealed_r, opened_r) =
      decrypt-encrypt env token.refresh_token (step (step w)) opens fills fits
        (draws (suc (suc w.tick))).0 (draws (suc (suc w.tick))).1 in
    let (n, count) = length-keep (account_has k) w.db.connected_accounts exists in
    let tick = suc (suc (suc w.tick)) in
    let (acc, found) =
      find-update (account_has k) (set_tokens (refresh_params env k token) a r (env.now tick))
        (λ x. refl) w.db.connected_accounts exists in
    rw (refreshed, sealed_a, kept, sealed_r, works tick, count)
      (
        refl,
        set_tokens (refresh_params env k token) a r (env.now tick) acc,
        found,
        get_decrypted_token-row env _ token.access_token token.refresh_token opened_a
            (decrypt_stored env r token.refresh_token fits opened_r),
      )
