-- ===== src/Store/Account/Connect.antt =====
-- internal/store/account/account.go: what UpsertConnectedAccount leaves in the table.
use jeffrey_s_agenda_tool.Prelude.{
  ℕ, suc, Text, text_eq, text_eq_refl, is_empty, Bool, true, false, ◌&&◌, ◌==◌, Option, none, some,
  List, [], ◌∷◌, ◌++◌, ◌≡◌, refl, ◌∙◌, ap, any, find, length, update_where, arith, Bool-cases, inl,
  inr,
}
use jeffrey_s_agenda_tool.Domain.{
  Uuid, Bytes, Time, ProviderType, google, microsoft, AccountStatus, ConnectedAccount, provider_eq,
}
use jeffrey_s_agenda_tool.Database.{ok, to_timestamptz, Db, account_has, user_has}
use jeffrey_s_agenda_tool.Google.{answer}
use jeffrey_s_agenda_tool.Action.{
  Env, World, pure, fail, settle, run_statement, continue, attempt, query, step, ◌>>=◌,
}
use jeffrey_s_agenda_tool.Crypto.{key_size, encrypt, decrypt}
use jeffrey_s_agenda_tool.Crypto.RoundTrip.{OpensSealed, FillsNonce, decrypt-encrypt}
use jeffrey_s_agenda_tool.Store.Account.{
  UpsertConnectedAccountParams, scan_account, new_account, reconnect, upsert_at, upsert_account,
  encrypt_refresh_token, upsert_connected_account,
}
use jeffrey_s_agenda_tool.Store.Account.Token.{decrypt_refresh_token, get_decrypted_token}
use jeffrey_s_agenda_tool.Store.Account.Token.Stored.{decrypt_stored, get_decrypted_token-row}

-- The account of the user at the provider that the arguments name.
abbrev pub is_account_of : UpsertConnectedAccountParams → ConnectedAccount → Bool
is_account_of arg b =
    b.user_id == arg.user_id
    && provider_eq b.provider arg.provider
    && text_eq b.provider_user_id arg.provider_user_id

module _ {A : Type 0} (p : A → Bool) where
  find-append :
      (xs : List A) (x : A) → find p xs ≡ none → p x ≡ true → find p (xs ++ x ∷ []) ≡ some x
  find-append [] x h e = rw e refl
  find-append (y ∷ xs) x h e = elim (Bool-cases (p y)) [
    | inl q ↦ cc (rw q at h)
    | inr q ↦ rw q (find-append xs x (rw q at h) e)
  ]

  find-updated :
      (f : A → A)
      → ((x : A) → p (f x) ≡ p x)
      → (xs : List A) (x : A) → find p xs ≡ some x
      → find p (update_where p f xs) ≡ some (f x)
  find-updated f same [] x h = cc
  find-updated f same (y ∷ xs) x h = elim (Bool-cases (p y)) [
    | inl q ↦ rw (q, same y, q) (ground (arith, q))
    | inr q ↦ rw (q, q) (find-updated f same xs x (rw q at h))
  ]

provider_eq_refl : (p : ProviderType) → provider_eq p p ≡ true
provider_eq_refl google = refl
provider_eq_refl microsoft = refl

-- The row is the account that the arguments name, active, with these tokens.
abbrev pub IsConnected :
    UpsertConnectedAccountParams → Bytes → Bytes → Db → ConnectedAccount → Type 0
IsConnected arg access refresh db row =
    (find (is_account_of arg) db.connected_accounts ≡ some row)
    × (row.status ≡ AccountStatus.active)
    × (row.access_token ≡ access)
    × (row.refresh_token ≡ refresh)
    × (row.token_expiry ≡ to_timestamptz arg.token_expiry)

module _ (arg : UpsertConnectedAccountParams) (access refresh : Bytes) (now : Time) (id : Uuid)
    (db : Db) where
  upsert_at-IsConnected :
      (o : Option ConnectedAccount)
      → find (is_account_of arg) db.connected_accounts ≡ o
      → any (user_has arg.user_id) db.users ≡ true
      → any (account_has id) db.connected_accounts ≡ false
      → (row : ConnectedAccount) × (db' : Db) × (upsert_at o arg access refresh now id db
          ≡ ok (scan_account row, db'))
        × IsConnected arg access refresh db' row
  unfolding upsert_at
  upsert_at-IsConnected (some a) found user free = (
    reconnect now arg access refresh a,
    _,
    refl,
    (
      find-updated (is_account_of arg) (reconnect now arg access refresh) (λ x. refl)
          db.connected_accounts a found,
      refl,
      refl,
      refl,
      refl,
    ),
  )
  upsert_at-IsConnected none found user free =
      let row = new_account now id arg access refresh in
      let itself : is_account_of arg row ≡ true =
        ground (arith, provider_eq_refl arg.provider, text_eq_refl arg.provider_user_id) in
      (
        row,
        record db { connected_accounts = db.connected_accounts ++ row ∷ [] },
        rw (free, user) refl,
        (
          find-append (is_account_of arg) db.connected_accounts row found itself,
          refl,
          refl,
          refl,
          refl,
        ),
      )

encrypt_refresh-nonempty :
    (env : Env) (t : Text) → is_empty t ≡ false → encrypt_refresh_token env t ≡ encrypt env t
unfolding encrypt_refresh_token
encrypt_refresh-nonempty env t h = rw h refl

IsConnected-decrypts :
    (env : Env) (arg : UpsertConnectedAccountParams) (row : ConnectedAccount) (a r : Bytes)
    → row.access_token ≡ a
    → row.refresh_token ≡ r
    → row.token_expiry ≡ to_timestamptz arg.token_expiry
    → decrypt env a ≡ ok arg.access_token
    → decrypt_refresh_token env r ≡ ok arg.refresh_token
    → get_decrypted_token env (scan_account row)
      ≡ ok (record {
        access_token = arg.access_token;
        refresh_token = arg.refresh_token;
        expiry = to_timestamptz arg.token_expiry;
      })
IsConnected-decrypts env arg row a r access refresh expiry opened_a opened_r =
    get_decrypted_token-row env row arg.access_token arg.refresh_token (rw access opened_a)
      (rw refresh opened_r)
    ∙ ap
        (λ t. ok (record {
          access_token = arg.access_token;
          refresh_token = arg.refresh_token;
          expiry = t;
        }))
        expiry

-- If the user exists, the refresh token is not empty, the random source answers and fills the
-- nonces, the server answers, the drawn id is not in use, AES-GCM opens what it has sealed and
-- the key has 32 bytes, then connecting an account succeeds, whether it is new or known: the row
-- of this user, provider and identity is returned, it is active, and it decrypts to the tokens
-- that were given, with their expiry cut to microseconds.
pub upsert_connected_account-stores :
    (env : Env) (arg : UpsertConnectedAccountParams) (w : World)
    → OpensSealed env
    → FillsNonce env
    → length env.encryption_key ≡ key_size
    → ((n : ℕ) → (b : Bytes) × (env.nonce n ≡ answer b))
    → ((n : ℕ) → env.db_error n ≡ none)
    → any (user_has arg.user_id) w.db.users ≡ true
    → ((n : ℕ) → any (account_has (env.gen_random_uuid n)) w.db.connected_accounts ≡ false)
    → is_empty arg.refresh_token ≡ false
    → (row : ConnectedAccount) × ((upsert_connected_account env arg w).0 ≡ ok (scan_account row))
      × (find (is_account_of arg) (upsert_connected_account env arg w).1.db.connected_accounts
          ≡ some row)
      × (row.status ≡ AccountStatus.active)
      × (get_decrypted_token env (scan_account row)
          ≡ ok (record {
            access_token = arg.access_token;
            refresh_token = arg.refresh_token;
            expiry = to_timestamptz arg.token_expiry;
          }))
unfolding upsert_connected_account upsert_account query run_statement settle attempt continue ◌>>=◌
    pure fail
upsert_connected_account-stores env arg w opens fills fits draws works user free kept =
    let (a, sealed_a, opened_a) =
      decrypt-encrypt env arg.access_token w opens fills fits (draws w.tick).0 (draws w.tick).1 in
    let (r, sealed_r, opened_r) =
      decrypt-encrypt env arg.refresh_token (step w) opens fills fits (draws (suc w.tick)).0
        (draws (suc w.tick)).1 in
    let tick = suc (suc w.tick) in
    let (row, db', upserted, (found, active, access, refresh, expiry)) =
      upsert_at-IsConnected arg a r (env.now tick) (env.gen_random_uuid tick) w.db _ refl user
        (free tick) in
    rw
      (
        sealed_a,
        encrypt_refresh-nonempty env arg.refresh_token kept,
        sealed_r,
        works tick,
        upserted,
      )
      (
        row,
        refl,
        found,
        active,
        IsConnected-decrypts env arg row a r access refresh expiry opened_a
            (decrypt_stored env r arg.refresh_token fits opened_r),
      )
