-- ===== src/Store/Account/Rows.antt =====
-- internal/store/account/account.go: the row of one account under the statements on others.
use mathlib.Core.Path.{subst}
use jeffrey_s_agenda_tool.Prelude.{
  Bool, true, false, ◌==◌, Bool-cases, inl, inr, Option, none, some, List, [], ◌∷◌, ◌≡◌, refl, ap,
  ◌∙◌, ◌⊎◌, ◌&&◌, any, find, find-holds, update_where, if◌then◌else◌, arith,
}
use jeffrey_s_agenda_tool.Domain.{Uuid, Time, Bytes, AccountStatus, ConnectedAccount}
use jeffrey_s_agenda_tool.Database.{Err, ok, Db, account_has}
use jeffrey_s_agenda_tool.Google.{Token}
use jeffrey_s_agenda_tool.Action.{
  Env, World, pure, attempt, continue, query, run_statement, settle, ◌>>=◌, ◌>>◌,
}
use jeffrey_s_agenda_tool.Action.Keeps.{
  Keeps, Safe, Keeps-lift, Keeps-pure, Keeps-bind, Keeps-query, Keeps-attempt, Keeps-ask,
  Keeps-then, Keeps-if, keeps_rules,
}
use jeffrey_s_agenda_tool.Action.Ensures.{
  Ensures, Ensures-pure, Ensures-fail, Ensures-attempt, Ensures-bind, Ensures-query,
  Keeps-bind-Ensures,
}
use jeffrey_s_agenda_tool.Crypto.{encrypt}
use jeffrey_s_agenda_tool.Store.Sql.{
  scan, select_row, exec, or_missing, Safe-exec, same_db, store_rules,
}
use jeffrey_s_agenda_tool.Store.Log.{
  CreateLogParams, insert_log, refers_to_rule, create_automation_log,
}
use jeffrey_s_agenda_tool.Store.Account.{
  UpdateAccountTokensParams, update_account, scan_account, set_tokens, set_access_token,
  set_last_checked, get_connected_account_by_id, update_account_status, update_account_tokens,
  update_account_last_checked,
}
use jeffrey_s_agenda_tool.Store.Account.Token.{
  is_valid, on_refresh_error, refresh_token, get_valid_token_for_account,
}

-- The account of that key is in the table, and its row has Q.
abbrev pub HasRow : Uuid → (ConnectedAccount → Type 0) → Db → Type 0
HasRow k Q db = (a : ConnectedAccount) × (find (account_has k) db.connected_accounts ≡ some a) × Q a

pub find-update_where :
    {A : Type 0} (p q : A → Bool) (f : A → A)
    → ((x : A) → p (f x) ≡ p x)
    → (xs : List A) (a : A) → find p xs ≡ some a
    → find p (update_where q f xs) ≡ some (if q a then f a else a)
find-update_where p q f same [] a h = cc
find-update_where p q f same (x ∷ xs) a h = elim (Bool-cases (p x)) [
  | inl here ↦ elim (Bool-cases (q x)) [
    | inl hit ↦ ground (arith, same x)
    | inr miss ↦ ground arith
  ]
  | inr later ↦ elim (Bool-cases (q x)) [
    | inl hit ↦ ground (arith, same x, find-update_where p q f same xs a)
    | inr miss ↦ ground (arith, find-update_where p q f same xs a)
  ]
]

key_of_found :
    (k : Uuid) (db : Db) (a : ConnectedAccount)
    → find (account_has k) db.connected_accounts ≡ some a
    → a.id ≡ k
key_of_found k db a found =
    let has = find-holds (account_has k) db.connected_accounts a found in ground arith

or_missing-Ensures :
    {A : Type 0} {P : A → Type 0} (missing e : Err) → Ensures P (or_missing {A = A} missing e)
unfolding or_missing
or_missing-Ensures missing Err.no_rows = Ensures-fail _ _
or_missing-Ensures missing other = Ensures-fail _ _

scan-found :
    {A : Type 0} (o : Option A) (db db' : Db) (a : A) → scan o db ≡ ok (a, db') → o ≡ some a
unfolding scan
scan-found none db db' a e = cc
scan-found (some x) db db' a e = ground arith

-- The account that is looked up has the key.
get_connected_account_by_id-id :
    (env : Env) (k : Uuid) → Ensures (λ acc. acc.id ≡ k) (get_connected_account_by_id env k)
unfolding get_connected_account_by_id select_row scan_account
get_connected_account_by_id-id env k =
    Ensures-bind (λ a. a.id ≡ k) _ _
      (Ensures-attempt (λ a. a.id ≡ k) _ _ _
        (Ensures-query _ env _ (λ now id db db' a e. key_of_found k db a (scan-found _ db db' a e)))
        (or_missing-Ensures _) (λ a h. Ensures-pure _ a h))
      (λ a h. Ensures-pure _ _ h)

module _ (k : Uuid) (Q : ConnectedAccount → Type 0) where
  -- An UPDATE keeps Q of the row if it does so where it touches the row.
  pub update_account-HasRow :
      (k' : Uuid) (change : Time → ConnectedAccount → ConnectedAccount)
      → ((now : Time) (a : ConnectedAccount) → (change now a).id ≡ a.id)
      → ((now : Time) (a : ConnectedAccount)
          → a.id == k ≡ true
          → a.id == k' ≡ true
          → Q a
          → Q (change now a))
      → Safe (HasRow k Q) (update_account k' change)
  unfolding update_account
  update_account-HasRow k' change same keeps =
      Safe-exec _ _
        (λ now db row. updated now db row.0 row.1 row.2 (Bool-cases (account_has k' row.0)))
    where
      updated :
          (now : Time) (db : Db) (a : ConnectedAccount)
          → find (account_has k) db.connected_accounts ≡ some a
          → Q a
          → (account_has k' a ≡ true) ⊎ (account_has k' a ≡ false)
          → HasRow k Q (record db {
            connected_accounts = update_where (account_has k') (change now) db.connected_accounts;
          })
      updated now db a found q (inl hit) = (
        change now a,
        find-update_where (account_has k) (account_has k') (change now)
              (λ x. ap (λ i. i == k) (same now x)) db.connected_accounts a found
            ∙ rw hit refl,
        keeps now a (find-holds (account_has k) db.connected_accounts a found) hit q,
      )
      updated now db a found q (inr miss) = (
        a,
        find-update_where (account_has k) (account_has k') (change now)
              (λ x. ap (λ i. i == k) (same now x)) db.connected_accounts a found
            ∙ rw miss refl,
        q,
      )

  -- A log is written to another table.
  insert_log-HasRow : (arg : CreateLogParams) → Safe (HasRow k Q) (insert_log arg)
  unfolding insert_log
  insert_log-HasRow arg = record {
    at = λ now id db u db' row e.
        elim (Bool-cases (
          any (account_has arg.connected_account_id) db.connected_accounts
          && refers_to_rule arg.rule_id db)) [
            | inr refused ↦ cc refused
            | inl fits ↦ subst (HasRow k Q) (same_db _ _ _ _ (rw fits at e)) row
          ];
  }

  pub create_automation_log-HasRow :
      (env : Env) (arg : CreateLogParams) → Keeps (HasRow k Q) (create_automation_log env arg)
  unfolding create_automation_log
  create_automation_log-HasRow env arg = search (keeps_rules, insert_log-HasRow)

  module _ (env : Env) (k' : Uuid) (other : (k' == k) ≡ false) where
    -- The statements on an account of another key.
    other-HasRow :
        (change : Time → ConnectedAccount → ConnectedAccount)
        → ((now : Time) (a : ConnectedAccount) → (change now a).id ≡ a.id)
        → Safe (HasRow k Q) (update_account k' change)
    other-HasRow change same =
        update_account-HasRow k' change same (λ now a h h' q. absurd (ground arith))

    update_account_status-HasRow :
        (s : AccountStatus) → Keeps (HasRow k Q) (update_account_status env k' s)
    unfolding update_account_status ◌>>=◌ ◌>>◌
    update_account_status-HasRow s =
        Keeps-bind _ _ (Keeps-query _ _ (other-HasRow _ (λ now a. refl))) (λ n. Keeps-pure tt)

    on_refresh_error-HasRow : (e : Err) → Keeps (HasRow k Q) (on_refresh_error env k' e)
    unfolding on_refresh_error
    on_refresh_error-HasRow (Err.external t) = search (keeps_rules, update_account_status-HasRow)
    on_refresh_error-HasRow e = search keeps_rules

  encrypt-Keeps : (env : Env) (b : Bytes) → Keeps (HasRow k Q) (encrypt env b)
  unfolding encrypt
  encrypt-Keeps env b = search keeps_rules

  module _ (env : Env) (arg : UpdateAccountTokensParams)
      (other : (arg.account_id == k) ≡ false) where
    set_access_token-HasRow :
        (b : Bytes) → Safe (HasRow k Q) (update_account arg.account_id (set_access_token arg b))
    set_access_token-HasRow b = other-HasRow env arg.account_id other _ (λ now a. refl)

    set_tokens-HasRow :
        (b c : Bytes) → Safe (HasRow k Q) (update_account arg.account_id (set_tokens arg b c))
    set_tokens-HasRow b c = other-HasRow env arg.account_id other _ (λ now a. refl)

    update_account_tokens-HasRow : Keeps (HasRow k Q) (update_account_tokens env arg)
    unfolding update_account_tokens
    update_account_tokens-HasRow =
        search (store_rules, encrypt-Keeps, set_access_token-HasRow, set_tokens-HasRow) depth 8

  module _ (env : Env) where
    refresh_token-HasRow :
        (k' : Uuid) (token : Token)
        → (k' == k) ≡ false
        → Keeps (HasRow k Q) (refresh_token env k' token)
    unfolding refresh_token
    refresh_token-HasRow k' token other =
        Keeps-attempt _ _ _ (Keeps-ask _) (on_refresh_error-HasRow env k' other)
          λ answered. Keeps-then _ _ (update_account_tokens-HasRow env _ other) (Keeps-pure _)

    is_valid-Keeps : (token : Token) → Keeps (HasRow k Q) (is_valid env token)
    unfolding is_valid
    is_valid-Keeps token = record { at = λ w h. h }

    get_connected_account_by_id-Keeps :
        (k' : Uuid) → Keeps (HasRow k Q) (get_connected_account_by_id env k')
    unfolding get_connected_account_by_id
    get_connected_account_by_id-Keeps k' = search store_rules

    -- A token of another account, which may be refreshed and stored.
    pub get_valid_token_for_account-HasRow :
        (k' : Uuid) → (k' == k) ≡ false → Keeps (HasRow k Q) (get_valid_token_for_account env k')
    unfolding get_valid_token_for_account
    get_valid_token_for_account-HasRow k' other =
        Keeps-bind-Ensures (λ acc. acc.id ≡ k') _ _ (get_connected_account_by_id-Keeps k')
          (get_connected_account_by_id-id env k')
          λ acc same. Keeps-bind _ _ (Keeps-lift _) λ token.
            Keeps-bind _ _ (is_valid-Keeps token) λ valid.
              Keeps-if valid _ _ (Keeps-pure token)
                (refresh_token-HasRow acc.id token (rw same other))

    -- The check of another account is recorded.
    pub update_account_last_checked-HasRow :
        (k' : Uuid) → (k' == k) ≡ false → Keeps (HasRow k Q) (update_account_last_checked env k')
    unfolding update_account_last_checked ◌>>=◌ ◌>>◌
    update_account_last_checked-HasRow k' other =
        Keeps-bind _ _ (Keeps-query _ _ (other-HasRow env k' other _ (λ now a. refl)))
          (λ n. Keeps-pure tt)

    -- If the server answers, the time of the check is written in the row.
    pub update_account_last_checked-writes :
        (P : ConnectedAccount → Type 0) (k' : Uuid) (w : World)
        → (k' == k) ≡ true
        → env.db_error w.tick ≡ none
        → ((a : ConnectedAccount) → Q a → P (set_last_checked (env.now w.tick) a))
        → HasRow k Q w.db
        → HasRow k P (update_account_last_checked env k' w).1.db
    unfolding update_account_last_checked update_account exec query run_statement settle ◌>>=◌ ◌>>◌
        attempt continue pure
    update_account_last_checked-writes P k' w same works checked (a, found, q) = rw works (
      set_last_checked (env.now w.tick) a,
      find-update_where (account_has k) (account_has k') (set_last_checked (env.now w.tick))
            (λ x. refl) w.db.connected_accounts a found
          ∙ rw (hit (find-holds (account_has k) w.db.connected_accounts a found)) refl,
      checked a q,
    )
      where
        hit : account_has k a ≡ true → account_has k' a ≡ true
        hit here = ground arith
