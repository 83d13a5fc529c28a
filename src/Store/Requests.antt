-- ===== src/Store/Requests.antt =====
-- internal/store: the requests that the store operations send.
pub mod Calls
use jeffrey_s_agenda_tool.Prelude.{Text, false, Option, none, some, List, [], ℕ, zero, suc, refl}
use jeffrey_s_agenda_tool.Database.{Err, ok, Db}
use jeffrey_s_agenda_tool.Google.{Request, Token}
use jeffrey_s_agenda_tool.Domain.{Bytes}
use jeffrey_s_agenda_tool.Action.{
  Env, World, Action, query, run_statement, settle, continue, attempt, fail, step, ◌>>=◌,
}
use jeffrey_s_agenda_tool.Action.Sends.{Grows, Sends, Sends-pure, Sends-fail, sends_rules}
use jeffrey_s_agenda_tool.Crypto.{encrypt}
use jeffrey_s_agenda_tool.Store.Sql.{select_rows, or_missing, require_rows}
use jeffrey_s_agenda_tool.Store.Account.{
  get_connected_account_by_id, update_account_status, update_account_tokens,
  update_account_last_checked,
}
use jeffrey_s_agenda_tool.Store.Account.Token.{
  on_refresh_error, refresh_token, is_valid, get_valid_token_for_account,
}
use jeffrey_s_agenda_tool.Store.Log.{found_nothing, create_automation_log, has_log_for_trigger}
use jeffrey_s_agenda_tool.Store.Rule.{get_rules_for_account}

module _ {Allowed : Request → Type 0} where
  pub Sends-or_missing :
      {A : Type 0} (missing e : Err) → Sends Allowed (or_missing {A = A} missing e)
  unfolding or_missing
  Sends-or_missing missing Err.no_rows = Sends-fail _
  Sends-or_missing missing other = Sends-fail _

  pub create_automation_log-Sends :
      (env : Env) (arg : _) → Sends Allowed (create_automation_log env arg)
  unfolding create_automation_log
  create_automation_log-Sends env arg = search sends_rules

  pub found_nothing-Sends : (env : Env) (e : Err) → Sends Allowed (found_nothing env e)
  unfolding found_nothing
  found_nothing-Sends env Err.no_rows = Sends-pure false
  found_nothing-Sends env other = Sends-fail _

  pub has_log_for_trigger-Sends :
      (env : Env) (k event : _) → Sends Allowed (has_log_for_trigger env k event)
  unfolding has_log_for_trigger
  has_log_for_trigger-Sends env k event = search (sends_rules, found_nothing-Sends)

  pub get_rules_for_account-Sends :
      (env : Env) (k : _) → Sends Allowed (get_rules_for_account env k)
  unfolding get_rules_for_account
  get_rules_for_account-Sends env k = search sends_rules

  pub Sends-require_rows : (e : Err) (n : ℕ) → Sends Allowed (require_rows e n)
  unfolding require_rows
  Sends-require_rows e zero = Sends-fail e
  Sends-require_rows e (suc n) = Sends-pure tt

  pub encrypt-Sends : (env : Env) (b : Bytes) → Sends Allowed (encrypt env b)
  unfolding encrypt
  encrypt-Sends env b = search sends_rules

  pub get_connected_account_by_id-Sends :
      (env : Env) (k : _) → Sends Allowed (get_connected_account_by_id env k)
  unfolding get_connected_account_by_id
  get_connected_account_by_id-Sends env k = search (sends_rules, Sends-or_missing)

  update_account_status-Sends :
      (env : Env) (k s : _) → Sends Allowed (update_account_status env k s)
  unfolding update_account_status
  update_account_status-Sends env k s = search sends_rules

  update_account_tokens-Sends :
      (env : Env) (arg : _) → Sends Allowed (update_account_tokens env arg)
  unfolding update_account_tokens
  update_account_tokens-Sends env arg = search (sends_rules, encrypt-Sends, Sends-require_rows)

  pub update_account_last_checked-Sends :
      (env : Env) (k : _) → Sends Allowed (update_account_last_checked env k)
  unfolding update_account_last_checked
  update_account_last_checked-Sends env k = search sends_rules

  is_valid-Sends : (env : Env) (token : Token) → Sends Allowed (is_valid env token)
  unfolding is_valid
  is_valid-Sends env token = record { at = λ w. ([], refl, tt) }

  on_refresh_error-Sends : (env : Env) (k : _) (e : Err) → Sends Allowed (on_refresh_error env k e)
  unfolding on_refresh_error
  on_refresh_error-Sends env k (Err.external t) = search (sends_rules, update_account_status-Sends)
  on_refresh_error-Sends env k e = search sends_rules

  refresh_token-Sends :
      (env : Env) (k : _) (token : Token) → Sends Allowed (refresh_token env k token)
  unfolding refresh_token
  refresh_token-Sends env k token =
      search (sends_rules, on_refresh_error-Sends, update_account_tokens-Sends)

  pub get_valid_token_for_account-Sends :
      (env : Env) (k : _) → Sends Allowed (get_valid_token_for_account env k)
  unfolding get_valid_token_for_account
  get_valid_token_for_account-Sends env k =
      search (sends_rules, get_connected_account_by_id-Sends, is_valid-Sends, refresh_token-Sends)

-- What follows a SELECT sees rows of the table alone.
module _ {A B : Type 0} {Allowed : Request → Type 0} where
  rows-Sends :
      (failure : Option Text) (rows : List A) (k : List A → Action B) (w : World)
      → Sends Allowed (k rows)
      → Grows Allowed w (attempt (run_statement failure (ok (rows, w.db))) fail k w).1
  unfolding run_statement settle attempt continue fail
  rows-Sends (some t) rows k w kk = ([], refl, tt)
  rows-Sends none rows k w kk = kk.at (step w)

  pub Sends-rows :
      (env : Env) (rows : Db → List A) (k : List A → Action B)
      → ((db : Db) → Sends Allowed (k (rows db)))
      → Sends Allowed (query env (select_rows rows) >>= k)
  unfolding query select_rows ◌>>=◌ attempt
  Sends-rows env rows k kk = record {
    at = λ w. rows-Sends (env.db_error w.tick) (rows w.db) k w (kk w.db);
  }
