-- ===== src/Store/Account/Ticks.antt =====
-- internal/store/account/account.go: the number of steps that the token of an account takes.
use jeffrey_s_agenda_tool.Prelude.{ℕ, zero, suc, arith}
use jeffrey_s_agenda_tool.Domain.{Uuid, Bytes, AccountStatus}
use jeffrey_s_agenda_tool.Database.{Err}
use jeffrey_s_agenda_tool.Google.{Token}
use jeffrey_s_agenda_tool.Action.{Env}
use jeffrey_s_agenda_tool.Action.Ticks.{Ticks, Ticks-fail, Ticks-pure, ticks_rules}
use jeffrey_s_agenda_tool.Crypto.{encrypt}
use jeffrey_s_agenda_tool.Store.Sql.{or_missing, require_rows}
use jeffrey_s_agenda_tool.Store.Account.{
  UpdateAccountTokensParams, get_connected_account_by_id, update_account_status,
  update_account_tokens, update_account_last_checked,
}
use jeffrey_s_agenda_tool.Store.Account.Token.{
  is_valid, on_refresh_error, refresh_token, get_valid_token_for_account,
}

or_missing-Ticks : {A : Type 0} (missing e : Err) → Ticks (or_missing {A = A} missing e)
unfolding or_missing
or_missing-Ticks missing Err.no_rows = Ticks-fail _
or_missing-Ticks missing other = Ticks-fail _

require_rows-Ticks : (e : Err) (n : ℕ) → Ticks (require_rows e n)
unfolding require_rows
require_rows-Ticks e zero = Ticks-fail _
require_rows-Ticks e (suc n) = Ticks-pure tt

module _ (env : Env) where
  encrypt-Ticks : (b : Bytes) → Ticks (encrypt env b)
  unfolding encrypt
  encrypt-Ticks b = search ticks_rules

  get_connected_account_by_id-Ticks : (k : Uuid) → Ticks (get_connected_account_by_id env k)
  unfolding get_connected_account_by_id
  get_connected_account_by_id-Ticks k = search (ticks_rules, or_missing-Ticks)

  update_account_status-Ticks :
      (k : Uuid) (s : AccountStatus) → Ticks (update_account_status env k s)
  unfolding update_account_status
  update_account_status-Ticks k s = search ticks_rules

  on_refresh_error-Ticks : (k : Uuid) (e : Err) → Ticks (on_refresh_error env k e)
  unfolding on_refresh_error
  on_refresh_error-Ticks k (Err.external t) = search (ticks_rules, update_account_status-Ticks)
  on_refresh_error-Ticks k e = search ticks_rules

  update_account_tokens-Ticks :
      (arg : UpdateAccountTokensParams) → Ticks (update_account_tokens env arg)
  unfolding update_account_tokens
  update_account_tokens-Ticks arg = search (ticks_rules, encrypt-Ticks, require_rows-Ticks) depth 8

  refresh_token-Ticks : (k : Uuid) (token : Token) → Ticks (refresh_token env k token)
  unfolding refresh_token
  refresh_token-Ticks k token =
      search (ticks_rules, on_refresh_error-Ticks, update_account_tokens-Ticks) depth 8

  is_valid-Ticks : (token : Token) → Ticks (is_valid env token)
  unfolding is_valid
  is_valid-Ticks token = record { at = λ w. omega arith }

  pub get_valid_token_for_account-Ticks : (k : Uuid) → Ticks (get_valid_token_for_account env k)
  unfolding get_valid_token_for_account
  get_valid_token_for_account-Ticks k =
      search (ticks_rules, get_connected_account_by_id-Ticks, is_valid-Ticks, refresh_token-Ticks)
        depth 8

  pub update_account_last_checked-Ticks : (k : Uuid) → Ticks (update_account_last_checked env k)
  unfolding update_account_last_checked
  update_account_last_checked-Ticks k = search ticks_rules
