-- ===== src/Worker.antt =====
-- internal/worker/worker.go: one cycle over the active accounts. The goroutines of a cycle share only
-- the database and Google, and appear one after the other, in the order in which they are started.
pub mod Calendar
pub mod Gmail
pub mod Requests
pub mod Returns
pub mod Integrity
pub mod Checked
use jeffrey_s_agenda_tool.Prelude.{Bool, true, false, if◌then◌else◌}
use jeffrey_s_agenda_tool.Domain.{ConnectedAccount}
use jeffrey_s_agenda_tool.Google.{Token}
use jeffrey_s_agenda_tool.Action.{Env, Action, pure, attempt, logged, for_each, ◌>>=◌, ◌>>◌}
use jeffrey_s_agenda_tool.Store.Account.{get_active_accounts, update_account_last_checked}
use jeffrey_s_agenda_tool.Store.Account.Token.{get_valid_token_for_account}
use Calendar.{process_events}
use Gmail.{process_messages}

module _ (env : Env) where
  -- The steps for an account whose token is valid; an error of one step does not stop the next.
  unfoldable pub process_with_token : ConnectedAccount → Token → Action (Unit {0})
  process_with_token acc token = do
    logged (process_events env acc token)
    if acc.gmail_sync_enabled then logged (process_messages env acc token) else pure tt
    logged (update_account_last_checked env acc.id)

  unfoldable pub process_account : ConnectedAccount → Action (Unit {0})
  process_account acc =
      attempt (get_valid_token_for_account env acc.id) (λ _. pure tt) (process_with_token acc)

  unfoldable pub check_accounts : Action (Unit {0})
  check_accounts = do accounts ← get_active_accounts env; for_each accounts process_account
