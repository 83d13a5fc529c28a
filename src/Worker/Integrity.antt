-- ===== src/Worker/Integrity.antt =====
-- internal/worker/worker.go: the invariant of the database over a cycle.
use jeffrey_s_agenda_tool.Domain.{ConnectedAccount}
use jeffrey_s_agenda_tool.Database.Integrity.{IsConsistent}
use jeffrey_s_agenda_tool.Google.{Token}
use jeffrey_s_agenda_tool.Action.{Env, World}
use jeffrey_s_agenda_tool.Action.Keeps.{Keeps, keeps_rules}
use jeffrey_s_agenda_tool.Store.Integrity.Accounts.{
  get_active_accounts-Keeps, update_account_last_checked-Keeps, get_valid_token_for_account-Keeps,
}
use jeffrey_s_agenda_tool.Store.Integrity.Rules.{create_automation_log-Keeps}
use jeffrey_s_agenda_tool.Worker.{process_with_token, process_account, check_accounts}
use jeffrey_s_agenda_tool.Worker.Calendar.Keeps.{process_events-Keeps}
use jeffrey_s_agenda_tool.Worker.Gmail.Integrity.{process_messages-Keeps}

module _ (env : Env) where
  process_with_token-Keeps :
      (acc : ConnectedAccount) (token : Token)
      → Keeps IsConsistent (process_with_token env acc token)
  unfolding process_with_token
  process_with_token-Keeps acc token = search (
    keeps_rules, process_events-Keeps, process_messages-Keeps, update_account_last_checked-Keeps,
    create_automation_log-Keeps,
  )

  process_account-Keeps : (acc : ConnectedAccount) → Keeps IsConsistent (process_account env acc)
  unfolding process_account
  process_account-Keeps acc =
      search (keeps_rules, process_with_token-Keeps, get_valid_token_for_account-Keeps)

-- A cycle over the accounts leaves a consistent database consistent, whatever the tables hold,
-- Google answers and the database refuses, and also when the processing of a message panics.
pub check_accounts-IsConsistent :
    (env : Env) (w : World) → IsConsistent w.db → IsConsistent (check_accounts env w).1.db
unfolding check_accounts
check_accounts-IsConsistent env w c =
    let cycle : Keeps IsConsistent (check_accounts env) =
      search (keeps_rules, get_active_accounts-Keeps, process_account-Keeps) in
    cycle.at w c
