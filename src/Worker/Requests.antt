-- ===== src/Worker/Requests.antt =====
-- internal/worker/worker.go: the requests that a cycle sends.
use jeffrey_s_agenda_tool.Prelude.{List, [], ◌∷◌, ◌≡◌, ◌++◌, map, All}
use jeffrey_s_agenda_tool.Domain.{ConnectedAccount}
use jeffrey_s_agenda_tool.Google.{Token, Request}
use jeffrey_s_agenda_tool.Action.{Env, World, for_each}
use jeffrey_s_agenda_tool.Action.Sends.{Sends, Sends-pure, Sends-then, sends_rules}
use jeffrey_s_agenda_tool.Store.Account.{scan_account, get_active_accounts}
use jeffrey_s_agenda_tool.Store.Requests.{
  Sends-rows, get_valid_token_for_account-Sends, update_account_last_checked-Sends,
}
use jeffrey_s_agenda_tool.Worker.{process_with_token, process_account, check_accounts}
use jeffrey_s_agenda_tool.Worker.Calendar.Requests.{IsReminder, process_events-Sends}

module _ (env : Env) where
  process_with_token-Sends :
      (row : ConnectedAccount) (token : Token)
      → Sends IsReminder (process_with_token env (scan_account row) token)
  unfolding process_with_token scan_account
  process_with_token-Sends row token =
      search (sends_rules, process_events-Sends, update_account_last_checked-Sends)

  process_account-Sends :
      (row : ConnectedAccount) → Sends IsReminder (process_account env (scan_account row))
  unfolding process_account
  process_account-Sends row =
      search (sends_rules, process_with_token-Sends, get_valid_token_for_account-Sends)

  process_rows-Sends :
      (rows : List ConnectedAccount)
      → Sends IsReminder (for_each (map scan_account rows) (process_account env))
  unfolding for_each
  process_rows-Sends [] = Sends-pure tt
  process_rows-Sends (r ∷ rs) = Sends-then _ _ (process_account-Sends r) (process_rows-Sends rs)

  pub check_accounts-Sends : Sends IsReminder (check_accounts env)
  unfolding check_accounts get_active_accounts
  check_accounts-Sends = Sends-rows env _ _ (λ db. process_rows-Sends _)

-- Whatever the tables hold and Google answers, the requests that a cycle over the accounts adds to
-- those already sent are all insertions of a calendar event whose description starts with the
-- reminder prefix: no mail is sent, and no message or label of Gmail is changed.
pub check_accounts-reminders :
    (env : Env) (w : World)
    → (new : List Request) × ((check_accounts env w).1.requests ≡ new ++ w.requests)
      × All IsReminder new
check_accounts-reminders env w = (check_accounts-Sends env).at w
