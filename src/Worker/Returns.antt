-- ===== src/Worker/Returns.antt =====
-- internal/worker/worker.go: panics in a cycle.
use jeffrey_s_agenda_tool.Prelude.{List, [], ◌∷◌, map}
use jeffrey_s_agenda_tool.Domain.{ConnectedAccount}
use jeffrey_s_agenda_tool.Google.{Token}
use jeffrey_s_agenda_tool.Action.{Env, World, for_each}
use jeffrey_s_agenda_tool.Action.Returns.{
  IsReturn, Returns, Returns-pure, Returns-then, returns_rules,
}
use jeffrey_s_agenda_tool.Store.Account.{scan_account}
use jeffrey_s_agenda_tool.Store.Returns.{
  get_active_accounts-rows, get_valid_token_for_account-Returns,
  update_account_last_checked-Returns,
}
use jeffrey_s_agenda_tool.Worker.{process_with_token, process_account, check_accounts}
use jeffrey_s_agenda_tool.Worker.Calendar.Returns.{GivesTimes, process_events-Returns}

module _ (env : Env) (gives : GivesTimes env) where
  process_with_token-Returns :
      (row : ConnectedAccount) (token : Token)
      → Returns (process_with_token env (scan_account row) token)
  unfolding process_with_token scan_account
  process_with_token-Returns row token =
      search (returns_rules, process_events-Returns, update_account_last_checked-Returns)

  process_account-Returns :
      (row : ConnectedAccount) → Returns (process_account env (scan_account row))
  unfolding process_account
  process_account-Returns row =
      search (returns_rules, process_with_token-Returns, get_valid_token_for_account-Returns)

  process_rows-Returns :
      (rows : List ConnectedAccount)
      → Returns (for_each (map scan_account rows) (process_account env))
  unfolding for_each
  process_rows-Returns [] = Returns-pure tt
  process_rows-Returns (r ∷ rs) =
      Returns-then _ _ (process_account-Returns r) (process_rows-Returns rs)

  check_accounts-Returns : Returns (check_accounts env)
  unfolding check_accounts
  check_accounts-Returns = get_active_accounts-rows env _ process_rows-Returns

-- If the events that Google lists have a start and an end, a cycle over the accounts ends with a
-- result or an error, whatever the tables hold, the database refuses and Google answers: none of its
-- steps panics.
pub check_accounts-IsReturn :
    (env : Env) (w : World) → GivesTimes env → IsReturn (check_accounts env w).0
check_accounts-IsReturn env w gives = (check_accounts-Returns env gives).at w
