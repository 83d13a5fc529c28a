-- ===== src/Worker/Gmail/Cursor.antt =====
-- internal/worker/gmail/sync.go and gmail.go: the history id from which the next synchronisation starts.
use jeffrey_s_agenda_tool.Prelude.{
  ℕ, suc, ◌<◌, ◌^◌, Text, print_uint, parse_uint-print_uint, true, none, some, ◌≡◌, refl, any,
  find-update,
}
use jeffrey_s_agenda_tool.Domain.{Time, ConnectedAccount}
use jeffrey_s_agenda_tool.Database.{ok, to_timestamptz, account_has}
use jeffrey_s_agenda_tool.Google.{Token}
use jeffrey_s_agenda_tool.Action.{
  Env, World, pure, fail, lift, logged, clock, settle, run_statement, continue, attempt, query,
  ◌>>=◌, ◌>>◌,
}
use jeffrey_s_agenda_tool.Store.Sql.{exec, scan, select_row}
use jeffrey_s_agenda_tool.Store.Account.{update_account}
use jeffrey_s_agenda_tool.Store.Gmail.{
  set_sync_state, scan_sync_state, or_null, update_gmail_sync_state, get_gmail_sync_state,
}
use jeffrey_s_agenda_tool.Worker.Gmail.{store_history_id, incremental_sync, messages_to_process}

-- Once a history id that is not 0 and fits into 64 bits was stored, if the account exists and the
-- server answers, the next read of the synchronisation state succeeds, and with this state the next
-- synchronisation asks for the history from exactly this id on.
pub store_history_id-resumes :
    (env : Env) (token : Token) (acc : ConnectedAccount) (n : ℕ) (w : World)
    → suc n < 2 ^ 64
    → ((t : ℕ) → env.db_error t ≡ none)
    → any (account_has acc.id) w.db.connected_accounts ≡ true
    → (state : Text × Time) × ((get_gmail_sync_state env acc.id
          (store_history_id env token acc (suc n) w).1).0
        ≡ ok state)
      × (messages_to_process env token acc (some state)
          ≡ incremental_sync env token acc (some (suc n)))
unfolding store_history_id logged update_gmail_sync_state update_account exec get_gmail_sync_state
    select_row scan or_null scan_sync_state query run_statement settle attempt continue ◌>>=◌ ◌>>◌
    clock pure fail lift messages_to_process
store_history_id-resumes env token acc n w fits works exists =
    let now = env.now w.tick in
    let (row, found) =
      find-update (account_has acc.id)
        (set_sync_state (print_uint (suc n)) now (env.now (suc w.tick))) (λ a. refl)
        w.db.connected_accounts exists in
    (
      (print_uint (suc n), to_timestamptz now),
      rw (works (suc w.tick), works (suc (suc w.tick)), found) refl,
      rw (parse_uint-print_uint (suc n) fits) refl,
    )
