-- ===== src/Worker/Checked/Loop.antt =====
-- internal/worker/worker.go: the loop of a cycle over the accounts, and the accounts it goes over.
use jeffrey_s_agenda_tool.Prelude.{
  true, false, ◌==◌, Bool-cases, inl, inr, some, List, [], ◌∷◌, map, any, find, keep, ◌≡◌, refl,
  arith,
}
use jeffrey_s_agenda_tool.Domain.{Uuid, ConnectedAccount, is_active_status}
use jeffrey_s_agenda_tool.Database.{account_has}
use jeffrey_s_agenda_tool.Action.{Env, World, Action, pure, for_each}
use jeffrey_s_agenda_tool.Action.Keeps.{Keeps, keeps_rules}
use jeffrey_s_agenda_tool.Action.Answers.{Answers, answers_rules, then_lem}
use jeffrey_s_agenda_tool.Store.Returns.{
  get_valid_token_for_account-Returns, update_account_last_checked-Returns,
}
use jeffrey_s_agenda_tool.Store.Account.{scan_account}
use jeffrey_s_agenda_tool.Store.Account.Rows.{
  HasRow, create_automation_log-HasRow, get_valid_token_for_account-HasRow,
  update_account_last_checked-HasRow,
}
use jeffrey_s_agenda_tool.Store.Account.Ticks.{
  get_valid_token_for_account-Ticks, update_account_last_checked-Ticks,
}
use jeffrey_s_agenda_tool.Action.Ticks.{Ticks, ticks_rules}
use jeffrey_s_agenda_tool.Worker.{process_with_token, process_account}
use jeffrey_s_agenda_tool.Worker.Calendar.Keeps.{process_events-Keeps}
use jeffrey_s_agenda_tool.Worker.Calendar.Ticks.{process_events-Ticks}
use jeffrey_s_agenda_tool.Worker.Calendar.Returns.{GivesTimes, process_events-Returns}

module _ (env : Env) where
  pub process_account-Answers :
      GivesTimes env → (row : ConnectedAccount) → Answers (process_account env (scan_account row))
  unfolding process_account process_with_token scan_account
  process_account-Answers gives row =
      search
        (
          answers_rules, get_valid_token_for_account-Returns, process_events-Returns,
          update_account_last_checked-Returns,
        )
        depth 8

  pub process_account-Ticks :
      (row : ConnectedAccount) → Ticks (process_account env (scan_account row))
  unfolding process_account process_with_token scan_account
  process_account-Ticks row =
      search
        (
          ticks_rules, get_valid_token_for_account-Ticks, process_events-Ticks,
          update_account_last_checked-Ticks,
        )
        depth 8

  -- The loop of a cycle over the rows.
  abbrev pub process_rows : List ConnectedAccount → Action (Unit {0})
  process_rows rows = for_each (map scan_account rows) (process_account env)

  pub process_rows-done : (w : World) → (process_rows [] w).1 ≡ w
  unfolding for_each pure
  process_rows-done w = refl

  pub process_rows-next :
      GivesTimes env
      → (r : ConnectedAccount) (rs : List ConnectedAccount) (w : World)
      → process_rows (r ∷ rs) w ≡ process_rows rs (process_account env (scan_account r) w).1
  unfolding for_each
  process_rows-next gives r rs w =
      then_lem (process_account env (scan_account r)) (process_rows rs) w
        ((process_account-Answers gives r).at w)

  -- What the check of an account keeps of the row of another one.
  pub other-Keeps :
      (k : Uuid) (Q : ConnectedAccount → Type 0) (row : ConnectedAccount)
      → (row.id == k) ≡ false
      → Keeps (HasRow k Q) (process_account env (scan_account row))
  unfolding process_account process_with_token scan_account
  other-Keeps k Q row other =
      search
        (
          keeps_rules, get_valid_token_for_account-HasRow, process_events-Keeps,
          create_automation_log-HasRow, update_account_last_checked-HasRow,
        )
        depth 8

-- The accounts that the cycle goes over hold an active one that is in the table.
pub keep-holds :
    (k : Uuid) (rows : List ConnectedAccount) (a : ConnectedAccount)
    → find (account_has k) rows ≡ some a
    → is_active_status a.status ≡ true
    → any (account_has k) (keep (λ r. is_active_status r.status) rows) ≡ true
keep-holds k [] a found active = cc
keep-holds k (r ∷ rows) a found active = elim (Bool-cases (account_has k r)) [
  | inl here ↦ ground arith
  | inr later ↦ ground (arith, keep-holds k rows a)
]
