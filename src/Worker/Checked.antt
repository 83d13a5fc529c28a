-- ===== src/Worker/Checked.antt =====
-- internal/worker/worker.go: an account whose token is valid is checked in a cycle.
mod Loop
use mathlib.Core.Path.{subst}
use jeffrey_s_agenda_tool.Prelude.{
  ℕ, suc, true, false, ◌==◌, Bool-cases, inl, inr, none, some, List, [], ◌∷◌, map, any, find, keep,
  ◌≡◌, ◌≤◌, refl, sym, arith,
}
use jeffrey_s_agenda_tool.Domain.{Uuid, Time, ConnectedAccount, is_active_status}
use jeffrey_s_agenda_tool.Database.{ok, account_has}
use jeffrey_s_agenda_tool.Google.{Token}
use jeffrey_s_agenda_tool.Action.{
  Env, World, step, Action, pure, attempt, continue, query, run_statement, settle, logged, for_each,
  ◌>>=◌, ◌>>◌,
}
use jeffrey_s_agenda_tool.Action.Keeps.{Keeps, keeps_rules}
use jeffrey_s_agenda_tool.Action.Answers.{
  Answers, answers_rules, then_lem, attempt-ok, logged_lem, logged-then,
}
use jeffrey_s_agenda_tool.Store.Sql.{select_rows}
use jeffrey_s_agenda_tool.Store.Returns.{
  get_valid_token_for_account-Returns, update_account_last_checked-Returns,
}
use jeffrey_s_agenda_tool.Store.Account.{
  scan_account, set_last_checked, get_active_accounts, update_account_last_checked,
}
use jeffrey_s_agenda_tool.Store.Account.Token.{
  get_decrypted_token, get_valid_token_for_account, decrypt_refresh_token,
}
use jeffrey_s_agenda_tool.Store.Account.Token.Refresh.{get_valid_token-valid}
use jeffrey_s_agenda_tool.Store.Account.Rows.{
  HasRow, create_automation_log-HasRow, get_valid_token_for_account-HasRow,
  update_account_last_checked-HasRow, update_account_last_checked-writes,
}
use jeffrey_s_agenda_tool.Store.Account.Ticks.{
  get_valid_token_for_account-Ticks, update_account_last_checked-Ticks,
}
use jeffrey_s_agenda_tool.Action.Ticks.{Ticks, ticks_rules}
use jeffrey_s_agenda_tool.Worker.{process_with_token, process_account, check_accounts}
use jeffrey_s_agenda_tool.Worker.Calendar.{process_events}
use jeffrey_s_agenda_tool.Worker.Calendar.Keeps.{process_events-Keeps}
use jeffrey_s_agenda_tool.Worker.Calendar.Ticks.{process_events-Ticks}
use jeffrey_s_agenda_tool.Worker.Calendar.Returns.{GivesTimes, process_events-Returns}
use Loop.{
  process_account-Answers, process_account-Ticks, process_rows, process_rows-done,
  process_rows-next, other-Keeps, keep-holds,
}

-- The tokens of the row decrypt to this one.
abbrev pub HasToken : Env → Token → ConnectedAccount → Type 0
HasToken env token a = get_decrypted_token env (scan_account a) ≡ ok token

-- The row says that it was checked at a time that the clock showed at that step or later.
abbrev pub IsCheckedFrom : ℕ → Env → ConnectedAccount → Type 0
IsCheckedFrom start env a = (n : ℕ) × (start ≤ n) × (a.last_checked ≡ some (env.now n))

abbrev WasChecked : ℕ → Env → Token → ConnectedAccount → Type 0
WasChecked start env token a = HasToken env token a × IsCheckedFrom start env a

module _ (env : Env) where
  HasToken-touch :
      (token : Token) (now : Time) (a : ConnectedAccount)
      → HasToken env token a
      → HasToken env token (set_last_checked now a)
  unfolding get_decrypted_token decrypt_refresh_token scan_account
  HasToken-touch token now a h = h

id_is : (i k : Uuid) → (i == k) ≡ true → i ≡ k
id_is i k h = ground arith

module _ (start : ℕ) (env : Env) (k : Uuid) (token : Token) (gives : GivesTimes env)
    (works : (n : ℕ) → env.db_error n ≡ none)
    (valid : (n : ℕ) → env.google.token_valid n token ≡ true) where
  -- The row has the token, and whatever else Q says.
  module _ (Q : ConnectedAccount → Type 0)
      (holds : (a : ConnectedAccount) → Q a → HasToken env token a) where
    with_token-writes :
        (row : ConnectedAccount) (w : World)
        → (row.id == k) ≡ true
        → start ≤ w.tick
        → HasRow k Q w.db
        → HasRow k
            (WasChecked start env token)
            (process_with_token env (scan_account row) token w).1.db
    unfolding process_with_token scan_account ◌>>◌ ◌>>=◌ attempt continue pure
    with_token-writes row w same later has =
        let events = process_events env (scan_account row) token in
        let grown = (process_events-Ticks env (scan_account row) token).at w in
        let since : start ≤ (events w).1.tick = omega arith in
        let written =
          update_account_last_checked-writes k Q env (WasChecked start env token) row.id
            (events w).1 same (works (events w).1.tick)
            (λ a q. (HasToken-touch env token _ a (holds a q), ((events w).1.tick, since, refl)))
            ((process_events-Keeps env (scan_account row) token
                (create_automation_log-HasRow k Q env)).at
              w has) in
        subst (λ v. HasRow k (WasChecked start env token) v.1.db)
          (sym (
            logged-then events (pure tt >> logged (update_account_last_checked env row.id)) w
              (process_events-Returns env (scan_account row) token gives)))
          (subst (λ v. HasRow k (WasChecked start env token) v.db)
            (sym (logged_lem (update_account_last_checked env row.id) (events w).1)) written)

    own-writes :
        (row : ConnectedAccount) (w : World)
        → (row.id == k) ≡ true
        → start ≤ w.tick
        → HasRow k Q w.db
        → HasRow k (WasChecked start env token) (process_account env (scan_account row) w).1.db
    unfolding process_account scan_account
    own-writes row w same later (a, found, q) =
        let grown = (get_valid_token_for_account-Ticks env row.id).at w in
        let same_key = id_is row.id k same in
        let (given, kept) =
          get_valid_token-valid env row.id w a token (works w.tick)
            (subst (λ i. find (account_has i) w.db.connected_accounts ≡ some a) (sym same_key)
              found)
            (holds a q) (valid (suc w.tick)) in
        subst (λ v. HasRow k (WasChecked start env token) v.1.db)
          (sym (attempt-ok (get_valid_token_for_account env row.id) _ _ w token given))
          (with_token-writes row (get_valid_token_for_account env row.id w).1 same (omega arith)
            (subst (HasRow k Q) (sym kept) (a, found, q)))

  -- A later step of the loop keeps what was written.
  process_account-keeps :
      (row : ConnectedAccount) (w : World)
      → start ≤ w.tick
      → HasRow k (WasChecked start env token) w.db
      → HasRow k (WasChecked start env token) (process_account env (scan_account row) w).1.db
  process_account-keeps row w later has = elim (Bool-cases (row.id == k)) [
    | inl same ↦ own-writes (WasChecked start env token) (λ a q. q.0) row w same later has
    | inr other ↦ (other-Keeps env k (WasChecked start env token) row other).at w has
  ]

  process_rows-keeps :
      (rows : List ConnectedAccount) (w : World)
      → start ≤ w.tick
      → HasRow k (WasChecked start env token) w.db
      → HasRow k (WasChecked start env token) (process_rows env rows w).1.db
  process_rows-keeps [] w later has = rw (process_rows-done env w) has
  process_rows-keeps (r ∷ rs) w later has =
      let grown = (process_account-Ticks env r).at w in
      rw (process_rows-next env gives r rs w) (
        process_rows-keeps rs (process_account env (scan_account r) w).1 (omega arith)
          (process_account-keeps r w later has))

  process_rows-writes :
      (rows : List ConnectedAccount) (w : World)
      → any (account_has k) rows ≡ true
      → start ≤ w.tick
      → HasRow k (HasToken env token) w.db
      → HasRow k (WasChecked start env token) (process_rows env rows w).1.db
  process_rows-writes [] w here later has = cc
  process_rows-writes (r ∷ rs) w here later has =
      let grown = (process_account-Ticks env r).at w in
      rw (process_rows-next env gives r rs w) (elim (Bool-cases (account_has k r)) [
        | inl same ↦
            process_rows-keeps rs _ (omega arith)
              (own-writes (HasToken env token) (λ a q. q) r w same later has)
        | inr other ↦
            process_rows-writes rs _ (ground arith) (omega arith)
              ((other-Keeps env k (HasToken env token) r other).at w has)
      ])

-- If the database serves every statement, the account is in the table, it is active, its tokens
-- decrypt, Google takes the token for valid, and the events it lists have a start and an end, then a cycle checks the account, whatever the other
-- accounts, the rules and the other replies of Google are: after the cycle the row of the account says
-- that it was last checked at a time that the clock showed in the cycle, and not before it.
pub check_accounts-IsCheckedFrom :
    (env : Env) (k : Uuid) (token : Token) (w : World) (a : ConnectedAccount)
    → GivesTimes env
    → ((n : ℕ) → env.db_error n ≡ none)
    → ((n : ℕ) → env.google.token_valid n token ≡ true)
    → find (account_has k) w.db.connected_accounts ≡ some a
    → is_active_status a.status ≡ true
    → HasToken env token a
    → HasRow k (IsCheckedFrom w.tick env) (check_accounts env w).1.db
unfolding check_accounts get_active_accounts query select_rows run_statement settle ◌>>=◌ attempt
    continue
check_accounts-IsCheckedFrom env k token w a gives works valid found active decrypted =
    let rows = keep (λ r. is_active_status r.status) w.db.connected_accounts in
    let (b, found_b, checked) =
      process_rows-writes w.tick env k token gives works valid rows (step w)
        (keep-holds k w.db.connected_accounts a found active) (omega arith) (a, found, decrypted) in
    rw (works w.tick) (b, found_b, checked.1)
