-- ===== src/Store/Log/Recent.antt =====
-- internal/store/log/log.go: GetLogsForAccount.
use mathlib.Core.List.{Perm}
use jeffrey_s_agenda_tool.Prelude.{
  ℕ, zero, suc, ◌≤◌, ◌==◌, none, List, [], ◌∷◌, ◌≡◌, refl, ◌⊎◌, inl, inr, ◌++◌, drop, take, length,
  length-take, keep, arith,
}
use jeffrey_s_agenda_tool.Domain.{Uuid, AutomationLog}
use jeffrey_s_agenda_tool.Database.{ok}
use jeffrey_s_agenda_tool.Database.Order.{IsOrdered, order_by, order_by-IsOrdered, order_by-Perm}
use jeffrey_s_agenda_tool.Action.{Env, World, step, query, run_statement, settle}
use jeffrey_s_agenda_tool.Store.Sql.{select_rows}
use jeffrey_s_agenda_tool.Store.Log.{later_log, get_logs_for_account}

take-drop : {A : Type 0} (n : ℕ) (xs : List A) → take n xs ++ drop n xs ≡ xs
take-drop zero xs = refl
take-drop (suc n) [] = refl
take-drop (suc n) (x ∷ xs) = rw (take-drop n xs) refl

take-full : {A : Type 0} (n : ℕ) (xs : List A) → (length (take n xs) ≡ n) ⊎ (drop n xs ≡ [])
take-full zero xs = inl refl
take-full (suc n) [] = inr refl
take-full (suc n) (x ∷ xs) = elim (take-full n xs) [ inl h ↦ inl (ground arith) | inr h ↦ inr h ]

-- The latest of the account's logs, at most `limit` of them: they are the start of an ordering of
-- all its logs by time, the latest first, and either as many as the limit or all of them.
abbrev pub IsRecent : Uuid → ℕ → List AutomationLog → List AutomationLog → Type 0
IsRecent account limit table logs =
    (rest : List AutomationLog) × IsOrdered later_log (logs ++ rest)
    × Perm (logs ++ rest) (keep (λ l. l.connected_account_id == account) table)
    × (length logs ≤ limit)
    × ((length logs ≡ limit) ⊎ (rest ≡ []))

later_log-IsOrdered : (table : List AutomationLog) → IsOrdered later_log (order_by later_log table)
later_log-IsOrdered table =
    order_by-IsOrdered later_log (λ l m h. ground arith) (λ l m n h k. ground arith) table

-- If the server answers, GetLogsForAccount returns the latest logs of the account, up to the limit,
-- and changes nothing.
pub get_logs_for_account-IsRecent :
    (env : Env) (account : Uuid) (limit : ℕ) (w : World)
    → env.db_error w.tick ≡ none
    → (logs : List AutomationLog) × (get_logs_for_account env account limit w ≡ (ok logs, step w))
      × IsRecent account limit w.db.automation_logs logs
unfolding get_logs_for_account query select_rows run_statement settle
get_logs_for_account-IsRecent env account limit w works =
    let mine = keep (λ l. l.connected_account_id == account) w.db.automation_logs in
    let sorted = order_by later_log mine in
    (
      take limit sorted,
      rw works refl,
      (
        drop limit sorted,
        rw (take-drop limit sorted) (later_log-IsOrdered mine),
        rw (take-drop limit sorted) (order_by-Perm later_log mine),
        length-take limit sorted,
        take-full limit sorted,
      ),
    )
