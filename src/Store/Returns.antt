-- ===== src/Store/Returns.antt =====
-- internal/store: panics in the operations of the store.
pub mod Calls
use jeffrey_s_agenda_tool.Prelude.{Text, false, Option, none, some, List, [], ℕ, zero, suc}
use jeffrey_s_agenda_tool.Database.{Err, ok, Db}
use jeffrey_s_agenda_tool.Google.{Token}
use jeffrey_s_agenda_tool.Domain.{Bytes}
use jeffrey_s_agenda_tool.Action.{
  Env, World, Action, query, run_statement, settle, continue, attempt, fail, step, ◌>>=◌,
}
use jeffrey_s_agenda_tool.Action.Returns.{Returns, Returns-pure, Returns-fail, returns_rules}
use jeffrey_s_agenda_tool.Crypto.{encrypt}
use jeffrey_s_agenda_tool.Store.Sql.{select_rows, or_missing, require_rows}
use jeffrey_s_agenda_tool.Store.Account.{
  get_connected_account_by_id, update_account_status, update_account_tokens,
  update_account_last_checked,
}
use jeffrey_s_agenda_tool.Store.Account.Token.{
  on_refresh_error, refresh_token, is_valid, get_valid_token_for_account,
}
use jeffrey_s_agenda_tool.Store.Log.{found_nothing, create_automation_log, has_log_for_trigger}
use jeffrey_s_agenda_tool.Store.Rule.{get_rules_for_account}
use jeffrey_s_agenda_tool.Prelude.{
  Bool, true, any, not, ◌&&◌, ◌==◌, ltb, length, Bool-cases, inl, inr, ◌∷◌, map, if◌then◌else◌,
}
use jeffrey_s_agenda_tool.Domain.{Uuid, Time, ConnectedAccount}
use jeffrey_s_agenda_tool.Database.{Result, err, panic, foreign_key_violation, account_has}
use jeffrey_s_agenda_tool.Action.{lift}
use jeffrey_s_agenda_tool.Action.Returns.{IsReturn, IsTotal, Returns-lift}
use jeffrey_s_agenda_tool.Crypto.{key_size, nonce_size, decrypt, opened}
use jeffrey_s_agenda_tool.Store.Sql.{scan, select_row, exec}
use jeffrey_s_agenda_tool.Store.Log.{CreateLogParams, insert_log, add_log, new_log, refers_to_rule}
use jeffrey_s_agenda_tool.Store.Account.{update_account, scan_account, get_active_accounts}
use jeffrey_s_agenda_tool.Store.Account.Token.{◌then◌, decrypt_refresh_token, get_decrypted_token}

pub scan-IsReturn : {A : Type 0} (row : Option A) (db : Db) → IsReturn (scan row db)
unfolding scan
scan-IsReturn none db = tt
scan-IsReturn (some a) db = tt

pub either :
    {A : Type 0} (b : Bool) (r s : Result A)
    → IsReturn r
    → IsReturn s
    → IsReturn (if b then r else s)
either true r s hr hs = hr
either false r s hr hs = hs

pub select_row-IsTotal : {A : Type 0} (row : Db → Option A) → IsTotal (select_row row)
unfolding select_row
select_row-IsTotal row = record { at = λ now id db. scan-IsReturn (row db) db }

pub select_rows-IsTotal : {A : Type 0} (rows : Db → List A) → IsTotal (select_rows rows)
unfolding select_rows
select_rows-IsTotal rows = record { at = λ now id db. tt }

pub exec-IsTotal : (count : Db → ℕ) (change : Time → Db → Db) → IsTotal (exec count change)
unfolding exec
exec-IsTotal count change = record { at = λ now id db. tt }

pub update_account-IsTotal :
    (k : Uuid) (change : Time → ConnectedAccount → ConnectedAccount)
    → IsTotal (update_account k change)
unfolding update_account
update_account-IsTotal k change = exec-IsTotal _ _

pub insert_log-IsTotal : (arg : CreateLogParams) → IsTotal (insert_log arg)
unfolding insert_log
insert_log-IsTotal arg = record {
  at = λ now id db.
      either
        (any (account_has arg.connected_account_id) db.connected_accounts
          && refers_to_rule arg.rule_id db)
        (ok (tt, add_log (new_log now db.next_log_id arg) db)) (err foreign_key_violation) tt tt;
}

pub ruleset total_rules = (
  returns_rules, select_row-IsTotal, select_rows-IsTotal, exec-IsTotal, update_account-IsTotal,
  insert_log-IsTotal,
)

pub Returns-or_missing : {A : Type 0} (missing e : Err) → Returns (or_missing {A = A} missing e)
unfolding or_missing
Returns-or_missing missing Err.no_rows = Returns-fail _
Returns-or_missing missing other = Returns-fail _

pub create_automation_log-Returns : (env : Env) (arg : _) → Returns (create_automation_log env arg)
unfolding create_automation_log
create_automation_log-Returns env arg = search total_rules

pub found_nothing-Returns : (env : Env) (e : Err) → Returns (found_nothing env e)
unfolding found_nothing
found_nothing-Returns env Err.no_rows = Returns-pure false
found_nothing-Returns env other = Returns-fail _

pub has_log_for_trigger-Returns :
    (env : Env) (k event : _) → Returns (has_log_for_trigger env k event)
unfolding has_log_for_trigger
has_log_for_trigger-Returns env k event = search (total_rules, found_nothing-Returns)

pub get_rules_for_account-Returns : (env : Env) (k : _) → Returns (get_rules_for_account env k)
unfolding get_rules_for_account
get_rules_for_account-Returns env k = search total_rules

pub Returns-require_rows : (e : Err) (n : ℕ) → Returns (require_rows e n)
unfolding require_rows
Returns-require_rows e zero = Returns-fail e
Returns-require_rows e (suc n) = Returns-pure tt

pub encrypt-Returns : (env : Env) (b : Bytes) → Returns (encrypt env b)
unfolding encrypt
encrypt-Returns env b = search total_rules

pub get_connected_account_by_id-Returns :
    (env : Env) (k : _) → Returns (get_connected_account_by_id env k)
unfolding get_connected_account_by_id
get_connected_account_by_id-Returns env k = search (total_rules, Returns-or_missing)

update_account_status-Returns : (env : Env) (k s : _) → Returns (update_account_status env k s)
unfolding update_account_status
update_account_status-Returns env k s = search total_rules

update_account_tokens-Returns : (env : Env) (arg : _) → Returns (update_account_tokens env arg)
unfolding update_account_tokens
update_account_tokens-Returns env arg =
    search (total_rules, encrypt-Returns, Returns-require_rows) depth 8

pub update_account_last_checked-Returns :
    (env : Env) (k : _) → Returns (update_account_last_checked env k)
unfolding update_account_last_checked
update_account_last_checked-Returns env k = search total_rules

is_valid-Returns : (env : Env) (token : Token) → Returns (is_valid env token)
unfolding is_valid
is_valid-Returns env token = record { at = λ w. tt }

on_refresh_error-Returns : (env : Env) (k : _) (e : Err) → Returns (on_refresh_error env k e)
unfolding on_refresh_error
on_refresh_error-Returns env k (Err.external t) =
    search (total_rules, update_account_status-Returns)
on_refresh_error-Returns env k e = search total_rules

refresh_token-Returns : (env : Env) (k : _) (token : Token) → Returns (refresh_token env k token)
unfolding refresh_token
refresh_token-Returns env k token =
    search (total_rules, on_refresh_error-Returns, update_account_tokens-Returns)

opened-IsReturn : (o : Option Bytes) → IsReturn (opened o)
opened-IsReturn none = tt
opened-IsReturn (some b) = tt

decrypt-IsReturn : (env : Env) (b : Bytes) → IsReturn (decrypt env b)
unfolding decrypt
decrypt-IsReturn env b = elim (Bool-cases (not (length env.encryption_key == key_size))) [
  | inl e ↦ rw e tt
  | inr e ↦ rw e (elim (Bool-cases (ltb (length b) nonce_size)) [
    | inl s ↦ rw s tt
    | inr s ↦ rw s (opened-IsReturn _)
  ])
]

decrypt_refresh_token-IsReturn : (env : Env) (b : Bytes) → IsReturn (decrypt_refresh_token env b)
unfolding decrypt_refresh_token
decrypt_refresh_token-IsReturn env [] = tt
decrypt_refresh_token-IsReturn env (c ∷ b) = decrypt-IsReturn env (c ∷ b)

then-IsReturn :
    {A B : Type 0} (r : Result A) (k : A → Result B)
    → IsReturn r
    → ((a : A) → IsReturn (k a))
    → IsReturn (r then k)
then-IsReturn (ok a) k h hk = hk a
then-IsReturn (err e) k h hk = tt
then-IsReturn panic k h hk = h

get_decrypted_token-Returns :
    (env : Env) (acc : ConnectedAccount) → Returns (lift (get_decrypted_token env acc))
unfolding get_decrypted_token
get_decrypted_token-Returns env acc = Returns-lift _ (
    then-IsReturn _ _ (decrypt-IsReturn env acc.access_token) λ access.
      then-IsReturn _ _ (decrypt_refresh_token-IsReturn env acc.refresh_token) λ refresh. tt)

pub get_valid_token_for_account-Returns :
    (env : Env) (k : _) → Returns (get_valid_token_for_account env k)
unfolding get_valid_token_for_account
get_valid_token_for_account-Returns env k = search (
  total_rules, get_decrypted_token-Returns, get_connected_account_by_id-Returns, is_valid-Returns,
  refresh_token-Returns,
)

active_rows :
    {A B : Type 0} (rows : List A) (k : List A → Action B) (failure : Option Text) (w : World)
    → Returns (k rows)
    → IsReturn (attempt (run_statement failure (ok (rows, w.db))) fail k w).0
unfolding run_statement settle attempt continue fail
active_rows rows k (some t) w rk = tt
active_rows rows k none w rk = rk.at (step w)

pub get_active_accounts-rows :
    {B : Type 0} (env : Env) (k : List ConnectedAccount → Action B)
    → ((rows : List ConnectedAccount) → Returns (k (map scan_account rows)))
    → Returns (get_active_accounts env >>= k)
unfolding get_active_accounts query select_rows ◌>>=◌ attempt
get_active_accounts-rows env k rk = record {
  at = λ w. active_rows _ k (env.db_error w.tick) w (rk _);
}
