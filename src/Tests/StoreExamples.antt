-- ===== src/Tests/StoreExamples.antt =====
-- The theorems on internal/store and internal/crypto at the small installation.
use jeffrey_s_agenda_tool.Prelude.{ℕ, text, update_where, pos, some, List, [], ◌∷◌, ◌≡◌, refl, find}
use jeffrey_s_agenda_tool.Domain.{ConnectedAccount, AutomationRule}
use jeffrey_s_agenda_tool.Database.{to_timestamptz, ok, err, token_revoked, account_has, rule_has}
use jeffrey_s_agenda_tool.Database.Integrity.{IsConsistent, IsConsistent-empty_db}
use jeffrey_s_agenda_tool.Action.{step, ◌>>◌}
use jeffrey_s_agenda_tool.Crypto.{decrypt, encrypt}
use jeffrey_s_agenda_tool.Crypto.RoundTrip.{decrypt-encrypt}
use jeffrey_s_agenda_tool.Store.Account.{scan_account, upsert_connected_account}
use jeffrey_s_agenda_tool.Store.Account.Connect.{is_account_of, upsert_connected_account-stores}
use jeffrey_s_agenda_tool.Domain.{AccountStatus}
use jeffrey_s_agenda_tool.Store.Account.Token.{
  keep_refresh_token, get_decrypted_token, refresh_token,
}
use jeffrey_s_agenda_tool.Store.Account.Token.Stored.{as_stored, refresh_token-stores}
use jeffrey_s_agenda_tool.Store.Account.Token.Refresh.{IsClosed, refresh_token-IsClosed}
use jeffrey_s_agenda_tool.Store.User.{delete_user}
use jeffrey_s_agenda_tool.Store.User.Erase.{IsErased, delete_user-IsErased}
use jeffrey_s_agenda_tool.Store.Log.{get_logs_for_account}
use jeffrey_s_agenda_tool.Store.Log.Recent.{IsRecent, get_logs_for_account-IsRecent}
use jeffrey_s_agenda_tool.Store.Rule.{toggle_rule_status}
use jeffrey_s_agenda_tool.Store.Rule.Toggle.{touch, toggle_rule_status-twice}
use jeffrey_s_agenda_tool.Store.Integrity.Calls.{StoreCall, run_calls, run_calls-IsConsistent}
use jeffrey_s_agenda_tool.Tests.Data.{
  zeros, token, new_token, env, expired_env, revoked_env, rule, db, world, empty_world, connect_arg,
}
use jeffrey_s_agenda_tool.Tests.Facts.{
  fills, expired_fills, db-IsConsistent, kept, names_grant, given,
}

decrypt-encrypt_example :
    (c : List ℕ) × (encrypt env (text "token") world ≡ (ok c, step world))
    × (decrypt env c ≡ ok (text "token"))
decrypt-encrypt_example =
    decrypt-encrypt env (text "token") world (λ k n p. refl) fills refl zeros refl

refresh_token-stores_example :
    ((refresh_token expired_env 2 token world).0
      ≡ ok (keep_refresh_token expired_env token new_token))
    × (acc : ConnectedAccount) × (find
          (account_has 2)
          (refresh_token expired_env 2 token world).1.db.connected_accounts
        ≡ some acc)
    × (get_decrypted_token expired_env (scan_account acc)
        ≡ ok (as_stored (keep_refresh_token expired_env token new_token)))
refresh_token-stores_example =
    refresh_token-stores expired_env 2 token new_token world (λ k n p. refl) expired_fills refl
      (λ n. (zeros, refl)) (λ n. refl) refl refl kept

refresh_token-IsClosed_example :
    ((refresh_token revoked_env 2 token world).0 ≡ err token_revoked)
    × IsClosed 2 (refresh_token revoked_env 2 token world).1.db
refresh_token-IsClosed_example =
    refresh_token-IsClosed revoked_env 2 token world (text "invalid_grant") refl names_grant
      (λ n. refl)

delete_user-IsErased_example :
    ((delete_user env 1 world).0 ≡ ok tt) × IsErased 1 (delete_user env 1 world).1.db
delete_user-IsErased_example = delete_user-IsErased env 1 world db-IsConsistent refl refl

get_logs_for_account-IsRecent_example :
    (logs : _) × (get_logs_for_account env 2 50 world ≡ (ok logs, step world))
    × IsRecent 2 50 [] logs
get_logs_for_account-IsRecent_example = get_logs_for_account-IsRecent env 2 50 world refl

toggle_rule_status-twice_example :
    (r : AutomationRule) × ((toggle_rule_status env 3 >> toggle_rule_status env 3) world ≡ (
      ok r,
      record (step (step world)) {
        db = record db { automation_rules = update_where (rule_has 3) (touch (pos 1)) (rule ∷ []) };
      },
    ))
toggle_rule_status-twice_example = toggle_rule_status-twice env 3 world (λ n. refl) refl

upsert_connected_account-stores_example :
    (row : ConnectedAccount) × ((upsert_connected_account env connect_arg world).0
      ≡ ok (scan_account row))
    × (find
          (is_account_of connect_arg)
          (upsert_connected_account env connect_arg world).1.db.connected_accounts
        ≡ some row)
    × (row.status ≡ AccountStatus.active)
    × (get_decrypted_token env (scan_account row)
        ≡ ok (record {
          access_token = text "access3";
          refresh_token = text "refresh3";
          expiry = pos 7000;
        }))
unfolding to_timestamptz
upsert_connected_account-stores_example =
    upsert_connected_account-stores env connect_arg world (λ k n p. refl) fills refl
      (λ n. (zeros, refl)) (λ n. refl) refl (λ n. refl) given

run_calls-IsConsistent_example :
    IsConsistent
      (run_calls env
        (StoreCall.create_user (text "a@b.nl") (text "A") ∷ StoreCall.delete_user 100 ∷ [])
        empty_world).1.db
run_calls-IsConsistent_example =
    run_calls-IsConsistent env
      (StoreCall.create_user (text "a@b.nl") (text "A") ∷ StoreCall.delete_user 100 ∷ [])
      empty_world IsConsistent-empty_db
