-- ===== src/Tests/Facts.antt =====
-- What holds at the small installation.
use jeffrey_s_agenda_tool.Prelude.{[], ◌∷◌, All, trim_space, trim_left, trim_right, is_space}
use jeffrey_s_agenda_tool.Api.Mail.Addresses.{IsAddress}
use jeffrey_s_agenda_tool.Prelude.{text, is_empty, contains, text_eq, true, false, ◌≡◌, refl, any}
use jeffrey_s_agenda_tool.Database.{ok}
use jeffrey_s_agenda_tool.Database.Integrity.{IsConsistent}
use jeffrey_s_agenda_tool.Worker.Calendar.Returns.{GivesTimes}
use jeffrey_s_agenda_tool.Crypto.{decrypt}
use jeffrey_s_agenda_tool.Crypto.RoundTrip.{FillsNonce}
use jeffrey_s_agenda_tool.Store.Account.{scan_account}
use jeffrey_s_agenda_tool.Store.Account.Token.{
  keep_refresh_token, decrypt_refresh_token, get_decrypted_token,
}
use jeffrey_s_agenda_tool.Store.Log.{is_log_for_trigger, json_field, field_text, text_of}
use jeffrey_s_agenda_tool.Tests.Data.{
  token, new_token, env, expired_env, account, db, logged_world, connect_arg,
}

-- The tables of the small installation are consistent.
pub db-IsConsistent : IsConsistent db
db-IsConsistent = record {
  user_keys = (refl, tt);
  user_emails = (refl, tt);
  account_keys = (refl, tt);
  account_identities = (refl, tt);
  account_users = (refl, tt);
  rule_keys = (refl, tt);
  rule_accounts = (refl, tt);
  log_keys = tt;
  log_sequence = tt;
  log_accounts = tt;
  log_rules = tt;
  gmail_rule_keys = (refl, tt);
  gmail_rule_accounts = (refl, tt);
  message_ids = tt;
  message_keys = tt;
  message_accounts = tt;
  thread_ids = tt;
  thread_keys = tt;
  thread_accounts = tt;
}

pub fills : FillsNonce env
fills n b e = cc

pub expired_fills : FillsNonce expired_env
expired_fills n b e = cc

pub kept : is_empty (keep_refresh_token expired_env token new_token).refresh_token ≡ false
unfolding keep_refresh_token is_empty
kept = refl

pub names_grant : contains (text "invalid_grant") (text "invalid_grant") ≡ true
unfolding contains
names_grant = refl

pub stored : get_decrypted_token env (scan_account account) ≡ ok token
unfolding get_decrypted_token decrypt_refresh_token scan_account decrypt
stored = refl

pub logs_trigger : any (is_log_for_trigger env 3 (text "e1")) logged_world.db.automation_logs ≡ true
unfolding is_log_for_trigger json_field field_text text_of text_eq
logs_trigger = refl

pub given : is_empty connect_arg.refresh_token ≡ false
unfolding is_empty
given = refl

pub two-IsAddress : All IsAddress (text "a@b.nl" ∷ text "c@d.nl" ∷ [])
unfolding is_empty trim_space trim_left trim_right is_space
two-IsAddress = ((refl, refl, refl), ((refl, refl, refl), tt))

-- Every list has the one event.
pub gives_times : GivesTimes env
gives_times n t calendar q [] e = tt
gives_times n t calendar q (v ∷ []) e = ((λ h. cc, λ h. cc), tt)
gives_times n t calendar q (v ∷ v' ∷ vs) e = cc
