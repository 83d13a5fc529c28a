-- ===== src/Store/Integrity/Messages.antt =====
-- internal/store/gmail/gmail.go: the invariant over the statements on messages and threads.
use mathlib.Core.Path.{subst}
use jeffrey_s_agenda_tool.Prelude.{ℕ, ◌≡◌, refl, Bool, any, update_where, Bool-cases, inl, inr}
use jeffrey_s_agenda_tool.Domain.{Uuid, Time, GmailMessageStatus, GmailMessage}
use jeffrey_s_agenda_tool.Database.{
  ok, Db, account_has, message_has, thread_has, same_message, same_thread,
}
use jeffrey_s_agenda_tool.Database.Integrity.{IsConsistent}
use jeffrey_s_agenda_tool.Database.Integrity.Inserts.{
  insert_message-IsConsistent, insert_thread-IsConsistent,
}
use jeffrey_s_agenda_tool.Database.Integrity.Updates.{
  update_messages-IsConsistent, update_threads-IsConsistent,
}
use jeffrey_s_agenda_tool.Action.Keeps.{Safe}
use jeffrey_s_agenda_tool.Store.Sql.{exec, same_db, Safe-exec}
use jeffrey_s_agenda_tool.Store.Gmail.Messages.{
  StoreGmailMessageParams, StoreGmailThreadParams, new_message, resync_message, upsert_message,
  new_thread, resync_thread, upsert_thread, set_message_status,
}

upsert_message_keeps :
    (arg : StoreGmailMessageParams) (now : Time) (id : Uuid) (db : Db) (u : Unit {0}) (db' : Db)
    → IsConsistent db
    → upsert_message arg now id db ≡ ok (u, db')
    → IsConsistent db'
unfolding upsert_message
upsert_message_keeps arg now id db u db' c e =
    elim (Bool-cases (any (λ m. same_message m (new_message now id arg)) db.gmail_messages)) [
      | inl old ↦ subst IsConsistent (same_db _ _ _ _ (rw old at e)) (
          update_messages-IsConsistent _ (resync_message now arg) db (λ m n. refl) (λ m n. refl)
            (λ m. refl) (λ m. refl) c)
      | inr new ↦ elim (Bool-cases (any (message_has id) db.gmail_messages)) [
        | inl used ↦ cc (new, used)
        | inr free ↦
            elim (Bool-cases (any (account_has arg.connected_account_id) db.connected_accounts)) [
              | inr orphan ↦ cc (new, free, orphan)
              | inl owned ↦
                  subst IsConsistent (same_db _ _ _ _ (rw owned at (rw free at (rw new at e))))
                    (insert_message-IsConsistent (new_message now id arg) db new free owned c)
            ]
      ]
    ]

pub upsert_message-Safe : (arg : StoreGmailMessageParams) → Safe IsConsistent (upsert_message arg)
upsert_message-Safe arg = record { at = upsert_message_keeps arg }

upsert_thread_keeps :
    (arg : StoreGmailThreadParams) (now : Time) (id : Uuid) (db : Db) (u : Unit {0}) (db' : Db)
    → IsConsistent db
    → upsert_thread arg now id db ≡ ok (u, db')
    → IsConsistent db'
unfolding upsert_thread
upsert_thread_keeps arg now id db u db' c e =
    elim (Bool-cases (any (λ t. same_thread t (new_thread now id arg)) db.gmail_threads)) [
      | inl old ↦ subst IsConsistent (same_db _ _ _ _ (rw old at e)) (
          update_threads-IsConsistent _ (resync_thread now arg) db (λ m n. refl) (λ m n. refl)
            (λ m. refl) (λ m. refl) c)
      | inr new ↦ elim (Bool-cases (any (thread_has id) db.gmail_threads)) [
        | inl used ↦ cc (new, used)
        | inr free ↦
            elim (Bool-cases (any (account_has arg.connected_account_id) db.connected_accounts)) [
              | inr orphan ↦ cc (new, free, orphan)
              | inl owned ↦
                  subst IsConsistent (same_db _ _ _ _ (rw owned at (rw free at (rw new at e))))
                    (insert_thread-IsConsistent (new_thread now id arg) db new free owned c)
            ]
      ]
    ]

pub upsert_thread-Safe : (arg : StoreGmailThreadParams) → Safe IsConsistent (upsert_thread arg)
upsert_thread-Safe arg = record { at = upsert_thread_keeps arg }

pub set_message_status-Safe :
    (p : GmailMessage → Bool) (status : GmailMessageStatus) (count : Db → ℕ)
    → Safe IsConsistent (
        exec count λ now db. record db {
          gmail_messages = update_where p (set_message_status status now) db.gmail_messages;
        })
set_message_status-Safe p status count = Safe-exec count _ λ now db c.
    update_messages-IsConsistent p (set_message_status status now) db (λ m n. refl) (λ m n. refl)
      (λ m. refl) (λ m. refl) c
