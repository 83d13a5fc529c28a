-- ===== src/Store/Gmail/Messages.antt =====
-- internal/store/gmail/gmail.go: the messages and threads that the synchronisation stores.
use jeffrey_s_agenda_tool.Prelude.{
  ℕ, Text, text_eq, ℤ, Bool, ◌&&◌, ◌==◌, ltb_ℤ, Option, List, [], ◌∷◌, ◌++◌, any, keep, length,
  take, update_where, if◌then◌else◌,
}
use jeffrey_s_agenda_tool.Domain.{Uuid, Time, GmailMessageStatus, GmailMessage, GmailThread}
use jeffrey_s_agenda_tool.Database.{
  ok, err, foreign_key_violation, unique_violation, message_has, thread_has, to_timestamptz,
  nothing_updated, Statement, account_has, same_message, same_thread,
}
use jeffrey_s_agenda_tool.Database.Order.{order_by}
use jeffrey_s_agenda_tool.Action.{Env, Action, query, ◌>>=◌}
use jeffrey_s_agenda_tool.Store.Sql.{select_rows, exec, require_rows}

pub record StoreGmailMessageParams : Type 0 where
  pub connected_account_id : Uuid
  pub gmail_message_id : Text
  pub gmail_thread_id : Text
  pub subject : Option Text
  pub sender : Option Text
  pub recipients : List Text
  pub cc_recipients : List Text
  pub bcc_recipients : List Text
  pub snippet : Option Text
  pub status : GmailMessageStatus
  pub is_starred : Bool
  pub has_attachments : Bool
  pub attachment_count : ℕ
  pub size_estimate : Option ℤ
  pub received_at : Time
  pub labels : List Text

pub record StoreGmailThreadParams : Type 0 where
  pub connected_account_id : Uuid
  pub gmail_thread_id : Text
  pub subject : Option Text
  pub snippet : Option Text
  pub message_count : ℤ
  pub has_unread : Bool
  pub last_message_at : Time
  pub labels : List Text

abbrev pub new_message : Time → Uuid → StoreGmailMessageParams → GmailMessage
new_message now id arg = record {
  id = id;
  created_at = now;
  updated_at = now;
  connected_account_id = arg.connected_account_id;
  gmail_message_id = arg.gmail_message_id;
  gmail_thread_id = arg.gmail_thread_id;
  subject = arg.subject;
  sender = arg.sender;
  recipients = arg.recipients;
  cc_recipients = arg.cc_recipients;
  bcc_recipients = arg.bcc_recipients;
  snippet = arg.snippet;
  status = arg.status;
  is_starred = arg.is_starred;
  has_attachments = arg.has_attachments;
  attachment_count = arg.attachment_count;
  size_estimate = arg.size_estimate;
  received_at = to_timestamptz arg.received_at;
  labels = arg.labels;
  last_synced = now;
}

-- DO UPDATE SET: the thread and the time of receipt stay as they were first stored.
abbrev pub resync_message : Time → StoreGmailMessageParams → GmailMessage → GmailMessage
resync_message now arg m = record m {
  subject = arg.subject;
  sender = arg.sender;
  recipients = arg.recipients;
  cc_recipients = arg.cc_recipients;
  bcc_recipients = arg.bcc_recipients;
  snippet = arg.snippet;
  status = arg.status;
  is_starred = arg.is_starred;
  has_attachments = arg.has_attachments;
  attachment_count = arg.attachment_count;
  size_estimate = arg.size_estimate;
  labels = arg.labels;
  last_synced = now;
  updated_at = now;
}

unfoldable pub upsert_message : StoreGmailMessageParams → Statement (Unit {0})
upsert_message arg now id db =
    let row = new_message now id arg in
    if any (λ m. same_message m row) db.gmail_messages
    then ok (
      tt,
      record db {
        gmail_messages =
            update_where (λ m. same_message m row) (resync_message now arg) db.gmail_messages;
      },
    )
    else if any (message_has id) db.gmail_messages
    then err unique_violation
    else if any (account_has arg.connected_account_id) db.connected_accounts
    then ok (tt, record db { gmail_messages = db.gmail_messages ++ row ∷ [] })
    else err foreign_key_violation

abbrev pub new_thread : Time → Uuid → StoreGmailThreadParams → GmailThread
new_thread now id arg = record {
  id = id;
  created_at = now;
  updated_at = now;
  connected_account_id = arg.connected_account_id;
  gmail_thread_id = arg.gmail_thread_id;
  subject = arg.subject;
  snippet = arg.snippet;
  message_count = arg.message_count;
  has_unread = arg.has_unread;
  last_message_at = to_timestamptz arg.last_message_at;
  labels = arg.labels;
  last_synced = now;
}

abbrev pub resync_thread : Time → StoreGmailThreadParams → GmailThread → GmailThread
resync_thread now arg t = record t {
  subject = arg.subject;
  snippet = arg.snippet;
  message_count = arg.message_count;
  has_unread = arg.has_unread;
  last_message_at = to_timestamptz arg.last_message_at;
  labels = arg.labels;
  last_synced = now;
  updated_at = now;
}

unfoldable pub upsert_thread : StoreGmailThreadParams → Statement (Unit {0})
upsert_thread arg now id db =
    let row = new_thread now id arg in
    if any (λ t. same_thread t row) db.gmail_threads
    then ok (
      tt,
      record db {
        gmail_threads =
            update_where (λ t. same_thread t row) (resync_thread now arg) db.gmail_threads;
      },
    )
    else if any (thread_has id) db.gmail_threads
    then err unique_violation
    else if any (account_has arg.connected_account_id) db.connected_accounts
    then ok (tt, record db { gmail_threads = db.gmail_threads ++ row ∷ [] })
    else err foreign_key_violation

abbrev pub is_message : Uuid → Text → GmailMessage → Bool
is_message account message m =
    m.connected_account_id == account && text_eq m.gmail_message_id message

abbrev pub set_message_status : GmailMessageStatus → Time → GmailMessage → GmailMessage
set_message_status status now m = record m { status = status; updated_at = now }

abbrev pub later_message : GmailMessage → GmailMessage → Bool
later_message m n = ltb_ℤ n.received_at m.received_at

module _ (env : Env) where
  unfoldable pub store_gmail_message : StoreGmailMessageParams → Action (Unit {0})
  store_gmail_message arg = query env (upsert_message arg)

  unfoldable pub store_gmail_thread : StoreGmailThreadParams → Action (Unit {0})
  store_gmail_thread arg = query env (upsert_thread arg)

  unfoldable pub update_gmail_message_status : Uuid → Text → GmailMessageStatus → Action (Unit {0})
  update_gmail_message_status account message status = do
    n ← query env (
        exec (λ db. length (keep (is_message account message) db.gmail_messages))
          λ now db. record db {
            gmail_messages =
                update_where (is_message account message) (set_message_status status now)
                  db.gmail_messages;
          })
    require_rows nothing_updated n

  unfoldable pub get_gmail_messages_for_account : Uuid → ℕ → Action (List GmailMessage)
  get_gmail_messages_for_account account limit = query env (
      select_rows λ db.
        take limit (
          order_by later_message (keep (λ m. m.connected_account_id == account) db.gmail_messages)))
