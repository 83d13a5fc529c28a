-- ===== src/Domain.antt =====
-- internal/domain/common.go and models.go: the types that every layer exchanges. An embedded
-- struct (BaseEntity, AccountEntity, BaseAutomationRule) is written out in the record that embeds it.
-- A *T is an Option, a nil slice is the empty list, and a json.RawMessage is a Json value.
use jeffrey_s_agenda_tool.Prelude.{ℕ, Text, ℤ, Bool, true, false, Option, List}
use jeffrey_s_agenda_tool.Json.{Json}

-- uuid.UUID, a 128-bit number.
abbrev pub Uuid : Type 0
Uuid = ℕ

-- time.Time, in nanoseconds from the Unix epoch.
abbrev pub Time : Type 0
Time = ℤ

-- []byte
abbrev pub Bytes : Type 0
Bytes = List ℕ

pub data ProviderType : Type 0 where
  google microsoft : ProviderType

pub data AccountStatus : Type 0 where
  active revoked error paused : AccountStatus

pub data AutomationLogStatus : Type 0 where
  pending success failure skipped : AutomationLogStatus

pub data GmailMessageStatus : Type 0 where
  unread read archived trashed spam : GmailMessageStatus

-- The Go type is a string: `other` is a value outside the constants, which the database refuses.
pub data GmailRuleTriggerType : Type 0 where
  new_message sender_match subject_match label_added starred : GmailRuleTriggerType
  other : Text → GmailRuleTriggerType

pub data GmailRuleActionType : Type 0 where
  auto_reply forward add_label remove_label mark_read mark_unread : GmailRuleActionType
  archive trash star unstar : GmailRuleActionType
  other : Text → GmailRuleActionType

pub record User : Type 0 where
  pub id : Uuid
  pub created_at : Time
  pub updated_at : Time
  pub email : Text
  pub name : Option Text

pub record ConnectedAccount : Type 0 where
  pub id : Uuid
  pub user_id : Uuid
  pub provider : ProviderType
  pub email : Text
  pub provider_user_id : Text
  pub access_token : Bytes
  pub refresh_token : Bytes
  pub token_expiry : Time
  pub scopes : List Text
  pub status : AccountStatus
  pub created_at : Time
  pub updated_at : Time
  pub last_checked : Option Time
  pub gmail_history_id : Option Text
  pub gmail_last_sync : Option Time
  pub gmail_sync_enabled : Bool

pub record AutomationRule : Type 0 where
  pub id : Uuid
  pub created_at : Time
  pub updated_at : Time
  pub connected_account_id : Uuid
  pub name : Text
  pub is_active : Bool
  pub trigger_conditions : Json
  pub action_params : Json

pub record AutomationLog : Type 0 where
  pub id : ℕ
  pub connected_account_id : Uuid
  pub rule_id : Option Uuid
  pub timestamp : Time
  pub status : AutomationLogStatus
  pub trigger_details : Option Json
  pub action_details : Option Json
  pub error_message : Text

pub record TriggerConditions : Type 0 where
  pub summary_equals : Text
  pub summary_contains : List Text
  pub location_contains : List Text

pub record ActionParams : Type 0 where
  pub offset_minutes : ℤ
  pub new_event_title : Text
  pub duration_min : ℤ

pub record GmailAutomationRule : Type 0 where
  pub id : Uuid
  pub created_at : Time
  pub updated_at : Time
  pub connected_account_id : Uuid
  pub name : Text
  pub is_active : Bool
  pub trigger_conditions : Json
  pub action_params : Json
  pub description : Option Text
  pub trigger_type : GmailRuleTriggerType
  pub action_type : GmailRuleActionType
  pub priority : ℤ

pub record GmailMessage : Type 0 where
  pub id : Uuid
  pub created_at : Time
  pub updated_at : Time
  pub connected_account_id : Uuid
  pub gmail_message_id : Text
  pub gmail_thread_id : Text
  pub subject : Option Text
  pub sender : Option Text
  pub recipients : List Text
  pub cc_recipients : List Text
  pub bcc_recipients : List Text
  pub snippet : Option Text
  pub status : GmailMessageStatus
  pub is_starred : Bool
  pub has_attachments : Bool
  pub attachment_count : ℕ
  pub size_estimate : Option ℤ
  pub received_at : Time
  pub labels : List Text
  pub last_synced : Time

pub record GmailThread : Type 0 where
  pub id : Uuid
  pub created_at : Time
  pub updated_at : Time
  pub connected_account_id : Uuid
  pub gmail_thread_id : Text
  pub subject : Option Text
  pub snippet : Option Text
  pub message_count : ℤ
  pub has_unread : Bool
  pub last_message_at : Time
  pub labels : List Text
  pub last_synced : Time

abbrev pub is_active_status : AccountStatus → Bool
is_active_status AccountStatus.active = true
is_active_status _ = false

abbrev pub is_success : AutomationLogStatus → Bool
is_success AutomationLogStatus.success = true
is_success _ = false

abbrev pub provider_eq : ProviderType → ProviderType → Bool
provider_eq google google = true
provider_eq microsoft microsoft = true
provider_eq _ _ = false

-- The enum types of the schema hold the constants alone.
abbrev pub is_known_trigger : GmailRuleTriggerType → Bool
is_known_trigger (GmailRuleTriggerType.other t) = false
is_known_trigger _ = true

abbrev pub is_known_action : GmailRuleActionType → Bool
is_known_action (GmailRuleActionType.other t) = false
is_known_action _ = true
