-- ===== src/Google.antt =====
-- What the program exchanges with the Google services: the values of the client libraries that it
-- reads and writes, the requests that change something there, and the replies, which are arbitrary.
use jeffrey_s_agenda_tool.Prelude.{ℕ, Text, ℤ, Bool, List, Option}
use jeffrey_s_agenda_tool.Domain.{Time}

-- oauth2.Token
pub record Token : Type 0 where
  pub access_token : Text
  pub refresh_token : Text
  pub expiry : Time

-- calendar.EventDateTime
pub record EventDateTime : Type 0 where
  pub date_time : Text
  pub time_zone : Text

-- calendar.Event
pub record CalendarEvent : Type 0 where
  pub id : Text
  pub summary : Text
  pub description : Text
  pub location : Text
  -- pointers, which may be nil
  pub start : Option EventDateTime
  pub finish : Option EventDateTime

-- The parameters of Events.List; SingleEvents is always set.
pub record ListQuery : Type 0 where
  pub time_min : Text
  pub time_max : Text
  pub max_results : Option ℕ
  pub order_by : Text

pub record Header : Type 0 where
  pub name : Text
  pub value : Text

-- gmail.MessagePartBody
pub record Body : Type 0 where
  pub size : ℕ
  pub content : Text

-- gmail.MessagePart
mutual
  pub data Part : Type 0 where
    part : Text → Text → List Header → Option Body → Parts → Part

  pub data Parts : Type 0 where
    no_parts : Parts
    more_parts : Part → Parts → Parts

-- gmail.Message
pub record Message : Type 0 where
  pub id : Text
  pub thread_id : Text
  pub label_ids : List Text
  pub snippet : Text
  -- milliseconds from the Unix epoch
  pub internal_date : ℕ
  pub size_estimate : ℤ
  pub payload : Option Part

-- gmail.Label
pub record Label : Type 0 where
  pub id : Text
  pub name : Text

-- The parameters of Messages.List.
pub record MessagesQuery : Type 0 where
  pub search_query : Text
  pub label_ids : List Text
  pub max_results : ℕ

-- The formats of Messages.Get.
pub data MessageFormat : Type 0 where
  full metadata : MessageFormat

-- gmail.Draft
pub record Draft : Type 0 where
  pub id : Text
  pub message : Message

-- calendar.CalendarListEntry
pub record CalendarListEntry : Type 0 where
  pub id : Text
  pub summary : Text

-- gmail.ModifyMessageRequest
pub record ModifyMessageRequest : Type 0 where
  pub add_label_ids : List Text
  pub remove_label_ids : List Text

-- The answer to a request, or the text of the error.
pub data Reply (A : Type 0) : Type 0 where
  answer : A → Reply A
  failed : Text → Reply A

-- gmail.ListHistoryResponse: the new history id, and the messages of each item.
pub record History : Type 0 where
  pub history_id : ℕ
  pub items : List (List Text)

-- A request that changes something at Google.
pub data Request : Type 0 where
  -- the token, the calendar, the event's id and the event
  insert_event : Token → Text → CalendarEvent → Request
  update_event : Token → Text → Text → CalendarEvent → Request
  delete_event : Token → Text → Text → Request
  send_message : Token → Text → Text → Request
  modify_message : Token → Text → ModifyMessageRequest → Request
  create_label : Token → Text → Request
  create_draft : Token → Text → Request

-- Every reply is a function of the number of the request.
pub record Google : Type 0 where
  pub token_valid : ℕ → Token → Bool
  pub refresh : ℕ → Token → Reply Token
  pub new_service : ℕ → Reply (Unit {0})
  pub list_calendars : ℕ → Token → Reply (List CalendarListEntry)
  pub list_events : ℕ → Token → Text → ListQuery → Reply (List CalendarEvent)
  pub event_inserted : ℕ → CalendarEvent → Reply CalendarEvent
  pub event_updated : ℕ → CalendarEvent → Reply CalendarEvent
  pub event_deleted : ℕ → Reply (Unit {0})
  pub list_messages : ℕ → Token → MessagesQuery → Reply (List Message)
  pub get_message : ℕ → Token → MessageFormat → Text → Reply Message
  pub list_history : ℕ → Token → ℕ → Reply History
  pub get_profile : ℕ → Token → Reply ℕ
  pub list_labels : ℕ → Token → Reply (List Label)
  pub label_created : ℕ → Text → Reply Label
  pub message_sent : ℕ → Text → Reply Message
  pub list_drafts : ℕ → Token → Reply (List Draft)
  pub draft_created : ℕ → Text → Reply Draft
  pub message_modified : ℕ → ModifyMessageRequest → Reply (Unit {0})
