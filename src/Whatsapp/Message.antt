-- ===== src/Whatsapp/Message.antt =====
-- packages/modules/whatsapp/domain/message.ts: one message, and how far its delivery has got.
pub mod Order
use amc_system.Base.{
  ℕ, Bool, true, false, not, ◌&&◌, Option, none, some, List, [], ◌∷◌, is_some, ltb, get_or,
  if◌then◌else◌,
}
use amc_system.Base.Text.{Text, text, trim, is_empty}
use amc_system.Kernel.Result.{Result, ok, err}
use amc_system.Kernel.Duration.{Instant}
use amc_system.Whatsapp.ServiceWindow.{WhatsappConflict, nothing_carried, nothing_said}
use amc_system.Whatsapp.Conversation.{is_given}

pub data MessageKind : Type 0 where
  text_kind image document audio video sticker location contacts template interactive : MessageKind
  unsupported : MessageKind

pub data Direction : Type 0 where
  inbound outbound : Direction

pub data DeliveryStatus : Type 0 where
  received queued sent delivered read failed : DeliveryStatus

-- `PROGRESS`
abbrev pub progress : DeliveryStatus → ℕ
progress received = 0
progress queued = 1
progress sent = 2
progress delivered = 3
progress read = 4
progress failed = 5

-- `isReadable`
abbrev pub is_readable : MessageKind → Bool
is_readable text_kind = true
is_readable interactive = true
is_readable _ = false

-- `carriesFile`
abbrev pub carries_file : MessageKind → Bool
carries_file image = true
carries_file document = true
carries_file _ = false

pub record Message : Type 0 where
  pub id : Text
  pub conversation_id : Text
  pub direction : Direction
  pub provider_message_id : Option Text
  pub kind : MessageKind
  pub body : Option Text
  pub template_name : Option Text
  pub media_id : Option Text
  pub media_mime_type : Option Text
  pub media_filename : Option Text
  pub document_id : Option Text
  pub status : DeliveryStatus
  pub failure_reason : Option Text
  pub sent_by_user_id : Option Text
  pub contact_log_entry_id : Option Text
  pub occurred_at : Instant

-- The argument of `Message.received`.
pub record ReceivedParams : Type 0 where
  pub id : Text
  pub conversation_id : Text
  pub provider_message_id : Text
  pub kind : MessageKind
  pub body : Option Text
  pub media_id : Option Text
  pub media_mime_type : Option Text
  pub media_filename : Option Text
  pub occurred_at : Instant

-- `params.body?.trim() ?? null`
abbrev trimmed : Option Text → Option Text
trimmed none = none
trimmed (some body) = some (trim body)

-- `received`
unfoldable pub receive : ReceivedParams → Result WhatsappConflict Message
receive p =
    if not (is_given (trimmed p.body)) && not (is_given p.media_id)
    then err nothing_carried
    else ok (record {
      id = p.id;
      conversation_id = p.conversation_id;
      direction = inbound;
      provider_message_id = some p.provider_message_id;
      kind = p.kind;
      body = trimmed p.body;
      template_name = none;
      media_id = p.media_id;
      media_mime_type = p.media_mime_type;
      media_filename = p.media_filename;
      document_id = none;
      status = received;
      failure_reason = none;
      sent_by_user_id = none;
      contact_log_entry_id = none;
      occurred_at = p.occurred_at;
    })

-- The argument of `Message.queued`.
pub record QueuedParams : Type 0 where
  pub id : Text
  pub conversation_id : Text
  pub body : Option Text
  pub template_name : Option Text
  pub sent_by_user_id : Option Text
  pub occurred_at : Instant

-- `queued`
unfoldable pub queue : QueuedParams → Result WhatsappConflict Message
queue p =
    if not (is_given (trimmed p.body)) && not (is_given p.template_name)
    then err nothing_said
    else ok (record {
      id = p.id;
      conversation_id = p.conversation_id;
      direction = outbound;
      provider_message_id = none;
      kind = if is_given p.template_name then template else text_kind;
      body = trimmed p.body;
      template_name = p.template_name;
      media_id = none;
      media_mime_type = none;
      media_filename = none;
      document_id = none;
      status = queued;
      failure_reason = none;
      sent_by_user_id = p.sent_by_user_id;
      contact_log_entry_id = none;
      occurred_at = p.occurred_at;
    })

-- `forwardsOnly`
abbrev pub forwards_only : DeliveryStatus → DeliveryStatus → DeliveryStatus
forwards_only current status = if ltb (progress current) (progress status) then status else current

-- `accepted`
abbrev pub accept : Text → Message → Message
accept provider_message_id m = record m {
  provider_message_id = some provider_message_id;
  status = forwards_only m.status sent;
}

abbrev why_unknown : Text
why_unknown = text "WhatsApp rejected the message without saying why"

-- `advanceTo`
unfoldable pub advance_to : DeliveryStatus → Option Text → Message → Message
advance_to failed detail m = record m {
  status = failed;
  failure_reason = some (get_or detail why_unknown);
}
advance_to status detail m = record m { status = forwards_only m.status status }

-- `filedAs` and `loggedAs`
abbrev pub filed_as : Text → Message → Message
filed_as document_id m = record m { document_id = some document_id }

abbrev pub logged_as : Text → Message → Message
logged_as entry_id m = record m { contact_log_entry_id = some entry_id }

-- Calls of `advanceTo` one after another: a status and its detail.
unfoldable pub advance_all : List (DeliveryStatus × Option Text) → Message → Message
advance_all [] m = m
advance_all ((status, detail) ∷ rest) m = advance_all rest (advance_to status detail m)
