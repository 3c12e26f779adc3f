-- ===== src/Message.antt =====
-- packages/core/src/domain/attachment.ts: the inbound messages that the channel buffers.
use amby.Common.{ℕ, Bool, Option, List}
use amby.Common.Text.{Text}

-- A value of a `Record<string, unknown>`, as far as the program puts them there.
pub data Scalar : Type 0 where
  null : Scalar
  num : ℕ → Scalar
  str : Text → Scalar
  bool : Bool → Scalar

pub data AttachmentKind : Type 0 where
  image pdf text document binary : AttachmentKind

pub data TelegramType : Type 0 where
  photo document : TelegramType

pub record SourceRef : Type 0 where
  pub telegram_type : TelegramType
  pub file_id : Text
  pub file_unique_id : Option Text
  pub chat_id : ℕ
  pub source_message_id : ℕ
  pub media_group_id : Option Text
  pub media_type : Option Text
  pub filename : Option Text
  pub size_bytes : Option ℕ

pub record Attachment : Type 0 where
  pub kind : AttachmentKind
  pub media_type : Option Text
  pub filename : Option Text
  pub size_bytes : Option ℕ
  pub title : Option Text
  pub metadata : Option (List (Text × Scalar))
  pub source : SourceRef

pub data Part : Type 0 where
  text : Text → Part
  attachment : Attachment → Part

-- `rawSource`: a missing `messageIds` is `none`.
pub record RawSource : Type 0 where
  pub platform : Option Text
  pub message_ids : Option (List ℕ)

pub record BufferedMessage : Type 0 where
  pub source_message_id : ℕ
  pub date : ℕ
  pub text_summary : Text
  pub parts : List Part
  pub media_group_id : Option Text
  pub from : Option (List (Text × Scalar))
  pub raw_source : Option RawSource
