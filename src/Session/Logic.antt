-- ===== src/Session/Logic.antt =====
-- conversation-session-logic.ts, and the merging of media groups.
use amby.Common.{
  ℕ, ◌+◌, min, Bool, true, false, ◌&&◌, Option, none, some, List, [], ◌∷◌, ◌++◌, map, any,
  if◌then◌else◌, or_else, or_option,
}
use amby.Common.Text.{Text, lit, text_eq, starts_with, trim, is_truthy}
use amby.Message.{Part, text, attachment, BufferedMessage}

abbrev pub debounce_base_ms : ℕ
debounce_base_ms = 800

abbrev pub debounce_extend_ms : ℕ
debounce_extend_ms = 400

abbrev pub debounce_cap_ms : ℕ
debounce_cap_ms = 1500

abbrev pub rerun_debounce_ms : ℕ
rerun_debounce_ms = 250

abbrev pub correction_prefixes : List Text
correction_prefixes =
    lit "wait"
    ∷ lit "actually"
    ∷ lit "sorry"
    ∷ lit "i meant"
    ∷ lit "ignore that"
    ∷ lit "correction"
    ∷ lit "to clarify"
    ∷ lit "instead"
    ∷ []

-- `to_lower` is the runtime's `toLowerCase`.
unfoldable pub is_correction_message : (Text → Text) → BufferedMessage → Bool
is_correction_message to_lower message =
    let t = to_lower (trim message.text_summary) in
    if is_truthy t then any (λ prefix. starts_with prefix t) correction_prefixes else false

unfoldable pub compute_debounce_deadline : ℕ → Option ℕ → Bool → ℕ
compute_debounce_deadline now started true = now + rerun_debounce_ms
compute_debounce_deadline now none false = now + debounce_base_ms
compute_debounce_deadline now (some started) false =
    min (started + debounce_cap_ms) (now + debounce_extend_ms)

-- An entry of a stored buffer: a message, or the older format, which has a text and no parts.
pub data StoredEntry : Type 0 where
  current : BufferedMessage → StoredEntry
  legacy : (message_id date : Option ℕ) (text : Option Text) → StoredEntry

abbrev pub legacy_parts : Option Text → List Part
legacy_parts none = []
legacy_parts (some t) = if is_truthy t then text t ∷ [] else []

unfoldable pub migrate_entry : StoredEntry → BufferedMessage
migrate_entry (current message) = message
migrate_entry (legacy message_id date t) = record {
  source_message_id = or_else message_id 0;
  date = or_else date 0;
  text_summary = or_else t [];
  parts = legacy_parts t;
  media_group_id = none;
  from = none;
  raw_source = none;
}

unfoldable pub migrate_buffer_entries : List StoredEntry → List BufferedMessage
unfolding migrate_entry
migrate_buffer_entries = map migrate_entry

-- `parts.find((part) => part.type === "text")`, trimmed.
unfoldable pub first_text : List Part → Option Text
first_text [] = none
first_text (text t ∷ parts) = some (trim t)
first_text (attachment a ∷ parts) = first_text parts

-- `a || b`, where the left side may be missing.
abbrev pub or_text : Option Text → Text → Text
or_text none b = b
or_text (some a) b = if is_truthy a then a else b

abbrev pub raw_message_ids : BufferedMessage → List ℕ
raw_message_ids message = elim message.raw_source [
  | none ↦ message.source_message_id ∷ []
  | some raw ↦ or_else raw.message_ids (message.source_message_id ∷ [])
]

unfoldable pub merge_buffered_messages : BufferedMessage → BufferedMessage → BufferedMessage
unfolding first_text
merge_buffered_messages existing incoming = record {
  source_message_id = existing.source_message_id;
  date = min existing.date incoming.date;
  text_summary =
      or_text (first_text existing.parts)
        (or_text (first_text incoming.parts) incoming.text_summary);
  parts = existing.parts ++ incoming.parts;
  media_group_id = or_option existing.media_group_id incoming.media_group_id;
  from = or_option existing.from incoming.from;
  raw_source = some (record {
    platform = some (lit "telegram");
    message_ids = some (raw_message_ids existing ++ raw_message_ids incoming);
  });
}

-- Both in a media group, and in the same one.
abbrev pub same_group : Option Text → Option Text → Bool
same_group none g = false
same_group (some g) none = false
same_group (some g) (some h) = is_truthy g && is_truthy h && text_eq g h

-- The last entry takes the message in if it belongs to the same media group.
unfoldable pub buffer_message : BufferedMessage → List BufferedMessage → List BufferedMessage
buffer_message message [] = message ∷ []
buffer_message message (last ∷ []) =
    if same_group last.media_group_id message.media_group_id
    then merge_buffered_messages last message ∷ []
    else last ∷ message ∷ []
buffer_message message (first ∷ second ∷ rest) = first ∷ buffer_message message (second ∷ rest)
