-- ===== src/Api/Envelope.antt =====
-- app/event_parser.py.
use dost_review_api.Prelude.{Bool, false, not, ◌==◌, Option, none, some, if◌then◌else◌}
use dost_review_api.Models.{Uuid, Instant, DostReview, Validated, valid, invalid, validate}
use dost_review_api.Api.Json.{
  Json, text, object, Members, get, truthy, Coerced, fields, invalid_fields, raises, Decoders,
}

-- The messages of `EnvelopeError`.
pub data EnvelopeError : Type 0 where
  wrong_event_type missing_encrypted_event invalid_event_id undecodable : EnvelopeError
  inner_not_object message_not_object missing_text text_not_json invalid_review : EnvelopeError

pub data Parsed : Type 0 where
  parsed : DostReview → Option Uuid → Parsed
  envelope_error : EnvelopeError → Parsed

-- `DostReview(**review_data)`; `none` where it raises.
unfoldable pub checked_review : Validated → Option DostReview
checked_review (valid review) = some review
checked_review (invalid errors) = none

unfoldable pub coerced_review : Instant → Coerced → Option DostReview
coerced_review now (fields p) = checked_review (validate now p)
coerced_review now invalid_fields = none
coerced_review now raises = none

unfoldable pub review_of : Decoders → Instant → Json → Option DostReview
review_of d now (object members) = coerced_review now (d.coerce members)
review_of d now _ = none

unfoldable pub with_review : Option Uuid → Option DostReview → Parsed
with_review event_id none = envelope_error invalid_review
with_review event_id (some review) = parsed review event_id

-- `json.loads` refuses a text that is not JSON, and every value that is no text.
unfoldable pub unloadable : Json → EnvelopeError
unloadable (text t) = text_not_json
unloadable _ = invalid_review

unfoldable pub parse_text : Decoders → Instant → Option Uuid → Option Json → Parsed
parse_text d now event_id none = envelope_error missing_text
parse_text d now event_id (some t) =
    if not (truthy t) then envelope_error missing_text else elim (d.loads t) [
      | none ↦ envelope_error (unloadable t)
      | some v ↦ with_review event_id (review_of d now v)
    ]

-- `inner.get("message", {})`, from here on.
unfoldable pub parse_message : Decoders → Instant → Option Uuid → Option Json → Parsed
parse_message d now event_id none = parse_text d now event_id none
parse_message d now event_id (some (object message)) =
    parse_text d now event_id (get "text" message)
parse_message d now event_id (some _) = envelope_error message_not_object

unfoldable pub parse_inner : Decoders → Instant → Option Uuid → Option Json → Parsed
parse_inner d now event_id none = envelope_error undecodable
parse_inner d now event_id (some (object inner)) =
    parse_message d now event_id (get "message" inner)
parse_inner d now event_id (some _) = envelope_error inner_not_object

-- The `eventId`: `none` where it is not a UUID, `some none` where it is missing or falsy.
unfoldable pub event_id_of : Decoders → Option Json → Option (Option Uuid)
event_id_of d none = some none
event_id_of d (some v) =
    if truthy v then elim (d.uuid v) [ none ↦ none | some u ↦ some (some u) ] else some none

unfoldable pub is_msg_start : Option Json → Bool
is_msg_start (some (text t)) = t == "MSG_START"
is_msg_start _ = false

unfoldable pub parse_encrypted : Decoders → Instant → Members → Option Json → Parsed
parse_encrypted d now body none = envelope_error missing_encrypted_event
parse_encrypted d now body (some encrypted) =
    if not (truthy encrypted)
    then envelope_error missing_encrypted_event
    else elim (event_id_of d (get "eventId" body)) [
      | none ↦ envelope_error invalid_event_id
      | some event_id ↦ parse_inner d now event_id (d.decoded encrypted)
    ]

-- `parse_event_envelope`.
unfoldable pub parse_event_envelope : Decoders → Instant → Members → Parsed
parse_event_envelope d now body =
    if is_msg_start (get "eventType" body)
    then parse_encrypted d now body (get "encryptedEvent" body)
    else envelope_error wrong_event_type
