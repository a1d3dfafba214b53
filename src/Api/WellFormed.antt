-- ===== src/Api/WellFormed.antt =====
-- Every review that a body yields has passed the validators.
use dost_review_api.Prelude.{not, ◌≡◌, refl, sym, subst, Option, none, some, Bool-cases, inl, inr}
use dost_review_api.Models.{Uuid, Instant, Payload, Validated, valid, invalid, validate}
use dost_review_api.Models.Laws.{IsWellFormed, validate_iff}
use dost_review_api.Api.Json.{
  Json, null, zero, boolean, number, text, array, object, Members, get, truthy, Coerced, fields,
  invalid_fields, raises, Decoders,
}
use dost_review_api.Api.Envelope.{
  unloadable, invalid_event_id, Parsed, envelope_error, checked_review, coerced_review, review_of,
  with_review, parse_text, parse_message, parse_inner, event_id_of, is_msg_start, parse_encrypted,
  parse_event_envelope,
}
use dost_review_api.Api.Reviews.{
  Read, review_read, unreadable, read_parsed, read_validated, read_coerced, is_envelope,
  read_object, read_body,
}

-- The review, if there is one, is well-formed.
abbrev pub YieldsWellFormed : Instant → Read → Type 0
YieldsWellFormed now (review_read review event_id) = IsWellFormed now review
YieldsWellFormed now (unreadable d) = Unit

validated-YieldsWellFormed :
    (now : Instant) (p : Payload) (v : Validated)
    → validate now p ≡ v
    → YieldsWellFormed now (read_validated v)
unfolding read_validated
validated-YieldsWellFormed now p (valid review) h =
    let (limits, same) = (validate_iff now p review).0 h in
    subst (IsWellFormed now) (sym same) limits
validated-YieldsWellFormed now p (invalid es) h = tt

coerced-YieldsWellFormed : (now : Instant) (c : Coerced) → YieldsWellFormed now (read_coerced now c)
unfolding read_coerced
coerced-YieldsWellFormed now (fields p) = validated-YieldsWellFormed now p (validate now p) refl
coerced-YieldsWellFormed now invalid_fields = tt
coerced-YieldsWellFormed now raises = tt

module _ (d : Decoders) (now : Instant) where
  -- Without the wrapping of the route.
  abbrev FromEnvelope : Parsed → Type 0
  FromEnvelope p = YieldsWellFormed now (read_parsed p)

  checked-FromEnvelope :
      (event_id : Option Uuid) (p : Payload) (v : Validated)
      → validate now p ≡ v
      → FromEnvelope (with_review event_id (checked_review v))
  unfolding read_parsed with_review checked_review
  checked-FromEnvelope event_id p (valid review) h =
      let (limits, same) = (validate_iff now p review).0 h in
      subst (IsWellFormed now) (sym same) limits
  checked-FromEnvelope event_id p (invalid es) h = tt

  coerced-FromEnvelope :
      (event_id : Option Uuid) (c : Coerced)
      → FromEnvelope (with_review event_id (coerced_review now c))
  unfolding coerced_review with_review read_parsed
  coerced-FromEnvelope event_id (fields p) = checked-FromEnvelope event_id p (validate now p) refl
  coerced-FromEnvelope event_id invalid_fields = tt
  coerced-FromEnvelope event_id raises = tt

  review_of-FromEnvelope :
      (event_id : Option Uuid) (v : Option Json) (e : Parsed)
      → FromEnvelope e
      → FromEnvelope (elim v [ none ↦ e | some w ↦ with_review event_id (review_of d now w) ])
  unfolding review_of with_review read_parsed
  review_of-FromEnvelope event_id none e h = h
  review_of-FromEnvelope event_id (some (object members)) e h =
      coerced-FromEnvelope event_id (d.coerce members)
  review_of-FromEnvelope event_id (some null) e h = tt
  review_of-FromEnvelope event_id (some zero) e h = tt
  review_of-FromEnvelope event_id (some (boolean b)) e h = tt
  review_of-FromEnvelope event_id (some (number t)) e h = tt
  review_of-FromEnvelope event_id (some (text t)) e h = tt
  review_of-FromEnvelope event_id (some (array vs)) e h = tt

  parse_text-FromEnvelope :
      (event_id : Option Uuid) (t : Option Json) → FromEnvelope (parse_text d now event_id t)
  unfolding parse_text read_parsed
  parse_text-FromEnvelope event_id none = tt
  parse_text-FromEnvelope event_id (some t) = elim (Bool-cases (not (truthy t))) [
    | inl e ↦ rw e tt
    | inr e ↦ rw e (review_of-FromEnvelope event_id (d.loads t) (envelope_error (unloadable t)) tt)
  ]

  parse_message-FromEnvelope :
      (event_id : Option Uuid) (m : Option Json) → FromEnvelope (parse_message d now event_id m)
  unfolding parse_message read_parsed
  parse_message-FromEnvelope event_id none = parse_text-FromEnvelope event_id none
  parse_message-FromEnvelope event_id (some (object message)) =
      parse_text-FromEnvelope event_id (get "text" message)
  parse_message-FromEnvelope event_id (some null) = tt
  parse_message-FromEnvelope event_id (some zero) = tt
  parse_message-FromEnvelope event_id (some (boolean b)) = tt
  parse_message-FromEnvelope event_id (some (number t)) = tt
  parse_message-FromEnvelope event_id (some (text t)) = tt
  parse_message-FromEnvelope event_id (some (array vs)) = tt

  parse_inner-FromEnvelope :
      (event_id : Option Uuid) (v : Option Json) → FromEnvelope (parse_inner d now event_id v)
  unfolding parse_inner read_parsed
  parse_inner-FromEnvelope event_id none = tt
  parse_inner-FromEnvelope event_id (some (object inner)) =
      parse_message-FromEnvelope event_id (get "message" inner)
  parse_inner-FromEnvelope event_id (some null) = tt
  parse_inner-FromEnvelope event_id (some zero) = tt
  parse_inner-FromEnvelope event_id (some (boolean b)) = tt
  parse_inner-FromEnvelope event_id (some (number t)) = tt
  parse_inner-FromEnvelope event_id (some (text t)) = tt
  parse_inner-FromEnvelope event_id (some (array vs)) = tt

  after_event-FromEnvelope :
      (v : Option Json) (event : Option (Option Uuid))
      → FromEnvelope (elim event [
        | none ↦ envelope_error invalid_event_id
        | some event_id ↦ parse_inner d now event_id v
      ])
  unfolding read_parsed
  after_event-FromEnvelope v none = tt
  after_event-FromEnvelope v (some event_id) = parse_inner-FromEnvelope event_id v

  parse_encrypted-FromEnvelope :
      (body : Members) (v : Option Json) → FromEnvelope (parse_encrypted d now body v)
  unfolding parse_encrypted read_parsed
  parse_encrypted-FromEnvelope body none = tt
  parse_encrypted-FromEnvelope body (some v) = elim (Bool-cases (not (truthy v))) [
    | inl e ↦ rw e tt
    | inr e ↦ rw e (after_event-FromEnvelope (d.decoded v) (event_id_of d (get "eventId" body)))
  ]

  parse_event_envelope-FromEnvelope :
      (body : Members) → FromEnvelope (parse_event_envelope d now body)
  unfolding parse_event_envelope read_parsed
  parse_event_envelope-FromEnvelope body = elim (Bool-cases (is_msg_start (get "eventType" body))) [
    | inl e ↦ rw e (parse_encrypted-FromEnvelope body (get "encryptedEvent" body))
    | inr e ↦ rw e tt
  ]

  object-YieldsWellFormed : (body : Members) → YieldsWellFormed now (read_object d now body)
  unfolding read_object
  object-YieldsWellFormed body = elim (Bool-cases (is_envelope body)) [
    | inl e ↦ rw e (parse_event_envelope-FromEnvelope body)
    | inr e ↦ rw e (coerced-YieldsWellFormed now (d.coerce body))
  ]

-- Whatever the body is and whatever the decoders make of it, raw or in an envelope: a review that is read
-- from it, and handed to the gate, is within the limits of the validators.
pub read_body-YieldsWellFormed :
    (d : Decoders) (now : Instant) (body : Option Json)
    → YieldsWellFormed now (read_body d now body)
unfolding read_body
read_body-YieldsWellFormed d now none = tt
read_body-YieldsWellFormed d now (some (object body)) = object-YieldsWellFormed d now body
read_body-YieldsWellFormed d now (some null) = tt
read_body-YieldsWellFormed d now (some zero) = tt
read_body-YieldsWellFormed d now (some (boolean b)) = tt
read_body-YieldsWellFormed d now (some (number t)) = tt
read_body-YieldsWellFormed d now (some (text t)) = tt
read_body-YieldsWellFormed d now (some (array vs)) = tt
