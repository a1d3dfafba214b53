-- ===== src/Models.antt =====
-- app/models.py: the review that a client submits, and its field validators.
-- pydantic coerces the JSON fields to their types before the validators run; the model begins at
-- the typed fields. A UUID is represented by its canonical text, which `str` returns and by which
-- UUIDs are compared. An instant is a number of microseconds on one UTC scale.
pub mod Laws
use dost_review_api.Prelude.{
  ℕ, ◌+◌, ◌*◌, String, Bool, not, ◌&&◌, ◌||◌, Option, none, some, List, [], ◌∷◌, length, ltb, leb,
  any, if◌then◌else◌,
}

abbrev pub Uuid : Type 0
Uuid = String

abbrev pub str : Uuid → String
str u = u

-- A text that is walked: its code points.
abbrev pub Text : Type 0
Text = List ℕ

abbrev pub Instant : Type 0
Instant = ℕ

abbrev pub hours : ℕ → ℕ
hours n = n * 3600000000

abbrev pub days : ℕ → ℕ
days n = hours (24 * n)

-- A `datetime`, naive or with a zone; the second carries the instant that it denotes.
pub data Datetime : Type 0 where
  naive : ℕ → Datetime
  aware : Instant → Datetime

-- The declared fields, before validation. A multimedia item is the text that `json.dumps` writes.
pub record Payload : Type 0 where
  pub review_id : Uuid
  pub target_profile_id : Uuid
  pub rater_profile_id : Uuid
  pub review_text : Text
  pub multimedia : Option (List Text)
  pub created_at : Datetime

-- `DostReview`, validated.
pub record DostReview : Type 0 where
  pub review_id : Uuid
  pub target_profile_id : Uuid
  pub rater_profile_id : Uuid
  pub review_text : Text
  pub multimedia : Option (List Text)
  pub created_at : Instant

pub data FieldError : Type 0 where
  text_too_short text_too_long text_blank : FieldError
  too_many_items multimedia_too_large : FieldError
  created_in_future created_too_old : FieldError

abbrev between : ℕ → ℕ → ℕ → Bool
between lo hi c = leb lo c && leb c hi

-- `str.isspace`, by which `strip` goes.
unfoldable pub is_space : ℕ → Bool
is_space c =
    between 9 13 c
    || between 28 32 c
    || between 133 133 c
    || between 160 160 c
    || between 5760 5760 c
    || between 8192 8202 c
    || between 8232 8233 c
    || between 8239 8239 c
    || between 8287 8287 c
    || between 12288 12288 c

-- `not v.strip()`: nothing is left exactly when every character is white space.
unfoldable pub is_blank : Text → Bool
unfolding is_space
is_blank t = not (any (λ c. not (is_space c)) t)

-- `Field(min_length=1, max_length=5000)`, then `text_not_blank`.
unfoldable pub text_error : Text → Option FieldError
unfolding is_blank
text_error t =
    if ltb (length t) 1
    then some text_too_short
    else if ltb 5000 (length t)
    then some text_too_long
    else if is_blank t
    then some text_blank
    else none

-- `len(json.dumps(v))` of a list: the brackets, the items, and ", " between them.
unfoldable pub items_size : List Text → ℕ
items_size [] = 0
items_size (x ∷ []) = length x
items_size (x ∷ xs) = length x + 2 + items_size xs

unfoldable pub dumps_size : List Text → ℕ
unfolding items_size
dumps_size xs = items_size xs + 2

-- `Field(max_length=10)`, then `multimedia_not_huge`.
unfoldable pub multimedia_error : Option (List Text) → Option FieldError
unfolding dumps_size
multimedia_error none = none
multimedia_error (some v) =
    if ltb 10 (length v)
    then some too_many_items
    else if ltb 100000 (dumps_size v)
    then some multimedia_too_large
    else none

-- `v.replace(tzinfo=timezone.utc)` where the zone is missing.
unfoldable pub to_utc : Datetime → Instant
to_utc (naive t) = t
to_utc (aware t) = t

-- `reasonable_date`. The subtraction is moved to the other side of the comparison.
unfoldable pub date_error : Instant → Instant → Option FieldError
date_error now v =
    if ltb (now + hours 1) v
    then some created_in_future
    else if ltb (v + days 365) now
    then some created_too_old
    else none

pub data Validated : Type 0 where
  valid : DostReview → Validated
  invalid : List FieldError → Validated

unfoldable pub collect : Option FieldError → List FieldError → List FieldError
collect none es = es
collect (some e) es = e ∷ es

unfoldable pub field_errors : Instant → Payload → List FieldError
unfolding collect
field_errors now p =
    collect (text_error p.review_text)
      (collect (multimedia_error p.multimedia) (collect (date_error now (to_utc p.created_at)) []))

unfoldable pub accept_fields : Payload → DostReview
unfolding to_utc
accept_fields p = record {
  review_id = p.review_id;
  target_profile_id = p.target_profile_id;
  rater_profile_id = p.rater_profile_id;
  review_text = p.review_text;
  multimedia = p.multimedia;
  created_at = to_utc p.created_at;
}

unfoldable pub validated : Payload → List FieldError → Validated
validated p [] = valid (accept_fields p)
validated p (e ∷ es) = invalid (e ∷ es)

-- `DostReview(**body)`: every field that fails is reported, in the order of the fields.
unfoldable pub validate : Instant → Payload → Validated
validate now p = validated p (field_errors now p)
