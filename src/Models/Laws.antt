-- ===== src/Models/Laws.antt =====
-- Which reviews pass the validators of app/models.py.
use dost_review_api.Prelude.{
  ◌+◌, ◌≤◌, true, not, ◌≡◌, ◌↔◌, refl, Option, none, some, List, [], ◌∷◌, arith, length, any,
}
use dost_review_api.Models.{
  Instant, hours, days, Text, Payload, DostReview, FieldError, is_space, is_blank, text_error,
  dumps_size, multimedia_error, to_utc, date_error, valid, collect, field_errors, accept_fields,
  validated, validate,
}

abbrev pub MultimediaFits : Option (List Text) → Type 0
MultimediaFits none = Unit
MultimediaFits (some v) = (length v ≤ 10) × (dumps_size v ≤ 100000)

-- The limits that the validators promise of a review.
pub record IsWellFormed (now : Instant) (review : DostReview) : Type 0 where
  pub not_empty : 1 ≤ length review.review_text
  pub not_long : length review.review_text ≤ 5000
  pub visible : any (λ c. not (is_space c)) review.review_text ≡ true
  pub media : MultimediaFits review.multimedia
  pub not_future : review.created_at ≤ now + hours 1
  pub recent : now ≤ review.created_at + days 365

text_error-none :
    (t : Text)
    → (text_error t ≡ none)
      ↔ ((1 ≤ length t) × (length t ≤ 5000) × (any (λ c. not (is_space c)) t ≡ true))
unfolding text_error is_blank
text_error-none t = (λ h. ground (arith, h), λ h. ground (arith, h))

multimedia_error-none : (m : Option (List Text)) → (multimedia_error m ≡ none) ↔ MultimediaFits m
unfolding multimedia_error
multimedia_error-none none = (λ h. tt, λ h. refl)
multimedia_error-none (some v) = (λ h. ground (arith, h), λ h. ground (arith, h))

date_error-none :
    (now v : Instant) → (date_error now v ≡ none) ↔ ((v ≤ now + hours 1) × (now ≤ v + days 365))
unfolding date_error
date_error-none now v = (λ h. ground (arith, h), λ h. ground (arith, h))

collect-none :
    (e : Option FieldError) (es : List FieldError) → (collect e es ≡ []) ↔ ((e ≡ none) × (es ≡ []))
unfolding collect
collect-none none es = (λ h. (refl, h), λ h. h.1)
collect-none (some e) es = (λ h. cc, λ h. cc)

field_errors-none :
    (now : Instant) (p : Payload) → (field_errors now p ≡ []) ↔ IsWellFormed now (accept_fields p)
unfolding field_errors accept_fields
field_errors-none now p = (
  λ h.
      let (t, rest) = (collect-none (text_error p.review_text) _).0 h in
      let (m, last) = (collect-none (multimedia_error p.multimedia) _).0 rest in
      let (d, end) = (collect-none (date_error now (to_utc p.created_at)) []).0 last in
      let (some_text, short_text, visible_text) = (text_error-none p.review_text).0 t in
      let (before, after) = (date_error-none now (to_utc p.created_at)).0 d in
      record {
        not_empty = some_text;
        not_long = short_text;
        visible = visible_text;
        media = (multimedia_error-none p.multimedia).0 m;
        not_future = before;
        recent = after;
      },
  λ h. (collect-none (text_error p.review_text) _).1 (
    (text_error-none p.review_text).1 (h.not_empty, h.not_long, h.visible),
    (collect-none (multimedia_error p.multimedia) _).1 (
      (multimedia_error-none p.multimedia).1 h.media,
      (collect-none (date_error now (to_utc p.created_at)) []).1
          ((date_error-none now (to_utc p.created_at)).1 (h.not_future, h.recent), refl),
    ),
  ),
)

validated-valid :
    (p : Payload) (errors : List FieldError) (review : DostReview)
    → (validated p errors ≡ valid review) ↔ ((errors ≡ []) × (review ≡ accept_fields p))
unfolding validated
validated-valid p [] review = (λ h. (refl, cc), λ h. cc)
validated-valid p (e ∷ es) review = (λ h. cc, λ h. cc)

-- A review is accepted exactly when its fields, with the creation time in UTC, are within the limits: from
-- 1 to 5000 characters, not all of them white space, at most 10 media items of at most 100000 characters
-- as JSON, and created at most a year ago and at most an hour ahead.
pub validate_iff :
    (now : Instant) (p : Payload) (review : DostReview)
    → (validate now p ≡ valid review)
      ↔ (IsWellFormed now (accept_fields p) × (review ≡ accept_fields p))
unfolding validate
validate_iff now p review =
    let (to, from) = validated-valid p (field_errors now p) review in
    let (limits, errors) = field_errors-none now p in
    (λ h. (limits (to h).0, (to h).1), λ h. from (errors h.0, h.1))
