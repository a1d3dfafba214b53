-- ===== src/App/Ids.antt =====
-- app/risk/ids.py, on texts as their code points. A value that is no text has neither form.
use dost_review_api.Prelude.{ℕ, Bool, true, false, ◌&&◌, List, [], ◌∷◌, count, length, any}
use dost_review_api.Models.{Text}
use Prim.Native.Nat.{compare, Ordering}

abbrev pub is_code : ℕ → ℕ → Bool
is_code a b = elim (compare a b) [ Ordering.eq ↦ true | _ ↦ false ]

-- `str.startswith`.
unfoldable pub starts_with : Text → Text → Bool
starts_with [] t = true
starts_with (c ∷ prefix) [] = false
starts_with (c ∷ prefix) (d ∷ t) = is_code c d && starts_with prefix t

-- "hum.", "agent.", "com.".
abbrev pub wire_prefixes : List Text
wire_prefixes =
    (b'h' ∷ b'u' ∷ b'm' ∷ b'.' ∷ [])
    ∷ (b'a' ∷ b'g' ∷ b'e' ∷ b'n' ∷ b't' ∷ b'.' ∷ [])
    ∷ (b'c' ∷ b'o' ∷ b'm' ∷ b'.' ∷ [])
    ∷ []

unfoldable pub is_wire_id : Text → Bool
is_wire_id value = any (λ prefix. starts_with prefix value) wire_prefixes

unfoldable pub is_profile_uuid : Text → Bool
is_profile_uuid value = is_code (length value) 36 && is_code (count (is_code b'-') value) 4
