-- ===== src/Api/Json.antt =====
-- JSON values as `json.loads` makes them, and the decoders that the routes take from libraries.
use dost_review_api.Prelude.{
  String, Bool, true, false, not, ◌==◌, Option, none, some, if◌then◌else◌,
}
use dost_review_api.Models.{Uuid, Payload}

-- A number is zero, or given by its text. The members of an object have distinct names.
mutual
  pub data Json : Type 0 where
    null zero : Json
    boolean : Bool → Json
    number : String → Json
    text : String → Json
    array : Items → Json
    object : Members → Json

  pub data Items : Type 0 where
    no_items : Items
    item : Json → Items → Items

  pub data Members : Type 0 where
    no_members : Members
    member : String → Json → Members → Members

-- `d.get(key)`.
unfoldable pub get : String → Members → Option Json
get k no_members = none
get k (member j v d) = if j == k then some v else get k d

unfoldable pub truthy : Json → Bool
truthy null = false
truthy zero = false
truthy (boolean b) = b
truthy (number t) = true
truthy (text t) = not (t == "")
truthy (array no_items) = false
truthy (array (item v vs)) = true
truthy (object no_members) = false
truthy (object (member j v d)) = true

-- What pydantic makes of the fields of a review before the validators run.
pub data Coerced : Type 0 where
  fields : Payload → Coerced
  invalid_fields raises : Coerced

-- `json.loads(base64.b64decode(v))`, `json.loads(v)`, `UUID(v)`, where `none` is an exception, and the
-- coercion of the fields.
pub record Decoders : Type 0 where
  pub decoded : Json → Option Json
  pub loads : Json → Option Json
  pub uuid : Json → Option Uuid
  pub coerce : Members → Coerced
