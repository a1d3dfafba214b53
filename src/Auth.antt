-- ===== src/Auth.antt =====
-- app/auth.py, and the middleware of app/main.py that calls it. The comparison in constant time is
-- equality; what it takes is not modelled.
use dost_review_api.Prelude.{
  String, Bool, true, false, ◌||◌, ◌==◌, Option, none, some, List, [], ◌∷◌, if◌then◌else◌,
}

abbrev pub public_paths : List String
public_paths = "/health" ∷ "/ready" ∷ "/docs" ∷ "/openapi.json" ∷ "/redoc" ∷ []

unfoldable pub is_public : String → List String → Bool
is_public path [] = false
is_public path (p ∷ paths) = p == path || is_public path paths

-- `request.headers.get("X-Access-Key", "")`.
unfoldable pub provided_key : Option String → String
provided_key none = ""
provided_key (some k) = k

-- Whether `verify_guard_key` returns; it raises a 401 otherwise.
unfoldable pub verify_guard_key : String → String → Option String → Bool
verify_guard_key guard_access_key path header =
    if is_public path public_paths
    then true
    else if guard_access_key == ""
    then true
    else provided_key header == guard_access_key

-- `auth_middleware`: the handler runs, or the answer is the 401 of the exception.
unfoldable pub auth_middleware {ℓ} :
    {A S : Type ℓ} → String → String → Option String → A → (S → A × S) → S → A × S
auth_middleware guard_access_key path header unauthorized call_next state =
    if verify_guard_key guard_access_key path header then call_next state else (unauthorized, state)
