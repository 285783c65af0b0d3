-- ===== src/Http.antt =====
-- The HTTP client, frontend/src/shared/api/http.ts. `fetch` is a parameter: what it answers to a
-- request. No caller passes headers. The body of a request is a text, with a mark for form data, for
-- which the browser sets the content type; the parsed body of an answer is of a type `A`.
pub mod Laws
use Prim.Native.String
use chessview.Common.{
  ℕ, String, Bool, true, false, not, ◌&&◌, Option, none, some, List, [], ◌∷◌, ◌++◌, ◌==◌, ◌or◌,
  ◌or_else◌, str_eq, if◌then◌else◌,
}
use chessview.Common.Text.{concat, truthy, truthy?, includes}
use chessview.User
use chessview.User.{Auth, Persisted, get_persisted_access_token}

pub record HttpError : Type 0 where
  pub message : String
  pub status : ℕ
  pub code : Option String

pub data Body : Type 0 where
  form_data : Body
  text : String → Body

pub record Request : Type 0 where
  pub url : String
  pub method : String
  pub headers : List (String × String)
  pub body : Option Body

-- What an error answer may hold.
pub record ErrorBody : Type 0 where
  pub detail : Option String
  pub message : Option String
  pub code : Option String

-- An answer: its status, `String(status)`, `ok`, and its body as a value or as an error, where each
-- is `none` if `json()` throws.
pub record Response (A : Type 0) : Type 0 where
  pub status : ℕ
  pub status_text : String
  pub ok : Bool
  pub json : Option A
  pub error_json : Option ErrorBody

-- `fetch` answers, or throws an error with a message or something else.
pub data Fetched (A : Type 0) : Type 0 where
  answered : Response A → Fetched A
  failed : Option String → Fetched A

-- What `request` returns: a value, undefined, an error of its own, or the error of `json()`.
pub data Outcome (A : Type 0) : Type 0 where
  value : A → Outcome A
  undefined : Outcome A
  http_error : HttpError → Outcome A
  unreadable : Outcome A

-- The stores and the page that a request may change.
pub record Page : Type 0 where
  pub auth : Auth
  pub path : String

abbrev pub ends_with_slash : String → Bool
ends_with_slash String.[] = false
ends_with_slash (String.◌∷◌ c s) =
    if truthy s then ends_with_slash s else str_eq (String.◌∷◌ c s) "/"

-- `base.slice(0, -1)`
abbrev pub drop_last : String → String
drop_last String.[] = ""
drop_last (String.◌∷◌ c s) = if truthy s then String.◌∷◌ c (drop_last s) else ""

abbrev pub starts_with_slash : String → Bool
starts_with_slash String.[] = false
starts_with_slash (String.◌∷◌ c s) = str_eq (String.◌∷◌ c "") "/"

unfoldable pub build_url : String → String → String
build_url base endpoint =
    concat (if ends_with_slash base then drop_last base else base)
      (if starts_with_slash endpoint then endpoint else concat "/" endpoint)

abbrev pub is_form_data : Option Body → Bool
is_form_data (some form_data) = true
is_form_data _ = false

unfoldable pub headers_of : Option Body → Option String → List (String × String)
headers_of body token =
    (if is_form_data body then [] else ("Content-Type", "application/json") ∷ [])
    ++ (if truthy? token then ("Authorization", concat "Bearer " (token or "")) ∷ [] else [])

-- `a || b` of texts that may be missing.
abbrev pub first_truthy : Option String → Option String → Option String
first_truthy a b = if truthy? a then a else b

-- What `request` gives to `fetch`.
abbrev pub asked : String → String → String → Option Body → Option String → Request
asked base endpoint method body token = record {
  url = build_url base endpoint;
  method = method;
  headers = headers_of body token;
  body = body;
}

module _ (to_json : Persisted → String) (from_json : String → Option (Option String)) where
  unfoldable pub get_access_token : Page → Option String
  get_access_token p =
      first_truthy p.auth.state.access_token (get_persisted_access_token from_json p.auth)

  -- `window.location.href = "/login"` is a change of the path.
  abbrev pub sign_out : Page → Page
  sign_out p = record {
    auth = User.clear_auth to_json p.auth;
    path = if includes p.path "/login" then p.path else "/login";
  }

  abbrev pub error_of : {A : Type 0} → Response A → HttpError
  error_of r =
      let body =
        r.error_json or record { detail = some "Request failed"; message = none; code = none } in
      record {
        message =
            first_truthy body.detail (first_truthy body.message none)
            or concat "Error " r.status_text;
        status = r.status;
        code = body.code;
      }

  -- What follows the answer.
  abbrev pub receive : {A : Type 0} → Option String → Response A → Page → Page × Outcome A
  receive token r p =
      if not r.ok
      then (
        if r.status == 401 && truthy? token then sign_out p else p,
        Outcome.http_error (error_of r),
      )
      else if r.status == 204
      then (p, Outcome.undefined)
      else (p, elim r.json [ none ↦ Outcome.unreadable | some a ↦ Outcome.value a ])

  abbrev pub network_error : Option String → HttpError
  network_error message = record {
    message = message or "Network failure";
    status = 0;
    code = some "NETWORK_ERROR";
  }

  unfoldable pub request :
      {A : Type 0}
      → (Request → Fetched A)
      → String
      → String
      → String
      → Option Body
      → Page
      → Page × Outcome A
  request fetch base endpoint method body p =
      let token = get_access_token p in
      elim (fetch (asked base endpoint method body token)) [
        | failed message ↦ (p, Outcome.http_error (network_error message))
        | answered r ↦ receive token r p
      ]
