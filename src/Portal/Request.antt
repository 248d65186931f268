-- ===== src/Portal/Request.antt =====
-- A request as the handler of portal/app/main.py sees it, what the handler takes from the standard
-- library, and the checks that come before an endpoint's own work.
use Prim.Native.String.{count, ◌++◌}
use cascade_vpn.Base.{
  Bool, ℕ, ◌*◌, String, ◌||◌, not, Option, none, some, Result, ok, err, ◌>>=◌, ◌>>◌, require,
  refuse, or_raise, Assoc, ltb, ◌==◌, str_eq, if◌then◌else◌, get_or,
}
use cascade_vpn.Portal.Security.{Crypto}
use cascade_vpn.Portal.Client.{Addresses}
use cascade_vpn.Portal.Outbound.{Net, Url, default_port, port_or, is_http}
use cascade_vpn.Portal.Store.{Db, SessionRow, select_session}

pub data Method : Type 0 where
  get head post delete : Method

-- A value of a JSON body; `other` is any value that is no text and not null.
pub data Value : Type 0 where
  null : Value
  text : String → Value
  other : ℕ → Value

-- What `int(...)` makes of a text or a value: row ids are positive, so negative numbers are one.
pub data Number : Type 0 where
  natural : ℕ → Number
  negative : Number

-- What `json.loads` makes of the bytes that were read.
pub data Payload : Type 0 where
  malformed not_an_object : Payload
  object : Assoc Value → Payload

-- `APIError` by its status and code; any other exception is the status 500.
pub record ApiError : Type 0 where
  pub status : ℕ
  pub code : String

-- The functions of the standard library that the portal calls; `none` is an exception.
pub record Library : Type 0 where
  pub net : Net
  pub addresses : Addresses
  pub crypto : Crypto
  -- `.lower().rstrip(".")`
  pub bare_host : String → String
  -- `split(";", 1)[0].strip().lower()`
  pub media_type : String → String
  pub int_of_text : String → Option Number
  -- the value of the session cookie, where `SimpleCookie.load` accepts the header and has it
  pub session_cookie : String → Option String
  -- SHA-256 of a text, which must be ASCII
  pub token_hash : String → Option String

pub record Request : Type 0 where
  pub peer_address : String
  pub forwarded_for : Option String
  pub method : Method
  pub path : String
  pub cookie_header : Option String
  pub csrf_header : String
  pub origin : Option String
  pub content_type : String
  pub content_length : Option String
  pub payload : ℕ → Payload

pub record Settings : Type 0 where
  pub trust_proxy : Bool
  pub public_url : String
  pub session_ttl : ℕ
  pub password_hash : String
  pub password_binding : String

pub record Session : Type 0 where
  pub token_hash : String
  pub csrf_token : String
  pub expires_at : ℕ

abbrev pub Api {ℓ} : Type ℓ → Type ℓ
Api A = Result ApiError A

abbrev pub internal : ApiError
internal = record { status = 500; code = "internal" }

abbrev pub unauthorized : ApiError
unauthorized = record { status = 401; code = "authentication_required" }

abbrev pub bad_csrf : ApiError
bad_csrf = record { status = 403; code = "csrf" }

abbrev pub bad_origin : ApiError
bad_origin = record { status = 403; code = "origin" }

abbrev pub not_found : ApiError
not_found = record { status = 404; code = "not_found" }

abbrev pub max_json_body : ℕ
max_json_body = 64 * 1024

abbrev pub too_large : ApiError
too_large = record { status = 413; code = "body_too_large" }

abbrev pub bad_json : ApiError
bad_json = record { status = 400; code = "invalid_json" }

pub load_payload : Payload → Api (Assoc Value)
load_payload malformed = err bad_json
load_payload not_an_object = err bad_json
load_payload (object fields) = ok fields

pub read_length : Option Number → Api ℕ
read_length none = err (record { status = 400; code = "content_length" })
read_length (some negative) = err too_large
read_length (some (natural n)) = if ltb max_json_body n then err too_large else ok n

-- `PortalRequestHandler._body`
pub read_body : Library → Request → Api (Assoc Value)
unfolding load_payload read_length
read_body lib r = do
  require (str_eq (lib.media_type r.content_type) "application/json")
      (record { status = 415; code = "content_type" })
  raw ← or_raise r.content_length (record { status = 411; code = "content_length" })
  n ← read_length (lib.int_of_text raw)
  load_payload (r.payload n)

abbrev pub session_of_row : Option SessionRow → Option Session
session_of_row none = none
session_of_row (some row) = some (record {
  token_hash = row.token_hash;
  csrf_token = row.csrf_token;
  expires_at = row.expires_at;
})

-- A cookie value within the limit of `get_session`.
abbrev pub short_token : Option String → Option String
short_token none = none
short_token (some raw) = if str_eq raw "" || ltb 256 (count raw) then none else some raw

-- The raw token of the cookie header, within the limits of `get_session`.
unfoldable pub raw_token_of : Library → Option String → Option String
raw_token_of lib none = none
raw_token_of lib (some header) =
    if str_eq header "" || ltb 8192 (count header)
    then none
    else short_token (lib.session_cookie header)

unfoldable pub session_of_token : Library → Settings → Db → ℕ → Option String → Api (Option Session)
session_of_token lib cfg db now none = ok none
session_of_token lib cfg db now (some raw) = do
  hash ← or_raise (lib.token_hash raw) internal
  ok (session_of_row (select_session db hash cfg.password_binding now))

-- `PortalApplication.get_session`
unfoldable pub get_session : Library → Settings → Db → ℕ → Option String → Api (Option Session)
unfolding session_of_token
get_session lib cfg db now header = session_of_token lib cfg db now (raw_token_of lib header)

-- `_require_session()` and `_require_session(csrf=True)`; the comparison takes constant time.
unfoldable pub require_session : Library → Settings → Db → ℕ → Request → Api Session
require_session lib cfg db now r = do
  session ← get_session lib cfg db now r.cookie_header
  or_raise session unauthorized

unfoldable pub require_csrf : Library → Settings → Db → ℕ → Request → Api Session
require_csrf lib cfg db now r = do
  session ← require_session lib cfg db now r
  refuse (str_eq r.csrf_header "" || not (str_eq r.csrf_header session.csrf_token)) bad_csrf
  ok session

pub origin_text : Library → String → String → Option ℕ → String
origin_text lib scheme hostname port =
    let bare = lib.bare_host hostname in
    let host = if lib.net.has_colon bare then "[" ++ (bare ++ "]") else bare in
    let p = port_or (default_port scheme) port in
    let suffix = if p == default_port scheme then "" else ":" ++ lib.net.decimal p in
    scheme ++ ("://" ++ (host ++ suffix))

-- `url_origin`; the scheme of a split URL is in lower case.
abbrev pub origin_of : Library → Url → String
origin_of lib u = if not (is_http u.scheme) then "" else elim u.hostname [
  | none ↦ ""
  | some hostname ↦ elim u.port [ none ↦ "" | some port ↦ origin_text lib u.scheme hostname port ]
]

pub url_origin : Library → String → Api String
unfolding origin_text
url_origin lib url = do u ← or_raise (lib.net.urlsplit url) internal; ok (origin_of lib u)

pub same_origin : Library → Settings → Request → Api (Unit {0})
same_origin lib cfg r =
    let origin = get_or r.origin "" in
    if str_eq origin "" then ok tt else (do
      expected ← url_origin lib cfg.public_url
      found ← url_origin lib origin
      require (str_eq found expected) bad_origin)

-- What stands before the work of every endpoint that changes something, login excepted.
unfoldable pub authorize : Library → Settings → Db → ℕ → Request → Api Session
authorize lib cfg db now r = do
  session ← require_csrf lib cfg db now r
  same_origin lib cfg r
  ok session
