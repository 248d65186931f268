-- ===== src/Portal/Outbound/Fetch.antt =====
-- `_read_limited` and `fetch_url` of portal/app/outbound.py.
pub mod Safety
use cascade_vpn.Base.{
  ℕ, zero, suc, ◌+◌, ◌-◌, String, Bool, true, false, ◌||◌, not, Option, none, some, List, [], ◌∷◌,
  ◌++◌, length, take, any, ltb, ◌==◌, str_eq, get_or, if◌then◌else◌, Result, ok, err, ◌>>=◌, ◌>>◌,
  require, refuse, or_raise,
}
use cascade_vpn.Portal.Outbound.{
  Address, Net, Internet, Policy, Response, Gunzip, UrlError, ValidatedUrl, validate_outbound_url,
}

-- Why a fetch has no result: an `UnsafeURLError`, a `FetchError`, or a `ValueError` of `urljoin`,
-- which nothing in this module catches.
pub data FetchFailure : Type 0 where
  unsafe : UrlError → FetchFailure
  connection_failed no_location too_many_redirects too_long bad_gzip truncated unsupported :
      FetchFailure
  value_error : FetchFailure

pub record FetchResult : Type 0 where
  pub url : String
  pub status : ℕ
  pub body : List ℕ

pub record Connection : Type 0 where
  pub target_ip : Address
  pub port : ℕ

-- The gzip branch of `_read_limited`.
pub unzip : Net → ℕ → List ℕ → Result FetchFailure (List ℕ)
unzip net max_bytes raw = do
  stream ← or_raise (net.gunzip raw (max_bytes + 1)) bad_gzip
  refuse (stream.unconsumed || ltb max_bytes (length stream.out)) too_long
  tail ← or_raise (stream.flush (max_bytes + 1 - length stream.out)) bad_gzip
  require stream.eof truncated
  refuse (ltb max_bytes (length (stream.out ++ tail))) too_long
  ok (stream.out ++ tail)

-- The bytes that were read, by the encoding that the answer names.
pub decode : Net → ℕ → String → List ℕ → Result FetchFailure (List ℕ)
unfolding unzip
decode net max_bytes encoding raw =
    if str_eq encoding "" || str_eq encoding "identity"
    then ok raw
    else if str_eq encoding "gzip"
    then unzip net max_bytes raw
    else err unsupported

-- No more than one byte over the limit is read; for a limit of 0 the bytes do not matter.
pub read_sent : Net → ℕ → String → List ℕ → Result FetchFailure (List ℕ)
unfolding decode
read_sent net max_bytes encoding sent =
    let raw = take (max_bytes + 1) sent in
    if max_bytes == 0
    then ok []
    else if ltb max_bytes (length raw)
    then err too_long
    else decode net max_bytes encoding raw

-- `_read_limited`
unfoldable pub read_limited : Net → ℕ → Response → Result FetchFailure (List ℕ)
unfolding read_sent
read_limited net max_bytes response = do
  sent ← or_raise response.body connection_failed
  read_sent net max_bytes response.encoding sent

unfoldable pub is_redirect : ℕ → Bool
is_redirect status =
    status == 301 || status == 302 || status == 303 || status == 307 || status == 308

-- What the answer to one request leads to.
pub data Next : Type 0 where
  finished : Result FetchFailure FetchResult → Next
  redirected : String → Next

pub finish_with : Net → ℕ → ValidatedUrl → Response → Result FetchFailure FetchResult
finish_with net max_bytes target response = do
  body ← read_limited net max_bytes response
  ok (record { url = target.url; status = response.status; body = body })

-- A redirection without a location is an error; its body is read, to 4096 bytes.
pub redirect_of : Response → Next
redirect_of response = elim response.body [
  | none ↦ finished (err connection_failed)
  | some sent ↦
      if str_eq (get_or response.location "") ""
      then finished (err no_location)
      else redirected (get_or response.location "")
]

pub answered : Net → ℕ → ValidatedUrl → Option Response → Next
unfolding finish_with redirect_of
answered net max_bytes target none = finished (err connection_failed)
answered net max_bytes target (some response) =
    if is_redirect response.status
    then redirect_of response
    else finished (finish_with net max_bytes target response)

unfoldable pub connect : Net → Internet → ℕ → ℕ → ValidatedUrl → Next
unfolding answered
connect net world max_bytes i target =
    answered net max_bytes target (world.respond i target.target_ip target.port)

abbrev pub Fetched : Type 0
Fetched = Result FetchFailure FetchResult × List Connection

abbrev pub connection_to : ValidatedUrl → Connection
connection_to target = record { target_ip = target.target_ip; port = target.port }

abbrev pub with_connection : Connection → Fetched → Fetched
with_connection c (r, cs) = (r, c ∷ cs)

-- The rest of the loop after a redirection, with what the next pass does; none for the last pass.
pub follow : Net → Option (String → Fetched) → ValidatedUrl → Next → Fetched
follow net next target (finished r) = (r, [])
follow net none target (redirected location) = (err too_many_redirects, [])
follow net (some next) target (redirected location) = elim (net.urljoin target.url location) [
  | none ↦ (err value_error, [])
  | some url ↦ next url
]

pub pass :
    Net → Internet → ℕ → ℕ → Option (String → Fetched) → Result UrlError ValidatedUrl → Fetched
unfolding follow
pass net world max_bytes i next (err e) = (err (unsafe e), [])
pass net world max_bytes i next (ok target) =
    with_connection (connection_to target)
      (follow net next target (connect net world max_bytes i target))

-- The passes of `fetch_url` from the `i`-th on, with `redirects` more redirections allowed; beside
-- the result the connections that were made.
pub fetch_from : Net → Internet → Policy → ℕ → ℕ → ℕ → String → Fetched
unfolding pass
fetch_from net world policy max_bytes zero i url =
    pass net world max_bytes i none (validate_outbound_url net world i policy url)
fetch_from net world policy max_bytes (suc redirects) i url =
    pass net world max_bytes i (some (fetch_from net world policy max_bytes redirects (suc i)))
      (validate_outbound_url net world i policy url)

-- `fetch_url`
unfoldable pub fetch_url : Net → Internet → Policy → ℕ → ℕ → String → Fetched
unfolding fetch_from
fetch_url net world policy max_bytes max_redirects url =
    fetch_from net world policy max_bytes max_redirects 0 url
