-- ===== src/Portal/Outbound.antt =====
-- Requests to other hosts: portal/app/outbound.py. An address is checked when its URL is validated,
-- and the connection goes to that address.
pub mod Fetch
use Prim.Native.String.{◌++◌ as ◌<>◌, count}
use cascade_vpn.Base.{
  ℕ, zero, suc, ◌+◌, ◌-◌, ◌*◌, ◌^◌, String, Bool, true, false, ◌&&◌, ◌||◌, not, Option, none, some,
  List, [], ◌∷◌, ◌++◌, get_or, length, take, any_char, any, ltb, leb, ◌==◌, str_eq, list_eq,
  is_some, if◌then◌else◌, Result, ok, err, ◌>>=◌, ◌>>◌, require, refuse, or_raise,
}

-- `ipaddress.IPv4Address` and `IPv6Address`
pub data Address : Type 0 where
  v4 v6 : ℕ → Address

-- What the `ipaddress` module says of an address.
pub record Class : Type 0 where
  pub is_global : Bool
  pub is_unspecified : Bool
  pub is_multicast : Bool
  pub is_link_local : Bool
  pub is_reserved : Bool
  pub is_loopback : Bool

-- What `urlsplit` finds, the scheme in lower case; the port is missing where reading it raises a
-- `ValueError`.
pub record Url : Type 0 where
  pub scheme : String
  pub hostname : Option String
  pub port : Option (Option ℕ)
  pub username : Option String
  pub password : Option String
  pub path : String
  pub query : String
  pub fragment : String

-- What a server sends, the encoding in lower case; reading its body may raise an error.
pub record Response : Type 0 where
  pub status : ℕ
  pub location : Option String
  pub encoding : String
  pub body : Option (List ℕ)

-- A gzip stream after `decompress`: what came out, whether input is left, what `flush` adds unless
-- it raises an error, and whether the end of the stream was reached.
pub record Gunzip : Type 0 where
  pub out : List ℕ
  pub unconsumed : Bool
  pub flush : ℕ → Option (List ℕ)
  pub eof : Bool

-- The functions of the standard library that the module calls; `none` is an exception.
pub record Net : Type 0 where
  pub urlsplit : String → Option Url
  pub urlunsplit : String → String → String → String → String → String
  pub urljoin : String → String → Option String
  pub quote_path : String → String
  pub quote_query : String → String
  pub quote_fragment : String → String
  pub strip : String → String
  -- `.encode("idna").decode("ascii").rstrip(".").lower()`
  pub idna : String → Option String
  pub ends_with : String → String → Bool
  pub has_colon : String → Bool
  -- `str(...)` of a number
  pub decimal : ℕ → String
  -- `ipaddress.ip_address(hostname.strip("[]"))`
  pub literal : String → Option Address
  pub ipv4_mapped : Address → Option Address
  pub class : Address → Class
  -- `decompressobj(16 + MAX_WBITS).decompress(raw, n)`
  pub gunzip : List ℕ → ℕ → Option Gunzip

-- What the network answers at the `i`-th connection of a fetch: name resolution, with the answers
-- that are no address left empty, and the server.
pub record Internet : Type 0 where
  pub resolve : ℕ → String → ℕ → Option (List (Option Address))
  pub respond : ℕ → Address → ℕ → Option Response

pub record Policy : Type 0 where
  pub allow_private : Bool
  pub allowed_ports : List ℕ

pub data UrlError : Type 0 where
  required control malformed not_http credentials with_fragment bad_port bad_host local unresolved
        no_address blocked :
      UrlError

pub record ValidatedUrl : Type 0 where
  pub url : String
  pub scheme : String
  pub hostname : String
  pub port : ℕ
  pub target_ip : Address
  pub request_target : String

unfoldable pub address_eq : Address → Address → Bool
address_eq (v4 m) (v4 n) = m == n
address_eq (v6 m) (v6 n) = m == n
address_eq (v4 m) (v6 n) = false
address_eq (v6 m) (v4 n) = false

abbrev pub ipv4 : ℕ → ℕ → ℕ → ℕ → Address
ipv4 a b c d = v4 (((a * 256 + b) * 256 + c) * 256 + d)

abbrev pub blocked_metadata_addresses : List Address
blocked_metadata_addresses =
    ipv4 169 254 169 254
    ∷ ipv4 169 254 170 2
    ∷ ipv4 100 100 100 200
    ∷ ipv4 168 63 129 16
    ∷ v6 (0xfd000ec2 * 2 ^ 96 + 0x254)
    ∷ []

-- `_permitted_address`: a mapped address counts as the IPv4 address that it stands for.
pub canonical : Net → Address → Address
canonical net a = get_or (net.ipv4_mapped a) a

unfoldable pub permitted_address : Net → Bool → Address → Bool
unfolding canonical
permitted_address net allow_private address =
    let a = canonical net address in
    let c = net.class a in
    if any (address_eq a) blocked_metadata_addresses
    then false
    else if allow_private
    then not (
        c.is_unspecified
        || c.is_multicast
        || c.is_link_local
        || (c.is_reserved && not c.is_loopback))
    else c.is_global

-- The answers of `getaddrinfo` that are addresses, each once.
pub collect_addresses : List Address → List (Option Address) → List Address
collect_addresses found [] = found
collect_addresses found (none ∷ answers) = collect_addresses found answers
collect_addresses found (some a ∷ answers) =
    collect_addresses (if any (address_eq a) found then found else found ++ a ∷ []) answers

abbrev pub default_port : String → ℕ
default_port scheme = if str_eq scheme "https" then 443 else 80

-- `parsed.port or default`
abbrev pub port_or : ℕ → Option ℕ → ℕ
port_or default none = default
port_or default (some p) = if p == 0 then default else p

abbrev pub is_http : String → Bool
is_http scheme = str_eq scheme "http" || str_eq scheme "https"

abbrev pub is_local : Net → String → Bool
is_local net hostname =
    str_eq hostname "" || net.ends_with hostname ".localhost" || str_eq hostname "localhost"

-- No text, only white space, or too long.
abbrev pub is_missing : Net → String → Bool
is_missing net raw = str_eq (net.strip raw) "" || ltb 2048 (count raw)

abbrev pub has_control : String → Bool
has_control text = any_char (λ c. ltb c 32) text

abbrev pub bracketed : Net → String → String
bracketed net hostname = if net.has_colon hostname then "[" <> (hostname <> "]") else hostname

pub addresses_of : Net → Internet → ℕ → String → ℕ → Result UrlError (List Address)
unfolding collect_addresses
addresses_of net world i hostname port = elim (net.literal hostname) [
  | some a ↦ ok (a ∷ [])
  | none ↦ elim (world.resolve i hostname port) [
    | none ↦ err unresolved
    | some answers ↦ ok (collect_addresses [] answers)
  ]
]

-- The first address, where there is one and all are permitted.
pub choose_address : Net → Bool → List Address → Result UrlError Address
choose_address net allow_private [] = err no_address
choose_address net allow_private (a ∷ rest) =
    if any (λ b. not (permitted_address net allow_private b)) (a ∷ rest) then err blocked else ok a

unfoldable pub normalized : Net → Url → String → ℕ → Address → ValidatedUrl
normalized net u hostname port address =
    let host = bracketed net hostname in
    let path = net.quote_path (if str_eq u.path "" then "/" else u.path) in
    let query = net.quote_query u.query in
    let netloc =
      if port == default_port u.scheme then host else host <> (":" <> net.decimal port) in
    record {
      url = net.urlunsplit u.scheme netloc path query "";
      scheme = u.scheme;
      hostname = hostname;
      port = port;
      target_ip = address;
      request_target = path <> (if str_eq query "" then "" else "?" <> query);
    }

-- The checks of `validate_outbound_url` on the parts of the URL; the host name and port.
pub check_parts : Net → Policy → Url → Result UrlError (String × ℕ)
check_parts net policy u = do
  given ← or_raise u.port malformed
  let port = port_or (default_port u.scheme) given
  require (is_http u.scheme) not_http
  raw_host ← or_raise u.hostname not_http
  refuse (is_some u.username || is_some u.password) credentials
  refuse (not (str_eq u.fragment "")) with_fragment
  require (any (λ p. p == port) policy.allowed_ports) bad_port
  hostname ← or_raise (net.idna raw_host) bad_host
  refuse (is_local net hostname && not policy.allow_private) local
  ok (hostname, port)

-- The rest of `validate_outbound_url` once the host name and port are known.
pub resolved : Net → Internet → ℕ → Policy → Url → String × ℕ → Result UrlError ValidatedUrl
unfolding addresses_of choose_address
resolved net world i policy u parts = do
  addresses ← addresses_of net world i parts.0 parts.1
  address ← choose_address net policy.allow_private addresses
  ok (normalized net u parts.0 parts.1 address)

-- The checks of the text, and its parts.
unfoldable pub parse_url : Net → String → Result UrlError Url
parse_url net raw = do
  refuse (is_missing net raw) required
  refuse (has_control (net.strip raw)) control
  or_raise (net.urlsplit (net.strip raw)) malformed

-- `validate_outbound_url`
unfoldable pub validate_outbound_url :
    Net → Internet → ℕ → Policy → String → Result UrlError ValidatedUrl
unfolding check_parts resolved
validate_outbound_url net world i policy raw = do
  u ← parse_url net raw
  parts ← check_parts net policy u
  resolved net world i policy u parts

-- `validate_redirect_target` of a text.
pub redirect_target : Net → String → Option String
redirect_target net raw =
    let stripped = net.strip raw in
    if is_missing net raw || has_control stripped
    then none
    else elim (net.urlsplit stripped) [ none ↦ none | some u ↦ target_of net u ]
  where
    target_text : Net → Url → String → Option ℕ → String
    target_text net u hostname port =
        let host = bracketed net hostname in
        let netloc : String = elim port [ none ↦ host | some p ↦ host <> (":" <> net.decimal p) ] in
        net.urlunsplit u.scheme netloc (net.quote_path (if str_eq u.path "" then "/" else u.path))
          (net.quote_query u.query) (net.quote_fragment u.fragment)

    target_of : Net → Url → Option String
    target_of net u =
        if not (is_http u.scheme) || is_some u.username || is_some u.password
        then none
        else elim u.hostname [
          | none ↦ none
          | some raw_host ↦ elim u.port [
            | none ↦ none
            | some port ↦ elim (net.idna raw_host) [
              | none ↦ none
              | some hostname ↦ some (target_text net u hostname port)
            ]
          ]
        ]
