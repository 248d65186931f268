-- ===== src/Portal/Config.antt =====
-- The settings of the portal: portal/app/config.py.
pub mod Bounds
pub mod Tests
use cascade_vpn.Base.{
  ℕ, ◌*◌, String, Bool, true, false, ◌&&◌, ◌||◌, not, Option, none, some, List, [], ◌∷◌, any, leb,
  ltb, str_eq, get_or, if◌then◌else◌, Result, ok, err, ◌>>=◌, ◌>>◌, require, refuse, or_raise,
}
use cascade_vpn.Portal.Security.{Crypto, password_hash_is_valid}
use cascade_vpn.Portal.Outbound.{Net, Url, is_http}
use cascade_vpn.Portal.Request.{Number, natural, negative}

-- The environment of the process, and the functions of the standard library that are called.
pub record System : Type 0 where
  pub getenv : String → Option String
  pub net : Net
  pub crypto : Crypto
  -- `strip().lower()`
  pub lower_word : String → String
  pub int_of_text : String → Option Number
  -- `split(",")`
  pub split_commas : String → List String
  -- `rstrip("/")`
  pub strip_slashes : String → String
  -- the directories beside the package
  pub static_dir : String
  pub reference_dir : String
  pub migrations_dir : String

-- The `ValueError`s, by the variable.
pub data ConfigError : Type 0 where
  invalid : String → ConfigError

pub record Config : Type 0 where
  pub host : String
  pub port : ℕ
  pub database_path : String
  pub password_hash : String
  pub public_url : String
  pub session_ttl : ℕ
  pub cookie_secure : Bool
  pub trust_proxy : Bool
  pub allow_private_urls : Bool
  pub allowed_outbound_ports : List ℕ
  pub check_timeout : ℕ
  pub feed_timeout : ℕ
  pub monitor_interval : ℕ
  pub feed_refresh_interval : ℕ
  pub static_dir : String
  pub reference_dir : String
  pub migrations_dir : String

abbrev pub Checked {ℓ} : Type ℓ → Type ℓ
Checked A = Result ConfigError A

-- `not text`
abbrev pub is_blank : Option String → Bool
is_blank none = true
is_blank (some text) = str_eq text ""

module _ (sys : System) where
  abbrev pub setting : String → String → String
  setting name default = get_or (sys.getenv name) default

  boolean_of : String → String → Checked Bool
  boolean_of name value =
      if any (str_eq value) ("1" ∷ "true" ∷ "yes" ∷ "on" ∷ [])
      then ok true
      else if any (str_eq value) ("0" ∷ "false" ∷ "no" ∷ "off" ∷ [])
      then ok false
      else err (invalid name)

  -- `_boolean`
  unfoldable pub boolean : String → Bool → Checked Bool
  unfolding boolean_of
  boolean name default = elim (sys.getenv name) [
    | none ↦ ok default
    | some raw ↦ boolean_of name (sys.lower_word raw)
  ]

  abbrev number_of : String → Option Number → Checked ℕ
  number_of name (some (natural n)) = ok n
  number_of name _ = err (invalid name)

  -- `int(raw)`; every minimum is a natural number, so a negative one is below it.
  unfoldable pub raw_integer : String → ℕ → Checked ℕ
  raw_integer name default = elim (sys.getenv name) [
    | none ↦ ok default
    | some raw ↦ number_of name (sys.int_of_text raw)
  ]

  -- `_integer`
  unfoldable pub integer : String → ℕ → ℕ → ℕ → Checked ℕ
  integer name default minimum maximum = do
    value ← raw_integer name default
    require (leb minimum value && leb value maximum) (invalid name)
    ok value

  unfoldable pub read_ports : List String → Checked (List ℕ)
  read_ports [] = ok []
  read_ports (item ∷ items) =
      let rest = read_ports items in
      if str_eq (sys.net.strip item) "" then rest else (do
        port ← number_of "PORTAL_ALLOWED_OUTBOUND_PORTS" (sys.int_of_text (sys.net.strip item))
        ports ← rest
        ok (port ∷ ports))

  abbrev pub is_empty : List ℕ → Bool
  is_empty [] = true
  is_empty (_ ∷ _) = false

  abbrev pub out_of_range : ℕ → Bool
  out_of_range port = ltb port 1 || ltb 65535 port

  -- `_ports`
  unfoldable pub ports : String → Checked (List ℕ)
  ports raw = do
    found ← read_ports (sys.split_commas raw)
    refuse (is_empty found || any out_of_range found) (invalid "PORTAL_ALLOWED_OUTBOUND_PORTS")
    ok found

  -- The checks of `PORTAL_PASSWORD_HASH`
  unfoldable pub password_setting : Bool → Checked String
  password_setting require_password =
      let hash = sys.net.strip (setting "PORTAL_PASSWORD_HASH" "") in
      do
        refuse (require_password && str_eq hash "") (invalid "PORTAL_PASSWORD_HASH")
        refuse (not (str_eq hash "") && not (password_hash_is_valid sys.crypto hash))
            (invalid "PORTAL_PASSWORD_HASH")
        ok hash

  -- The checks of `PORTAL_PUBLIC_URL`
  unfoldable pub url_setting : Checked String
  url_setting = do
    let public_url = sys.strip_slashes (setting "PORTAL_PUBLIC_URL" "https://localhost")
    u ← or_raise (sys.net.urlsplit public_url) (invalid "PORTAL_PUBLIC_URL")
    refuse (not (is_http u.scheme) || is_blank u.hostname) (invalid "PORTAL_PUBLIC_URL")
    refuse (not (is_blank u.username) || not (is_blank u.password)) (invalid "PORTAL_PUBLIC_URL")
    ok public_url

  -- `Config.from_env`
  unfoldable pub from_env : Bool → Checked Config
  from_env require_password = do
    password_hash ← password_setting require_password
    public_url ← url_setting
    port ← integer "PORTAL_PORT" 8080 1 65535
    session_ttl ← integer "PORTAL_SESSION_TTL" 43200 300 2592000
    cookie_secure ← boolean "PORTAL_COOKIE_SECURE" true
    trust_proxy ← boolean "PORTAL_TRUST_PROXY" false
    allow_private_urls ← boolean "PORTAL_ALLOW_PRIVATE_URLS" false
    allowed_outbound_ports ← ports (setting "PORTAL_ALLOWED_OUTBOUND_PORTS" "80,443")
    check_timeout ← integer "PORTAL_CHECK_TIMEOUT" 5 1 30
    feed_timeout ← integer "PORTAL_FEED_TIMEOUT" 10 1 60
    monitor_interval ← integer "PORTAL_MONITOR_INTERVAL" 60 0 86400
    feed_refresh_interval ← integer "PORTAL_FEED_REFRESH_INTERVAL" 900 0 86400
    ok (record {
      host = setting "PORTAL_HOST" "127.0.0.1";
      port = port;
      database_path = setting "PORTAL_DB" "/data/portal.db";
      password_hash = password_hash;
      public_url = public_url;
      session_ttl = session_ttl;
      cookie_secure = cookie_secure;
      trust_proxy = trust_proxy;
      allow_private_urls = allow_private_urls;
      allowed_outbound_ports = allowed_outbound_ports;
      check_timeout = check_timeout;
      feed_timeout = feed_timeout;
      monitor_interval = monitor_interval;
      feed_refresh_interval = feed_refresh_interval;
      static_dir = setting "PORTAL_STATIC_DIR" sys.static_dir;
      reference_dir = setting "PORTAL_REFERENCE_DIR" sys.reference_dir;
      migrations_dir = setting "PORTAL_MIGRATIONS_DIR" sys.migrations_dir;
    })
