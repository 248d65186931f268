-- ===== src/Portal/Config/Bounds.antt =====
-- What every accepted configuration satisfies.
use cascade_vpn.Base.{
  ℕ, ◌≡◌, ◌≤◌, refl, String, Bool, true, false, ◌&&◌, not, some, List, any, leb, leb→le, str_eq, ok,
  split_ok, split_require, split_refuse, split_raise, ok_inj, arith, subst, ◌||◌,
}
use cascade_vpn.Portal.Security.{password_hash_is_valid}
use cascade_vpn.Portal.Outbound.{Url, is_http}
use cascade_vpn.Portal.Config.{
  System, invalid, Config, setting, raw_integer, integer, read_ports, is_empty, out_of_range, ports,
  password_setting, url_setting, is_blank, boolean, from_env,
}

abbrev pub Between : ℕ → ℕ → ℕ → Type 0
Between minimum n maximum = (minimum ≤ n) × (n ≤ maximum)

module _ (sys : System) where
  integer-Between :
      (name : String) (default minimum maximum n : ℕ)
      → integer sys name default minimum maximum ≡ ok n
      → Between minimum n maximum
  unfolding integer
  integer-Between name default minimum maximum n h =
      let (value, _, h1) = split_ok (raw_integer sys name default) _ n h in
      let (within, h2) =
        split_require (leb minimum value && leb value maximum) (invalid name) (ok value) n h1 in
      let (low, high) = ands (leb minimum value) (leb value maximum) within in
      subst (λ k. Between minimum k maximum) (ok_inj value n h2)
        (leb→le minimum value low, leb→le value maximum high)
    where
      ands : (a b : Bool) → (a && b) ≡ true → (a ≡ true) × (b ≡ true)
      ands true b h = (refl, h)
      ands false b h = ground arith

  -- Some port, and each a port number.
  abbrev pub ArePorts : List ℕ → Type 0
  ArePorts found = (is_empty sys found ≡ false) × (any (out_of_range sys) found ≡ false)

  ports-ArePorts : (raw : String) (found : List ℕ) → ports sys raw ≡ ok found → ArePorts found
  unfolding ports
  ports-ArePorts raw found h =
      let (read, _, h1) = split_ok (read_ports sys (sys.split_commas raw)) _ found h in
      let (fits, h2) =
        split_refuse (is_empty sys read || any (out_of_range sys) read) _ (ok read) found h1 in
      subst ArePorts (ok_inj read found h2)
        (ors (is_empty sys read) (any (out_of_range sys) read) fits)
    where
      ors : (a b : Bool) → (a || b) ≡ false → (a ≡ false) × (b ≡ false)
      ors true b h = ground arith
      ors false b h = (refl, h)

  -- No hash, where none is required, or a well-formed one.
  pub record IsPassword (require_password : Bool) (hash : String) : Type 0 where
    pub given : (require_password && str_eq hash "") ≡ false
    pub well_formed : (not (str_eq hash "") && not (password_hash_is_valid sys.crypto hash)) ≡ false

  password_setting-IsPassword :
      (require_password : Bool) (hash : String)
      → password_setting sys require_password ≡ ok hash
      → IsPassword require_password hash
  unfolding password_setting
  password_setting-IsPassword require_password hash h =
      let raw = sys.net.strip (setting sys "PORTAL_PASSWORD_HASH" "") in
      let (given, h1) = split_refuse (require_password && str_eq raw "") _ _ hash h in
      let (well_formed, h2) =
        split_refuse (not (str_eq raw "") && not (password_hash_is_valid sys.crypto raw)) _ (ok raw)
          hash h1 in
      subst (IsPassword require_password) (ok_inj raw hash h2)
        (record { given = given; well_formed = well_formed })

  -- An absolute HTTP(S) URL without credentials.
  pub record IsPublicUrl (url : String) : Type 0 where
    pub parts : Url
    pub parsed : sys.net.urlsplit url ≡ some parts
    pub absolute : (not (is_http parts.scheme) || is_blank parts.hostname) ≡ false
    pub anonymous : (not (is_blank parts.username) || not (is_blank parts.password)) ≡ false

  url_setting-IsPublicUrl : (url : String) → url_setting sys ≡ ok url → IsPublicUrl url
  unfolding url_setting
  url_setting-IsPublicUrl url h =
      let raw = sys.strip_slashes (setting sys "PORTAL_PUBLIC_URL" "https://localhost") in
      let (u, parsed, h1) = split_raise (sys.net.urlsplit raw) _ _ url h in
      let (absolute, h2) =
        split_refuse (not (is_http u.scheme) || is_blank u.hostname) _ _ url h1 in
      let (anonymous, h3) =
        split_refuse (not (is_blank u.username) || not (is_blank u.password)) _ (ok raw) url h2 in
      subst IsPublicUrl (ok_inj raw url h3)
        (record { parts = u; parsed = parsed; absolute = absolute; anonymous = anonymous })

  -- The bounds of the numbers, and the checks of the password's hash and the public URL.
  pub record Accepted (require_password : Bool) (cfg : Config) : Type 0 where
    pub password : IsPassword require_password cfg.password_hash
    pub url : IsPublicUrl cfg.public_url
    pub port : Between 1 cfg.port 65535
    pub session_ttl : Between 300 cfg.session_ttl 2592000
    pub outbound : ArePorts cfg.allowed_outbound_ports
    pub check_timeout : Between 1 cfg.check_timeout 30
    pub feed_timeout : Between 1 cfg.feed_timeout 60
    pub monitor_interval : Between 0 cfg.monitor_interval 86400
    pub feed_refresh_interval : Between 0 cfg.feed_refresh_interval 86400

  -- An accepted configuration has a password hash of the right form, or none where none is required,
  -- an absolute HTTP(S) URL without credentials, some outbound ports, each of them a port number, and
  -- every other number within the bounds of its variable.
  pub from_env-Accepted :
      (require_password : Bool) (cfg : Config)
      → from_env sys require_password ≡ ok cfg
      → Accepted require_password cfg
  unfolding from_env
  from_env-Accepted require_password cfg h0 =
      let (hash, e0, h1) = split_ok (password_setting sys require_password) _ cfg h0 in
      let (url, e1, h2) = split_ok (url_setting sys) _ cfg h1 in
      let (port, e2, h3) = split_ok (integer sys "PORTAL_PORT" 8080 1 65535) _ cfg h2 in
      let (ttl, e3, h4) = split_ok (integer sys "PORTAL_SESSION_TTL" 43200 300 2592000) _ cfg h3 in
      let (_, _, h5) = split_ok (boolean sys "PORTAL_COOKIE_SECURE" true) _ cfg h4 in
      let (_, _, h6) = split_ok (boolean sys "PORTAL_TRUST_PROXY" false) _ cfg h5 in
      let (_, _, h7) = split_ok (boolean sys "PORTAL_ALLOW_PRIVATE_URLS" false) _ cfg h6 in
      let allowed = setting sys "PORTAL_ALLOWED_OUTBOUND_PORTS" "80,443" in
      let (found, e4, h8) = split_ok (ports sys allowed) _ cfg h7 in
      let (check, e5, h9) = split_ok (integer sys "PORTAL_CHECK_TIMEOUT" 5 1 30) _ cfg h8 in
      let (feed, e6, h10) = split_ok (integer sys "PORTAL_FEED_TIMEOUT" 10 1 60) _ cfg h9 in
      let (monitor, e7, h11) =
        split_ok (integer sys "PORTAL_MONITOR_INTERVAL" 60 0 86400) _ cfg h10 in
      let (refresh, e8, h12) =
        split_ok (integer sys "PORTAL_FEED_REFRESH_INTERVAL" 900 0 86400) _ cfg h11 in
      subst (Accepted require_password) (ok_inj _ cfg h12) (record {
        password = password_setting-IsPassword require_password hash e0;
        url = url_setting-IsPublicUrl url e1;
        port = integer-Between _ _ 1 65535 port e2;
        session_ttl = integer-Between _ _ 300 2592000 ttl e3;
        outbound = ports-ArePorts allowed found e4;
        check_timeout = integer-Between _ _ 1 30 check e5;
        feed_timeout = integer-Between _ _ 1 60 feed e6;
        monitor_interval = integer-Between _ _ 0 86400 monitor e7;
        feed_refresh_interval = integer-Between _ _ 0 86400 refresh e8;
      })
