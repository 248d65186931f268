-- ===== src/Bridge/Settings/Bounds.antt =====
-- What every accepted configuration of the bridge satisfies.
use cascade_vpn.Base.{
  ℕ, ◌≡◌, ◌≤◌, ◌⊎◌, inl, inr, refl, Bool, true, false, ◌&&◌, ◌||◌, leb, leb→le, ok, split_ok,
  split_require, split_refuse, split_raise, ok_inj, arith, ap, subst, str_eq, str_eq_iff,
}
use cascade_vpn.Bridge.Json.{
  ℤ, pos, negsuc, Json, null, bool, number, fraction, text, array, object, Members, json_eq,
}
use cascade_vpn.Bridge.Settings.{
  Float, nan, infinite, finite, System, Panel, Config, get, as_text, section_of, panel_of,
  lacks_credentials, is_port, is_protocol, is_positive, is_timeout, read_panel, read_ingress,
  read_trusttunnel, read_compat, check_config, read_config,
}

abbrev pub IsPort : ℤ → Type 0
IsPort z = (n : ℕ) × (z ≡ pos n) × (1 ≤ n) × (n ≤ 65535)

abbrev pub IsPositive : ℤ → Type 0
IsPositive z = (n : ℕ) × (z ≡ pos n) × (1 ≤ n)

abbrev pub IsTimeout : Float → Type 0
IsTimeout x = (m : ℤ) × (k : ℕ) × (x ≡ finite m k) × IsPositive m

is_port-IsPort : (z : ℤ) → is_port z ≡ true → IsPort z
is_port-IsPort (pos n) h =
    let (low, high) = ands (leb 1 n) (leb n 65535) h in
    (n, refl, leb→le 1 n low, leb→le n 65535 high)
  where
    ands : (a b : Bool) → (a && b) ≡ true → (a ≡ true) × (b ≡ true)
    ands true b e = (refl, e)
    ands false b e = ground arith
is_port-IsPort (negsuc n) h = ground arith

is_positive-IsPositive : (z : ℤ) → is_positive z ≡ true → IsPositive z
is_positive-IsPositive (pos n) h = (n, refl, leb→le 1 n h)
is_positive-IsPositive (negsuc n) h = ground arith

is_timeout-IsTimeout : (x : Float) → is_timeout x ≡ true → IsTimeout x
is_timeout-IsTimeout (finite m k) h = (m, k, refl, is_positive-IsPositive m h)
is_timeout-IsTimeout nan h = ground arith
is_timeout-IsTimeout infinite h = ground arith

json_eq-text : (j : Json) (s : _) → json_eq j (text s) ≡ true → j ≡ text s
unfolding json_eq
json_eq-text (text t) s h = ap text ((str_eq_iff t s).0 h)
json_eq-text null s h = ground arith
json_eq-text (bool b) s h = ground arith
json_eq-text (number n) s h = ground arith
json_eq-text (fraction n) s h = ground arith
json_eq-text (array js) s h = ground arith
json_eq-text (object ms) s h = ground arith

is_protocol_lem : (j : Json) → is_protocol j ≡ true → (j ≡ text "socks") ⊎ (j ≡ text "mixed")
is_protocol_lem j h = by_test (json_eq j (text "socks")) refl h
  where
    by_test :
        (b : Bool)
        → json_eq j (text "socks") ≡ b
        → (b || json_eq j (text "mixed")) ≡ true
        → (j ≡ text "socks") ⊎ (j ≡ text "mixed")
    by_test true e k = inl (json_eq-text j "socks" e)
    by_test false e k = inr (json_eq-text j "mixed" k)

module _ (sys : System) where
  read_panel-lacks_credentials :
      (raw : Members) (p : Panel) → read_panel sys raw ≡ ok p → lacks_credentials p ≡ false
  unfolding read_panel
  read_panel-lacks_credentials raw p h =
      let (ms, _, h1) = split_ok (section_of raw "panel") _ p h in
      let (url, _, h2) =
        split_ok (as_text (get ms "base_url" (text "http://127.0.0.1:2053"))) _ p h1 in
      let (path, _, h3) = split_ok (as_text (get ms "base_path" (text "/"))) _ p h2 in
      let panel = panel_of sys ms url path in
      let (given, h4) = split_refuse (lacks_credentials panel) _ (ok panel) p h3 in
      subst (λ q. lacks_credentials q ≡ false) (ok_inj panel p h4) given

  -- The credentials of the panel are given, and the fields are in their ranges.
  pub record Accepted (cfg : Config) : Type 0 where
    pub credentials : lacks_credentials cfg.panel ≡ false
    pub port : IsPort cfg.ingress.ing_port
    pub protocol :
        (cfg.ingress.ing_protocol ≡ text "socks") ⊎ (cfg.ingress.ing_protocol ≡ text "mixed")
    pub interval : IsPositive cfg.interval
    pub timeout : IsTimeout cfg.trusttunnel.tt_command_timeout
    pub distinct :
        str_eq (sys.resolve cfg.trusttunnel.tt_base) (sys.resolve cfg.trusttunnel.tt_target) ≡ false

  check_config-Accepted :
      (made cfg : Config)
      → lacks_credentials made.panel ≡ false
      → check_config sys made ≡ ok cfg
      → Accepted cfg
  unfolding check_config
  check_config-Accepted made cfg given h =
      let (port, h1) = split_require (is_port made.ingress.ing_port) _ _ cfg h in
      let (protocol, h2) = split_require (is_protocol made.ingress.ing_protocol) _ _ cfg h1 in
      let (interval, h3) = split_require (is_positive made.interval) _ _ cfg h2 in
      let (timeout, h4) =
        split_require (is_timeout made.trusttunnel.tt_command_timeout) _ _ cfg h3 in
      let same =
        str_eq (sys.resolve made.trusttunnel.tt_base) (sys.resolve made.trusttunnel.tt_target) in
      let (distinct, h5) = split_refuse same _ (ok made) cfg h4 in
      subst Accepted (ok_inj made cfg h5) (record {
        credentials = given;
        port = is_port-IsPort made.ingress.ing_port port;
        protocol = is_protocol_lem made.ingress.ing_protocol protocol;
        interval = is_positive-IsPositive made.interval interval;
        timeout = is_timeout-IsTimeout made.trusttunnel.tt_command_timeout timeout;
        distinct = distinct;
      })

  -- An accepted configuration has a token or both a user and a password, a port from 1 to 65535, the
  -- protocol socks or mixed, a positive interval, a finite positive timeout, and a target that does
  -- not resolve to the path of the base.
  pub read_config-Accepted :
      (raw : Members) (cfg : Config) → read_config sys raw ≡ ok cfg → Accepted cfg
  unfolding read_config
  read_config-Accepted raw cfg h =
      let (panel, e, h1) = split_ok (read_panel sys raw) _ cfg h in
      let (ingress, _, h2) = split_ok (read_ingress sys raw) _ cfg h1 in
      let (trusttunnel, _, h3) = split_ok (read_trusttunnel sys raw) _ cfg h2 in
      let (compat, _, h4) = split_ok (read_compat raw) _ cfg h3 in
      let (interval, _, h5) =
        split_raise (sys.int_of (get raw "interval_secs" (number (pos 60)))) _ _ cfg h4 in
      check_config-Accepted _ cfg (read_panel-lacks_credentials raw panel e) h5
