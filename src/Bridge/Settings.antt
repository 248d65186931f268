-- ===== src/Bridge/Settings.antt =====
-- The configuration of the bridge: class Config of bridge/ttx_bridge.py, from the JSON of its file.
pub mod Bounds
mod Tests
use Prim.Native.String.{◌++◌ as ◌<>◌}
use cascade_vpn.Base.{
  ℕ, String, Bool, true, false, ◌&&◌, ◌||◌, not, Option, none, some, List, [], ◌∷◌, any, leb,
  str_eq, get_or, if◌then◌else◌, Result, ok, err, ◌>>=◌, ◌>>◌, require, refuse, or_raise,
}
use cascade_vpn.Bridge.Json.{
  ℤ, pos, negsuc, Json, null, bool, number, text, object, Members, empty, member_of, json_eq,
  truthy,
}

-- A float; `finite m k` is m / 2^k.
pub data Float : Type 0 where
  nan infinite : Float
  finite : ℤ → ℕ → Float

-- The functions of the standard library that are called; where one raises, it has no result.
pub record System : Type 0 where
  pub int_of : Json → Option ℤ
  pub float_of : Json → Option Float
  -- `rstrip("/")` and `strip("/")`
  pub rstrip_slashes : String → String
  pub strip_slashes : String → String
  pub resolve : String → String

-- The `ValueError`s of the checks; `malformed` is any other exception.
pub data SettingsError : Type 0 where
  malformed no_credentials bad_port bad_protocol bad_interval bad_timeout same_file : SettingsError

pub record Panel : Type 0 where
  pub panel_url : String
  pub panel_path : String
  pub panel_user : Json
  pub panel_pass : Json
  pub panel_api_token : Json
  pub panel_verify_tls : Bool

pub record Ingress : Type 0 where
  pub ing_remark : Json
  pub ing_listen : Json
  pub ing_port : ℤ
  pub ing_protocol : Json
  pub ing_udp : Bool
  pub ing_sniffing : Bool
  pub ing_manage : Bool

pub record Trusttunnel : Type 0 where
  pub tt_base : String
  pub tt_target : String
  pub tt_reach_host : Json
  pub tt_service : Json
  pub tt_binary : Json
  pub tt_extended_auth : Bool
  pub tt_restart : Bool
  pub tt_command_timeout : Float

pub record Compat : Type 0 where
  pub compat_file : String
  pub compat_strict : Bool

pub record Config : Type 0 where
  pub panel : Panel
  pub ingress : Ingress
  pub trusttunnel : Trusttunnel
  pub compat : Compat
  pub interval : ℤ

abbrev pub Checked {ℓ} : Type ℓ → Type ℓ
Checked A = Result SettingsError A

-- `d.get(key, default)`
abbrev pub get : Members → String → Json → Json
get ms key default = get_or (member_of key ms) default

abbrev pub as_text : Json → Checked String
as_text (text s) = ok s
as_text _ = err malformed

abbrev pub as_fields : Json → Checked Members
as_fields (object ms) = ok ms
as_fields _ = err malformed

-- `raw.get(name, {})`, on which `get` is called
abbrev pub section_of : Members → String → Checked Members
section_of raw name = as_fields (get raw name (object empty))

-- `bool(d.get(key, default))`
abbrev pub flag : Members → String → Bool → Bool
flag ms key default = truthy (get ms key (bool default))

abbrev pub lacks_credentials : Panel → Bool
lacks_credentials p =
    not (truthy p.panel_api_token) && not (truthy p.panel_user && truthy p.panel_pass)

abbrev pub is_port : ℤ → Bool
is_port (pos n) = leb 1 n && leb n 65535
is_port (negsuc n) = false

abbrev pub is_protocol : Json → Bool
is_protocol j = json_eq j (text "socks") || json_eq j (text "mixed")

abbrev pub is_positive : ℤ → Bool
is_positive (pos n) = leb 1 n
is_positive (negsuc n) = false

abbrev pub is_timeout : Float → Bool
is_timeout (finite m k) = is_positive m
is_timeout _ = false

unfoldable pub read_compat : Members → Checked Compat
read_compat raw = do
  c ← section_of raw "compat"
  file ← as_text (get c "file" (text "/etc/ttx/compat.json"))
  ok (record { compat_file = file; compat_strict = flag c "strict" false })

module _ (sys : System) where
  abbrev pub panel_of : Members → String → String → Panel
  panel_of p url path = record {
    panel_url = sys.rstrip_slashes url;
    panel_path = "/" <> sys.strip_slashes path;
    panel_user = get p "username" (text "");
    panel_pass = get p "password" (text "");
    panel_api_token = get p "api_token" (text "");
    panel_verify_tls = flag p "verify_tls" true;
  }

  unfoldable pub read_panel : Members → Checked Panel
  read_panel raw = do
    p ← section_of raw "panel"
    url ← as_text (get p "base_url" (text "http://127.0.0.1:2053"))
    path ← as_text (get p "base_path" (text "/"))
    let panel = panel_of p url path
    refuse (lacks_credentials panel) no_credentials
    ok panel

  unfoldable pub read_ingress : Members → Checked Ingress
  read_ingress raw = do
    i ← section_of raw "ingress"
    port ← or_raise (sys.int_of (get i "port" (number (pos 10800)))) malformed
    ok (record {
      ing_remark = get i "remark" (text "TTX-Ingress");
      ing_listen = get i "listen" (text "127.0.0.1");
      ing_port = port;
      ing_protocol = get i "protocol" (text "socks");
      ing_udp = flag i "udp" true;
      ing_sniffing = flag i "sniffing" true;
      ing_manage = flag i "manage" true;
    })

  unfoldable pub read_trusttunnel : Members → Checked Trusttunnel
  read_trusttunnel raw = do
    t ← section_of raw "trusttunnel"
    base ← as_text (get t "base_config" (text "/etc/ttx/vpn.base.toml"))
    target ← as_text (get t "target_config" (text "/opt/trusttunnel/vpn.toml"))
    timeout ← or_raise (sys.float_of (get t "command_timeout_secs" (number (pos 30)))) malformed
    ok (record {
      tt_base = base;
      tt_target = target;
      tt_reach_host = get t "reach_host" (text "");
      tt_service = get t "service" (text "trusttunnel.service");
      tt_binary = get t "binary" (text "/opt/trusttunnel/trusttunnel_endpoint");
      tt_extended_auth = flag t "extended_auth" false;
      tt_restart = flag t "restart_on_change" true;
      tt_command_timeout = timeout;
    })

  -- The checks at the end of `Config.__init__`
  unfoldable pub check_config : Config → Checked Config
  check_config cfg = do
    require (is_port cfg.ingress.ing_port) bad_port
    require (is_protocol cfg.ingress.ing_protocol) bad_protocol
    require (is_positive cfg.interval) bad_interval
    require (is_timeout cfg.trusttunnel.tt_command_timeout) bad_timeout
    refuse (str_eq (sys.resolve cfg.trusttunnel.tt_base) (sys.resolve cfg.trusttunnel.tt_target))
        same_file
    ok cfg

  -- `Config.__init__`
  unfoldable pub read_config : Members → Checked Config
  read_config raw = do
    panel ← read_panel raw
    ingress ← read_ingress raw
    trusttunnel ← read_trusttunnel raw
    compat ← read_compat raw
    interval ← or_raise (sys.int_of (get raw "interval_secs" (number (pos 60)))) malformed
    check_config (record {
      panel = panel;
      ingress = ingress;
      trusttunnel = trusttunnel;
      compat = compat;
      interval = interval;
    })
