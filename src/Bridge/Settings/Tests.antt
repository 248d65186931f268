-- ===== src/Bridge/Settings/Tests.antt =====
-- A configuration that gives a token, a port and a protocol.
use cascade_vpn.Base.{◌≡◌, refl, true, false, some, ok, err}
use cascade_vpn.Bridge.Json.{
  pos, number, text, object, Members, empty, member, member_of, json_eq, truthy,
}
use cascade_vpn.Bridge.Settings.{
  finite, System, bad_port, Config, read_panel, read_ingress, read_trusttunnel, read_compat,
  check_config, read_config,
}
use cascade_vpn.Bridge.Settings.Bounds.{Accepted, read_config-Accepted}

abbrev system : System
system = record {
  int_of = λ j. elim j [ number z ↦ some z | _ ↦ some (pos 0) ];
  float_of = λ j. some (finite (pos 30) 0);
  rstrip_slashes = λ s. s;
  strip_slashes = λ s. "";
  resolve = λ s. s;
}

abbrev raw_with : Members → Members
raw_with ingress =
    member "panel" (object (member "api_token" (text "token") empty))
      (member "ingress" (object ingress) empty)

abbrev raw : Members
raw = raw_with (member "port" (number (pos 1080)) (member "protocol" (text "mixed") empty))

abbrev config : Config
config = record {
  panel = record {
    panel_url = "http://127.0.0.1:2053";
    panel_path = "/";
    panel_user = text "";
    panel_pass = text "";
    panel_api_token = text "token";
    panel_verify_tls = true;
  };
  ingress = record {
    ing_remark = text "TTX-Ingress";
    ing_listen = text "127.0.0.1";
    ing_port = pos 1080;
    ing_protocol = text "mixed";
    ing_udp = true;
    ing_sniffing = true;
    ing_manage = true;
  };
  trusttunnel = record {
    tt_base = "/etc/ttx/vpn.base.toml";
    tt_target = "/opt/trusttunnel/vpn.toml";
    tt_reach_host = text "";
    tt_service = text "trusttunnel.service";
    tt_binary = text "/opt/trusttunnel/trusttunnel_endpoint";
    tt_extended_auth = false;
    tt_restart = true;
    tt_command_timeout = finite (pos 30) 0;
  };
  compat = record { compat_file = "/etc/ttx/compat.json"; compat_strict = false };
  interval = pos 60;
}

reads_config : read_config system raw ≡ ok config
unfolding read_config read_panel read_ingress read_trusttunnel read_compat check_config member_of
    json_eq truthy
reads_config = refl

refuses_port :
    read_config system (raw_with (member "port" (number (pos 65536)) empty)) ≡ err bad_port
unfolding read_config read_panel read_ingress read_trusttunnel read_compat check_config member_of
    json_eq truthy
refuses_port = refl

read_config-Accepted_example : Accepted system config
read_config-Accepted_example = read_config-Accepted system raw config reads_config
