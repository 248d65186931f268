-- ===== src/Portal/Config/Tests.antt =====
-- The settings of an environment that gives a password hash alone.
use cascade_vpn.Base.{◌≡◌, refl, false, true, none, some, [], ◌∷◌, ok, str_eq, if◌then◌else◌}
use cascade_vpn.Portal.Tests.{net, library}
use cascade_vpn.Portal.Request.{natural}
use cascade_vpn.Portal.Config.{
  System, Config, from_env, password_setting, url_setting, integer, ports, raw_integer, boolean,
  read_ports,
}
use cascade_vpn.Portal.Config.Bounds.{Accepted, from_env-Accepted}

abbrev system : System
system = record {
  getenv = λ name. if str_eq name "PORTAL_PORT" then some "8443" else none;
  net = net;
  crypto = library.crypto;
  lower_word = λ text. text;
  int_of_text = λ text.
      some (natural (if str_eq text "80" then 80 else if str_eq text "443" then 443 else 8443));
  split_commas = λ text. "80" ∷ "443" ∷ [];
  strip_slashes = λ text. text;
  static_dir = "static";
  reference_dir = "reference";
  migrations_dir = "migrations";
}

abbrev config : Config
config = record {
  host = "127.0.0.1";
  port = 8443;
  database_path = "/data/portal.db";
  password_hash = "";
  public_url = "https://localhost";
  session_ttl = 43200;
  cookie_secure = true;
  trust_proxy = false;
  allow_private_urls = false;
  allowed_outbound_ports = 80 ∷ 443 ∷ [];
  check_timeout = 5;
  feed_timeout = 10;
  monitor_interval = 60;
  feed_refresh_interval = 900;
  static_dir = "static";
  reference_dir = "reference";
  migrations_dir = "migrations";
}

reads_config : from_env system false ≡ ok config
unfolding from_env password_setting url_setting integer ports raw_integer boolean read_ports
reads_config = refl

from_env-Accepted_example : Accepted system false config
from_env-Accepted_example = from_env-Accepted system false config reads_config
