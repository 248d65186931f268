-- ===== src/Bridge/Command/Tests.antt =====
-- A command whose panel lists the inbound already, and its theorem there.
use cascade_vpn.Base.{false, true, none, some, [], ◌∷◌, ◌==◌, codes}
use cascade_vpn.Bridge.Apply.Tests.{linux, cfg, server}
use cascade_vpn.Bridge.Ingress.Tests.{config, codec, listing, own_list}
use cascade_vpn.Bridge.Render.Config.{Texts, Upstream}
use cascade_vpn.Bridge.Command.{Host}

abbrev texts : Texts
texts = record {
  pattern = record { is_space = λ c. c == 32 };
  splitlines = λ text. text ∷ [];
  rstrip = λ text. text;
  decimal = λ n. codes "10800";
  listen_address = λ text. some (codes "0.0.0.0:443");
}

abbrev upstream : Upstream
upstream = record {
  ing_listen = codes "127.0.0.1";
  ing_port = 10800;
  tt_reach_host = [];
  tt_extended_auth = false;
}

abbrev host : Host
host = record {
  panel = config;
  upstream = upstream;
  files = cfg;
  compat_strict = true;
  codec = codec;
  texts = texts;
  digits = record { digit = λ c. none };
  os = linux;
  server = listing own_list;
  found = record { min_version = none; has_binary = true; output = none };
  base = some (codes "listen_address = \"0.0.0.0:443\"");
  text_of = λ text. "new";
}
