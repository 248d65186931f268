-- ===== src/Portal/Tests.antt =====
-- A portal with one session, one link and one server to fetch from, and its theorems at it.
use cascade_vpn.Base.{
  any_char, String, ◌≡◌, refl, true, false, Option, none, some, [], ◌∷◌, ◌⊎◌, ok, arith, str_eq,
  ltb, if◌then◌else◌,
}
use cascade_vpn.Portal.Limiter as Limiter
use cascade_vpn.Portal.Store.{
  degraded, online, unknown, down, Link, empty, select_link, insert_session, insert_link,
}
use cascade_vpn.Portal.Security.{Crypto}
use cascade_vpn.Portal.Outbound.{Address, v4, Class, Url, Net, Internet, Policy}
use cascade_vpn.Portal.Outbound.Fetch.{fetch_url}
use cascade_vpn.Portal.Outbound.Fetch.Safety.{Within, fetch_url-Within}
use cascade_vpn.Portal.Request.{
  Library, Settings, Session, Request, get, post, text, object, natural, get_session,
}
use cascade_vpn.Portal.App.{App, Env, create_session, delete_session, login}
use cascade_vpn.Portal.App.Sessions.{Carries, created_session_lem, deleted_session_lem}
use cascade_vpn.Portal.App.Login.{Verified, login-slots, login-Verified}
use cascade_vpn.Portal.Links.{unnamed, named, allocate, redirect_short_link, new_link}
use cascade_vpn.Portal.Store.{Db, Service, online, unknown, select_service, update_service}
use cascade_vpn.Portal.Outbound.{
  validate_outbound_url, parse_url, permitted_address, address_eq, normalized,
}
use cascade_vpn.Portal.Outbound.Fetch.{connect, read_limited, is_redirect}
use cascade_vpn.Portal.Client.{
  Addresses, rate_limit_client, rate_limit_client-forged, rate_limit_client-last,
}
use cascade_vpn.Portal.Monitor.{service_row}
use cascade_vpn.Portal.Monitor.{Visit, ServiceRow, check_service, status_summary}
use cascade_vpn.Portal.Monitor.Checks.{
  Shows, fetched, check_service-Shows, count_of, status_summary-Adds,
}
use cascade_vpn.Portal.Links.Codes.{allocate-select, allocate-free, redirect-select, visited}

-- Two URLs: http://a/ and http://b/, where a redirects to b, and b to an address inside.
abbrev pub split : String → Option Url
split raw = some (record {
  scheme = "http";
  hostname = some raw;
  port = some none;
  username = none;
  password = none;
  path = "/";
  query = "";
  fragment = "";
})

abbrev pub public_class : Class
public_class = record {
  is_global = true;
  is_unspecified = false;
  is_multicast = false;
  is_link_local = false;
  is_reserved = false;
  is_loopback = false;
}

abbrev pub class_of : Address → Class
class_of (v4 n) = record public_class { is_global = ltb 100 n }
class_of _ = record public_class { is_global = false }

abbrev pub net : Net
net = record {
  urlsplit = split;
  urlunsplit = λ scheme host path query fragment. host;
  urljoin = λ base location. some location;
  quote_path = λ path. path;
  quote_query = λ query. query;
  quote_fragment = λ fragment. fragment;
  strip = λ raw. raw;
  idna = λ host. some host;
  ends_with = λ host suffix. false;
  has_colon = λ host. false;
  decimal = λ n. "8080";
  literal = λ host. none;
  ipv4_mapped = λ a. none;
  class = class_of;
  gunzip = λ raw n. none;
}

abbrev internet : Internet
internet = record {
  resolve = λ i host port.
      some
        (some (if str_eq host "a" then v4 200 else if str_eq host "b" then v4 201 else v4 10) ∷ []);
  respond = λ i address port. some (record {
    status = if ltb i 2 then 302 else 200;
    location = if ltb i 1 then some "b" else some "c";
    encoding = "";
    body = some (1 ∷ 2 ∷ []);
  });
}

abbrev pub policy : Policy
policy = record { allow_private = false; allowed_ports = 80 ∷ 443 ∷ [] }

fetch_url-Within_example : Within net internet policy 0 4 (fetch_url net internet policy 0 3 "a")
fetch_url-Within_example = fetch_url-Within net internet policy 0 3 "a"

abbrev pub crypto : Crypto
crypto = record {
  int_of_text = λ raw. none;
  decimal = λ n. "";
  b64encode = λ bytes. "";
  strip_equals = λ raw. raw;
  b64decode = λ raw. none;
  encode_utf8 = λ raw. none;
  pbkdf2 = λ key salt n. [];
}

abbrev addresses : Addresses
addresses = record {
  ip_address = λ raw. some (record {
    is_loopback = str_eq raw "127.0.0.1";
    is_unspecified = false;
    is_multicast = false;
    compressed = raw;
  });
  strip = λ raw. if str_eq raw " 203.0.113.5" then "203.0.113.5" else raw;
  clip = λ raw. raw;
}

abbrev pub library : Library
library = record {
  net = net;
  addresses = addresses;
  crypto = crypto;
  bare_host = λ host. host;
  media_type = λ raw. raw;
  int_of_text = λ raw. some (natural 20);
  session_cookie = λ header. some "token";
  token_hash = λ raw. some (if str_eq raw "token" then "hash" else "other");
}

abbrev pub settings : Settings
settings = record {
  trust_proxy = true;
  public_url = "http://portal";
  session_ttl = 3600;
  password_hash = "";
  password_binding = "binding";
}

abbrev pub env : Env
env = record {
  now = 1000;
  begin_time = 10;
  finish_time = 12;
  raw_token = "token";
  csrf_token = "csrf";
  code = λ i. if ltb i 2 then "taken" else "free";
}

abbrev pub request : Request
request = record {
  peer_address = "127.0.0.1";
  forwarded_for = some "203.0.113.5";
  method = post;
  path = "/api/auth/login";
  cookie_header = some "portal_session=token";
  csrf_header = "";
  origin = none;
  content_type = "application/json";
  content_length = some "20";
  payload = λ n. object (("password", text "secret") ∷ []);
}

abbrev portal : App
portal = record {
  db = record empty { links = new_link "taken" "http://a/" 5 ∷ [] };
  limiter = record {
    settings = Limiter.defaults 1;
    clients = [];
    global_tokens = 8;
    last_refill = 0;
    last_client_cleanup = 0;
  };
  password_slots = 2;
}

abbrev carries : Carries library "portal_session=token" "token"
carries = record {
  carried = refl;
  header_fits = omega arith;
  token_fits = omega arith;
  header_given = refl;
  token_given = refl;
}

abbrev session : Session
session = record { token_hash = "hash"; csrf_token = "csrf"; expires_at = 4600 }

abbrev pub with_session : App
with_session = record portal {
  db = record empty {
    links = new_link "taken" "http://a/" 5 ∷ [];
    sessions =
        record {
          token_hash = "hash";
          csrf_token = "csrf";
          created_at = 1000;
          expires_at = 4600;
          password_binding = "binding";
        }
        ∷ [];
  };
}

created_session_lem_example :
    get_session library settings with_session.db 4000 (some "portal_session=token")
    ≡ ok (some session)
unfolding create_session insert_session
created_session_lem_example =
    created_session_lem library "portal_session=token" "token" "hash" carries refl env settings
      settings session portal with_session 4000 refl

deleted_session_lem_example :
    get_session library settings
      (delete_session library settings env session with_session).1.db
      4000
      (some "portal_session=token")
    ≡ ok none
deleted_session_lem_example =
    deleted_session_lem library "portal_session=token" "token" "hash" carries refl env settings
      settings session with_session 4000 refl

login-slots_example : (login library settings env request portal).1.password_slots ≡ 2
login-slots_example = login-slots library settings env request portal

login-Verified_example :
    ((login library settings env request portal).1.db ≡ portal.db)
    ⊎ Verified library settings env request portal
login-Verified_example = login-Verified library settings env request portal

abbrev with_link : App
with_link = record portal {
  db = record empty {
    links = new_link "taken" "http://a/" 5 ∷ new_link "free" "http://b/" 1000 ∷ [];
  };
}

allocate-select_example :
    ((new_link "free" "http://b/" 1000).target_url ≡ "http://b/")
    × ((code : String)
        → select_link with_link.db code ≡ (
            if str_eq "free" code
            then some (new_link "free" "http://b/" 1000)
            else select_link portal.db code))
unfolding allocate insert_link
allocate-select_example =
    allocate-select env "http://b/" (named "free") portal with_link
      (new_link "free" "http://b/" 1000) refl

allocate-free_example : (link : Link) × ((allocate env "http://b/" unnamed portal).0 ≡ ok link)
unfolding select_link
allocate-free_example = allocate-free env "http://b/" portal 2 (omega arith) refl

redirect-select_example :
    select_link (redirect_short_link env get "taken" portal).1.db "taken"
    ≡ visited true 1000 (select_link portal.db "taken")
redirect-select_example = redirect-select env get "taken" "taken" portal

abbrev server_a : Service
server_a = record {
  id = 1;
  name = "A";
  url = "a";
  enabled = true;
  status = unknown;
  status_code = none;
  latency_ms = none;
  checked_at = none;
  error = none;
  created_at = 900;
}

abbrev monitored : Db
monitored = record empty { services = server_a ∷ []; next_service = 2 }

-- The server answers at once, with a page.
abbrev pub calm : Internet
calm = record {
  resolve = λ i host port. some (some (v4 200) ∷ []);
  respond = λ i address port.
      some (record { status = 200; location = none; encoding = ""; body = some [] });
}

abbrev first_visit : Visit
first_visit = record { checked_at = 1000; latency_ms = 30; internet = calm }

abbrev checked_row : ServiceRow
checked_row = record {
  id = 1;
  name = "A";
  status = online;
  status_code = some 200;
  latency_ms = some 30;
  checked_at = some 1000;
  enabled = true;
  url = some "a";
  error = some none;
}

-- The parts of a check, for the tests to see through.
check_parts : Unit {0}
unfolding check_service select_service update_service fetch_url validate_outbound_url parse_url
    permitted_address address_eq normalized any_char connect read_limited is_redirect service_row
check_parts = tt

runs_check :
    check_service net policy first_visit monitored 1
    ≡ (ok checked_row, (check_service net policy first_visit monitored 1).1)
unfolding check_parts
runs_check = refl

check_service-Shows_example :
    Shows first_visit (fetched net policy first_visit server_a) checked_row
unfolding check_parts
check_service-Shows_example =
    check_service-Shows net policy first_visit monitored 1 server_a refl checked_row
      (check_service net policy first_visit monitored 1).1 runs_check

status_summary-Adds_example :
    let t = status_summary (checked_row ∷ []) in
    let statuses = checked_row.status ∷ [] in
    (t.total ≡ 1)
    × (t.online ≡ count_of online statuses)
    × (t.degraded ≡ count_of degraded statuses)
    × (t.down ≡ count_of down statuses)
    × (t.unknown ≡ count_of unknown statuses)
status_summary-Adds_example = status_summary-Adds (checked_row ∷ [])

rate_limit_client-forged_example :
    rate_limit_client addresses true "192.0.2.9" none
    ≡ rate_limit_client addresses true "192.0.2.9" (some "198.51.100.7")
rate_limit_client-forged_example =
    rate_limit_client-forged addresses true "192.0.2.9" none (some "198.51.100.7") refl

rate_limit_client-last_example :
    rate_limit_client addresses true "127.0.0.1" (some "198.51.100.7, 203.0.113.5")
    ≡ rate_limit_client addresses true "127.0.0.1" (some " 203.0.113.5")
unfolding any_char
rate_limit_client-last_example =
    rate_limit_client-last addresses "127.0.0.1" "198.51.100.7" " 203.0.113.5" refl refl
