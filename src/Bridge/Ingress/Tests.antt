-- ===== src/Bridge/Ingress/Tests.antt =====
-- A panel that lists no inbound and one that lists the bridge's own, and the theorems at them.
use cascade_vpn.Base.{
  ◌≡◌, refl, String, true, false, Option, none, some, [], ◌∷◌, ok, str_eq, if◌then◌else◌,
}
use cascade_vpn.Bridge.Json.{
  ℤ, Json, bool, number, array, object, nil, cons, Members, empty, member, member_of, json_eq,
  truthy, to_list,
}
use cascade_vpn.Bridge.Panel.{
  Config, Server, Client, answer, new_client, request, log_in, ensure_login, operate, list_inbounds,
}
use cascade_vpn.Bridge.Panel.Writes.{written}
use cascade_vpn.Bridge.Ingress.{
  Codec, settings_of, sniffing_of, build_ingress_payload, find_ingress, reconcile_ingress,
}
use cascade_vpn.Bridge.Ingress.Writes.{Change, Listed, reconcile_ingress-Change}
use cascade_vpn.Bridge.Ingress.Settled.{Reads, Stores, reconcile_settled}

abbrev pub config : Config
config = record {
  panel_user = "";
  panel_pass = "";
  panel_api_token = "token";
  ing_remark = "TTX-Ingress";
  ing_listen = "127.0.0.1";
  ing_port = 10800;
  ing_protocol = "socks";
  ing_udp = true;
  ing_sniffing = true;
  ing_manage = true;
}

-- A text that tells the values of the payload apart: their first key.
pub first_key : Json → String
first_key (object (member key _ _)) = key
first_key _ = ""

pub integer : Json → Option ℤ
integer (number z) = some z
integer _ = none

abbrev pub codec : Codec
codec = record {
  dumps = first_key;
  loads = λ s. some (if str_eq s "auth" then settings_of config else sniffing_of config);
  int_of = integer;
}

reads : Reads codec config
unfolding first_key integer
reads = record { settings = refl; sniffing = refl; integer = λ z. refl }

abbrev pub listing : Json → Server
listing inbounds sent = answer (object (member "success" (bool true) (member "obj" inbounds empty)))

reconcile_ingress-Change_example :
    Change
      (listing (array nil))
      config
      codec
      false
      (Listed (listing (array nil)) config codec false new_client)
      []
      (written (reconcile_ingress codec config (listing (array nil)) false new_client).1)
unfolding written
reconcile_ingress-Change_example =
    reconcile_ingress-Change (listing (array nil)) config codec false new_client

abbrev pub own : Members
own = build_ingress_payload codec config

abbrev pub own_list : Json
own_list = array (cons (object own) nil)

stored : Stores codec config own
stored = record {
  port = refl;
  enable = refl;
  listen = refl;
  protocol = refl;
  settings = refl;
  sniffing = refl;
}

abbrev listed : Client
listed = (list_inbounds (listing own_list) config new_client).1

lists_own : list_inbounds (listing own_list) config new_client ≡ (ok own_list, listed)
unfolding list_inbounds operate ensure_login log_in request member_of truthy
lists_own = refl

finds_own : find_ingress config.ing_remark (object own ∷ []) ≡ ok (some own)
unfolding find_ingress build_ingress_payload member_of json_eq
finds_own = refl

reconcile_settled_example :
    reconcile_ingress codec config (listing own_list) false new_client ≡ (ok (object own), listed)
unfolding to_list
reconcile_settled_example =
    reconcile_settled codec config reads (listing own_list) false new_client listed own_list
      (object own ∷ []) own lists_own refl finds_own stored
