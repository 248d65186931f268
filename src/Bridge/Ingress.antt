-- ===== src/Bridge/Ingress.antt =====
-- The inbound of the panel that the endpoint sends its traffic to: build_ingress_payload, find_ingress,
-- contains_fields and reconcile_ingress of bridge/ttx_bridge.py.
pub mod Writes
pub mod Settled
pub mod Tests
use cascade_vpn.Base.{
  ℕ, String, Bool, true, false, not, ◌&&◌, ◌||◌, Option, none, some, List, [], ◌∷◌, ◌++◌, str_eq,
  get_or, is_some, if◌then◌else◌, Result, ok, err, or_raise,
}
use cascade_vpn.Bridge.Json.{
  ℤ, pos, Json, null, bool, number, text, array, object, Jsons, nil, cons, Members, empty, member,
  member_of, to_list, json_eq, integer_eq, truthy,
}
use cascade_vpn.Bridge.Panel.{
  Config, Server, Client, Failure, no_ingress, bad_shape, Call, ◌>>=◌, ◌>>◌, pure, raise, lift,
  list_inbounds, add_inbound, update_inbound,
}

-- The functions of the standard library that are called; `none` is an exception.
pub record Codec : Type 0 where
  pub dumps : Json → String
  pub loads : String → Option Json
  -- `int(value)`
  pub int_of : Json → Option ℤ

abbrev pub settings_of : Config → Json
settings_of cfg = object (
    member "auth" (text "noauth") (
      member "accounts" (array nil) (
        member "udp" (bool cfg.ing_udp) (
          member "ip"
            (text (if str_eq cfg.ing_listen "0.0.0.0" then "127.0.0.1" else cfg.ing_listen))
            empty))))

abbrev pub sniffing_of : Config → Json
sniffing_of cfg = object (
    member "enabled" (bool cfg.ing_sniffing) (
      member "destOverride"
        (array (cons (text "http") (cons (text "tls") (cons (text "quic") nil))))
        (member "metadataOnly" (bool false) (member "routeOnly" (bool false) empty))))

abbrev tcp_settings : Json
tcp_settings = object (member "network" (text "tcp") (member "security" (text "none") empty))

abbrev allocation : Json
allocation = object (
    member "strategy" (text "always")
      (member "refresh" (number (pos 5)) (member "concurrency" (number (pos 3)) empty)))

-- `find_ingress`; `ib.get` of an entry that is no object raises.
unfoldable pub find_ingress : String → List Json → Result Failure (Option Members)
find_ingress remark [] = ok none
find_ingress remark (object ms ∷ js) =
    let rest = find_ingress remark js in
    if json_eq (get_or (member_of "remark" ms) null) (text remark) then ok (some ms) else rest
find_ingress remark (_ ∷ js) = err bad_shape

-- The inbounds of an answer.
abbrev pub entries_of : Json → Result Failure (List Json)
entries_of (array js) = ok (to_list js)
entries_of _ = err bad_shape

unfoldable pub all_contained : Members → Members → Bool
all_contained actual empty = true
all_contained actual (member key value ms) =
    let rest = all_contained actual ms in
    elim (member_of key actual) [ none ↦ false | some found ↦ json_eq found value && rest ]

-- `contains_fields`
unfoldable pub contains_fields : Json → Json → Bool
unfolding all_contained
contains_fields (object actual) (object expected) = all_contained actual expected
contains_fields actual expected = json_eq actual expected

pub data Drift : Type 0 where
  port enable listen protocol settings sniffing : Drift

abbrev pub drifted : Bool → Drift → List Drift → List Drift
drifted test d ds = if test then d ∷ ds else ds

abbrev pub has_drift : List Drift → Bool
has_drift [] = false
has_drift (_ ∷ _) = true

-- `payload[key] = value`
unfoldable pub set_member : String → Json → Members → Members
set_member key value empty = member key value empty
set_member key value (member k j ms) =
    let rest = set_member key value ms in
    if str_eq k key then member k value ms else member k j rest

module _ (codec : Codec) (cfg : Config) where
  -- `build_ingress_payload`
  unfoldable pub build_ingress_payload : Members
  build_ingress_payload = member "up" (number (pos 0)) (
      member "down" (number (pos 0)) (
        member "total" (number (pos 0)) (
          member "remark" (text cfg.ing_remark) (
            member "enable" (bool true) (
              member "expiryTime" (number (pos 0)) (
                member "listen" (text cfg.ing_listen) (
                  member "port" (number (pos cfg.ing_port)) (
                    member "protocol" (text cfg.ing_protocol) (
                      member "settings" (text (codec.dumps (settings_of cfg))) (
                        member "streamSettings" (text (codec.dumps tcp_settings)) (
                          member "sniffing" (text (codec.dumps (sniffing_of cfg)))
                            (member "allocate" (text (codec.dumps allocation)) empty))))))))))))

  -- `json_field`
  unfoldable pub json_field : Json → Json
  json_field (text s) = get_or (codec.loads s) (text s)
  json_field value = value

  abbrev pub field_of : String → Json → Members → Json
  field_of key default ms = get_or (member_of key ms) default

  abbrev pub is_contained : String → Json → Members → Bool
  is_contained key expected ms =
      contains_fields (json_field (field_of key null ms)) (json_field (text (codec.dumps expected)))

  -- The comparisons of `reconcile_ingress`
  unfoldable pub drift_from : ℤ → Members → List Drift
  drift_from found_port ms = drifted (not (integer_eq found_port (pos cfg.ing_port))) port (
      drifted (not (truthy (field_of "enable" (bool false) ms))) enable (
        drifted (not (json_eq (field_of "listen" (text "") ms) (text cfg.ing_listen))) listen (
          drifted (not (json_eq (field_of "protocol" null ms) (text cfg.ing_protocol))) protocol (
            drifted (not (is_contained "settings" (settings_of cfg) ms)) settings
              (drifted (not (is_contained "sniffing" (sniffing_of cfg) ms)) sniffing [])))))

  abbrev pub found_port : Members → Result Failure ℤ
  found_port ms = or_raise (codec.int_of (field_of "port" (number (pos 0)) ms)) bad_shape

  abbrev pub keep_counter : Members → String → Members → Members
  keep_counter existing key payload = elim (member_of key existing) [
    | none ↦ payload
    | some value ↦ set_member key value payload
  ]

  -- The counters of the inbound stand in the payload of an update.
  abbrev pub keep_counters : Members → Members
  keep_counters existing = keep_counter existing "expiryTime" (
      keep_counter existing "total"
        (keep_counter existing "down" (keep_counter existing "up" build_ingress_payload)))

  abbrev pub id_of : Members → Result Failure ℤ
  id_of ms = elim (member_of "id" ms) [
    | none ↦ err bad_shape
    | some value ↦ or_raise (codec.int_of value) bad_shape
  ]

  module _ (server : Server) (dry_run : Bool) where
    unfoldable pub create_ingress : Call Json
    create_ingress =
        if not cfg.ing_manage
        then raise no_ingress
        else if dry_run
        then pure (object build_ingress_payload)
        else add_inbound server cfg build_ingress_payload

    unfoldable pub update_ingress : Members → Call Json
    update_ingress existing = do
      id ← lift (id_of existing)
      update_inbound server cfg id (keep_counters existing)

    unfoldable pub repair_ingress : Members → Call Json
    unfolding update_ingress drift_from
    repair_ingress existing = do
      found ← lift (found_port existing)
      if has_drift (drift_from found existing) && cfg.ing_manage && not dry_run
          then update_ingress existing
          else pure (object existing)

    abbrev pub settle_ingress : Option Members → Call Json
    settle_ingress none = create_ingress
    settle_ingress (some existing) = repair_ingress existing

    -- `reconcile_ingress`
    unfoldable pub reconcile_ingress : Call Json
    unfolding find_ingress create_ingress repair_ingress
    reconcile_ingress = do
      inbounds ← list_inbounds server cfg
      entries ← lift (entries_of inbounds)
      found ← lift (find_ingress cfg.ing_remark entries)
      settle_ingress found
