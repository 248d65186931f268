-- ===== src/Bridge/Ingress/Settled.antt =====
-- A reconciliation after one that was carried out changes nothing.
use cascade_vpn.Base.{
  ◌≡◌, ap, ◌∙◌, String, Bool, true, false, not, ◌&&◌, Option, some, get_or, or_raise, List, [],
  str_eq, str_eq_refl, ok, arith, if◌then◌else◌,
}
use cascade_vpn.Bridge.Json.{
  truthy, null, ℤ, pos, Json, bool, number, text, object, Members, member_of, json_eq,
}
use cascade_vpn.Bridge.Panel.{
  Config, Server, Client, bad_shape, Call, pure, lift, ◌>>=◌, continue, list_inbounds,
}
use cascade_vpn.Bridge.Ingress.{
  Codec, Drift, settings_of, sniffing_of, find_ingress, entries_of, all_contained, contains_fields,
  is_contained, has_drift, drift_from, build_ingress_payload, json_field, field_of, found_port,
  update_ingress, repair_ingress, settle_ingress, reconcile_ingress,
}

-- The codec gives back what it wrote of the settings, and an integer is its own.
pub record Reads (codec : Codec) (cfg : Config) : Type 0 where
  pub settings : codec.loads (codec.dumps (settings_of cfg)) ≡ some (settings_of cfg)
  pub sniffing : codec.loads (codec.dumps (sniffing_of cfg)) ≡ some (sniffing_of cfg)
  pub integer : (z : ℤ) → codec.int_of (number z) ≡ some z

-- The inbound has the fields that the payload sets and the reconciliation compares.
pub record Stores (codec : Codec) (cfg : Config) (existing : Members) : Type 0 where
  pub port : member_of "port" existing ≡ member_of "port" (build_ingress_payload codec cfg)
  pub enable : member_of "enable" existing ≡ member_of "enable" (build_ingress_payload codec cfg)
  pub listen : member_of "listen" existing ≡ member_of "listen" (build_ingress_payload codec cfg)
  pub protocol :
      member_of "protocol" existing ≡ member_of "protocol" (build_ingress_payload codec cfg)
  pub settings :
      member_of "settings" existing ≡ member_of "settings" (build_ingress_payload codec cfg)
  pub sniffing :
      member_of "sniffing" existing ≡ member_of "sniffing" (build_ingress_payload codec cfg)

module _ (codec : Codec) (cfg : Config) (reads : Reads codec cfg) where
  settings_contained : contains_fields (settings_of cfg) (settings_of cfg) ≡ true
  unfolding contains_fields all_contained member_of json_eq
  settings_contained =
      ground (
        arith,
        str_eq_refl (if str_eq cfg.ing_listen "0.0.0.0" then "127.0.0.1" else cfg.ing_listen),
      )

  sniffing_contained : contains_fields (sniffing_of cfg) (sniffing_of cfg) ≡ true
  unfolding contains_fields all_contained member_of json_eq
  sniffing_contained = ground arith

  module _ (existing : Members) (s : Stores codec cfg existing) where
    enabled : truthy (field_of codec cfg "enable" (bool false) existing) ≡ true
    unfolding member_of build_ingress_payload truthy
    enabled = ap (λ o. truthy (get_or o (bool false))) s.enable

    same_listen :
        json_eq (field_of codec cfg "listen" (text "") existing) (text cfg.ing_listen) ≡ true
    unfolding member_of build_ingress_payload json_eq
    same_listen =
        ap (λ o. json_eq (get_or o (text "")) (text cfg.ing_listen)) s.listen
        ∙ str_eq_refl cfg.ing_listen

    same_protocol :
        json_eq (field_of codec cfg "protocol" null existing) (text cfg.ing_protocol) ≡ true
    unfolding member_of build_ingress_payload json_eq
    same_protocol =
        ap (λ o. json_eq (get_or o null) (text cfg.ing_protocol)) s.protocol
        ∙ str_eq_refl cfg.ing_protocol

    -- A stored setting is read back as it was written.
    contained :
        (key : String) (expected : Json)
        → member_of key existing ≡ some (text (codec.dumps expected))
        → codec.loads (codec.dumps expected) ≡ some expected
        → contains_fields expected expected ≡ true
        → is_contained codec cfg key expected existing ≡ true
    unfolding json_field
    contained key expected stored read same =
        ap
          (λ o.
            contains_fields (json_field codec cfg (get_or o null))
              (json_field codec cfg (text (codec.dumps expected))))
          stored
        ∙ ap
            (λ o.
              contains_fields (get_or o (text (codec.dumps expected)))
                (get_or o (text (codec.dumps expected))))
            read
        ∙ same

    same_settings : is_contained codec cfg "settings" (settings_of cfg) existing ≡ true
    unfolding member_of build_ingress_payload
    same_settings =
        contained "settings" (settings_of cfg) s.settings reads.settings settings_contained

    same_sniffing : is_contained codec cfg "sniffing" (sniffing_of cfg) existing ≡ true
    unfolding member_of build_ingress_payload
    same_sniffing =
        contained "sniffing" (sniffing_of cfg) s.sniffing reads.sniffing sniffing_contained

    no_drift : drift_from codec cfg (pos cfg.ing_port) existing ≡ []
    unfolding drift_from
    no_drift = ground (arith, enabled, same_listen, same_protocol, same_settings, same_sniffing)

    own_port : found_port codec cfg existing ≡ ok (pos cfg.ing_port)
    unfolding member_of build_ingress_payload
    own_port =
        ap (λ o. or_raise (codec.int_of (get_or o (number (pos 0)))) bad_shape) s.port
        ∙ ap (λ o. or_raise o bad_shape) (reads.integer (pos cfg.ing_port))

    repair_settled :
        (server : Server) (dry_run : Bool) (c : Client)
        → repair_ingress codec cfg server dry_run existing c ≡ (ok (object existing), c)
    unfolding repair_ingress
    repair_settled server dry_run c =
        ap (λ x. continue (x, c) (λ found. repair (drift_from codec cfg found existing))) own_port
        ∙ ap (λ ds. repair ds c) no_drift
      where
        repair : List Drift → Call Json
        repair ds =
            if has_drift ds && cfg.ing_manage && not dry_run
            then update_ingress codec cfg server dry_run existing
            else pure (object existing)

  -- Where the panel lists the inbound with the fields that the bridge sets, a reconciliation asks for
  -- nothing more than the list, and gives the inbound back as it is listed.
  pub reconcile_settled :
      (server : Server) (dry_run : Bool) (c listed : Client) (inbounds : Json) (entries : List Json)
      (existing : Members)
      → list_inbounds server cfg c ≡ (ok inbounds, listed)
      → entries_of inbounds ≡ ok entries
      → find_ingress cfg.ing_remark entries ≡ ok (some existing)
      → Stores codec cfg existing
      → reconcile_ingress codec cfg server dry_run c ≡ (ok (object existing), listed)
  unfolding reconcile_ingress
  reconcile_settled server dry_run c listed inbounds entries existing h1 h2 h3 s =
      ap (λ x. continue x (λ found. lift (entries_of found) >>= find)) h1
      ∙ ap (λ x. continue (x, listed) find) h2
      ∙ ap (λ x. continue (x, listed) settle) h3
      ∙ repair_settled existing s server dry_run listed
    where
      settle : Option Members → Call Json
      settle = settle_ingress codec cfg server dry_run

      find : List Json → Call Json
      find found = lift (find_ingress cfg.ing_remark found) >>= settle
