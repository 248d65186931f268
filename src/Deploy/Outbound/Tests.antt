-- ===== src/Deploy/Outbound/Tests.antt =====
-- A panel whose template holds old credentials, and the theorems there.
use cascade_vpn.Base.{◌≡◌, refl, String, none, some, [], ◌∷◌, ok, str_eq, if◌then◌else◌}
use cascade_vpn.Bridge.Json.{
  Json, text, array, object, nil, cons, empty, member, member_of, json_eq, to_list, truthy,
}
use cascade_vpn.Bridge.Ingress.{set_member}
use cascade_vpn.Deploy.Outbound.Template.{
  Codec, clients_of, tagged, target_of, credentials_in, client_credentials, with_credentials,
  edit_outbounds, read_values,
}
use cascade_vpn.Deploy.Outbound.{
  done, fails, World, Job, step_from, step, replace_value, restart_and_verify, write_state,
  write_status, same_credentials, exchange, undo, apply_prepared, apply, rollback,
}
use cascade_vpn.Deploy.Outbound.Single.{Undone, apply-Undone}
use cascade_vpn.Deploy.Outbound.Rollback.{Restores, rollback-apply}

abbrev template_with : String → Json
template_with uuid = object (
    member "outbounds"
      (array (
        cons
          (object (
            member "tag" (text "Poland TCP") (
              member "protocol" (text "vless")
                (member "settings" (object (member "id" (text uuid) empty)) empty))))
          nil))
      empty)

abbrev inbound : Json
inbound = object (
    member "clients"
      (array (cons (object (member "email" (text "me") (member "id" (text "new-uuid") empty))) nil))
      empty)

abbrev codec : Codec
codec = record {
  loads = λ raw. some (
      if str_eq raw "inbound"
      then inbound
      else template_with (if str_eq raw "old" then "old-uuid" else "new-uuid"));
  dumps = λ json. "new";
}

abbrev job : Job
job = record {
  codec = codec;
  email = "me";
  outbound_tag = "Poland TCP";
  inbound = some "inbound";
  active_config = some "old";
}

abbrev panel : World
panel = record {
  template = some "old";
  state = none;
  status = none;
  active = none;
  events = done ∷ done ∷ [];
}

-- The fifth step, the restart with the new template, fails.
abbrev failing : World
failing = record panel { events = done ∷ done ∷ done ∷ done ∷ fails ∷ [] }

apply-Undone_example : Undone job "old" (apply job failing)
apply-Undone_example = apply-Undone job "old" failing refl tt

applies : (apply job panel).0 ≡ ok tt
unfolding apply apply_prepared exchange undo replace_value restart_and_verify write_state
    write_status step step_from same_credentials read_values client_credentials credentials_in
    target_of tagged clients_of edit_outbounds with_credentials member_of json_eq to_list truthy
    set_member
applies = refl

rollback-apply_example : Restores "old" (rollback job (record (apply job panel).1 { events = [] }))
rollback-apply_example = rollback-apply job job panel "old" [] refl tt applies tt
