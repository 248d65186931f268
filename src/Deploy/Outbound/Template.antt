-- ===== src/Deploy/Outbound/Template.antt =====
-- What the script reads of the panel's database and configuration, and the template that it makes:
-- `read_values`, `active_credentials` and `template_credentials`. An exception has no result.
use cascade_vpn.Base.{
  String, Bool, Option, none, some, List, [], ◌∷◌, str_eq, get_or, if◌then◌else◌,
}
use cascade_vpn.Bridge.Json.{
  Json, null, text, array, object, Jsons, nil, cons, Members, empty, member_of, to_list, json_eq,
  truthy,
}
use cascade_vpn.Bridge.Ingress.{set_member}

pub record Credentials : Type 0 where
  pub uuid : String
  pub flow : Json

pub record Codec : Type 0 where
  pub loads : String → Option Json
  pub dumps : Json → String

infixl 5 ◌>>=◌ ◌>>◌
abbrev ◌>>=◌ {ℓ κ} : {A : Type ℓ} {B : Type κ} → Option A → (A → Option B) → Option B
none >>= f = none
some a >>= f = f a

abbrev ◌>>◌ {ℓ κ} : {A : Type ℓ} {B : Type κ} → Option A → Option B → Option B
m >> k = m >>= λ _. k

abbrev the_only {ℓ} : {A : Type ℓ} → List A → Option A
the_only (x ∷ []) = some x
the_only _ = none

abbrev fields_of : Json → Option Members
fields_of (object ms) = some ms
fields_of _ = none

-- `d.get(key, [])`, iterated over.
abbrev elements_of : Option Json → Option Jsons
elements_of none = some nil
elements_of (some (array js)) = some js
elements_of (some _) = none

abbrev has_value : String → String → Members → Bool
has_value key value ms = json_eq (get_or (member_of key ms) null) (text value)

-- The clients that are objects with the address.
unfoldable pub clients_of : String → List Json → List Members
clients_of email [] = []
clients_of email (object ms ∷ js) =
    let rest = clients_of email js in if has_value "email" email ms then ms ∷ rest else rest
clients_of email (_ ∷ js) = clients_of email js

-- The outbounds with the tag; every outbound must be an object.
unfoldable pub tagged : String → List Json → Option (List Members)
tagged tag [] = some []
tagged tag (j ∷ js) = do
  ms ← fields_of j
  rest ← tagged tag js
  some (if has_value "tag" tag ms then ms ∷ rest else rest)

-- A text that is not empty.
abbrev given_text : Option Json → Option String
given_text (some (text s)) = if str_eq s "" then none else some s
given_text _ = none

abbrev flow_of : Option Json → Json
flow_of none = text ""
flow_of (some j) = if truthy j then j else text ""

abbrev settings_of : Members → Option Members
settings_of ms = fields_of (get_or (member_of "settings" ms) (object empty))

unfoldable pub target_of : String → Json → Option Members
unfolding tagged
target_of tag template = do
  ms ← fields_of template
  outbounds ← elements_of (member_of "outbounds" ms)
  found ← tagged tag (to_list outbounds)
  the_only found

-- `active_credentials` and `template_credentials`, of the text of a configuration.
unfoldable pub credentials_in : Codec → String → String → Option Credentials
unfolding target_of
credentials_in codec tag raw = do
  template ← codec.loads raw
  target ← target_of tag template
  settings ← settings_of target
  uuid ← given_text (member_of "id" settings)
  some (record { uuid = uuid; flow = flow_of (member_of "flow" settings) })

-- The credentials of the client in the settings of its inbound.
unfoldable pub client_credentials : Codec → String → String → Option Credentials
unfolding clients_of
client_credentials codec email raw = do
  inbound ← codec.loads raw
  ms ← fields_of inbound
  clients ← elements_of (member_of "clients" ms)
  client ← the_only (clients_of email (to_list clients))
  elim (member_of "id" client) [
    | some (text uuid) ↦ some (record { uuid = uuid; flow = flow_of (member_of "flow" client) })
    | _ ↦ none
  ]

-- The outbound with the credentials in its settings.
unfoldable pub with_credentials : Credentials → Members → Members
with_credentials c ms =
    set_member "settings"
      (object
        (set_member "flow" c.flow (set_member "id" (text c.uuid) (get_or (settings_of ms) empty))))
      ms

unfoldable pub edit_outbounds : String → Credentials → Jsons → Jsons
unfolding with_credentials
edit_outbounds tag c nil = nil
edit_outbounds tag c (cons (object ms) js) =
    let rest = edit_outbounds tag c js in
    if has_value "tag" tag ms
    then cons (object (with_credentials c ms)) rest
    else cons (object ms) rest
edit_outbounds tag c (cons j js) = cons j (edit_outbounds tag c js)

abbrev edited : String → Credentials → Members → Json
edited tag c ms = object (
    set_member "outbounds"
      (array (edit_outbounds tag c (get_or (elements_of (member_of "outbounds" ms)) nil))) ms)

abbrev is_vless : Members → Option (Unit {0})
is_vless ms = if has_value "protocol" "vless" ms then some tt else none

-- `read_values`: the new template, and the credentials of the client.
unfoldable pub read_values :
    Codec → String → String → String → String → Option (String × Credentials)
unfolding client_credentials target_of edit_outbounds
read_values codec email tag inbound raw = do
  desired ← client_credentials codec email inbound
  template ← codec.loads raw
  ms ← fields_of template
  target ← target_of tag template
  is_vless target
  settings ← settings_of target
  given_text (member_of "id" settings)
  some (codec.dumps (edited tag desired ms), desired)
