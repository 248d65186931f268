-- ===== src/Bridge/Panel.antt =====
-- The client of the 3x-ui panel: class PanelClient of bridge/ttx_bridge.py.
pub mod Writes
use Prim.Native.String.{◌++◌ as ◌<>◌}
use cascade_vpn.Base.{
  ℕ, String, Bool, true, false, not, ◌&&◌, ◌||◌, Option, none, some, List, [], ◌∷◌, ◌++◌, ◌==◌,
  str_eq, get_or, if◌then◌else◌, Result, ok, err,
}
use cascade_vpn.Bridge.Json.{
  Json, null, text, array, object, nil, Members, empty, member, member_of, ℤ, truthy,
}

-- The fields of `Config` that the client and the ingress read.
pub record Config : Type 0 where
  pub panel_user : String
  pub panel_pass : String
  pub panel_api_token : String
  pub ing_remark : String
  pub ing_listen : String
  pub ing_port : ℕ
  pub ing_protocol : String
  pub ing_udp : Bool
  pub ing_sniffing : Bool
  pub ing_manage : Bool

pub data Endpoint : Type 0 where
  csrf list : Endpoint
  login : String → String → Endpoint
  add : Members → Endpoint
  update : ℤ → Members → Endpoint

-- A request, with the value of its Authorization or X-CSRF-Token header.
pub record Sent : Type 0 where
  pub endpoint : Endpoint
  pub bearer : Option String
  pub csrf_token : Option String

-- What the panel answers; `interrupted` is an `OSError` that urllib does not wrap.
pub data Answer : Type 0 where
  http_error : ℕ → Answer
  unreachable not_json interrupted : Answer
  answer : Json → Answer

-- How an operation fails: a `PanelError`, but for the last two, which are an `OSError` and another
-- exception for an answer of another shape.
pub data Failure : Type 0 where
  http : ℕ → Failure
  no_connection no_json no_token refused no_ingress : Failure
  os_failure bad_shape : Failure

-- The panel as it answers a sequence of requests, the last of them last.
abbrev pub Server : Type 0
Server = List Sent → Answer

pub record Client : Type 0 where
  pub logged_in : Bool
  pub token : String
  pub sent : List Sent

-- `PanelClient(cfg)`
abbrev pub new_client : Client
new_client = record { logged_in = false; token = ""; sent = [] }

abbrev pub Call {ℓ} : Type ℓ → Type ℓ
Call A = Client → Result Failure A × Client

abbrev pub continue {ℓ κ} :
    {A : Type ℓ} {B : Type κ} → Result Failure A × Client → (A → Call B) → Result Failure B × Client
continue (ok a, c) f = f a c
continue (err e, c) f = (err e, c)

infixl 5 ◌>>=◌ ◌>>◌
abbrev pub ◌>>=◌ {ℓ κ} : {A : Type ℓ} {B : Type κ} → Call A → (A → Call B) → Call B
◌>>=◌ m f c = continue (m c) f

abbrev pub ◌>>◌ {ℓ κ} : {A : Type ℓ} {B : Type κ} → Call A → Call B → Call B
m >> k = m >>= λ _. k

abbrev pub pure {ℓ} : {A : Type ℓ} → A → Call A
pure a c = (ok a, c)

abbrev pub raise {ℓ} : {A : Type ℓ} → Failure → Call A
raise e c = (err e, c)

abbrev pub lift {ℓ} : {A : Type ℓ} → Result Failure A → Call A
lift r c = (r, c)

-- `res.get(key)`, where the answer is an object.
abbrev pub field : String → Json → Result Failure Json
field key (object ms) = ok (get_or (member_of key ms) null)
field key _ = err bad_shape

-- `value or other`
abbrev pub or_else : Json → Json → Json
or_else value other = if truthy value then value else other

abbrev pub read_answer : Answer → Result Failure Json
read_answer (http_error n) = err (http n)
read_answer unreachable = err no_connection
read_answer not_json = err no_json
read_answer interrupted = err os_failure
read_answer (answer j) = ok j

module _ (server : Server) (cfg : Config) where
  abbrev bearer_of : Option String
  bearer_of = if str_eq cfg.panel_api_token "" then none else some cfg.panel_api_token

  abbrev csrf_of : String → Option String
  csrf_of token =
      if str_eq cfg.panel_api_token "" && not (str_eq token "") then some token else none

  abbrev pub sent_with : Endpoint → String → Sent
  sent_with e token = record { endpoint = e; bearer = bearer_of; csrf_token = csrf_of token }

  -- `_request`
  unfoldable pub request : Endpoint → Call Json
  request e c =
      let sent = c.sent ++ sent_with e c.token ∷ [] in
      (read_answer (server sent), record c { sent = sent })

  abbrev pub set_token : Json → Call (Unit {0})
  set_token (text token) c =
      if str_eq token "" then (err no_token, c) else (ok tt, record c { token = token })
  set_token _ c = (err no_token, c)

  -- An answer 404 is an older panel without the endpoint.
  abbrev pub after_csrf : Result Failure Json × Client → Result Failure (Unit {0}) × Client
  after_csrf (err (http n), c) = if n == 404 then (ok tt, c) else (err (http n), c)
  after_csrf (err e, c) = (err e, c)
  after_csrf (ok res, c) = continue (field "obj" res, c) set_token

  -- `fetch_csrf_token`
  unfoldable pub fetch_csrf_token : Call (Unit {0})
  unfolding request
  fetch_csrf_token c = after_csrf (request csrf c)

  abbrev pub succeeded : Json → Result Failure (Unit {0})
  succeeded value = if truthy value then ok tt else err refused

  -- `if not res.get("success"): raise PanelError`
  abbrev pub require_success : Json → Call (Unit {0})
  require_success res = lift (field "success" res) >>= λ value. lift (succeeded value)

  abbrev pub mark_logged_in : Call (Unit {0})
  mark_logged_in c = (ok tt, record c { logged_in = true })

  -- `login`
  unfoldable pub log_in : Call (Unit {0})
  unfolding fetch_csrf_token
  log_in = if not (str_eq cfg.panel_api_token "") then mark_logged_in else (do
    fetch_csrf_token
    res ← request (login cfg.panel_user cfg.panel_pass)
    require_success res
    mark_logged_in)

  unfoldable pub ensure_login : Call (Unit {0})
  unfolding log_in
  ensure_login c = if c.logged_in then (ok tt, c) else log_in c

  -- `list_inbounds`, `add_inbound` and `update_inbound`, whose answers are read alike but for the
  -- value that stands for none.
  unfoldable pub operate : Endpoint → Json → Call Json
  unfolding ensure_login
  operate e default = do
    ensure_login
    res ← request e
    require_success res
    obj ← lift (field "obj" res)
    pure (or_else obj default)

  unfoldable pub list_inbounds : Call Json
  unfolding operate
  list_inbounds = operate list (array nil)

  unfoldable pub add_inbound : Members → Call Json
  unfolding operate
  add_inbound payload = operate (add payload) (object empty)

  unfoldable pub update_inbound : ℤ → Members → Call Json
  unfolding operate
  update_inbound id payload = operate (update id payload) (object empty)
