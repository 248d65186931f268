-- ===== src/Deploy/Outbound.antt =====
-- The exchange of one outbound's credentials in the panel's template: the commands apply and rollback
-- of deploy/xui_outbound_client_recovery.py. Each step that may fail asks the environment how it ends;
-- another program may change the template before any of them.
pub mod Template
pub mod Triples
pub mod Ends
pub mod Rollback
pub mod Undo
pub mod Single
mod Tests
use cascade_vpn.Bridge.Json.{json_eq}
use cascade_vpn.Deploy.Outbound.Template.{Codec, Credentials, read_values, credentials_in}
use cascade_vpn.Base.{
  ℕ, String, Bool, true, false, not, ◌&&◌, Option, none, some, List, [], ◌∷◌, str_eq, if◌then◌else◌,
  Result, ok, err,
}

pub data Stage : Type 0 where
  prepared applied rolled_back : Stage

-- What `state.json` keeps, as far as the commands read it.
pub record State : Type 0 where
  pub stage : Stage
  pub original_template : String
  pub applied_template : String
  pub original_credentials : Credentials
  pub outbound_tag : String

-- How a step ends; `changed` is a change of the template by another program, and then the rest.
pub data Event : Type 0 where
  done fails : Event
  changed : String → Event

pub record World : Type 0 where
  -- the value of `xrayTemplateConfig`, where the row exists
  pub template : Option String
  pub state : Option State
  pub status : Option Stage
  -- what the active configuration was last seen to show
  pub active : Option Credentials
  pub events : List Event

-- A `CutoverError` or one of the other exceptions that `main` catches.
pub data Error : Type 0 where
  step_failed missing_template changed_concurrently changed_since_apply : Error
  state_exists no_state not_applied credentials_differ unreadable no_email : Error

abbrev pub Io {ℓ} : Type ℓ → Type ℓ
Io A = World → Result Error A × World

abbrev pub continue {ℓ κ} :
    {A : Type ℓ} {B : Type κ} → Result Error A × World → (A → Io B) → Result Error B × World
continue (ok a, w) f = f a w
continue (err e, w) f = (err e, w)

infixl 5 ◌>>=◌ ◌>>◌
abbrev pub ◌>>=◌ {ℓ κ} : {A : Type ℓ} {B : Type κ} → Io A → (A → Io B) → Io B
◌>>=◌ m f w = continue (m w) f

abbrev pub ◌>>◌ {ℓ κ} : {A : Type ℓ} {B : Type κ} → Io A → Io B → Io B
m >> k = m >>= λ _. k

abbrev pub pure {ℓ} : {A : Type ℓ} → A → Io A
pure a w = (ok a, w)

abbrev pub raise {ℓ} : {A : Type ℓ} → Error → Io A
raise e w = (err e, w)

-- The next step: the changes of other programs up to it, and whether it fails; it does not where the
-- list is used up.
unfoldable pub step_from : World → List Event → Bool × World
step_from w [] = (true, record w { events = [] })
step_from w (done ∷ es) = (true, record w { events = es })
step_from w (fails ∷ es) = (false, record w { events = es })
step_from w (changed t ∷ es) = step_from (record w { template = some t }) es

unfoldable pub step : Io (Unit {0})
unfolding step_from
step w = let (fine, w') = step_from w w.events in (if fine then ok tt else err step_failed, w')

abbrev pub holds : String → Option String → Bool
holds expected none = false
holds expected (some t) = str_eq t expected

-- `replace_value`: the update is one statement, and takes hold only where the value is the expected.
unfoldable pub replace_value : String → String → Io (Unit {0})
unfolding step
replace_value expected replacement = do
  step
  (λ w.
      if holds expected w.template
      then (ok tt, record w { template = some replacement })
      else (err changed_concurrently, w))

-- `restart_and_verify`: the restart, and the wait until the active configuration shows the
-- credentials, each of which may fail.
unfoldable pub restart_and_verify : Credentials → Io (Unit {0})
restart_and_verify credentials = do
  step
  step
  (λ w. (ok tt, record w { active = some credentials }))

-- `atomic_json` of the state and of the status
unfoldable pub write_state : State → Io (Unit {0})
write_state s = step >> (λ w. (ok tt, record w { state = some s }))

unfoldable pub write_status : Stage → Io (Unit {0})
write_status s = step >> (λ w. (ok tt, record w { status = some s }))

-- What a command reads besides the template: the settings of the inbound, where the row exists, and
-- the text of the active configuration.
pub record Job : Type 0 where
  pub codec : Codec
  pub email : String
  pub outbound_tag : String
  pub inbound : Option String
  pub active_config : Option String

abbrev pub read_template : Io String
read_template w = elim w.template [ none ↦ (err missing_template, w) | some t ↦ (ok t, w) ]

abbrev pub or_unreadable {ℓ} : {A : Type ℓ} → Option A → Io A
or_unreadable none = raise unreadable
or_unreadable (some a) = pure a

unfoldable pub same_credentials : Credentials → Credentials → Bool
same_credentials a b = str_eq a.uuid b.uuid && json_eq a.flow b.flow

-- `read_values`, of the template that was read.
abbrev pub values_of : Job → String → Io (String × Credentials)
values_of job raw = do
  inbound ← or_unreadable job.inbound
  or_unreadable (read_values job.codec job.email job.outbound_tag inbound raw)

abbrev pub credentials_of : Job → Option String → Io Credentials
credentials_of job config = do
  raw ← or_unreadable config
  or_unreadable (credentials_in job.codec job.outbound_tag raw)

-- The `except` clause of apply: where the template was replaced, it is put back and loaded again, and
-- the first exception goes on unless that fails.
unfoldable pub undo : State → Bool → Error → Io (Unit {0})
unfolding replace_value restart_and_verify
undo s false e = raise e
undo s true e = do
  replace_value s.applied_template s.original_template
  restart_and_verify s.original_credentials
  raise e

abbrev pub undone : State → Bool → Result Error (Unit {0}) × World → Result Error (Unit {0}) × World
undone s replaced (ok _, w) = (ok tt, w)
undone s replaced (err e, w) = undo s replaced e w

-- The `try` block of apply.
abbrev pub loading :
    State → Credentials → Result Error (Unit {0}) × World → Result Error (Unit {0}) × World
loading s desired (ok _, w) = undone s true (restart_and_verify desired w)
loading s desired (err e, w) = undo s false e w

unfoldable pub exchange : State → Credentials → Io (Unit {0})
unfolding restart_and_verify undo
exchange s desired w = loading s desired (replace_value s.original_template s.applied_template w)

abbrev pub refuse_state : Option State → Io (Unit {0})
refuse_state none = pure tt
refuse_state (some _) = raise state_exists

-- The command apply, after what it reads; the backup is one step more.
unfoldable pub apply_prepared : State → Credentials → Io (Unit {0})
unfolding exchange write_state write_status
apply_prepared s desired = do
  step
  (λ w. refuse_state w.state w)
  step
  write_state s
  exchange s desired
  write_state (record s { stage = applied })
  write_status applied

abbrev pub prepared_state : Job → String → String → Credentials → State
prepared_state job original new active = record {
  stage = prepared;
  original_template = original;
  applied_template = new;
  original_credentials = active;
  outbound_tag = job.outbound_tag;
}

abbrev pub require_known : Credentials → Credentials → Io (Unit {0})
require_known known active =
    if same_credentials known active then pure tt else raise credentials_differ

-- The command apply, of a job with an address.
unfoldable pub apply_to_client : Job → Io (Unit {0})
unfolding apply_prepared same_credentials
apply_to_client job = do
  original ← read_template
  edited ← values_of job original
  active ← credentials_of job job.active_config
  known ← credentials_of job (some original)
  require_known known active
  apply_prepared (prepared_state job original edited.0 active) edited.1

-- The command apply.
unfoldable pub apply : Job → Io (Unit {0})
unfolding apply_to_client
apply job = if str_eq job.email "" then raise no_email else apply_to_client job

abbrev pub read_state : Io State
read_state w = elim w.state [ none ↦ (err no_state, w) | some s ↦ (ok s, w) ]

abbrev pub require_applied : Stage → Io (Unit {0})
require_applied applied = pure tt
require_applied _ = raise not_applied

abbrev pub require_current : String → State → Io (Unit {0})
require_current current s =
    if str_eq current s.applied_template then pure tt else raise changed_since_apply

-- The command rollback; the job is that of the state.
unfoldable pub rollback : Job → Io (Unit {0})
unfolding replace_value restart_and_verify write_state write_status
rollback job = do
  s ← read_state
  require_applied s.stage
  current ← read_template
  values_of job current
  require_current current s
  replace_value current s.original_template
  restart_and_verify s.original_credentials
  write_state (record s { stage = rolled_back })
  write_status rolled_back
