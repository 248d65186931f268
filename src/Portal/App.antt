-- ===== src/Portal/App.antt =====
-- The state that the requests share, the handlers over it, sessions and login: portal/app/main.py.
-- One request is handled at a time; the threads' interleavings at the limiter are in
-- Portal/Limiter/Interleaving.
pub mod Sessions
pub mod Keeps
pub mod Login
use Prim.Native.String.{count}
use cascade_vpn.Base.{
  ℕ, ◌+◌, ◌-◌, String, Bool, true, false, ◌||◌, Option, none, some, Result, ok, err, require,
  or_raise, Assoc, lookup, ltb, ◌==◌, str_eq, if◌then◌else◌,
}
use cascade_vpn.Portal.Limiter.{Limiter, begin, finish}
use cascade_vpn.Portal.Security.{verify_password}
use cascade_vpn.Portal.Client.{rate_limit_client}
use cascade_vpn.Portal.Store.{Db, SessionRow, insert_session, delete_session_row}
use cascade_vpn.Portal.Request.{
  Value, null, text, other, ApiError, Api, Library, Request, Settings, Session, internal, read_body,
  get_session, same_origin,
}

pub record App : Type 0 where
  pub db : Db
  pub limiter : Limiter
  -- the password checks that may still start
  pub password_slots : ℕ

-- What the environment answers while a request is handled: the clocks, random tokens and
-- short codes.
pub record Env : Type 0 where
  pub now : ℕ
  pub begin_time : ℕ
  pub finish_time : ℕ
  pub raw_token : String
  pub csrf_token : String
  pub code : ℕ → String

abbrev pub bad_credentials : ApiError
bad_credentials = record { status = 401; code = "invalid_credentials" }

-- What was done before an error stays done.
abbrev pub Handler {ℓ} : Type ℓ → Type ℓ
Handler A = App → Api A × App

abbrev pub continue {ℓ κ} : {A : Type ℓ} {B : Type κ} → Api A × App → (A → Handler B) → Api B × App
continue (ok a, s) f = f a s
continue (err e, s) f = (err e, s)

infixl 5 ◌>>=◌ ◌>>◌
abbrev pub ◌>>=◌ {ℓ κ} : {A : Type ℓ} {B : Type κ} → Handler A → (A → Handler B) → Handler B
◌>>=◌ m f s = continue (m s) f

abbrev pub ◌>>◌ {ℓ κ} : {A : Type ℓ} {B : Type κ} → Handler A → Handler B → Handler B
m >> k = m >>= λ _. k

abbrev pub lift {ℓ} : {A : Type ℓ} → Api A → Handler A
lift r s = (r, s)

abbrev pub pure {ℓ} : {A : Type ℓ} → A → Handler A
pure a s = (ok a, s)

abbrev pub raise {ℓ} : {A : Type ℓ} → ApiError → Handler A
raise e s = (err e, s)

-- A check that reads the tables.
abbrev pub reading {ℓ} : {A : Type ℓ} → (Db → Api A) → Handler A
reading f s = (f s.db, s)

-- A statement that changes the tables, in a transaction of its own.
abbrev pub writing {ℓ} : {A : Type ℓ} → (Db → A × Db) → Handler A
writing f s = let (a, db) = f s.db in (ok a, record s { db = db })

-- A statement that may break a constraint.
abbrev pub inserted : App → Option Db → Api (Unit {0}) × App
inserted s none = (err internal, s)
inserted s (some db) = (ok tt, record s { db = db })

module _ (lib : Library) (cfg : Settings) (env : Env) where
  abbrev pub new_session : String → Session
  new_session hash = record {
    token_hash = hash;
    csrf_token = env.csrf_token;
    expires_at = env.now + cfg.session_ttl;
  }

  abbrev pub session_row : String → SessionRow
  session_row hash = record {
    token_hash = hash;
    csrf_token = env.csrf_token;
    created_at = env.now;
    expires_at = env.now + cfg.session_ttl;
    password_binding = cfg.password_binding;
  }

  -- `PortalApplication.create_session`
  unfoldable pub create_session : Handler (String × Session)
  create_session = do
    hash ← lift (or_raise (lib.token_hash env.raw_token) internal)
    (λ s. inserted s (insert_session s.db (session_row hash)))
    pure (env.raw_token, new_session hash)

  -- `PortalApplication.delete_session`
  pub delete_session : Session → Handler (Unit {0})
  delete_session session s = (ok tt, record s { db = delete_session_row s.db session.token_hash })

  abbrev rate_limited : ApiError
  rate_limited = record { status = 429; code = "rate_limit" }

  abbrev bad_password : ApiError
  bad_password = record { status = 400; code = "invalid_password" }

  pub password_of : Option Value → Api String
  password_of (some (text password)) =
      if str_eq password "" || ltb 1024 (count password) then err bad_password else ok password
  password_of _ = err bad_password

  -- `PortalRequestHandler._client_key`
  abbrev pub client_key : Request → Option String
  client_key r = rate_limit_client lib.addresses cfg.trust_proxy r.peer_address r.forwarded_for

  -- `if reserved: login_limiter.finish(client, succeeded=valid)`, then the slot is given back.
  pub settle : Option String → Bool → App → App
  settle client valid s = record s {
    limiter = finish s.limiter env.finish_time client valid;
    password_slots = s.password_slots + 1;
  }

  pub checked : Option String → Option Bool → App → Api Bool × App
  unfolding settle
  checked client (some valid) s = (ok valid, settle client valid s)
  checked client none s = (err internal, settle client false s)

  pub admitted : Option String → String → Limiter × Bool → App → Api Bool × App
  unfolding checked
  admitted client password (limiter, true) s =
      checked client (verify_password lib.crypto password cfg.password_hash)
        (record s { limiter = limiter })
  admitted client password (limiter, false) s =
      (err rate_limited, record s { limiter = limiter; password_slots = s.password_slots + 1 })

  -- The part of `_login` that holds a slot.
  pub verify_attempt : Option String → String → Handler Bool
  unfolding admitted
  verify_attempt client password s =
      if s.password_slots == 0
      then (err rate_limited, s)
      else admitted client password (begin s.limiter env.begin_time client)
          (record s { password_slots = s.password_slots - 1 })

  abbrev delete_existing : Option Session → Handler (Unit {0})
  delete_existing none = pure tt
  delete_existing (some session) = delete_session session

  -- What follows a valid password: the session of the request is replaced by a new one.
  pub replace_session : Request → Handler (String × Session)
  unfolding delete_session create_session
  replace_session r = do
    existing ← reading (λ db. get_session lib cfg db env.now r.cookie_header)
    delete_existing existing
    create_session

  -- The checks of `_login` that come before the slot.
  pub login_password : Request → Handler String
  login_password r = do
    lift (same_origin lib cfg r)
    body ← lift (read_body lib r)
    lift (password_of (lookup "password" body))

  -- `PortalRequestHandler._login`
  pub login : Request → Handler (String × Session)
  unfolding verify_attempt replace_session
  login r = do
    password ← login_password r
    valid ← verify_attempt (client_key r) password
    lift (require valid bad_credentials)
    replace_session r
