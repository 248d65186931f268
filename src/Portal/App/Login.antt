-- ===== src/Portal/App/Login.antt =====
-- What a login does to the password slots and the tables.
use cascade_vpn.Base.{
  String, ◌≡◌, refl, ap, sym, ◌∙◌, Bool, true, false, Option, none, some, ◌⊎◌, inl, inr, ok, err,
  arith, require,
}
use cascade_vpn.Portal.Limiter.{begin}
use cascade_vpn.Portal.Security.{verify_password}
use cascade_vpn.Portal.Request.{Api, Library, Request, Settings, Session, get_session}
use cascade_vpn.Portal.App.{
  client_key, App, Env, Handler, continue, ◌>>=◌, lift, reading, create_session, delete_session,
  settle, checked, admitted, verify_attempt, delete_existing, replace_session, bad_credentials,
  login_password, login,
}
use cascade_vpn.Portal.App.Keeps.{Keeps, bind-Keeps}

module _ (lib : Library) (cfg : Settings) (env : Env) where
  verify_attempt-slots :
      (client : Option String) (password : String)
      → Keeps (λ s. s.password_slots) (verify_attempt lib cfg env client password)
  unfolding verify_attempt admitted checked settle
  verify_attempt-slots client password s = ground arith

  verify_attempt-db :
      (client : Option String) (password : String)
      → Keeps (λ s. s.db) (verify_attempt lib cfg env client password)
  unfolding verify_attempt admitted checked settle
  verify_attempt-db client password s = ground arith

  login_password-same : (r : Request) (s : App) → (login_password lib cfg env r s).1 ≡ s
  unfolding login_password
  login_password-same r s = ground arith

  create_session-slots : Keeps (λ s. s.password_slots) (create_session lib cfg env)
  unfolding create_session
  create_session-slots s = ground arith

  delete_existing-slots :
      (existing : Option Session)
      → Keeps (λ s. s.password_slots) (delete_existing lib cfg env existing)
  unfolding delete_session
  delete_existing-slots none s = refl
  delete_existing-slots (some session) s = refl

  replace_session-slots :
      (r : Request) → Keeps (λ s. s.password_slots) (replace_session lib cfg env r)
  unfolding replace_session
  replace_session-slots r =
      bind-Keeps _ (reading (λ db. get_session lib cfg db env.now r.cookie_header)) _ (λ s. refl)
        λ existing.
          bind-Keeps _ (delete_existing lib cfg env existing) _ (delete_existing-slots existing)
            λ _. create_session-slots

  -- However a login ends, the slot that its password check held is free again.
  pub login-slots :
      (r : Request) (s : App) → (login lib cfg env r s).1.password_slots ≡ s.password_slots
  unfolding login
  login-slots r =
      bind-Keeps (λ s. s.password_slots) (login_password lib cfg env r) _
        (λ s. ap (λ t. t.password_slots) (login_password-same r s))
        λ password.
          bind-Keeps (λ s. s.password_slots)
            (verify_attempt lib cfg env (client_key lib cfg env r) password) _
            (verify_attempt-slots (client_key lib cfg env r) password)
            λ valid.
              bind-Keeps (λ s. s.password_slots) (lift (require valid bad_credentials)) _
                (λ s. refl) λ _. replace_session-slots r

  -- The request asks for a login with the right password, which the limiter lets through.
  pub record Verified (r : Request) (s : App) : Type 0 where
    pub password : String
    pub posted : login_password lib cfg env r s ≡ (ok password, s)
    pub let_in : (begin s.limiter env.begin_time (client_key lib cfg env r)).1 ≡ true
    pub right : verify_password lib.crypto password cfg.password_hash ≡ some true

  verify_attempt-true :
      (client : Option String) (password : String) (s s' : App)
      → verify_attempt lib cfg env client password s ≡ (ok true, s')
      → ((begin s.limiter env.begin_time client).1 ≡ true)
        × (verify_password lib.crypto password cfg.password_hash ≡ some true)
  unfolding verify_attempt admitted checked settle
  verify_attempt-true client password s s' h = ground arith

  -- The rest of `login` after the password was looked at.
  abbrev after_attempt : Request → Bool → Handler (String × Session)
  after_attempt r valid =
      lift (require valid bad_credentials) >>= λ _. replace_session lib cfg env r

  attempt-Verified :
      (r : Request) (s : App) (password : String)
      → login_password lib cfg env r s ≡ (ok password, s)
      → (x : Api Bool × App) → verify_attempt lib cfg env (client_key lib cfg env r) password s ≡ x
      → ((continue x (after_attempt r)).1.db ≡ s.db) ⊎ Verified r s
  attempt-Verified r s password p (ok true, s') h =
      let (admits, right) = verify_attempt-true (client_key lib cfg env r) password s s' h in
      inr (record { password = password; posted = p; let_in = admits; right = right })
  attempt-Verified r s password p (ok false, s') h =
      inl (ap (λ y. y.1.db) (sym h) ∙ verify_attempt-db (client_key lib cfg env r) password s)
  attempt-Verified r s password p (err e, s') h =
      inl (ap (λ y. y.1.db) (sym h) ∙ verify_attempt-db (client_key lib cfg env r) password s)

  -- A login leaves every table as it is unless the posted password is the right one and the limiter
  -- lets the attempt through.
  pub login-Verified :
      (r : Request) (s : App) → ((login lib cfg env r s).1.db ≡ s.db) ⊎ Verified r s
  unfolding login
  login-Verified r s = posted-Verified (login_password lib cfg env r s) refl
    where
      posted-Verified :
          (x : Api String × App)
          → login_password lib cfg env r s ≡ x
          → ((continue x (λ password.
                verify_attempt lib cfg env (client_key lib cfg env r) password
                >>= after_attempt r)).1.db
              ≡ s.db)
            ⊎ Verified r s
      posted-Verified (err e, s') h =
          inl (ap (λ y. y.1.db) (sym h) ∙ ap (λ t. t.db) (login_password-same r s))
      posted-Verified (ok password, s') h =
          let same = ap (λ y. y.1) (sym h) ∙ login_password-same r s in
          rw same (
            attempt-Verified r s password (h ∙ ap (λ t. (ok password, t)) same)
              (verify_attempt lib cfg env (client_key lib cfg env r) password s) refl)
