-- ===== src/Portal/App/Sessions.antt =====
-- From when to when a session is found.
use Prim.Native.String.{count}
use cascade_vpn.Base.{
  ℕ, ◌≤◌, String, ◌≡◌, refl, false, ◌&&◌, not, none, some, List, [], ◌∷◌, ◌++◌, ok, arith,
  Bool-cases, Option-cases, inl, inr, find, any, keep, ltb, str_eq, str_eq_refl, if◌then◌else◌,
}
use cascade_vpn.Portal.Store.{
  Db, SessionRow, live_session, select_session, insert_session, delete_session_row,
}
use cascade_vpn.Portal.Request.{
  Library, Settings, Session, get_session, session_of_token, session_of_row, raw_token_of,
}
use cascade_vpn.Portal.App.{App, Env, create_session, delete_session, new_session, session_row}

-- The cookie header carries this token, and both are within the limits.
pub record Carries (lib : Library) (header raw : String) : Type 0 where
  pub carried : lib.session_cookie header ≡ some raw
  pub header_fits : count header ≤ 8192
  pub token_fits : count raw ≤ 256
  pub header_given : str_eq header "" ≡ false
  pub token_given : str_eq raw "" ≡ false

raw_token-Carries :
    (lib : Library) (header raw : String)
    → Carries lib header raw
    → raw_token_of lib (some header) ≡ some raw
unfolding raw_token_of
raw_token-Carries lib header raw h =
    rw h.carried (ground (arith, h.header_fits, h.token_fits, h.header_given, h.token_given))

-- The row of a token that no other row has.
find-new :
    (rows : List SessionRow) (row : SessionRow) (binding : String) (now : ℕ)
    → any (λ r. str_eq r.token_hash row.token_hash) rows ≡ false
    → find (live_session row.token_hash binding now) (rows ++ row ∷ [])
      ≡ (if str_eq row.password_binding binding && ltb now row.expires_at then some row else none)
find-new [] row binding now h = ground (arith, str_eq_refl row.token_hash)
find-new (r ∷ rows) row binding now h = ground (arith, find-new rows row binding now)

find-deleted :
    (rows : List SessionRow) (hash binding : String) (now : ℕ)
    → find (live_session hash binding now) (keep (λ r. not (str_eq r.token_hash hash)) rows) ≡ none
find-deleted [] hash binding now = refl
find-deleted (r ∷ rows) hash binding now = ground (arith, find-deleted rows hash binding now)

module _ (lib : Library) (header raw hash : String) (carries : Carries lib header raw)
    (hashed : lib.token_hash raw ≡ some hash) where
  get_session-hash :
      (cfg : Settings) (db : Db) (now : ℕ)
      → get_session lib cfg db now (some header)
        ≡ ok (session_of_row (select_session db hash cfg.password_binding now))
  unfolding get_session session_of_token
  get_session-hash cfg db now = rw (raw_token-Carries lib header raw carries) (rw hashed refl)

  -- Once a session is deleted its token finds none, at any time and whatever password is set.
  pub deleted_session_lem :
      (env : Env) (cfg later : Settings) (session : Session) (s : App) (now : ℕ)
      → session.token_hash ≡ hash
      → get_session lib later (delete_session lib cfg env session s).1.db now (some header)
        ≡ ok none
  unfolding delete_session select_session delete_session_row
  deleted_session_lem env cfg later session s now same =
      rw (get_session-hash later (delete_session lib cfg env session s).1.db now)
        (rw same (rw (find-deleted s.db.sessions hash later.password_binding now) refl))

  -- What insertion leaves to find.
  select-inserted :
      (db db' : Db) (row : SessionRow) (binding : String) (now : ℕ)
      → insert_session db row ≡ some db'
      → select_session db' row.token_hash binding now
        ≡ (if str_eq row.password_binding binding && ltb now row.expires_at then some row else none)
  unfolding select_session insert_session
  select-inserted db db' row binding now h =
      elim (Bool-cases (any (λ r. str_eq r.token_hash row.token_hash) db.sessions)) [
        | inl e ↦ ground (arith)
        | inr e ↦ ground (arith, find-new db.sessions row binding now e)
      ]

  create_session-Inserted :
      (env : Env) (cfg : Settings) (session : Session) (s s' : App)
      → create_session lib cfg env s ≡ (ok (raw, session), s')
      → (insert_session s.db (session_row lib cfg env hash) ≡ some s'.db)
        × (session ≡ new_session lib cfg env hash)
  unfolding create_session
  create_session-Inserted env cfg session s s' h =
      elim (Option-cases (lib.token_hash env.raw_token)) [
        | inl e ↦ ground arith
        | inr (found, e) ↦
            elim (Option-cases (insert_session s.db (session_row lib cfg env found))) [
              | inl f ↦ ground arith
              | inr (db, f) ↦ ground arith
            ]
      ]

  -- A session that was created is found by the requests that carry its token, from then on until it
  -- expires, and only while the password is the same.
  pub created_session_lem :
      (env : Env) (cfg later : Settings) (session : Session) (s s' : App) (now : ℕ)
      → create_session lib cfg env s ≡ (ok (raw, session), s')
      → get_session lib later s'.db now (some header)
        ≡ ok (
            if str_eq cfg.password_binding later.password_binding && ltb now session.expires_at
            then some session
            else none)
  unfolding create_session
  created_session_lem env cfg later session s s' now h =
      let (stored, same) = create_session-Inserted env cfg session s s' h in
      rw (get_session-hash later s'.db now) (
        rw
          (select-inserted s.db s'.db (session_row lib cfg env hash) later.password_binding now
            stored)
          (rw same (ground arith)))
