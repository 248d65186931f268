-- ===== src/Portal/Links.antt =====
-- Short links: `_create_link`, `_redirect_short_link`, `_list_links` and the deletion in
-- `_dispatch_api` of portal/app/main.py.
pub mod Codes
use cascade_vpn.Base.{
  ℕ, zero, suc, String, Bool, true, false, not, Option, none, some, List, [], ◌∷◌, ok, err,
  or_raise, Assoc, lookup, get_or, leb, if◌then◌else◌,
}
use cascade_vpn.Portal.Security.{is_safe_code}
use cascade_vpn.Portal.Outbound.{redirect_target}
use cascade_vpn.Portal.Store.{Db, Link, select_link, insert_link, delete_link_row, count_click}
use cascade_vpn.Portal.Request.{
  Value, null, text, other, Method, get, head, post, delete, ApiError, Api, Library, Request,
  not_found, read_body,
}
use cascade_vpn.Portal.App.{App, Env, Handler, ◌>>=◌, ◌>>◌, lift, pure, raise, reading}

-- The code of a body: none given, one that the pattern admits, or a bad one.
pub data Requested : Type 0 where
  unnamed bad_code : Requested
  named : String → Requested

abbrev conflict : ApiError
conflict = record { status = 409; code = "code_exists" }

abbrev exhausted : ApiError
exhausted = record { status = 503; code = "code_generation" }

abbrev bad_target : ApiError
bad_target = record { status = 400; code = "invalid_target" }

abbrev invalid_code : ApiError
invalid_code = record { status = 400; code = "invalid_code" }

-- `ORDER BY created_at DESC`; rows of one second come oldest first here.
pub insert_by_time : Link → List Link → List Link
insert_by_time l [] = l ∷ []
insert_by_time l (m ∷ ms) =
    let rest = insert_by_time l ms in if leb m.created_at l.created_at then l ∷ m ∷ ms else m ∷ rest

pub newest_first : List Link → List Link
unfolding insert_by_time
newest_first [] = []
newest_first (l ∷ ls) = insert_by_time l (newest_first ls)

abbrev pub new_link : String → String → ℕ → Link
new_link code target now = record {
  code = code;
  target_url = target;
  created_at = now;
  clicks = 0;
  last_accessed_at = none;
}

-- The loop of `_create_link` for a code that is not requested: `attempts` more codes, from the
-- `i`-th of the environment on.
pub try_codes : (ℕ → String) → String → ℕ → ℕ → ℕ → Db → Option (Link × Db)
try_codes code target now zero i db = none
try_codes code target now (suc attempts) i db =
    let rest = try_codes code target now attempts (suc i) db in
    let link = new_link (code i) target now in
    elim (insert_link db link) [ none ↦ rest | some db' ↦ some (link, db') ]

abbrev stored : App → ApiError → Option (Link × Db) → Api Link × App
stored s e none = (err e, s)
stored s e (some (link, db)) = (ok link, record s { db = db })

abbrev paired : Link → Option Db → Option (Link × Db)
paired link none = none
paired link (some db) = some (link, db)

-- A loop of one attempt for a requested code, and of eight for drawn ones.
unfoldable pub allocate : Env → String → Requested → Handler Link
unfolding try_codes
allocate env target bad_code s = (err invalid_code, s)
allocate env target (named code) s =
    let link = new_link code target env.now in
    stored s conflict (paired link (insert_link s.db link))
allocate env target unnamed s = stored s exhausted (try_codes env.code target env.now 8 0 s.db)

-- `validate_redirect_target` of a value.
pub target_of : Library → Value → Option String
target_of lib (text raw) = redirect_target lib.net raw
target_of lib null = none
target_of lib (other _) = none

module _ (lib : Library) (env : Env) where
  pub requested_code : Option Value → Requested
  requested_code none = unnamed
  requested_code (some null) = unnamed
  requested_code (some (other _)) = bad_code
  requested_code (some (text code)) = if is_safe_code code then named code else bad_code

  -- `_create_link`
  pub create_link : Request → Handler Link
  unfolding allocate requested_code target_of
  create_link r = do
    body ← lift (read_body lib r)
    target ←
        lift (or_raise (target_of lib (get_or (lookup "target_url" body) (text ""))) bad_target)
    allocate env target (requested_code (lookup "code" body))

unfoldable pub list_links : Handler (List Link)
unfolding newest_first
list_links = reading λ db. ok (newest_first db.links)

-- A link is counted unless the request is a HEAD.
unfoldable pub click : Method → Db → String → ℕ → Db
click head db code now = db
click _ db code now = count_click db code now

unfoldable pub found_link : Method → ℕ → String → Option Link → Handler String
unfolding click
found_link method now code none s = (err not_found, s)
found_link method now code (some link) s =
    (ok link.target_url, record s { db = click method s.db code now })

-- `_redirect_short_link`: the Location of the answer.
unfoldable pub redirect_short_link : Env → Method → String → Handler String
unfolding found_link
redirect_short_link env method code s = found_link method env.now code (select_link s.db code) s

pub deleted : App → Db × Bool → Api (Unit {0}) × App
deleted s (db, true) = (ok tt, record s { db = db })
deleted s (db, false) = (err not_found, record s { db = db })

pub delete_link : String → Handler (Unit {0})
unfolding deleted
delete_link code s = deleted s (delete_link_row s.db code)
