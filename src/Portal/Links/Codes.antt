-- ===== src/Portal/Links/Codes.antt =====
-- The links that a code finds, before and after each operation.
use cascade_vpn.Base.{
  ℕ, zero, suc, ◌+◌, ◌<◌, String, ◌≡◌, ◌≢◌, refl, subst, Bool, true, false, ◌&&◌, not, Option, none,
  some, List, [], ◌∷◌, ◌++◌, inl, inr, ok, arith, map, find, any, str_eq, str_eq_iff, if◌then◌else◌,
  Option-cases, Bool-cases,
}
use cascade_vpn.Portal.Store.{Db, Link, select_link, insert_link, count_click}
use cascade_vpn.Portal.Request.{Method, get, head, post, delete, ApiError}
use cascade_vpn.Portal.App.{App, Env}
use cascade_vpn.Portal.Links.{
  Requested, unnamed, named, bad_code, new_link, try_codes, allocate, stored, exhausted,
  redirect_short_link, found_link, click,
}

find-appended :
    (links : List Link) (link : Link) (code : String)
    → any (λ l. str_eq l.code link.code) links ≡ false
    → find (λ l. str_eq l.code code) (links ++ link ∷ [])
      ≡ (if str_eq link.code code then some link else find (λ l. str_eq l.code code) links)
find-appended [] link code h = ground arith
find-appended (l ∷ links) link code h = ground (
  arith,
  find-appended links link code,
  str_eq_iff l.code code,
  str_eq_iff l.code link.code,
  str_eq_iff link.code code,
)

-- A link is inserted under a code that is free, and changes what no other code finds.
insert_link-select :
    (db db' : Db) (link : Link) (code : String)
    → insert_link db link ≡ some db'
    → select_link db' code ≡ (if str_eq link.code code then some link else select_link db code)
unfolding select_link insert_link
insert_link-select db db' link code h =
    elim (Bool-cases (any (λ l. str_eq l.code link.code) db.links)) [
      | inl e ↦ ground arith
      | inr e ↦ ground (arith, find-appended db.links link code e)
    ]

any-find :
    (links : List Link) (code : String)
    → find (λ l. str_eq l.code code) links ≡ none
    → any (λ l. str_eq l.code code) links ≡ false
any-find [] code h = refl
any-find (l ∷ links) code h = ground (arith, any-find links code)

insert_link-free :
    (db : Db) (link : Link) → select_link db link.code ≡ none → insert_link db link ≢ none
unfolding select_link insert_link
insert_link-free db link h = ground (arith, any-find db.links link.code h)

module _ (code : ℕ → String) (target : String) (now : ℕ) (db : Db) where
  -- Among the next codes one was free, and the link has it.
  try_codes-stored :
      (attempts i : ℕ) (link : Link) (db' : Db)
      → try_codes code target now attempts i db ≡ some (link, db')
      → (insert_link db link ≡ some db') × (link.target_url ≡ target)
  unfolding try_codes
  try_codes-stored zero i link db' h = ground arith
  try_codes-stored (suc attempts) i link db' h =
      elim (Option-cases (insert_link db (new_link (code i) target now))) [
        | inl e ↦ try_codes-stored attempts (suc i) link db' (ground arith)
        | inr (found, e) ↦ ground arith
      ]

  -- One free code among the next ones is enough.
  try_codes-free :
      (attempts i k : ℕ)
      → k < attempts
      → select_link db (code (i + k)) ≡ none
      → try_codes code target now attempts i db ≢ none
  unfolding try_codes
  try_codes-free zero i k lt h e = omega arith
  try_codes-free (suc attempts) i zero lt h e =
      let free =
        insert_link-free db (new_link (code i) target now)
          (subst (λ n. select_link db (code n) ≡ none) (omega arith) h) in
      ground arith
  try_codes-free (suc attempts) i (suc k) lt h e =
      let later =
        try_codes-free attempts (suc i) k (omega arith)
          (subst (λ n. select_link db (code n) ≡ none) (omega arith) h) in
      ground arith

module _ (env : Env) (target : String) where
  -- A link that was made is in the table under its code, with the target that was asked for, and
  -- every other code finds what it found before.
  pub allocate-select :
      (requested : Requested) (s s' : App) (link : Link)
      → allocate env target requested s ≡ (ok link, s')
      → (link.target_url ≡ target)
        × ((code : String)
            → select_link s'.db code
              ≡ (if str_eq link.code code then some link else select_link s.db code))
  unfolding allocate
  allocate-select bad_code s s' link h = ground arith
  allocate-select (named code) s s' link h =
      elim (Option-cases (insert_link s.db (new_link code target env.now))) [
        | inl e ↦ ground arith
        | inr (db, e) ↦ (
          ground arith,
          λ other.
              ground (arith, insert_link-select s.db db (new_link code target env.now) other e),
        )
      ]
  allocate-select unnamed s s' link h =
      elim (Option-cases (try_codes env.code target env.now 8 0 s.db)) [
        | inl e ↦ ground arith
        | inr ((found, db), e) ↦
            let (inserted, same) = try_codes-stored env.code target env.now s.db 8 0 found db e in
            (ground arith, λ other. ground (arith, insert_link-select s.db db found other inserted))
      ]

  stored-ok :
      (s : App) (e : ApiError) (x : Option (Link × Db))
      → x ≢ none
      → (link : Link) × ((stored s e x).0 ≡ ok link)
  stored-ok s e none h = (new_link "" "" 0, ground arith)
  stored-ok s e (some (link, db)) h = (link, refl)

  -- Without a requested code a link is made if one of the first eight codes drawn is free.
  pub allocate-free :
      (s : App) (k : ℕ)
      → k < 8
      → select_link s.db (env.code k) ≡ none
      → (link : Link) × ((allocate env target unnamed s).0 ≡ ok link)
  unfolding allocate
  allocate-free s k lt free = stored-ok s exhausted (try_codes env.code target env.now 8 0 s.db) (
      try_codes-free env.code target env.now s.db 8 0 k lt
        (subst (λ n. select_link s.db (env.code n) ≡ none) (omega arith) free))

abbrev pub is_head : Method → Bool
is_head head = true
is_head _ = false

-- A link after a visit, where there is one.
abbrev pub visited : Bool → ℕ → Option Link → Option Link
visited true now (some l) = some (record l { clicks = l.clicks + 1; last_accessed_at = some now })
visited _ now l = l

find-counted :
    (links : List Link) (code other : String) (now : ℕ)
    → find
        (λ l. str_eq l.code other)
        (map
          (λ l.
            if str_eq l.code code
            then record l { clicks = l.clicks + 1; last_accessed_at = some now }
            else l)
          links)
      ≡ visited (str_eq code other) now (find (λ l. str_eq l.code other) links)
find-counted [] code other now = ground arith
find-counted (l ∷ links) code other now = ground (
  arith,
  find-counted links code other now,
  str_eq_iff l.code code,
  str_eq_iff l.code other,
  str_eq_iff code other,
)

click-select :
    (method : Method) (db : Db) (code other : String) (now : ℕ)
    → select_link (click method db code now) other
      ≡ visited (not (is_head method) && str_eq code other) now (select_link db other)
unfolding click select_link count_click
click-select get db code other now = find-counted db.links code other now
click-select head db code other now = refl
click-select post db code other now = find-counted db.links code other now
click-select delete db code other now = find-counted db.links code other now

-- A visit of a short link, other than a HEAD, is counted at that link and at no other.
pub redirect-select :
    (env : Env) (method : Method) (code other : String) (s : App)
    → select_link (redirect_short_link env method code s).1.db other
      ≡ visited (not (is_head method) && str_eq code other) env.now (select_link s.db other)
unfolding redirect_short_link found_link
redirect-select env method code other s = found-select (select_link s.db code) refl
  where
    found-select :
        (found : Option Link)
        → select_link s.db code ≡ found
        → select_link (found_link method env.now code found s).1.db other
          ≡ visited (not (is_head method) && str_eq code other) env.now (select_link s.db other)
    found-select none h = ground (arith, str_eq_iff code other)
    found-select (some link) h = click-select method s.db code other env.now
