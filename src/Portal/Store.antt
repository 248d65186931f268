-- ===== src/Portal/Store.antt =====
-- The tables of portal/migrations, and the statements that the portal runs on them. A statement that
-- breaks a constraint is an `IntegrityError`; here it has no result. The error of a service or a feed is kept
-- by its kind, in place of its text.
pub mod Items
use cascade_vpn.Portal.Outbound.Fetch.{FetchFailure}
use cascade_vpn.Portal.Xml.{ParseError}
use cascade_vpn.Base.{
  ℕ, ◌+◌, String, Bool, true, ◌&&◌, not, Option, none, some, List, [], ◌∷◌, ◌++◌, map, keep, find,
  any, ltb, ◌==◌, str_eq, if◌then◌else◌,
}

pub record SessionRow : Type 0 where
  pub token_hash : String
  pub csrf_token : String
  pub created_at : ℕ
  pub expires_at : ℕ
  pub password_binding : String

pub record Link : Type 0 where
  pub code : String
  pub target_url : String
  pub created_at : ℕ
  pub clicks : ℕ
  pub last_accessed_at : Option ℕ

pub data Status : Type 0 where
  online degraded down unknown : Status

pub record Service : Type 0 where
  pub id : ℕ
  pub name : String
  pub url : String
  pub enabled : Bool
  pub status : Status
  pub status_code : Option ℕ
  pub latency_ms : Option ℕ
  pub checked_at : Option ℕ
  pub error : Option FetchFailure
  pub created_at : ℕ

-- Why a refresh of a feed failed, where the failure is kept in the table.
pub data FeedError : Type 0 where
  fetch_failed : FetchFailure → FeedError
  http_status : ℕ → FeedError
  not_parsed : ParseError → FeedError

pub record Feed : Type 0 where
  pub id : ℕ
  pub title : String
  pub url : String
  pub enabled : Bool
  pub checked_at : Option ℕ
  pub error : Option FeedError
  pub created_at : ℕ

pub record Item : Type 0 where
  pub id : ℕ
  pub feed_id : ℕ
  pub guid : String
  pub title : String
  pub url : Option String
  pub published_at : Option String
  pub excerpt : String
  pub fetched_at : ℕ

-- The tables, oldest row first, and the next value of each AUTOINCREMENT key.
pub record Db : Type 0 where
  pub sessions : List SessionRow
  pub links : List Link
  pub services : List Service
  pub next_service : ℕ
  pub feeds : List Feed
  pub next_feed : ℕ
  pub items : List Item
  pub next_item : ℕ

abbrev pub empty : Db
empty = record {
  sessions = [];
  links = [];
  services = [];
  next_service = 1;
  feeds = [];
  next_feed = 1;
  items = [];
  next_item = 1;
}

-- `SELECT ... FROM sessions WHERE token_hash = ? AND password_binding = ? AND expires_at > ?`
abbrev pub live_session : String → String → ℕ → SessionRow → Bool
live_session hash binding now r =
    str_eq r.token_hash hash && str_eq r.password_binding binding && ltb now r.expires_at

unfoldable pub select_session : Db → String → String → ℕ → Option SessionRow
select_session db hash binding now = find (live_session hash binding now) db.sessions

unfoldable pub insert_session : Db → SessionRow → Option Db
insert_session db row =
    if any (λ r. str_eq r.token_hash row.token_hash) db.sessions
    then none
    else some (record db { sessions = db.sessions ++ row ∷ [] })

unfoldable pub delete_session_row : Db → String → Db
delete_session_row db hash = record db {
  sessions = keep (λ r. not (str_eq r.token_hash hash)) db.sessions;
}

-- `Database.cleanup_sessions`
unfoldable pub cleanup_sessions : Db → ℕ → Db
cleanup_sessions db now = record db { sessions = keep (λ r. ltb now r.expires_at) db.sessions }

unfoldable pub select_link : Db → String → Option Link
select_link db code = find (λ l. str_eq l.code code) db.links

unfoldable pub insert_link : Db → Link → Option Db
insert_link db link =
    if any (λ l. str_eq l.code link.code) db.links
    then none
    else some (record db { links = db.links ++ link ∷ [] })

-- The table without the link, and whether a row was deleted.
unfoldable pub delete_link_row : Db → String → Db × Bool
delete_link_row db code = (
  record db { links = keep (λ l. not (str_eq l.code code)) db.links },
  any (λ l. str_eq l.code code) db.links,
)

-- `UPDATE short_links SET clicks = clicks + 1, last_accessed_at = ? WHERE code = ?`
unfoldable pub count_click : Db → String → ℕ → Db
count_click db code now = record db {
  links =
      map
        (λ l.
          if str_eq l.code code
          then record l { clicks = l.clicks + 1; last_accessed_at = some now }
          else l)
        db.links;
}

unfoldable pub select_service : Db → ℕ → Option Service
select_service db id = find (λ r. r.id == id) db.services

-- `url` is UNIQUE; `status` defaults to 'unknown'.
unfoldable pub insert_service : Db → String → String → ℕ → Option (Db × Service)
insert_service db name url now =
    if any (λ r. str_eq r.url url) db.services
    then none
    else let row : Service = record {
      id = db.next_service;
      name = name;
      url = url;
      enabled = true;
      status = unknown;
      status_code = none;
      latency_ms = none;
      checked_at = none;
      error = none;
      created_at = now;
    } in
      some
        (record db { services = db.services ++ row ∷ []; next_service = db.next_service + 1 }, row)

unfoldable pub delete_service_row : Db → ℕ → Db × Bool
delete_service_row db id = (
  record db { services = keep (λ r. not (r.id == id)) db.services },
  any (λ r. r.id == id) db.services,
)

unfoldable pub update_service : Db → ℕ → (Service → Service) → Db
update_service db id f = record db {
  services = map (λ r. if r.id == id then f r else r) db.services;
}

unfoldable pub select_feed : Db → ℕ → Option Feed
select_feed db id = find (λ r. r.id == id) db.feeds

unfoldable pub insert_feed : Db → String → String → ℕ → Option (Db × Feed)
insert_feed db title url now =
    if any (λ r. str_eq r.url url) db.feeds
    then none
    else let row : Feed = record {
      id = db.next_feed;
      title = title;
      url = url;
      enabled = true;
      checked_at = none;
      error = none;
      created_at = now;
    } in
      some (record db { feeds = db.feeds ++ row ∷ []; next_feed = db.next_feed + 1 }, row)

-- The items of the feed go with it (ON DELETE CASCADE).
unfoldable pub delete_feed_row : Db → ℕ → Db × Bool
delete_feed_row db id = (
  record db {
    feeds = keep (λ r. not (r.id == id)) db.feeds;
    items = keep (λ i. not (i.feed_id == id)) db.items;
  },
  any (λ r. r.id == id) db.feeds,
)

unfoldable pub update_feed : Db → ℕ → (Feed → Feed) → Db
update_feed db id f = record db { feeds = map (λ r. if r.id == id then f r else r) db.feeds }
