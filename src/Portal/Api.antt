-- ===== src/Portal/Api.antt =====
-- What the portal does with a request: `_dispatch` and `_dispatch_api` of portal/app/main.py.
pub mod Routes
pub mod Access
pub mod Tests
use package.text.Mathlib.Text.{starts_with}
use cascade_vpn.Base.{
  ℕ, String, Bool, true, false, ◌&&◌, not, Option, none, some, List, [], ◌∷◌, map, Result, ok, err,
  Assoc, or_raise, require, lookup, get_or, if◌then◌else◌,
}
use cascade_vpn.Portal.Outbound.{Internet, Policy}
use cascade_vpn.Portal.Outbound.Fetch.{unsafe}
use cascade_vpn.Portal.Store.{
  Db, Service, Feed, Link, FeedError, fetch_failed, http_status, not_parsed,
}
use cascade_vpn.Portal.Request.{
  Value, null, text, Number, natural, negative, ApiError, Api, Library, Request, Settings, Session,
  internal, not_found, read_body, get_session, require_session, authorize,
}
use cascade_vpn.Portal.App as App
use cascade_vpn.Portal.App.{App, Env, Handler, ◌>>=◌, ◌>>◌, lift, pure, raise, reading}
use cascade_vpn.Portal.Links.{list_links, create_link, delete_link, redirect_short_link}
use cascade_vpn.Portal.Monitor as Monitor
use cascade_vpn.Portal.Monitor.{ServiceRow, Summary}
use cascade_vpn.Portal.Feeds as Feeds
use cascade_vpn.Portal.Feeds.{FeedRow, Listed, Outcome}
use cascade_vpn.Portal.Xml.{Markup}
use cascade_vpn.Portal.Pages.{Shelf, Article, list_references, get_reference, serve_static}
use cascade_vpn.Portal.Api.Routes as Routes
use cascade_vpn.Portal.Api.Routes.{
  Key, key, no_row, not_an_integer, overflows, Endpoint, reads, endpoint_of, short_code,
}

-- What stands around one request: the libraries, the settings, the answers of the environment, and
-- the orders that SQLite gives rows by a name.
pub record Host : Type 0 where
  pub lib : Library
  pub cfg : Settings
  pub env : Env
  pub policy : Policy
  pub markup : Markup
  pub shelf : Shelf
  pub internet : Internet
  pub check_visits : ℕ → Monitor.Visit
  pub refresh_visits : ℕ → Feeds.Visit
  pub healthy : Bool
  pub services_by_name : List Service → List Service
  pub feeds_by_title : List Feed → List Feed
  -- the number of a text that `\d+` matches, and `int(...)` of a value
  pub digits : String → Option Key
  pub int_of_value : Value → Key
  -- `urlsplit(self.path).path`, and `query.get("limit", ["50"])[0]`
  pub path_of : String → Option String
  pub limit_of : String → String

pub data Reply : Type 0 where
  health : Bool → Reply
  session_state : Option Session → Reply
  logged_in : String → Session → Reply
  logged_out removed : Reply
  status : List ServiceRow → Summary → Reply
  services : List ServiceRow → Reply
  service : ServiceRow → Reply
  items : List Listed → Reply
  feeds : List FeedRow → Reply
  feed : FeedRow → Reply
  results : List Outcome → Reply
  links : List Link → Reply
  link : Link → Reply
  articles : List Article → Reply
  article : Article → String → Reply
  redirect : String → Reply
  page : List ℕ → Reply

abbrev pub bad_request : String → ApiError
bad_request code = record { status = 400; code = code }

abbrev bad_method : ApiError
bad_method = record { status = 405; code = "method" }

abbrev bad_gateway : ApiError
bad_gateway = record { status = 502; code = "feed_refresh" }

-- The exceptions of a call, by the clauses that catch them.
abbrev pub raised {ℓ κ} : {E : Type ℓ} {A : Type κ} → (E → ApiError) → Result E A → Api A
raised f (ok a) = ok a
raised f (err e) = err (f e)

-- A call of the services or the feeds: what it changed stays, whatever it raises.
abbrev pub calling {ℓ κ} :
    {E : Type ℓ} {A : Type κ} → (E → ApiError) → (Db → Result E A × Db) → Handler A
calling f call s = let (r, db) = call s.db in (raised f r, record s { db = db })

pub of_check : Monitor.CheckError → ApiError
of_check Monitor.no_service = not_found
of_check Monitor.bad_value = bad_request "invalid_id"

-- `FeedParseError` and `UnsafeURLError` are `ValueError`s, which the first clause catches.
pub of_recorded : FeedError → ApiError
of_recorded (fetch_failed (unsafe e)) = bad_request "invalid_id"
of_recorded (fetch_failed e) = bad_gateway
of_recorded (http_status n) = bad_gateway
of_recorded (not_parsed e) = bad_request "invalid_id"

pub of_refresh : Feeds.RefreshError → ApiError
unfolding of_recorded
of_refresh Feeds.no_feed = not_found
of_refresh Feeds.bad_value = bad_request "invalid_id"
of_refresh Feeds.overflow = internal
of_refresh (Feeds.recorded e) = of_recorded e

abbrev deleted : Bool → Api Reply
deleted true = ok removed
deleted false = err not_found

-- A deletion by a number.
abbrev deleting : (Db → ℕ → Bool × Db) → Key → Handler Reply
deleting f (key id) s = let (found, db) = f s.db id in (deleted found, record s { db = db })
deleting f overflows s = (err internal, s)
deleting f _ s = (err not_found, s)

-- `body.get(name)`, where null counts as missing.
abbrev pub given : String → Assoc Value → Option Value
given name body = elim (lookup name body) [ none ↦ none | some null ↦ none | some v ↦ some v ]

module _ (h : Host) where
  -- The checks before the work of an endpoint that changes something, login excepted.
  abbrev pub guarded {ℓ} : {A : Type ℓ} → Request → (Session → Handler A) → Handler A
  guarded r work = reading (λ db. authorize h.lib h.cfg db h.env.now r) >>= work

  -- The endpoints that only a session may read.
  abbrev pub members_only {ℓ} : {A : Type ℓ} → Request → (Db → A) → Handler A
  members_only r show = do
    _ ← reading (λ db. require_session h.lib h.cfg db h.env.now r)
    reading (λ db. ok (show db))

  -- `monitor.list_services`
  pub list_services : Bool → Db → List ServiceRow
  list_services include_url db =
      map (Monitor.service_row include_url) (h.services_by_name db.services)

  -- `rss_reader.list_feeds`
  pub list_feeds : Db → List FeedRow
  list_feeds db = map Feeds.feed_row (h.feeds_by_title db.feeds)

  abbrev status_of : Bool → Db → Reply
  status_of authenticated db =
      let rows = list_services authenticated db in status rows (Monitor.status_summary rows)

  abbrev is_session : Option Session → Bool
  is_session none = false
  is_session (some _) = true

  pub show_status : Request → Handler Reply
  unfolding list_services
  show_status r = do
    session ← reading (λ db. get_session h.lib h.cfg db h.env.now r.cookie_header)
    reading (λ db. ok (status_of (is_session session) db))

  pub add_service : Request → Session → Handler Reply
  add_service r session = do
    body ← lift (read_body h.lib r)
    row ←
        calling (λ e. bad_request "invalid_service")
          (λ db.
            Monitor.add_service h.lib.net h.internet h.policy h.env.now db
              (get_or (lookup "name" body) (text "")) (get_or (lookup "url" body) (text "")))
    pure (service row)

  abbrev one_service : Key → Handler (List ServiceRow)
  one_service (key id) = do
    row ←
        calling of_check (λ db. Monitor.check_service h.lib.net h.policy (h.check_visits id) db id)
    pure (row ∷ [])
  one_service no_row = raise not_found
  one_service not_an_integer = raise (bad_request "invalid_id")
  one_service overflows = raise internal

  pub run_checks : Option Value → Handler (List ServiceRow)
  unfolding of_check
  run_checks none = calling of_check (λ db. Monitor.check_all h.lib.net h.policy h.check_visits db)
  run_checks (some id) = one_service (h.int_of_value id)

  pub check_services : Request → Session → Handler Reply
  unfolding run_checks
  check_services r session = do
    body ← lift (read_body h.lib r)
    rows ← run_checks (given "id" body)
    pure (services rows)

  abbrev limited : Option Number → Db → Api Reply
  limited none db = err (bad_request "invalid_limit")
  limited (some (natural n)) db = ok (items (Feeds.list_items db n))
  limited (some negative) db = ok (items (Feeds.list_items db 1))

  pub add_feed : Request → Session → Handler Reply
  add_feed r session = do
    body ← lift (read_body h.lib r)
    row ←
        calling (λ e. bad_request "invalid_feed")
          (λ db.
            Feeds.add_feed h.lib.net h.internet h.policy h.env.now db
              (get_or (lookup "title" body) (text "")) (get_or (lookup "url" body) (text "")))
    pure (feed row)

  abbrev one_feed : Key → Handler (List Outcome)
  one_feed (key id) = do
    row ←
        calling of_refresh
          (λ db. Feeds.refresh_feed h.markup h.lib.net h.policy (h.refresh_visits id) db id)
    pure (Feeds.updated row ∷ [])
  one_feed no_row = raise not_found
  one_feed not_an_integer = raise (bad_request "invalid_id")
  one_feed overflows = raise internal

  pub run_refreshes : Option Value → Handler (List Outcome)
  unfolding of_refresh
  run_refreshes none =
      calling of_refresh (λ db. Feeds.refresh_all h.markup h.lib.net h.policy h.refresh_visits db)
  run_refreshes (some id) = one_feed (h.int_of_value id)

  pub refresh_feeds : Request → Session → Handler Reply
  unfolding run_refreshes
  refresh_feeds r session = do
    body ← lift (read_body h.lib r)
    outcomes ← run_refreshes (given "id" body)
    pure (results outcomes)

  abbrev found_article : Option (Article × String) → Api Reply
  found_article none = err not_found
  found_article (some (a, content)) = ok (article a content)

  -- The bodies of `_dispatch_api`
  pub handle : Endpoint → Request → Handler Reply
  unfolding show_status list_feeds add_service check_services add_feed refresh_feeds
  handle Routes.health r = pure (health h.healthy)
  handle Routes.session_state r = do
    session ← reading (λ db. get_session h.lib h.cfg db h.env.now r.cookie_header)
    pure (session_state session)
  handle Routes.login r = do
    (token, session) ← App.login h.lib h.cfg h.env r
    pure (logged_in token session)
  handle Routes.logout r =
      guarded r λ session. App.delete_session h.lib h.cfg h.env session >> pure logged_out
  handle Routes.status r = show_status r
  handle Routes.services r = members_only r (λ db. services (list_services true db))
  handle Routes.new_service r = guarded r (add_service r)
  handle (Routes.drop_service id) r = guarded r λ _. deleting Monitor.delete_service id
  handle Routes.check_services r = guarded r (check_services r)
  handle Routes.feed_items r = reading (λ db. limited (h.lib.int_of_text (h.limit_of r.path)) db)
  handle Routes.feeds r = members_only r (λ db. feeds (list_feeds db))
  handle Routes.new_feed r = guarded r (add_feed r)
  handle (Routes.drop_feed id) r = guarded r λ _. deleting Feeds.delete_feed id
  handle Routes.refresh_feeds r = guarded r (refresh_feeds r)
  handle Routes.links r = do
    _ ← reading (λ db. require_session h.lib h.cfg db h.env.now r)
    rows ← list_links
    pure (links rows)
  handle Routes.new_link r = guarded r λ _. create_link h.lib h.env r >>= λ l. pure (link l)
  handle (Routes.drop_link code) r = guarded r λ _. delete_link code >> pure removed
  handle Routes.references r = do rows ← lift (list_references h.shelf); pure (articles rows)
  handle (Routes.reference slug) r = do
    found ← lift (get_reference h.shelf slug)
    lift (found_article found)
  handle Routes.unknown r = raise not_found

  pub visit_link : Request → String → Handler Reply
  visit_link r code = do target ← redirect_short_link h.env r.method code; pure (redirect target)

  pub show_page : Request → String → Handler Reply
  show_page r path = do
    lift (require (reads r.method) bad_method)
    bytes ← lift (serve_static h.shelf path)
    pure (page bytes)

  abbrev pub link_or_page : Request → String → Option String → Handler Reply
  link_or_page r path none = show_page r path
  link_or_page r path (some code) = if reads r.method then visit_link r code else show_page r path

  abbrev pub dispatch_path : Request → String → Handler Reply
  dispatch_path r path =
      if starts_with path "/api/"
      then handle (endpoint_of h.digits r.method path) r
      else link_or_page r path (short_code path)

  -- `_dispatch`
  pub dispatch : Request → Handler Reply
  unfolding handle visit_link show_page
  dispatch r = do path ← lift (or_raise (h.path_of r.path) internal); dispatch_path r path
