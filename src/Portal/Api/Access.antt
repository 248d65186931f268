-- ===== src/Portal/Api/Access.antt =====
-- Which requests may change a table.
use package.text.Mathlib.Text.{starts_with}
use cascade_vpn.Base.{
  ◌≡◌, refl, ap, ◌∙◌, String, Bool, true, false, not, Option, none, some, ◌⊎◌, inl, inr, ok, err,
  arith, str_eq, str_eq_iff, ◌>>=◌, ◌||◌, refuse, or_raise, if◌then◌else◌,
}
use cascade_vpn.Portal.Store.{Db, Link, select_link, count_click}
use cascade_vpn.Portal.Request.{
  Api, Request, Session, Method, get, head, post, delete, get_session, require_session,
  require_csrf, same_origin, authorize, internal, unauthorized, bad_csrf,
}
use cascade_vpn.Portal.App.{App, Handler, continue, lift, reading}
use cascade_vpn.Portal.App as App
use cascade_vpn.Portal.App.Keeps.{bind-Keeps, continue-Keeps}
use cascade_vpn.Portal.App.Login.{Verified, login-Verified}
use cascade_vpn.Portal.Links.{redirect_short_link, found_link, click, list_links}
use cascade_vpn.Portal.Pages.{list_references, get_reference}
use cascade_vpn.Portal.Api.Routes as Routes
use cascade_vpn.Portal.Api.Routes.{Endpoint, reads, endpoint_of, short_code}
use cascade_vpn.Portal.Api.{
  Host, Reply, redirect, logged_in, guarded, show_status, handle, visit_link, show_page,
  link_or_page, dispatch_path, dispatch,
}

-- What a session that passes the checks of an endpoint has passed.
grant_parts :
    (got : Api (Option Session)) (missing : Bool) (same : String → Bool) (origin : Api (Unit {0}))
    (session : Session)
    → (((got >>= λ found. or_raise found unauthorized) >>= λ live.
          refuse (missing || not (same live.csrf_token)) bad_csrf >>= λ _. ok live)
        >>= λ live. origin >>= λ _. ok live)
      ≡ ok session
    → (got ≡ ok (some session))
      × (missing ≡ false)
      × (same session.csrf_token ≡ true)
      × (origin ≡ ok tt)
grant_parts (ok none) missing same origin session e = ground arith
grant_parts (err problem) missing same origin session e = ground arith
grant_parts (ok (some live)) true same origin session e = ground arith
grant_parts (ok (some live)) false same (err problem) session e = ground arith
grant_parts (ok (some live)) false same (ok tt) session e = ground arith

module _ (h : Host) (r : Request) where
  -- The request carries the cookie of a live session and that session's CSRF token, and comes from
  -- the portal's own origin, where it names one.
  pub record Granted (s : App) : Type 0 where
    pub session : Session
    pub live : get_session h.lib h.cfg s.db h.env.now r.cookie_header ≡ ok (some session)
    pub token_given : str_eq r.csrf_header "" ≡ false
    pub token : r.csrf_header ≡ session.csrf_token
    pub origin : same_origin h.lib h.cfg r ≡ ok tt

  -- What a request may do to the tables.
  pub data Access (s : App) (db : Db) : Type 0 where
    untouched : db ≡ s.db → Access s db
    granted : Granted s → Access s db
    verified : Verified h.lib h.cfg h.env r s → Access s db
    visited : (code : String) → db ≡ count_click s.db code h.env.now → Access s db

  authorize-Granted :
      (s : App) (session : Session)
      → authorize h.lib h.cfg s.db h.env.now r ≡ ok session
      → Granted s
  unfolding authorize require_csrf require_session
  authorize-Granted s session e =
      let (live, given, token, origin) =
        grant_parts (get_session h.lib h.cfg s.db h.env.now r.cookie_header)
          (str_eq r.csrf_header "") (str_eq r.csrf_header) (same_origin h.lib h.cfg r) session e in
      record {
        session = session;
        live = live;
        token_given = given;
        token = (str_eq_iff r.csrf_header session.csrf_token).0 token;
        origin = origin;
      }

  guarded-Access : (work : Session → Handler Reply) (s : App) → Access s (guarded h r work s).1.db
  guarded-Access work s = authorized (authorize h.lib h.cfg s.db h.env.now r) refl
    where
      authorized :
          (x : Api Session)
          → authorize h.lib h.cfg s.db h.env.now r ≡ x
          → Access s (continue (x, s) work).1.db
      authorized (ok session) e = granted (authorize-Granted s session e)
      authorized (err problem) e = untouched refl

  login-Access : (s : App) → Access s (handle h Routes.login r s).1.db
  unfolding handle
  login-Access s =
      let attempt = App.login h.lib h.cfg h.env r s in
      let same =
        continue-Keeps (λ t. t.db) (λ x. App.pure (logged_in x.0 x.1)) attempt.1 attempt refl
          (λ a t. refl) in
      by_login same (login-Verified h.lib h.cfg h.env r s)
    where
      by_login :
          (handle h Routes.login r s).1.db ≡ (App.login h.lib h.cfg h.env r s).1.db
          → ((App.login h.lib h.cfg h.env r s).1.db ≡ s.db) ⊎ Verified h.lib h.cfg h.env r s
          → Access s (handle h Routes.login r s).1.db
      by_login same (inl e) = untouched (same ∙ e)
      by_login same (inr v) = verified v

  handle-Access : (e : Endpoint) (s : App) → Access s (handle h e r s).1.db
  unfolding handle show_status list_links
  handle-Access Routes.health s = untouched refl
  handle-Access Routes.session_state s = untouched (ground arith)
  handle-Access Routes.login s = login-Access s
  handle-Access Routes.logout s = guarded-Access _ s
  handle-Access Routes.status s = untouched (ground arith)
  handle-Access Routes.services s = untouched (ground arith)
  handle-Access Routes.new_service s = guarded-Access _ s
  handle-Access (Routes.drop_service id) s = guarded-Access _ s
  handle-Access Routes.check_services s = guarded-Access _ s
  handle-Access Routes.feed_items s = untouched refl
  handle-Access Routes.feeds s = untouched (ground arith)
  handle-Access Routes.new_feed s = guarded-Access _ s
  handle-Access (Routes.drop_feed id) s = guarded-Access _ s
  handle-Access Routes.refresh_feeds s = guarded-Access _ s
  handle-Access Routes.links s = untouched (ground arith)
  handle-Access Routes.new_link s = guarded-Access _ s
  handle-Access (Routes.drop_link code) s = guarded-Access _ s
  handle-Access Routes.references s =
      untouched
        (bind-Keeps (λ s. s.db) (lift (list_references h.shelf)) _ (λ s. refl) (λ a s. refl) s)
  handle-Access (Routes.reference slug) s =
      untouched
        (bind-Keeps (λ s. s.db) (lift (get_reference h.shelf slug)) _ (λ s. refl) (λ a s. refl) s)
  handle-Access Routes.unknown s = untouched refl

  visit_link-Access : (code : String) (s : App) → Access s (visit_link h r code s).1.db
  unfolding visit_link redirect_short_link found_link click
  visit_link-Access code s = by_row (select_link s.db code) (click-counts r.method)
    where
      click-counts :
          (method : Method)
          → (click method s.db code h.env.now ≡ s.db)
            ⊎ (click method s.db code h.env.now ≡ count_click s.db code h.env.now)
      click-counts head = inl refl
      click-counts get = inr refl
      click-counts post = inr refl
      click-counts delete = inr refl

      by_row :
          (row : Option Link)
          → (click r.method s.db code h.env.now ≡ s.db)
            ⊎ (click r.method s.db code h.env.now ≡ count_click s.db code h.env.now)
          → Access s
              (continue
                (found_link r.method h.env.now code row s)
                (λ target. App.pure (redirect target))).1.db
      by_row none c = untouched refl
      by_row (some link) (inl e) = untouched e
      by_row (some link) (inr e) = visited code e

  show_page-Access : (path : String) (s : App) → (show_page h r path s).1 ≡ s
  unfolding show_page
  show_page-Access path s = ground arith

  link_or_page-Access :
      (path : String) (code : Option String) (s : App)
      → Access s (link_or_page h r path code s).1.db
  link_or_page-Access path none s = untouched (ap (λ t. t.db) (show_page-Access path s))
  link_or_page-Access path (some code) s = by_method (reads r.method)
    where
      by_method :
          (b : Bool) → Access s ((if b then visit_link h r code else show_page h r path) s).1.db
      by_method true = visit_link-Access code s
      by_method false = untouched (ap (λ t. t.db) (show_page-Access path s))

  dispatch_path-Access : (path : String) (s : App) → Access s (dispatch_path h r path s).1.db
  dispatch_path-Access path s = by_prefix (starts_with path "/api/")
    where
      by_prefix :
          (b : Bool)
          → Access s
              ((if b
                  then handle h (endpoint_of h.digits r.method path) r
                  else link_or_page h r path (short_code path))
                s).1.db
      by_prefix true = handle-Access (endpoint_of h.digits r.method path) s
      by_prefix false = link_or_page-Access path (short_code path) s

  -- A request leaves every table as it is, unless it carries a live session's cookie and that
  -- session's CSRF token and names no other origin than the portal's, or is a login with the right
  -- password that the limiter admits, or visits a short link, whose clicks alone it then counts.
  pub dispatch-Access : (s : App) → Access s (dispatch h r s).1.db
  unfolding dispatch
  dispatch-Access s = by_path (h.path_of r.path)
    where
      by_path :
          (path : Option String)
          → Access s (continue (or_raise path internal, s) (dispatch_path h r)).1.db
      by_path none = untouched refl
      by_path (some path) = dispatch_path-Access path s
