-- ===== src/Portal/Api/Tests.antt =====
-- A portal with a session and a feed, and the theorems on the endpoints, the feeds and the files.
use cascade_vpn.Base.{
  ℕ, String, refl, true, false, Option, none, some, List, [], ◌∷◌, arith, str_eq, if◌then◌else◌,
}
use cascade_vpn.Portal.Tests.{net, policy, calm, library, settings, env, request, with_session}
use cascade_vpn.Portal.Store.{Item}
use cascade_vpn.Portal.Request.{Request, delete}
use cascade_vpn.Portal.App.{App}
use cascade_vpn.Portal.Xml.{Element, element, no_more, more, Markup, utc}
use cascade_vpn.Portal.Feeds as Feeds
use cascade_vpn.Portal.Feeds.{refresh_feed}
use cascade_vpn.Portal.Feeds.Refresh.{Refreshes, refresh_feed-Refreshes}
use cascade_vpn.Portal.Pages.{Shelf}
use cascade_vpn.Portal.Api.Routes.{key}
use cascade_vpn.Portal.Api.{Host, dispatch}
use cascade_vpn.Portal.Api.Access.{Access, dispatch-Access}

-- An RSS document of one item with one child.
titled : String → Element
titled tag = element tag none none none "Hello" no_more

abbrev markup : Markup
markup = record {
  fromstring = λ bytes. some (
      element "rss" none none none ""
        (more (element "item" none none none "" (more (titled "title") no_more)) no_more));
  has_upper = λ text bytes. false;
  local_name = λ tag. tag;
  strip = λ text. text;
  html_text = λ text. some text;
  collapse = λ text. text;
  clip = λ n text. text;
  email_date = λ text. none;
  iso_date = λ text. some (utc text);
  digest = λ text. text;
}

abbrev feed_visit : Feeds.Visit
feed_visit = record { checked_at = 1000; internet = calm }

abbrev item : ℕ → ℕ → Item
item id feed = record {
  id = id;
  feed_id = feed;
  guid = "old";
  title = "Old";
  url = none;
  published_at = none;
  excerpt = "";
  fetched_at = 900;
}

abbrev with_feeds : App
with_feeds = record with_session {
  db = record with_session.db {
    feeds =
        record {
          id = 1;
          title = "A";
          url = "a";
          enabled = true;
          checked_at = none;
          error = none;
          created_at = 800;
        }
        ∷ [];
    next_feed = 3;
    items = item 1 1 ∷ item 2 2 ∷ [];
    next_item = 3;
  };
}

refresh_feed-Refreshes_example :
    let (r, db) = refresh_feed markup net policy feed_visit with_feeds.db 1 in
    Refreshes 1 with_feeds.db r db
refresh_feed-Refreshes_example =
    refresh_feed-Refreshes markup net policy feed_visit with_feeds.db 1
      (omega arith, (refl, tt), (omega arith, tt, tt))

index_only : List String → Option (List ℕ)
index_only (root ∷ name ∷ []) = if str_eq name "index.html" then some (60 ∷ []) else none
index_only _ = none

abbrev shelf : Shelf
shelf = record {
  articles = none;
  reference_root = "reference" ∷ [];
  static_root = "static" ∷ [];
  article_path = λ slug. slug ∷ [];
  static_path = λ path. "static" ∷ path ∷ [];
  bytes_at = index_only;
  parts = λ path. path ∷ [];
  unquote = λ path. some path;
  strip = λ text. text;
  strip_slashes = λ text. text;
  ends_with = λ text end. false;
  clip = λ n text. text;
  skip = λ n text. text;
  title_of_stem = λ text. text;
  tags_between = λ text. [];
  decode = λ bytes. some "";
}

abbrev host : Host
host = record {
  lib = library;
  cfg = settings;
  env = env;
  policy = policy;
  markup = markup;
  shelf = shelf;
  internet = calm;
  check_visits = λ id. record { checked_at = 1000; latency_ms = 20; internet = calm };
  refresh_visits = λ id. feed_visit;
  healthy = true;
  services_by_name = λ rows. rows;
  feeds_by_title = λ rows. rows;
  digits = λ text. if str_eq text "1" then some (key 1) else none;
  int_of_value = λ value. key 1;
  path_of = λ path. some path;
  limit_of = λ path. "50";
}

-- The session deletes a feed.
abbrev deletion : Request
deletion = record request { method = delete; path = "/api/feeds/1"; csrf_header = "csrf" }

dispatch-Access_example : Access host deletion with_feeds (dispatch host deletion with_feeds).1.db
dispatch-Access_example = dispatch-Access host deletion with_feeds
