-- ===== src/Portal/Feeds.antt =====
-- The feed reader: portal/app/services/rss_reader.py, over the tables and Portal/Outbound.
pub mod Items
pub mod Refresh
use Prim.Native.String.{count, compare}
use Prim.Native.Nat.{Ordering}
use cascade_vpn.Base.{
  ℕ, ◌*◌, String, Bool, true, false, ◌&&◌, ◌||◌, not, Option, none, some, List, [], ◌∷◌, map,
  length, keep, take, leb, ltb, min, max, ◌==◌, str_eq, get_or, if◌then◌else◌, Result, ok, err,
  ◌>>=◌, ◌>>◌, require, or_raise,
}
use cascade_vpn.Portal.Store.{
  Db, Feed, Item, FeedError, fetch_failed, http_status, not_parsed, select_feed, insert_feed,
  delete_feed_row, update_feed,
}
use cascade_vpn.Portal.Store.Items.{upsert_item, prune_items, sort_by, kept_items}
use cascade_vpn.Portal.Outbound.{
  Net, Internet, Policy, UrlError, ValidatedUrl, required, validate_outbound_url,
}
use cascade_vpn.Portal.Outbound.Fetch.{FetchFailure, FetchResult, value_error, fetch_url}
use cascade_vpn.Portal.Request.{Value, text, null, other}
use cascade_vpn.Portal.Xml.{Markup, Parsed, ParseError, date_overflow, parse_feed}

abbrev pub max_feed_bytes : ℕ
max_feed_bytes = 2 * 1024 * 1024

-- `feed_row`
pub record FeedRow : Type 0 where
  pub id : ℕ
  pub title : String
  pub url : String
  pub enabled : Bool
  pub checked_at : Option ℕ
  pub error : Option FeedError
  pub created_at : ℕ

pub feed_row : Feed → FeedRow
feed_row r = record {
  id = r.id;
  title = r.title;
  url = r.url;
  enabled = r.enabled;
  checked_at = r.checked_at;
  error = r.error;
  created_at = r.created_at;
}

pub data AddError : Type 0 where
  bad_title taken : AddError
  bad_url : UrlError → AddError

abbrev title_of : Net → Value → String
title_of net (text title) = net.strip title
title_of net _ = ""

validated : Net → Internet → Policy → Value → Result UrlError ValidatedUrl
validated net world policy (text url) = validate_outbound_url net world 0 policy url
validated net world policy _ = err required

-- `urlsplit(validated.url).hostname or "RSS"`
abbrev host_or_rss : Net → String → String
host_or_rss net url = elim (net.urlsplit url) [ none ↦ "RSS" | some u ↦ get_or u.hostname "RSS" ]

abbrev added : Db → Option (Db × Feed) → Result AddError FeedRow × Db
added db none = (err taken, db)
added db (some (db', row)) = (ok (feed_row row), db')

pub insert_validated :
    Net → Db → ℕ → String → Result UrlError ValidatedUrl → Result AddError FeedRow × Db
insert_validated net db now title (err e) = (err (bad_url e), db)
insert_validated net db now title (ok target) =
    let full = if str_eq title "" then host_or_rss net target.url else title in
    if not (leb 1 (count full) && leb (count full) 100)
    then (err bad_title, db)
    else added db (insert_feed db full target.url now)

-- `add_feed`
pub add_feed : Net → Internet → Policy → ℕ → Db → Value → Value → Result AddError FeedRow × Db
unfolding validated insert_validated
add_feed net world policy now db title url =
    insert_validated net db now (title_of net title) (validated net world policy url)

-- `delete_feed`
pub delete_feed : Db → ℕ → Bool × Db
delete_feed db id = let (db', found) = delete_feed_row db id in (found, db')

-- What the environment answers during a refresh.
pub record Visit : Type 0 where
  pub checked_at : ℕ
  pub internet : Internet

-- How `refresh_feed` raises: a `KeyError`, one of the exceptions that it records in the table, or
-- one that it does not catch.
pub data RefreshError : Type 0 where
  no_feed bad_value overflow : RefreshError
  recorded : FeedError → RefreshError

pub record Refreshed : Type 0 where
  pub feed_id : ℕ
  pub items_updated : ℕ
  pub checked_at : ℕ

-- The exception of a fetch; nothing catches a `ValueError`.
abbrev pub fetch_raises : FetchFailure → RefreshError
fetch_raises value_error = bad_value
fetch_raises e = recorded (fetch_failed e)

abbrev pub parse_raises : ParseError → RefreshError
parse_raises date_overflow = overflow
parse_raises e = recorded (not_parsed e)

pub parsed_items : Markup → Net → List ℕ → Result RefreshError (List Parsed)
parsed_items m net body = elim (parse_feed m net body) [
  | ok items ↦ ok items
  | err e ↦ err (parse_raises e)
]

-- The fetch and the parse, before the items are stored.
pub load_items : Markup → Net → Result FetchFailure FetchResult → Result RefreshError (List Parsed)
unfolding parsed_items
load_items m net (err e) = err (fetch_raises e)
load_items m net (ok result) =
    if leb 200 result.status && ltb result.status 300
    then parsed_items m net result.body
    else err (recorded (http_status result.status))

abbrev pub checked : ℕ → Option FeedError → Feed → Feed
checked now error r = record r { checked_at = some now; error = error }

pub upsert_items : Db → ℕ → List Parsed → ℕ → Db
upsert_items db feed [] now = db
upsert_items db feed (p ∷ ps) now = upsert_items (upsert_item db feed p now) feed ps now

-- The transaction that stores the items.
pub store_items : Db → ℕ → List Parsed → ℕ → Db
unfolding upsert_items
store_items db feed items now =
    update_feed (prune_items kept_items (upsert_items db feed items now) feed) feed
      (checked now none)

pub finish_refresh :
    Db → ℕ → ℕ → Result RefreshError (List Parsed) → Result RefreshError Refreshed × Db
unfolding store_items
finish_refresh db feed now (ok items) = (
  ok (record { feed_id = feed; items_updated = length items; checked_at = now }),
  store_items db feed items now,
)
finish_refresh db feed now (err (recorded e)) =
    (err (recorded e), update_feed db feed (checked now (some e)))
finish_refresh db feed now (err e) = (err e, db)

pub refresh_row :
    Markup → Net → Policy → Visit → Db → ℕ → Option Feed → Result RefreshError Refreshed × Db
unfolding load_items finish_refresh
refresh_row m net policy visit db feed none = (err no_feed, db)
refresh_row m net policy visit db feed (some row) =
    finish_refresh db feed visit.checked_at
      (load_items m net (fetch_url net visit.internet policy max_feed_bytes 3 row.url).0)

-- `refresh_feed`
pub refresh_feed : Markup → Net → Policy → Visit → Db → ℕ → Result RefreshError Refreshed × Db
unfolding refresh_row
refresh_feed m net policy visit db feed =
    refresh_row m net policy visit db feed (select_feed db feed)

-- The result of one feed in `refresh_all`: the error, where it is one that is caught there.
pub data Outcome : Type 0 where
  updated : Refreshed → Outcome
  failed : ℕ → FeedError → Outcome

abbrev pub caught : ℕ → Result RefreshError Refreshed → Result RefreshError Outcome
caught feed (ok r) = ok (updated r)
caught feed (err (recorded e)) = ok (failed feed e)
caught feed (err e) = err e

abbrev collected :
    Result RefreshError Outcome
    → Db
    → Result RefreshError (List Outcome) × Db
    → Result RefreshError (List Outcome) × Db
collected (err e) db rest = (err e, db)
collected (ok o) db (ok os, db') = (ok (o ∷ os), db')
collected (ok o) db (err e, db') = (err e, db')

-- The loop of `refresh_all`
pub refresh_each :
    Markup → Net → Policy → (ℕ → Visit) → Db → List ℕ → Result RefreshError (List Outcome) × Db
refresh_each m net policy visits db [] = (ok [], db)
refresh_each m net policy visits db (feed ∷ feeds) =
    let (r, db') = refresh_feed m net policy (visits feed) db feed in
    let rest = refresh_each m net policy visits db' feeds in collected (caught feed r) db' rest

-- `refresh_all`, of the enabled feeds.
pub refresh_all : Markup → Net → Policy → (ℕ → Visit) → Db → Result RefreshError (List Outcome) × Db
unfolding refresh_each
refresh_all m net policy visits db =
    refresh_each m net policy visits db (map (λ r. r.id) (keep (λ r. r.enabled) db.feeds))

abbrev text_before : String → String → Bool
text_before s t = elim (compare s t) [ Ordering.lt ↦ true | _ ↦ false ]

-- `ORDER BY COALESCE(published_at, '') DESC, fetched_at DESC, id DESC`
pub is_above : Item → Item → Bool
is_above i j =
    let p = get_or i.published_at "" in
    let q = get_or j.published_at "" in
    text_before q p
    || (str_eq p q
        && (ltb j.fetched_at i.fetched_at || ((i.fetched_at == j.fetched_at) && ltb j.id i.id)))

pub record Listed : Type 0 where
  pub item : Item
  pub source : String

-- `JOIN feeds f ON f.id = i.feed_id`
pub joined : Db → List Item → List Listed
joined db [] = []
joined db (i ∷ is) =
    let rest = joined db is in
    elim (select_feed db i.feed_id) [
      | none ↦ rest
      | some f ↦ record { item = i; source = f.title } ∷ rest
    ]

-- `list_items`, for a number that is not negative; a negative one counts as 1.
pub list_items : Db → ℕ → List Listed
unfolding is_above joined
list_items db limit = take (max 1 (min limit 200)) (joined db (sort_by is_above db.items))
