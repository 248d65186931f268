-- ===== src/Portal/Store/Items.antt =====
-- The statements of portal/app/services/rss_reader.py on the items of the feeds.
use cascade_vpn.Base.{
  ℕ, ◌+◌, String, Bool, ◌&&◌, ◌||◌, not, List, [], ◌∷◌, ◌++◌, map, take, keep, any, ltb, ◌==◌,
  str_eq, if◌then◌else◌,
}
use cascade_vpn.Portal.Xml.{Parsed}
use cascade_vpn.Portal.Store.{Db, Item}

abbrev pub is_entry : ℕ → String → Item → Bool
is_entry feed guid i = (i.feed_id == feed) && str_eq i.guid guid

-- `... DO UPDATE SET title=excluded.title, ...`
abbrev pub overwrite : Parsed → ℕ → Item → Item
overwrite p now i = record i {
  title = p.title;
  url = p.url;
  published_at = p.published_at;
  excerpt = p.excerpt;
  fetched_at = now;
}

abbrev pub new_item : ℕ → ℕ → Parsed → ℕ → Item
new_item id feed p now = record {
  id = id;
  feed_id = feed;
  guid = p.guid;
  title = p.title;
  url = p.url;
  published_at = p.published_at;
  excerpt = p.excerpt;
  fetched_at = now;
}

-- `INSERT INTO feed_items ... ON CONFLICT(feed_id, guid) DO UPDATE`; an update uses up no number.
unfoldable pub upsert_item : Db → ℕ → Parsed → ℕ → Db
upsert_item db feed p now =
    if any (is_entry feed p.guid) db.items
    then record db {
      items = map (λ i. if is_entry feed p.guid i then overwrite p now i else i) db.items;
    }
    else record db {
      items = db.items ++ new_item db.next_item feed p now ∷ [];
      next_item = db.next_item + 1;
    }

-- `ORDER BY fetched_at DESC, id DESC`
abbrev pub is_newer : Item → Item → Bool
is_newer i j = ltb j.fetched_at i.fetched_at || ((i.fetched_at == j.fetched_at) && ltb j.id i.id)

unfoldable pub insert_by : (Item → Item → Bool) → Item → List Item → List Item
insert_by before i [] = i ∷ []
insert_by before i (j ∷ js) =
    let rest = insert_by before i js in if before i j then i ∷ j ∷ js else j ∷ rest

unfoldable pub sort_by : (Item → Item → Bool) → List Item → List Item
unfolding insert_by
sort_by before [] = []
sort_by before (i ∷ is) = insert_by before i (sort_by before is)

abbrev pub kept_items : ℕ
kept_items = 1000

-- The newest items of a feed, of which none is deleted.
unfoldable pub newest_items : ℕ → ℕ → List Item → List Item
unfolding sort_by
newest_items limit feed items = take limit (sort_by is_newer (keep (λ i. i.feed_id == feed) items))

-- `DELETE FROM feed_items WHERE feed_id = ? AND id NOT IN (SELECT ... LIMIT 1000)`
unfoldable pub prune_items : ℕ → Db → ℕ → Db
unfolding newest_items
prune_items limit db feed =
    let newest = newest_items limit feed db.items in
    record db {
      items = keep (λ i. not (i.feed_id == feed) || any (λ j. j.id == i.id) newest) db.items;
    }
