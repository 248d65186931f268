-- ===== src/Portal/Feeds/Refresh.antt =====
-- What `refresh_feed` does to the tables, however it ends.
use cascade_vpn.Base.{
  ℕ, ◌≤◌, ◌≡◌, refl, ◌∙◌, Option, none, some, List, length, keep, ◌==◌, Result, ok, err,
}
use cascade_vpn.Portal.Store.{Db, Feed, update_feed, select_feed}
use cascade_vpn.Portal.Store.Items.{prune_items, kept_items}
use cascade_vpn.Portal.Outbound.{Net, Policy}
use cascade_vpn.Portal.Xml.{Markup, Parsed}
use cascade_vpn.Portal.Feeds.{
  Visit, RefreshError, Refreshed, recorded, no_feed, bad_value, overflow, upsert_items, store_items,
  finish_refresh, refresh_row, refresh_feed,
}
use cascade_vpn.Portal.Feeds.Items.{
  Numbered, IsNumbered-kept, others, prune_items-length, prune_items-others, upsert_items-others,
  upsert_items-Numbered,
}

-- A refresh that succeeds leaves at most a thousand items of the feed, and one that fails leaves
-- every item as it is.
abbrev pub Stored : ℕ → Db → Result RefreshError Refreshed → Db → Type 0
Stored feed db (ok r) db' = length (keep (λ i. i.feed_id == feed) db'.items) ≤ kept_items
Stored feed db (err e) db' = db'.items ≡ db.items

-- The items stay numbered, and those of other feeds are the same.
pub record Refreshes (feed : ℕ) (db : Db) (r : Result RefreshError Refreshed) (db' : Db)
    : Type 0 where
  pub numbered : Numbered db'
  pub unchanged : others feed db' ≡ others feed db
  pub stored : Stored feed db r db'

prune_items-Numbered :
    (limit feed : ℕ) (db : Db) → Numbered db → Numbered (prune_items limit db feed)
unfolding prune_items
prune_items-Numbered limit feed db h = IsNumbered-kept _ db.next_item db.items h

module _ (feed now : ℕ) (db : Db) (h : Numbered db) where
  stored-Refreshes :
      (items : List Parsed) (r : Refreshed)
      → Refreshes feed db (ok r) (store_items db feed items now)
  unfolding store_items update_feed
  stored-Refreshes items r =
      let added = upsert_items db feed items now in
      let numbered = upsert_items-Numbered feed items now db h in
      record {
        numbered = prune_items-Numbered kept_items feed added numbered;
        unchanged =
            prune_items-others kept_items feed added ∙ upsert_items-others feed items now db;
        stored = prune_items-length kept_items feed added numbered;
      }

  finish-Refreshes :
      (loaded : Result RefreshError (List Parsed))
      → let (r, db') = finish_refresh db feed now loaded in Refreshes feed db r db'
  unfolding finish_refresh update_feed
  finish-Refreshes (ok items) = stored-Refreshes items _
  finish-Refreshes (err (recorded e)) = record { numbered = h; unchanged = refl; stored = refl }
  finish-Refreshes (err no_feed) = record { numbered = h; unchanged = refl; stored = refl }
  finish-Refreshes (err bad_value) = record { numbered = h; unchanged = refl; stored = refl }
  finish-Refreshes (err overflow) = record { numbered = h; unchanged = refl; stored = refl }

-- Whatever the server of a feed answers, a refresh touches the items of no other feed; one that
-- succeeds leaves at most a thousand items of the feed, one that fails leaves its items as they are.
pub refresh_feed-Refreshes :
    (m : Markup) (net : Net) (policy : Policy) (visit : Visit) (db : Db) (feed : ℕ)
    → Numbered db
    → let (r, db') = refresh_feed m net policy visit db feed in Refreshes feed db r db'
unfolding refresh_feed refresh_row
refresh_feed-Refreshes m net policy visit db feed h = row_case (select_feed db feed)
  where
    row_case :
        (row : Option Feed)
        → let (r, db') = refresh_row m net policy visit db feed row in Refreshes feed db r db'
    row_case none = record { numbered = h; unchanged = refl; stored = refl }
    row_case (some row) = finish-Refreshes feed visit.checked_at db h _
