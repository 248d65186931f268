-- ===== src/Portal/Feeds/Items.antt =====
-- How many items of a feed are kept, and what a refresh leaves alone.
use cascade_vpn.Base.{
  ℕ, ◌+◌, ◌≤◌, ◌<◌, ◌≡◌, refl, ◌∙◌, subst, Bool, true, false, ◌||◌, not, List, [], ◌∷◌, ◌++◌, map,
  length, keep, any, All, ◌==◌, if◌then◌else◌, arith, Bool-cases, inl, inr, length-take,
}
use cascade_vpn.Portal.Store.{Db, Item}
use cascade_vpn.Portal.Store.Items.{
  upsert_item, is_entry, overwrite, new_item, prune_items, newest_items, sort_by, is_newer,
}
use cascade_vpn.Portal.Xml.{Parsed}
use cascade_vpn.Portal.Feeds.{upsert_items}

-- The items have different numbers, each below the next one.
abbrev pub IsNumbered : ℕ → List Item → Type 0
IsNumbered next [] = Unit
IsNumbered next (i ∷ is) = (i.id < next) × All (λ j. (j.id == i.id) ≡ false) is × IsNumbered next is

length-keep-imp :
    (p q : Item → Bool)
    → ((i : Item) → p i ≡ true → q i ≡ true)
    → (xs : List Item) → length (keep p xs) ≤ length (keep q xs)
length-keep-imp p q h [] = omega arith
length-keep-imp p q h (x ∷ xs) =
    let this = h x in let rest = length-keep-imp p q h xs in ground arith

length-keep-or :
    (p q : Item → Bool) (xs : List Item)
    → length (keep (λ i. p i || q i) xs) ≤ length (keep p xs) + length (keep q xs)
length-keep-or p q [] = omega arith
length-keep-or p q (x ∷ xs) = ground (arith, length-keep-or p q xs)

keep-none :
    (n : ℕ) (xs : List Item) → All (λ j. (j.id == n) ≡ false) xs → keep (λ i. n == i.id) xs ≡ []
keep-none n [] h = refl
keep-none n (x ∷ xs) h = ground (arith, keep-none n xs h.1)

keep_id-one :
    (next n : ℕ) (xs : List Item) → IsNumbered next xs → length (keep (λ i. n == i.id) xs) ≤ 1
keep_id-one next n [] h = omega arith
keep_id-one next n (x ∷ xs) h = elim (Bool-cases (n == x.id)) [
  | inl e ↦
      let eq : x.id ≡ n = ground arith in
      let same = keep-none n xs (subst (λ m. All (λ j. (j.id == m) ≡ false) xs) eq h.1) in
      ground arith
  | inr e ↦ ground (arith, keep_id-one next n xs h.2)
]

-- No more items are picked by number than there are numbers.
keep_ids-length :
    (next : ℕ) (picked xs : List Item)
    → IsNumbered next xs
    → length (keep (λ i. any (λ j. j.id == i.id) picked) xs) ≤ length picked
keep_ids-length next [] xs h =
    omega (arith, length-keep-imp (λ i. false) (λ i. false) (λ i e. e) xs, none_kept xs)
  where
    none_kept : (ys : List Item) → length (keep (λ i. false) ys) ≡ 0
    none_kept [] = refl
    none_kept (y ∷ ys) = none_kept ys
keep_ids-length next (j ∷ js) xs h = omega (
  arith,
  length-keep-or (λ i. j.id == i.id) (λ i. any (λ k. k.id == i.id) js) xs,
  keep_id-one next j.id xs h,
  keep_ids-length next js xs h,
)

newest_items-length :
    (limit feed : ℕ) (items : List Item) → length (newest_items limit feed items) ≤ limit
unfolding newest_items
newest_items-length limit feed items =
    omega (arith, length-take limit (sort_by is_newer (keep (λ i. i.feed_id == feed) items)))

keep-keep-length :
    (p q r : Item → Bool)
    → ((i : Item) → p i ≡ true → q i ≡ true → r i ≡ true)
    → (xs : List Item) → length (keep p (keep q xs)) ≤ length (keep r xs)
keep-keep-length p q r h [] = omega arith
keep-keep-length p q r h (x ∷ xs) =
    let this = h x in let rest = keep-keep-length p q r h xs in ground arith

-- A feed has no more items after pruning than the limit.
pub prune_items-length :
    (limit feed : ℕ) (db : Db)
    → IsNumbered db.next_item db.items
    → length (keep (λ i. i.feed_id == feed) (prune_items limit db feed).items) ≤ limit
unfolding prune_items
prune_items-length limit feed db h =
    let newest = newest_items limit feed db.items in
    omega (
      arith,
      keep-keep-length (λ i. i.feed_id == feed)
          (λ i. not (i.feed_id == feed) || any (λ j. j.id == i.id) newest)
          (λ i. any (λ j. j.id == i.id) newest) (λ i p q. ground arith) db.items,
      keep_ids-length db.next_item newest db.items h,
      newest_items-length limit feed db.items,
    )

-- The items of the other feeds.
abbrev pub others : ℕ → Db → List Item
others feed db = keep (λ i. not (i.feed_id == feed)) db.items

keep-pruned :
    (feed : ℕ) (picked xs : List Item)
    → keep
        (λ i. not (i.feed_id == feed))
        (keep (λ i. not (i.feed_id == feed) || any (λ j. j.id == i.id) picked) xs)
      ≡ keep (λ i. not (i.feed_id == feed)) xs
keep-pruned feed picked [] = refl
keep-pruned feed picked (x ∷ xs) = ground (arith, keep-pruned feed picked xs)

pub prune_items-others :
    (limit feed : ℕ) (db : Db) → others feed (prune_items limit db feed) ≡ others feed db
unfolding prune_items
prune_items-others limit feed db = keep-pruned feed (newest_items limit feed db.items) db.items

keep-overwritten :
    (feed : ℕ) (p : Parsed) (now : ℕ) (xs : List Item)
    → keep
        (λ i. not (i.feed_id == feed))
        (map (λ i. if is_entry feed p.guid i then overwrite p now i else i) xs)
      ≡ keep (λ i. not (i.feed_id == feed)) xs
keep-overwritten feed p now [] = refl
keep-overwritten feed p now (x ∷ xs) = ground (arith, keep-overwritten feed p now xs)

keep-appended :
    (feed : ℕ) (x : Item) (xs : List Item)
    → x.feed_id ≡ feed
    → keep (λ i. not (i.feed_id == feed)) (xs ++ x ∷ []) ≡ keep (λ i. not (i.feed_id == feed)) xs
keep-appended feed x [] h = ground arith
keep-appended feed x (y ∷ ys) h = ground (arith, keep-appended feed x ys h)

upsert_item-others :
    (feed : ℕ) (p : Parsed) (now : ℕ) (db : Db)
    → others feed (upsert_item db feed p now) ≡ others feed db
unfolding upsert_item
upsert_item-others feed p now db = elim (Bool-cases (any (is_entry feed p.guid) db.items)) [
  | inl e ↦ rw e (keep-overwritten feed p now db.items)
  | inr e ↦ rw e (keep-appended feed (new_item db.next_item feed p now) db.items refl)
]

pub upsert_items-others :
    (feed : ℕ) (ps : List Parsed) (now : ℕ) (db : Db)
    → others feed (upsert_items db feed ps now) ≡ others feed db
unfolding upsert_items
upsert_items-others feed [] now db = refl
upsert_items-others feed (p ∷ ps) now db =
    upsert_items-others feed ps now (upsert_item db feed p now) ∙ upsert_item-others feed p now db

-- Items that are added come after all others, and those that are overwritten keep their number.
IsNumbered-more : (next : ℕ) (xs : List Item) → IsNumbered next xs → IsNumbered (next + 1) xs
IsNumbered-more next [] h = tt
IsNumbered-more next (x ∷ xs) h = (omega arith, h.1, IsNumbered-more next xs h.2)

All-appended :
    (n : ℕ) (x : Item) (xs : List Item)
    → All (λ j. (j.id == n) ≡ false) xs
    → n < x.id
    → All (λ j. (j.id == n) ≡ false) (xs ++ x ∷ [])
All-appended n x [] h lt = (ground arith, tt)
All-appended n x (y ∷ ys) h lt = (h.0, All-appended n x ys h.1 lt)

IsNumbered-appended :
    (next : ℕ) (x : Item) (xs : List Item)
    → IsNumbered next xs
    → x.id ≡ next
    → IsNumbered (next + 1) (xs ++ x ∷ [])
IsNumbered-appended next x [] h e = (omega arith, tt, tt)
IsNumbered-appended next x (y ∷ ys) h e =
    (omega arith, All-appended y.id x ys h.1 (omega arith), IsNumbered-appended next x ys h.2 e)

module _ (f : Item → Item) (same : (i : Item) → (f i).id ≡ i.id) where
  All-map :
      (n : ℕ) (xs : List Item)
      → All (λ j. (j.id == n) ≡ false) xs
      → All (λ j. (j.id == n) ≡ false) (map f xs)
  All-map n [] h = tt
  All-map n (x ∷ xs) h = (rw (same x) h.0, All-map n xs h.1)

  IsNumbered-map : (next : ℕ) (xs : List Item) → IsNumbered next xs → IsNumbered next (map f xs)
  IsNumbered-map next [] h = tt
  IsNumbered-map next (x ∷ xs) h =
      (rw (same x) h.0, rw (same x) (All-map x.id xs h.1), IsNumbered-map next xs h.2)

All-kept :
    (p : Item → Bool) (n : ℕ) (xs : List Item)
    → All (λ j. (j.id == n) ≡ false) xs
    → All (λ j. (j.id == n) ≡ false) (keep p xs)
All-kept p n [] h = tt
All-kept p n (x ∷ xs) h = ground (arith, All-kept p n xs h.1)

pub IsNumbered-kept :
    (p : Item → Bool) (next : ℕ) (xs : List Item) → IsNumbered next xs → IsNumbered next (keep p xs)
IsNumbered-kept p next [] h = tt
IsNumbered-kept p next (x ∷ xs) h =
    ground (arith, IsNumbered-kept p next xs h.2, All-kept p x.id xs h.1)

abbrev pub Numbered : Db → Type 0
Numbered db = IsNumbered db.next_item db.items

upsert_item-Numbered :
    (feed : ℕ) (p : Parsed) (now : ℕ) (db : Db) → Numbered db → Numbered (upsert_item db feed p now)
unfolding upsert_item
upsert_item-Numbered feed p now db h = elim (Bool-cases (any (is_entry feed p.guid) db.items)) [
  | inl e ↦ rw e (
      IsNumbered-map (λ i. if is_entry feed p.guid i then overwrite p now i else i)
        (λ i. ground arith) db.next_item db.items h)
  | inr e ↦
      rw e (IsNumbered-appended db.next_item (new_item db.next_item feed p now) db.items h refl)
]

pub upsert_items-Numbered :
    (feed : ℕ) (ps : List Parsed) (now : ℕ) (db : Db)
    → Numbered db
    → Numbered (upsert_items db feed ps now)
unfolding upsert_items
upsert_items-Numbered feed [] now db h = h
upsert_items-Numbered feed (p ∷ ps) now db h =
    upsert_items-Numbered feed ps now (upsert_item db feed p now)
      (upsert_item-Numbered feed p now db h)
