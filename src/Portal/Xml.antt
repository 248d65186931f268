-- ===== src/Portal/Xml.antt =====
-- `parse_feed` of portal/app/services/rss_reader.py, from the parsed XML on.
use Prim.Native.String.{◌++◌ as ◌<>◌}
use cascade_vpn.Base.{
  ℕ, String, Bool, ◌||◌, not, Option, none, some, List, [], ◌∷◌, take, any, str_eq, get_or,
  if◌then◌else◌, Result, ok, err, ◌>>=◌, ◌>>◌, refuse, or_raise,
}
use cascade_vpn.Portal.Outbound.{Net, redirect_target}

-- `ET.Element`, as far as the code reads it: the tag, the attributes href and rel, the text before
-- the first child, the text of the whole element, and the children.
mutual
  pub data Element : Type 0 where
    element :
        (tag : String) (href rel text : Option String) (content : String) (children : Elements)
        → Element

  pub data Elements : Type 0 where
    no_more : Elements
    more : Element → Elements → Elements

-- What the dates of `email.utils` and `datetime` come to in UTC; a date near the limits of the
-- calendar has none, which is an `OverflowError`.
pub data Moment : Type 0 where
  utc : String → Moment
  out_of_range : Moment

-- The functions of the standard library that the parser calls; `none` is an exception.
pub record Markup : Type 0 where
  pub fromstring : List ℕ → Option Element
  -- `text in payload.upper()`
  pub has_upper : String → List ℕ → Bool
  -- `tag.rsplit("}", 1)[-1].lower()`
  pub local_name : String → String
  pub strip : String → String
  -- the joined data of `HTMLParser`, and white space made single and stripped
  pub html_text : String → Option String
  pub collapse : String → String
  -- `text[:n]`
  pub clip : ℕ → String → String
  pub email_date : String → Option Moment
  pub iso_date : String → Option Moment
  -- SHA-256 of a text
  pub digest : String → String

pub data ParseError : Type 0 where
  dtd not_xml not_a_feed : ParseError
  -- the `OverflowError`, which is no `FeedParseError`
  date_overflow : ParseError

pub record Parsed : Type 0 where
  pub guid : String
  pub title : String
  pub url : Option String
  pub published_at : Option String
  pub excerpt : String

abbrev pub max_items : ℕ
max_items = 200

-- `a or b` of texts
abbrev pub or_text : String → String → String
or_text a b = if str_eq a "" then b else a

abbrev pub content_of : Element → String
content_of (element tag href rel text content children) = content

abbrev pub children_of : Element → Elements
children_of (element tag href rel text content children) = children

abbrev pub tag_of : Element → String
tag_of (element tag href rel text content children) = tag

module _ (m : Markup) where
  abbrev is_named : List String → Element → Bool
  is_named names e = any (str_eq (m.local_name (tag_of e))) names

  -- `_children`
  pub named_children : String → Elements → List Element
  named_children name no_more = []
  named_children name (more e es) =
      let rest = named_children name es in if is_named (name ∷ []) e then e ∷ rest else rest

  -- `_child_text`
  pub child_text : List String → Elements → String
  child_text names no_more = ""
  child_text names (more e es) =
      let rest = child_text names es in if is_named names e then m.strip (content_of e) else rest

  -- `_plain_text`
  pub plain_text : ℕ → String → String
  plain_text limit value = elim (m.html_text value) [
    | none ↦ ""
    | some text ↦ m.clip limit (m.collapse text)
  ]

  pub normalized_date : Option Moment → Option Moment → String → Result ParseError String
  normalized_date (some (utc t)) iso value = ok t
  normalized_date (some out_of_range) iso value = err date_overflow
  normalized_date none (some (utc t)) value = ok t
  normalized_date none (some out_of_range) value = err date_overflow
  normalized_date none none value = ok (m.clip 80 value)

  -- `_normalize_date`
  pub normalize_date : String → Result ParseError (Option String)
  unfolding normalized_date
  normalize_date value =
      if str_eq value ""
      then ok none
      else (do t ← normalized_date (m.email_date value) (m.iso_date value) value; ok (some t))

  -- `link.attrib.get("href") or (link.text or "").strip()`
  abbrev pub candidate_of : Element → String
  candidate_of (element tag href rel text content children) =
      or_text (get_or href "") (m.strip (get_or text ""))

  abbrev pub is_alternate : Element → Bool
  is_alternate (element tag href rel text content children) =
      str_eq (get_or rel "alternate") "alternate" || str_eq (get_or rel "alternate") ""

  -- `_item_link`: the first alternate link that `validate_redirect_target` accepts.
  pub first_link : Net → List Element → Option String
  first_link net [] = none
  first_link net (e ∷ es) =
      let rest = first_link net es in
      if str_eq (candidate_of e) "" || not (is_alternate e)
      then rest
      else elim (redirect_target net (candidate_of e)) [ none ↦ rest | some url ↦ some url ]

  -- `guid or link or f"{title}\n{published or ''}"`
  abbrev pub raw_guid : String → Option String → String → Option String → String
  raw_guid guid link title published =
      or_text guid (or_text (get_or link "") (title <> ("\n" <> get_or published "")))

  pub parse_item : Net → Elements → Result ParseError Parsed
  unfolding child_text plain_text first_link named_children normalize_date
  parse_item net es = do
    let title = or_text (plain_text 300 (child_text ("title" ∷ []) es)) "Untitled"
    let link = first_link net (named_children "link" es)
    published ← normalize_date (child_text ("pubdate" ∷ "published" ∷ "updated" ∷ "date" ∷ []) es)
    let description = child_text ("description" ∷ "summary" ∷ "content" ∷ "encoded" ∷ []) es
    ok (record {
      guid = m.digest (raw_guid (child_text ("guid" ∷ "id" ∷ []) es) link title published);
      title = title;
      url = link;
      published_at = published;
      excerpt = plain_text 600 description;
    })

  pub parse_items : Net → List Element → Result ParseError (List Parsed)
  unfolding parse_item
  parse_items net [] = ok []
  parse_items net (e ∷ es) = do
    item ← parse_item net (children_of e)
    items ← parse_items net es
    ok (item ∷ items)

  abbrev or_list : List Element → List Element → List Element
  or_list [] ys = ys
  or_list (x ∷ xs) ys = x ∷ xs

  -- `next(iter(_children(root, "channel")), root)`
  abbrev channel_of : Element → List Element → Element
  channel_of root [] = root
  channel_of root (c ∷ cs) = c

  pub entries_of : Element → Result ParseError (List Element)
  unfolding named_children
  entries_of root =
      let name = m.local_name (tag_of root) in
      let children = children_of root in
      if str_eq name "rss"
      then ok (
          named_children "item" (children_of (channel_of root (named_children "channel" children))))
      else if str_eq name "feed" || str_eq name "rdf"
      then ok (or_list (named_children "entry" children) (named_children "item" children))
      else err not_a_feed

  -- `parse_feed`
  pub parse_feed : Net → List ℕ → Result ParseError (List Parsed)
  unfolding entries_of parse_items
  parse_feed net payload = do
    refuse (m.has_upper "<!DOCTYPE" payload || m.has_upper "<!ENTITY" payload) dtd
    root ← or_raise (m.fromstring payload) not_xml
    entries ← entries_of root
    parse_items net (take max_items entries)
