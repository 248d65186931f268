-- ===== src/Portal/Api/Routes.antt =====
-- The table of endpoints: the conditions of `_dispatch_api` and `_dispatch` of portal/app/main.py, in
-- their order.
use Prim.Native.Char.{code}
use Prim.Native.String.{[], ◌∷◌}
use cascade_vpn.Base.{
  ℕ, String, Bool, true, false, ◌&&◌, Option, none, some, List, ◌==◌, str_eq, if◌then◌else◌,
}
use mathlib.Core.List.{[] as nil, ◌∷◌ as ◌▸◌}
use cascade_vpn.Portal.Security.{is_safe_code}
use cascade_vpn.Portal.Request.{Method, get, head, post, delete}
use cascade_vpn.Portal.Pages.{is_slug}

-- What `int(...)` makes of a text or a value, as SQLite binds it: a key that rows may have, a number
-- that no row has, no integer, or an `OverflowError`.
pub data Key : Type 0 where
  key : ℕ → Key
  no_row not_an_integer overflows : Key

pub data Endpoint : Type 0 where
  health session_state login logout : Endpoint
  status services new_service check_services : Endpoint
  drop_service : Key → Endpoint
  feed_items feeds new_feed refresh_feeds : Endpoint
  drop_feed : Key → Endpoint
  links new_link : Endpoint
  drop_link : String → Endpoint
  references unknown : Endpoint
  reference : String → Endpoint

-- The text after a prefix, where it begins with that.
unfoldable pub after : String → String → Option String
after [] text = some text
after (c ∷ prefix) [] = none
after (c ∷ prefix) (d ∷ text) =
    let rest = after prefix text in if code c == code d then rest else none

-- `method in {"GET", "HEAD"}`
abbrev pub reads : Method → Bool
reads get = true
reads head = true
reads _ = false

abbrev pub is_post : Method → Bool
is_post post = true
is_post _ = false

abbrev pub is_delete : Method → Bool
is_delete delete = true
is_delete _ = false

abbrev pub only_if : Bool → Endpoint → Option Endpoint
only_if test e = if test then some e else none

-- The rest of a path, where the pattern admits it.
abbrev pub matching : (String → Bool) → Option String → Option String
matching test none = none
matching test (some rest) = if test rest then some rest else none

pub first_of : List (Option Endpoint) → Endpoint
first_of nil = unknown
first_of (none ▸ es) = first_of es
first_of (some e ▸ es) = e

module _ (digits : String → Option Key) where
  -- A path whose rest `\d+` matches.
  abbrev numbered : Bool → (Key → Endpoint) → Option String → Option Endpoint
  numbered test e none = none
  numbered test e (some rest) = elim (digits rest) [ none ↦ none | some k ↦ only_if test (e k) ]

  abbrev named : Bool → (String → Endpoint) → Option String → Option Endpoint
  named test e none = none
  named test e (some rest) = only_if test (e rest)

  -- The conditions of `_dispatch_api`
  pub endpoint_of : Method → String → Endpoint
  unfolding first_of
  endpoint_of method path = first_of (
      only_if (str_eq path "/api/health" && reads method) health
      ▸ only_if (str_eq path "/api/auth/session" && reads method) session_state
      ▸ only_if (str_eq path "/api/auth/login" && is_post method) login
      ▸ only_if (str_eq path "/api/auth/logout" && is_post method) logout
      ▸ only_if (str_eq path "/api/status" && reads method) status
      ▸ only_if (str_eq path "/api/status/services" && reads method) services
      ▸ only_if (str_eq path "/api/status/services" && is_post method) new_service
      ▸ numbered (is_delete method) drop_service (after "/api/status/services/" path)
      ▸ only_if (str_eq path "/api/status/check" && is_post method) check_services
      ▸ only_if (str_eq path "/api/feeds/items" && reads method) feed_items
      ▸ only_if (str_eq path "/api/feeds" && reads method) feeds
      ▸ only_if (str_eq path "/api/feeds" && is_post method) new_feed
      ▸ numbered (is_delete method) drop_feed (after "/api/feeds/" path)
      ▸ only_if (str_eq path "/api/feeds/refresh" && is_post method) refresh_feeds
      ▸ only_if (str_eq path "/api/links" && reads method) links
      ▸ only_if (str_eq path "/api/links" && is_post method) new_link
      ▸ named (is_delete method) drop_link (matching is_safe_code (after "/api/links/" path))
      ▸ only_if (str_eq path "/api/reference" && reads method) references
      ▸ named (reads method) reference (matching is_slug (after "/api/reference/" path))
      ▸ nil)

-- `SHORT_LINK_PATH`: the code of the path.
pub short_code : String → Option String
short_code path = matching is_safe_code (after "/s/" path)
