-- ===== src/Portal/Client.antt =====
-- `_rate_limit_client` of portal/app/main.py: the client that a login attempt counts for.
use Prim.Native.Char.{Char, code}
use Prim.Native.String.{[], ◌∷◌, ◌++◌}
use text.Mathlib.TextLemmas.{nil-append, cons-append, append-eq-nil_iff}
use cascade_vpn.Base.{
  refl, ap, ◌∙◌, any_char, ◌==◌, str_eq_iff, get_or, ◌≡◌, String, Bool, true, false, ◌&&◌, ◌||◌,
  not, Option, none, some, str_eq, if◌then◌else◌, arith,
}

-- What `ipaddress.ip_address` finds.
pub record IpAddress : Type 0 where
  pub is_loopback : Bool
  pub is_unspecified : Bool
  pub is_multicast : Bool
  pub compressed : String

-- The functions of the standard library that are called.
pub record Addresses : Type 0 where
  -- `ipaddress.ip_address(text.split("%", 1)[0])`, none for a `ValueError`
  pub ip_address : String → Option IpAddress
  -- `strip()`
  pub strip : String → String
  -- `text[:64]`
  pub clip : String → String

-- What follows the last comma.
unfoldable pub after_comma : String → Option String
after_comma [] = none
after_comma (c ∷ s) =
    let rest = after_comma s in
    elim rest [ none ↦ (if code c == 44 then some s else none) | some t ↦ some t ]

-- `rsplit(",", 1)[-1]`
pub last_value : String → String
unfolding after_comma
last_value s = get_or (after_comma s) s

abbrev pub attributable : Option IpAddress → Option String
attributable none = none
attributable (some a) = if not (a.is_unspecified || a.is_multicast) then some a.compressed else none

-- The client that a trusted hop on the loopback names.
pub forwarded_client : Addresses → Bool → Option String → Option String
unfolding last_value
forwarded_client lib trust_proxy none = none
forwarded_client lib trust_proxy (some forwarded_for) =
    if trust_proxy && not (str_eq forwarded_for "")
    then attributable (lib.ip_address (lib.strip (last_value forwarded_for)))
    else none

pub client_of_peer : Addresses → Bool → String → Option String → Option IpAddress → Option String
unfolding forwarded_client
client_of_peer lib trust_proxy peer_address forwarded_for none = some (lib.clip peer_address)
client_of_peer lib trust_proxy peer_address forwarded_for (some peer) =
    if peer.is_loopback
    then forwarded_client lib trust_proxy forwarded_for
    else some peer.compressed

pub rate_limit_client : Addresses → Bool → String → Option String → Option String
unfolding client_of_peer
rate_limit_client lib trust_proxy peer_address forwarded_for =
    client_of_peer lib trust_proxy peer_address forwarded_for (lib.ip_address peer_address)

-- The peer may name another client: it is on the loopback, and the proxy is trusted.
abbrev pub may_forward : Addresses → Bool → String → Bool
may_forward lib trust_proxy peer_address = elim (lib.ip_address peer_address) [
  | none ↦ false
  | some peer ↦ peer.is_loopback && trust_proxy
]

-- Unless a trusted proxy on the loopback sends it, an X-Forwarded-For header does not change the
-- client that an attempt counts for.
pub rate_limit_client-forged :
    (lib : Addresses) (trust_proxy : Bool) (peer_address : String) (sent forged : Option String)
    → may_forward lib trust_proxy peer_address ≡ false
    → rate_limit_client lib trust_proxy peer_address sent
      ≡ rate_limit_client lib trust_proxy peer_address forged
unfolding rate_limit_client client_of_peer forwarded_client
rate_limit_client-forged lib trust_proxy peer_address sent forged h = ground arith

after_comma-plain : (s : String) → any_char (λ c. c == 44) s ≡ false → after_comma s ≡ none
unfolding after_comma any_char
after_comma-plain [] h = refl
after_comma-plain (c ∷ s) h = ground (arith, after_comma-plain s)

-- A text whose rest has a comma, and one that begins with its only comma.
after_comma_later :
    (c : Char) (s v : String) → after_comma s ≡ some v → after_comma (c ∷ s) ≡ some v
unfolding after_comma
after_comma_later c s v h = rw h

after_comma_first :
    (c : Char) (s : String)
    → (code c == 44) ≡ true
    → after_comma s ≡ none
    → after_comma (c ∷ s) ≡ some s
unfolding after_comma
after_comma_first c s comma h = rw (h, comma)

abbrev comma : Char
comma = ","

comma-append : (v : String) → "," ++ v ≡ comma ∷ v
comma-append v = cons-append comma [] v ∙ ap (λ t. comma ∷ t) (nil-append v)

after_comma-append :
    (p v : String) → any_char (λ c. c == 44) v ≡ false → after_comma (p ++ ("," ++ v)) ≡ some v
after_comma-append [] v h =
    ap after_comma (nil-append ("," ++ v) ∙ comma-append v)
    ∙ after_comma_first comma v refl (after_comma-plain v h)
after_comma-append (c ∷ p) v h =
    ap after_comma (cons-append c p ("," ++ v))
    ∙ after_comma_later c (p ++ ("," ++ v)) v (after_comma-append p v h)

not_empty : (b : Bool) → (b ≡ true → ⊥) → b ≡ false
not_empty true h = absurd (h refl)
not_empty false h = refl

comma-ne-empty : (p v : String) → str_eq (p ++ ("," ++ v)) "" ≡ false
comma-ne-empty p v = not_empty (str_eq (p ++ ("," ++ v)) "") λ h.
    let both = append-eq-nil_iff.0 ((str_eq_iff (p ++ ("," ++ v)) "").0 h) in
    ne_nil (append-eq-nil_iff.0 both.1).0
  where
    ne_nil : ◌≡◌ {A = String} "," "" → ⊥
    ne_nil h = ground (arith, str_eq_iff "," "")

-- Behind a trusted proxy only what follows the last comma of an X-Forwarded-For header names the
-- client, whatever a sender put before it.
pub rate_limit_client-last :
    (lib : Addresses) (peer_address sent value : String)
    → any_char (λ c. c == 44) value ≡ false
    → str_eq value "" ≡ false
    → rate_limit_client lib true peer_address (some (sent ++ ("," ++ value)))
      ≡ rate_limit_client lib true peer_address (some value)
unfolding rate_limit_client client_of_peer forwarded_client last_value
rate_limit_client-last lib peer_address sent value plain given =
    same (ap (λ x. get_or x header) (after_comma-append sent value plain))
      (ap (λ x. get_or x value) (after_comma-plain value plain))
  where
    header : String
    header = sent ++ ("," ++ value)

    same :
        last_value header ≡ value
        → last_value value ≡ value
        → rate_limit_client lib true peer_address (some header)
          ≡ rate_limit_client lib true peer_address (some value)
    same h k = ground (arith, h, k, comma-ne-empty sent value)
