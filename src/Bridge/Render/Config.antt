-- ===== src/Bridge/Render/Config.antt =====
-- `render_vpn_config` and `guard_loop` of bridge/ttx_bridge.py, on the code points of a text.
use cascade_vpn.Base.{
  ℕ, Bool, false, ◌&&◌, not, Option, none, some, List, [], ◌∷◌, ◌++◌, any, ◌==◌, list_eq, codes,
  begins, Parts, cut, if◌then◌else◌,
}
use cascade_vpn.Bridge.Render.{Pattern, strip_lines}

-- The functions of the standard library that are called.
pub record Texts : Type 0 where
  pub pattern : Pattern
  pub splitlines : List ℕ → List (List ℕ)
  pub rstrip : List ℕ → List ℕ
  -- `str(n)`
  pub decimal : ℕ → List ℕ
  -- the group of `^\s*listen_address\s*=\s*"([^"]+)"`
  pub listen_address : List ℕ → Option (List ℕ)

-- The fields of `Config` that the text depends on.
pub record Upstream : Type 0 where
  pub ing_listen : List ℕ
  pub ing_port : ℕ
  pub tt_reach_host : List ℕ
  pub tt_extended_auth : Bool

abbrev pub marker : List ℕ
marker = codes "# --- managed by ttx-bridge: do not edit below this line ---"

abbrev newline : ℕ
newline = 10

abbrev colon : ℕ
colon = 58

-- `"\n".join(lines)`
unfoldable pub join_lines : List (List ℕ) → List ℕ
join_lines [] = []
join_lines (line ∷ []) = line
join_lines (line ∷ next ∷ lines) = line ++ (newline ∷ join_lines (next ∷ lines))

-- What follows the last colon: `rsplit(":", 1)[-1]`.
unfoldable pub after_colon : List ℕ → List ℕ
after_colon [] = []
after_colon (c ∷ cs) =
    let rest = after_colon cs in
    if any (λ d. d == colon) (c ∷ cs)
    then (if any (λ d. d == colon) cs then rest else cs)
    else c ∷ cs

abbrev or_text : List ℕ → List ℕ → List ℕ
or_text [] other = other
or_text (c ∷ cs) other = c ∷ cs

module _ (t : Texts) (cfg : Upstream) where
  abbrev bracketed : List ℕ → List ℕ
  bracketed host =
      if any (λ c. c == colon) host && not (begins (codes "[") host)
      then codes "[" ++ (host ++ codes "]")
      else host

  -- `Config.socks_address`
  pub socks_address : List ℕ
  socks_address =
      bracketed (or_text cfg.tt_reach_host cfg.ing_listen) ++ (colon ∷ t.decimal cfg.ing_port)

  -- `strip_tables`
  pub strip_tables : List ℕ → List (List ℕ) → List ℕ
  strip_tables text names =
      t.rstrip (join_lines (strip_lines t.pattern names false (t.splitlines text))) ++ codes "\n"

  abbrev before_marker : List ℕ → Option Parts → List ℕ
  before_marker text none = text
  before_marker text (some (before, after)) = before

  -- `base.split(MARKER)[0]`
  pub own_part : List ℕ → List ℕ
  own_part base = before_marker base (cut marker base)

  abbrev truth : List ℕ
  truth = if cfg.tt_extended_auth then codes "true" else codes "false"

  pub managed_lines : List (List ℕ)
  unfolding socks_address
  managed_lines =
      []
      ∷ marker
      ∷ codes "# Секцию генерирует ttx-bridge. Правьте vpn.base.toml, а не этот файл."
      ∷ codes "[forward_protocol.socks5]"
      ∷ (codes "address = \"" ++ (socks_address ++ codes "\""))
      ∷ (codes "extended_auth = " ++ truth)
      ∷ []
      ∷ []

  -- `render_vpn_config`, of the text of the base file.
  unfoldable pub render_vpn_config : List ℕ → List ℕ
  unfolding strip_tables own_part managed_lines
  render_vpn_config base =
      strip_tables (own_part base) (codes "forward_protocol" ∷ []) ++ join_lines managed_lines

  -- `guard_loop`: the text is refused where the endpoint would listen on the port of its upstream.
  unfoldable pub is_looping : List ℕ → Bool
  is_looping rendered = elim (t.listen_address rendered) [
    | none ↦ false
    | some address ↦ list_eq (after_colon address) (t.decimal cfg.ing_port)
  ]
