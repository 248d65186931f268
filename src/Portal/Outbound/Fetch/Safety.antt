-- ===== src/Portal/Outbound/Fetch/Safety.antt =====
-- Where the connections of `fetch_url` go, how many there are, and how much they read.
use cascade_vpn.Base.{
  ℕ, zero, suc, ◌+◌, ◌≤◌, String, true, false, ◌≡◌, refl, arith, Option, none, some, List, [], ◌∷◌,
  length, take, any, All, Bool-cases, inl, inr, ◌>>=◌, ◌==◌, Result, ok, err, split_ok, or_raise,
}
use cascade_vpn.Portal.Outbound.{
  Address, Net, Internet, Policy, Response, UrlError, ValidatedUrl, Url, permitted_address,
  choose_address, normalized, check_parts, addresses_of, resolved, parse_url, validate_outbound_url,
}
use cascade_vpn.Portal.Outbound.Fetch.{
  FetchFailure, value_error, FetchResult, Connection, Fetched, Next, finished, redirected, follow,
  pass, fetch_from, fetch_url, connection_to, connection_failed, read_sent, connect, answered,
  is_redirect, redirect_of, finish_with, read_limited, decode, unzip,
}

module _ (net : Net) (policy : Policy) where
  -- The address and the port of a connection are ones that the policy admits.
  abbrev pub Admitted : Connection → Type 0
  Admitted c =
      (permitted_address net policy.allow_private c.target_ip ≡ true)
      × (any (λ p. p == c.port) policy.allowed_ports ≡ true)

  abbrev pub Validated : ValidatedUrl → Type 0
  Validated target = Admitted (connection_to target)

  choose_address-permitted :
      (addresses : List Address) (a : Address)
      → choose_address net policy.allow_private addresses ≡ ok a
      → permitted_address net policy.allow_private a ≡ true
  unfolding choose_address
  choose_address-permitted [] a h = ground arith
  choose_address-permitted (b ∷ rest) a h = ground arith

  check_parts-port :
      (u : Url) (parts : String × ℕ)
      → check_parts net policy u ≡ ok parts
      → any (λ p. p == parts.1) policy.allowed_ports ≡ true
  unfolding check_parts
  check_parts-port u parts h = ground arith

  resolved-Validated :
      (world : Internet) (i : ℕ) (u : Url) (parts : String × ℕ) (target : ValidatedUrl)
      → any (λ p. p == parts.1) policy.allowed_ports ≡ true
      → resolved net world i policy u parts ≡ ok target
      → Validated target
  unfolding resolved normalized
  resolved-Validated world i u parts target port h =
      let (addresses, _, h') = split_ok (addresses_of net world i parts.0 parts.1) _ target h in
      let (address, chosen, h'') =
        split_ok (choose_address net policy.allow_private addresses) _ target h' in
      let permitted = choose_address-permitted addresses address chosen in ground arith

  pub validate-Validated :
      (world : Internet) (i : ℕ) (raw : String) (target : ValidatedUrl)
      → validate_outbound_url net world i policy raw ≡ ok target
      → Validated target
  unfolding validate_outbound_url
  validate-Validated world i raw target h =
      let (u, _, h') = split_ok (parse_url net raw) _ target h in
      let (parts, checked, h'') = split_ok (check_parts net policy u) _ target h' in
      resolved-Validated world i u parts target (check_parts-port u parts checked) h''

module _ (net : Net) (world : Internet) (policy : Policy) (max_bytes : ℕ) where
  -- A result is no redirection, and its body no longer than the limit.
  abbrev pub Bounded : Result FetchFailure FetchResult → Type 0
  Bounded (ok r) = (is_redirect r.status ≡ false) × (length r.body ≤ max_bytes)
  Bounded (err e) = Unit

  decode-length :
      (encoding : String) (raw body : List ℕ)
      → length raw ≤ max_bytes
      → decode net max_bytes encoding raw ≡ ok body
      → length body ≤ max_bytes
  unfolding decode unzip
  decode-length encoding raw body h e = ground arith

  read_sent-length :
      (encoding : String) (sent body : List ℕ)
      → read_sent net max_bytes encoding sent ≡ ok body
      → length body ≤ max_bytes
  unfolding read_sent
  read_sent-length encoding sent body e =
      ground (arith, decode-length encoding (take (max_bytes + 1) sent) body)

  read_limited-length :
      (response : Response) (body : List ℕ)
      → read_limited net max_bytes response ≡ ok body
      → length body ≤ max_bytes
  unfolding read_limited
  read_limited-length response body e =
      let (sent, _, e') = split_ok (or_raise response.body connection_failed) _ body e in
      read_sent-length response.encoding sent body e'

  finish_with-Bounded :
      (target : ValidatedUrl) (response : Response)
      → is_redirect response.status ≡ false
      → Bounded (finish_with net max_bytes target response)
  unfolding finish_with
  finish_with-Bounded target response h = read-Bounded (read_limited net max_bytes response) refl
    where
      read-Bounded :
          (r : Result FetchFailure (List ℕ))
          → read_limited net max_bytes response ≡ r
          → Bounded (
              r >>= λ body. ok (record { url = target.url; status = response.status; body = body }))
      read-Bounded (err e) _ = tt
      read-Bounded (ok body) e = (h, read_limited-length response body e)

  -- An answer that ends the loop is bounded.
  abbrev Ending : Next → Type 0
  Ending (finished r) = Bounded r
  Ending (redirected location) = Unit

  redirect_of-Ending : (response : Response) → Ending (redirect_of response)
  unfolding redirect_of
  redirect_of-Ending response = ground arith

  answered-Ending :
      (target : ValidatedUrl) (answer : Option Response)
      → Ending (answered net max_bytes target answer)
  unfolding answered
  answered-Ending target none = tt
  answered-Ending target (some response) = elim (Bool-cases (is_redirect response.status)) [
    | inl h ↦ rw h (redirect_of-Ending response)
    | inr h ↦ rw h (finish_with-Bounded target response h)
  ]

  connect-Ending : (i : ℕ) (target : ValidatedUrl) → Ending (connect net world max_bytes i target)
  unfolding connect
  connect-Ending i target = answered-Ending target (world.respond i target.target_ip target.port)

  -- At most `n` connections, each to an admitted address and port, and a bounded result.
  abbrev pub Within : ℕ → Fetched → Type 0
  Within n (r, cs) = All (Admitted net policy) cs × (length cs ≤ n) × Bounded r

  abbrev NextWithin : ℕ → Option (String → Fetched) → String → Type 0
  NextWithin n none url = Unit
  NextWithin n (some next) url = Within n (next url)

  follow-Within :
      (n : ℕ) (next : Option (String → Fetched)) (target : ValidatedUrl) (a : Next)
      → ((url : String) → NextWithin n next url)
      → Ending a
      → Within n (follow net next target a)
  unfolding follow
  follow-Within n next target (finished r) h ending = (tt, omega arith, ending)
  follow-Within n none target (redirected location) h _ = (tt, omega arith, tt)
  follow-Within n (some next) target (redirected location) h _ =
      joined-Within (net.urljoin target.url location)
    where
      joined-Within :
          (joined : Option String)
          → Within n (elim joined [ none ↦ (err value_error, []) | some url ↦ next url ])
      joined-Within none = (tt, omega arith, tt)
      joined-Within (some url) = h url

  pass-Within :
      (n i : ℕ) (next : Option (String → Fetched)) (url : String)
      → ((url : String) → NextWithin n next url)
      → Within
          (suc n)
          (pass net world max_bytes i next (validate_outbound_url net world i policy url))
  unfolding pass
  pass-Within n i next url h = validated-Within (validate_outbound_url net world i policy url) refl
    where
      validated-Within :
          (v : Result UrlError ValidatedUrl)
          → validate_outbound_url net world i policy url ≡ v
          → Within (suc n) (pass net world max_bytes i next v)
      validated-Within (err e) _ = (tt, omega arith, tt)
      validated-Within (ok target) valid =
          let a = connect net world max_bytes i target in
          let followed = follow-Within n next target a h (connect-Ending i target) in
          (
            (validate-Validated net policy world i url target valid, followed.0),
            omega arith,
            followed.2,
          )

  fetch_from-Within :
      (redirects i : ℕ) (url : String)
      → Within (suc redirects) (fetch_from net world policy max_bytes redirects i url)
  unfolding fetch_from
  fetch_from-Within zero i url = pass-Within 0 i none url (λ _. tt)
  fetch_from-Within (suc redirects) i url =
      pass-Within (suc redirects) i (some (fetch_from net world policy max_bytes redirects (suc i)))
        url (fetch_from-Within redirects (suc i))

  -- The fetch of a URL makes at most one connection more than the redirections that it may follow,
  -- each to an address and a port that the policy admits, whatever names resolve to and servers
  -- answer; its result is no redirection, and its body no longer than the limit.
  pub fetch_url-Within :
      (max_redirects : ℕ) (url : String)
      → Within (suc max_redirects) (fetch_url net world policy max_bytes max_redirects url)
  unfolding fetch_url
  fetch_url-Within max_redirects url = fetch_from-Within max_redirects 0 url
