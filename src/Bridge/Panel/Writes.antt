-- ===== src/Bridge/Panel/Writes.antt =====
-- What the operations of the panel's client write.
use mathlib.Core.List.{append-nil}
use cascade_vpn.Base.{
  ◌≡◌, refl, ap, ◌∙◌, Bool, true, false, not, ◌⊎◌, inl, inr, List, [], ◌∷◌, ◌++◌, map, keep, str_eq,
  if◌then◌else◌, Result, ok, err, arith,
}
use cascade_vpn.Bridge.Json.{Json, array, nil}
use cascade_vpn.Bridge.Panel.{
  Config, Endpoint, csrf, list, login, add, update, Sent, Server, Client, Failure, Call, continue,
  ◌>>=◌, ◌>>◌, pure, lift, field, request, fetch_csrf_token, log_in, ensure_login, require_success,
  mark_logged_in, operate, list_inbounds, or_else, after_csrf, set_token,
}

-- The endpoints that change the panel.
unfoldable pub is_write : Endpoint → Bool
is_write (add payload) = true
is_write (update id payload) = true
is_write _ = false

-- The changes that the requests so far asked for, in their order.
unfoldable pub written : Client → List Endpoint
written c = keep is_write (map (λ s. s.endpoint) c.sent)

-- What one more request adds to them.
abbrev pub write_of : Endpoint → List Endpoint
write_of e = keep is_write (e ∷ [])

map-append {ℓ κ} :
    {A : Type ℓ} {B : Type κ} (f : A → B) (xs ys : List A) → map f (xs ++ ys) ≡ map f xs ++ map f ys
map-append f [] ys = refl
map-append f (x ∷ xs) ys = ap (λ t. f x ∷ t) (map-append f xs ys)

keep-append {ℓ} :
    {A : Type ℓ} (p : A → Bool) (xs ys : List A) → keep p (xs ++ ys) ≡ keep p xs ++ keep p ys
keep-append p [] ys = refl
keep-append p (x ∷ xs) ys = ground (arith, keep-append p xs ys)

module _ (server : Server) (cfg : Config) where
  request-written :
      (e : Endpoint) (c : Client) → written (request server cfg e c).1 ≡ written c ++ write_of e
  unfolding request written
  request-written e c =
      ap (keep is_write) (map-append (λ s. s.endpoint) c.sent _)
      ∙ keep-append is_write (map (λ s. s.endpoint) c.sent) (e ∷ [])

  -- A call that writes nothing.
  abbrev pub Quiet {ℓ} : {A : Type ℓ} → Call A → Type 0
  Quiet m = (c : Client) → written (m c).1 ≡ written c

  continue-Quiet {ℓ κ} :
      {A : Type ℓ} {B : Type κ} (k : A → Call B) (c : Client) (x : Result Failure A × Client)
      → written x.1 ≡ written c
      → ((a : A) → Quiet (k a))
      → written (continue x k).1 ≡ written c
  continue-Quiet k c (ok a, c') h quiet = quiet a c' ∙ h
  continue-Quiet k c (err e, c') h quiet = h

  bind-Quiet {ℓ κ} :
      {A : Type ℓ} {B : Type κ} (m : Call A) (k : A → Call B)
      → Quiet m
      → ((a : A) → Quiet (k a))
      → Quiet (m >>= k)
  bind-Quiet m k h quiet c = continue-Quiet k c (m c) (h c) quiet

  request-Quiet : (e : Endpoint) → write_of e ≡ [] → Quiet (request server cfg e)
  request-Quiet e h c = request-written e c ∙ ap (λ t. written c ++ t) h ∙ append-nil (written c)

  -- Reading an answer sends nothing.
  require_success-same : (res : Json) (c : Client) → (require_success server cfg res c).1 ≡ c
  require_success-same res c = ground arith

  require_success-Quiet : (res : Json) → Quiet (require_success server cfg res)
  require_success-Quiet res c = ap written (require_success-same res c)

  set_token-sent : (value : Json) (c : Client) → (set_token server cfg value c).1.sent ≡ c.sent
  set_token-sent value c = ground arith

  after_csrf-sent :
      (r : Result Failure Json) (c : Client) → (after_csrf server cfg (r, c)).1.sent ≡ c.sent
  after_csrf-sent (err e) c = ground arith
  after_csrf-sent (ok res) c = by_field (field "obj" res)
    where
      by_field :
          (value : Result Failure Json)
          → (continue (value, c) (set_token server cfg)).1.sent ≡ c.sent
      by_field (ok value) = set_token-sent value c
      by_field (err e) = refl

  abbrev asked : List Sent → List Endpoint
  asked sent = keep is_write (map (λ s. s.endpoint) sent)

  fetch_csrf_token-Quiet : Quiet (fetch_csrf_token server cfg)
  unfolding fetch_csrf_token is_write written
  fetch_csrf_token-Quiet c =
      let (answer, c') = request server cfg csrf c in
      ap asked (after_csrf-sent answer c') ∙ request-Quiet csrf refl c

  log_in-Quiet : Quiet (log_in server cfg)
  unfolding log_in is_write written
  log_in-Quiet c = by_token (str_eq cfg.panel_api_token "")
    where
      ask : Call (Unit {0})
      ask =
          fetch_csrf_token server cfg
          >> (request server cfg (login cfg.panel_user cfg.panel_pass) >>= λ res.
              require_success server cfg res >> mark_logged_in server cfg)

      by_token :
          (b : Bool) → written ((if not b then mark_logged_in server cfg else ask) c).1 ≡ written c
      by_token false = refl
      by_token true =
          bind-Quiet (fetch_csrf_token server cfg) _ fetch_csrf_token-Quiet
            (λ _.
              bind-Quiet (request server cfg (login cfg.panel_user cfg.panel_pass)) _
                (request-Quiet (login cfg.panel_user cfg.panel_pass) refl)
                λ res.
                  bind-Quiet (require_success server cfg res) _ (require_success-Quiet res)
                    λ _ c. refl)
            c

  ensure_login-Quiet : Quiet (ensure_login server cfg)
  unfolding ensure_login
  ensure_login-Quiet c = by_state c.logged_in
    where
      by_state : (b : Bool) → written (if b then (ok tt, c) else log_in server cfg c).1 ≡ written c
      by_state true = refl
      by_state false = log_in-Quiet c

  -- An operation asks for its change or, where it does not get that far, for none.
  abbrev pub MayWrite : Endpoint → Client → Client → Type 0
  MayWrite e c c' = (written c' ≡ written c) ⊎ (written c' ≡ written c ++ write_of e)

  pub operate-MayWrite :
      (e : Endpoint) (default : Json) (c : Client) → MayWrite e c (operate server cfg e default c).1
  unfolding operate
  operate-MayWrite e default c = by_login (ensure_login server cfg c) (ensure_login-Quiet c)
    where
      read : Json → Call Json
      read res =
          require_success server cfg res
          >> (lift (field "obj" res) >>= λ obj. pure (or_else obj default))

      read-Quiet : (res : Json) → Quiet (read res)
      read-Quiet res =
          bind-Quiet (require_success server cfg res) _ (require_success-Quiet res)
            λ _. bind-Quiet (lift (field "obj" res)) _ (λ c. refl) λ obj c. refl

      by_login :
          (x : Result Failure (Unit {0}) × Client)
          → written x.1 ≡ written c
          → MayWrite e c (continue x (λ _. request server cfg e >>= read)).1
      by_login (err problem, c') h = inl h
      by_login (ok _, c') h =
          let asked_for = request server cfg e c' in
          inr (
            continue-Quiet read asked_for.1 asked_for refl read-Quiet
            ∙ request-written e c'
            ∙ ap (λ t. t ++ write_of e) h)

  pub list_inbounds-Quiet : Quiet (list_inbounds server cfg)
  unfolding list_inbounds is_write
  list_inbounds-Quiet c = by_outcome _ (operate-MayWrite list (array nil) c)
    where
      by_outcome : (c' : Client) → MayWrite list c c' → written c' ≡ written c
      by_outcome c' (inl h) = h
      by_outcome c' (inr h) = h ∙ append-nil (written c)
