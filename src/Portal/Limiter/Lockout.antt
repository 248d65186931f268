-- ===== src/Portal/Limiter/Lockout.antt =====
-- When `_LoginLimiter.begin` refuses one client, and when it lets the client in again.
use cascade_vpn.Base.{
  ℕ, ◌+◌, ◌-◌, ◌*◌, ◌≤◌, ◌<◌, min, String, ◌≡◌, refl, true, false, some, List, ◌⊎◌, [], ◌∷◌, lookup,
  arith, length, Distinct, str_eq_refl, Option-cases, inl, inr, All, lookup-keep_values,
  lookup-insert, lookup-remove,
}
use cascade_vpn.Portal.Limiter.{
  Limiter, ClientState, state_of, survives, last_at_least, drop_old, cleanup, refill, prune,
  prune_stored, begin_client, begin, finish, settled,
}
use cascade_vpn.Portal.Limiter.Clients.{ready, ready-Lighter, settings-ready}

-- A failure counts while it lies within the window.
abbrev pub IsRecent : ℕ → ℕ → ℕ → Type 0
IsRecent now window t = now ≤ t + window

abbrev pub IsOld : ℕ → ℕ → ℕ → Type 0
IsOld now window t = t + window < now

drop_old-recent :
    (now window : ℕ) (ts : List ℕ) → All (IsRecent now window) ts → drop_old now window ts ≡ ts
unfolding drop_old
drop_old-recent now window [] h = refl
drop_old-recent now window (t ∷ ts) h = ground arith

drop_old-old :
    (now window : ℕ) (ts : List ℕ) → All (IsOld now window) ts → drop_old now window ts ≡ []
unfolding drop_old
drop_old-old now window [] h = refl
drop_old-old now window (t ∷ ts) h = ground (arith, drop_old-old now window ts h.1)

last-recent :
    (now window t : ℕ) (ts : List ℕ)
    → All (IsRecent now window) (t ∷ ts)
    → last_at_least now window (t ∷ ts) ≡ true
last-recent now window t [] h = ground arith
last-recent now window t (u ∷ ts) h = last-recent now window u ts h.1

survives_recent :
    (now window : ℕ) (s : ClientState)
    → All (IsRecent now window) s.failures
    → 0 < length s.failures + s.in_flight
    → survives now window s ≡ true
unfolding survives
survives_recent now window s h busy = go s.failures s.in_flight h busy
  where
    go :
        (ts : List ℕ) (n : ℕ)
        → All (IsRecent now window) ts
        → 0 < length ts + n
        → survives now window (record { failures = ts; in_flight = n }) ≡ true
    go [] n r b = ground arith
    go (t ∷ ts) n r b = ground (arith, last-recent now window t ts r)

cleanup_recent :
    (l : Limiter) (now : ℕ) (k : String) (s : ClientState)
    → Distinct l.clients
    → lookup k l.clients ≡ some s
    → All (IsRecent now l.failure_window) s.failures
    → 0 < length s.failures + s.in_flight
    → lookup k (cleanup l now).clients ≡ some s
unfolding cleanup
cleanup_recent l now k s d found r busy = ground (
  arith,
  lookup-keep_values (survives now l.failure_window) k l.clients d,
  survives_recent now l.failure_window s r busy,
)

failures-prune_stored :
    (l : Limiter) (now : ℕ) (k : String)
    → (state_of (prune_stored l now k) k).failures
      ≡ drop_old now l.failure_window (state_of l k).failures
unfolding prune_stored prune drop_old
failures-prune_stored l now k = elim (Option-cases (lookup k l.clients)) [
  | inl absent ↦ ground arith
  | inr (s, found) ↦ ground (arith, lookup-insert k k (prune l now s) l.clients, str_eq_refl k)
]

settings-cleanup : (l : Limiter) (now : ℕ) → (cleanup l now).settings ≡ l.settings
unfolding cleanup
settings-cleanup l now = ground arith

clients-refill : (l : Limiter) (now : ℕ) → (refill l now).clients ≡ l.clients
unfolding refill
clients-refill l now = refl

settings-refill : (l : Limiter) (now : ℕ) → (refill l now).settings ≡ l.settings
unfolding refill
settings-refill l now = refl

-- A client whose failures all lie within the window, and which with its attempts under way has
-- reached a positive limit, is refused.
pub begin_refused :
    (l : Limiter) (now : ℕ) (k : String) (s : ClientState)
    → Distinct l.clients
    → lookup k l.clients ≡ some s
    → All (IsRecent now l.failure_window) s.failures
    → 0 < l.failure_limit
    → l.failure_limit ≤ length s.failures + s.in_flight
    → (begin l now (some k)).1 ≡ false
unfolding begin begin_client
begin_refused l now k s d found r pos full = ground (
  arith,
  settings-ready l now k,
  settings-cleanup l now,
  settings-refill (cleanup l now) now,
  clients-refill (cleanup l now) now,
  cleanup_recent l now k s d found r,
  ready-Lighter l now k k d,
  failures-prune_stored (refill (cleanup l now) now) now k,
  drop_old-recent now l.failure_window s.failures r,
)

failures-cleanup :
    (l : Limiter) (now : ℕ) (k : String)
    → Distinct l.clients
    → ((state_of (cleanup l now) k).failures ≡ (state_of l k).failures)
      ⊎ ((state_of (cleanup l now) k).failures ≡ [])
unfolding cleanup
failures-cleanup l now k d =
    ground (arith, lookup-keep_values (survives now l.failure_window) k l.clients d)

failures-ready :
    (l : Limiter) (now : ℕ) (k : String)
    → Distinct l.clients
    → All (IsOld now l.failure_window) (state_of l k).failures
    → (state_of (ready l now k) k).failures ≡ []
failures-ready l now k d old =
    let base = refill (cleanup l now) now in
    let pruned = failures-prune_stored base now k in
    elim (failures-cleanup l now k d) [
      | inl same ↦ ground (
        arith,
        pruned,
        same,
        clients-refill (cleanup l now) now,
        settings-refill (cleanup l now) now,
        settings-cleanup l now,
        drop_old-old now l.failure_window (state_of l k).failures old,
      )
      | inr dropped ↦ ground (
        arith,
        pruned,
        dropped,
        clients-refill (cleanup l now) now,
        drop_old-old now base.failure_window [] tt,
      )
    ]

tokens-ready :
    (l : Limiter) (now : ℕ) (k : String)
    → (ready l now k).global_tokens
      ≡ min (l.global_burst * l.second) (l.global_tokens + (now - l.last_refill) * l.global_rate)
unfolding cleanup refill prune_stored
tokens-ready l now k = ground arith

le-burst : (burst second : ℕ) → 0 < burst → second ≤ burst * second
le-burst burst second h = grind arith

-- Once the failures of a client that has no attempt under way are older than the window, the client
-- is admitted if the refilled budget pays for a login and the limit is positive.
pub begin_admits_again :
    (l : Limiter) (now : ℕ) (k : String)
    → Distinct l.clients
    → (state_of l k).in_flight ≡ 0
    → All (IsOld now l.failure_window) (state_of l k).failures
    → 0 < l.failure_limit
    → 0 < l.global_burst
    → l.second ≤ l.global_tokens + (now - l.last_refill) * l.global_rate
    → (begin l now (some k)).1 ≡ true
unfolding begin begin_client
begin_admits_again l now k d idle old pos burst funds = ground (
  arith,
  settings-ready l now k,
  failures-ready l now k d old,
  ready-Lighter l now k k d,
  tokens-ready l now k,
  le-burst l.global_burst l.second burst,
)

-- A successful login clears the failures of its client.
pub finish_clears :
    (l : Limiter) (now : ℕ) (k : String) → (state_of (finish l now (some k) true) k).failures ≡ []
unfolding finish settled
finish_clears l now k = elim (Option-cases (lookup k l.clients)) [
  | inl absent ↦ ground arith
  | inr (s, found) ↦ ground (
    arith,
    lookup-insert k k (settled now true s) l.clients,
    lookup-remove k k l.clients,
    str_eq_refl k,
  )
]
