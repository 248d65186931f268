-- ===== src/Portal/Limiter/Clients.antt =====
-- The per-client table of `_LoginLimiter`: under every interleaving of attempts, the failures and
-- the attempts under way of a client stay within the limit, and the table counts what is under way.
use cascade_vpn.Base.{
  ℕ, ◌+◌, ◌-◌, ◌≤◌, String, ◌≡◌, refl, Bool, true, Option, none, some, List, [], ◌∷◌, arith,
  if◌then◌else◌, lookup, length, Distinct, lookup-insert, lookup-remove, lookup-keep_values,
  insert-Distinct, remove-Distinct, keep_values-Distinct, str_eq, str_eq_iff, length-append,
  keep_option, get_or, Option-cases, inl, inr, ◌<◌, ◌&&◌,
}
use cascade_vpn.Portal.Limiter.{
  Limiter, ClientState, fresh, state_of, cleanup, refill, prune, prune_stored, spend, begin_client,
  begin_shared, begin, finish, settled, survives, drop_old,
}

-- A state with the same attempts under way and no more failures.
abbrev pub Lighter : ClientState → ClientState → Type 0
Lighter s' s = (s'.in_flight ≡ s.in_flight) × (length s'.failures ≤ length s.failures)

keep_option-Lighter :
    (now window : ℕ) (o : Option ClientState)
    → Lighter (get_or (keep_option (survives now window) o) fresh) (get_or o fresh)
unfolding survives
keep_option-Lighter now window none = (refl, omega arith)
keep_option-Lighter now window (some s) = ground arith

pub cleanup-Lighter :
    (l : Limiter) (now : ℕ) (k : String)
    → Distinct l.clients
    → Lighter (state_of (cleanup l now) k) (state_of l k)
unfolding cleanup
cleanup-Lighter l now k d = ground (
  arith,
  lookup-keep_values (survives now l.failure_window) k l.clients d,
  keep_option-Lighter now l.failure_window (lookup k l.clients),
)

length-drop_old : (now window : ℕ) (ts : List ℕ) → length (drop_old now window ts) ≤ length ts
unfolding drop_old
length-drop_old now window [] = omega arith
length-drop_old now window (t ∷ ts) = ground (arith, length-drop_old now window ts)

prune_stored-Lighter :
    (l : Limiter) (now : ℕ) (k j : String)
    → Lighter (state_of (prune_stored l now k) j) (state_of l j)
unfolding prune_stored prune
prune_stored-Lighter l now k j = elim (Option-cases (lookup k l.clients)) [
  | inl absent ↦ ground arith
  | inr (s, found) ↦ ground (
    arith,
    lookup-insert k j (prune l now s) l.clients,
    str_eq_iff k j,
    length-drop_old now l.failure_window s.failures,
  )
]

pub cleanup-Distinct :
    (l : Limiter) (now : ℕ) → Distinct l.clients → Distinct (cleanup l now).clients
unfolding cleanup
cleanup-Distinct l now d =
    ground (arith, keep_values-Distinct (survives now l.failure_window) l.clients d)

prune_stored-Distinct :
    (l : Limiter) (now : ℕ) (k : String)
    → Distinct l.clients
    → Distinct (prune_stored l now k).clients
unfolding prune_stored
prune_stored-Distinct l now k d = elim (Option-cases (lookup k l.clients)) [
  | inl absent ↦ ground arith
  | inr (s, found) ↦ ground (arith, insert-Distinct k (prune l now s) l.clients d)
]

-- What precedes the decision in `begin`.
abbrev pub ready : Limiter → ℕ → String → Limiter
ready l now k = prune_stored (refill (cleanup l now) now) now k

pub ready-Lighter :
    (l : Limiter) (now : ℕ) (k j : String)
    → Distinct l.clients
    → Lighter (state_of (ready l now k) j) (state_of l j)
unfolding refill
ready-Lighter l now k j d =
    ground
      (arith, cleanup-Lighter l now j d, prune_stored-Lighter (refill (cleanup l now) now) now k j)

pub settings-ready : (l : Limiter) (now : ℕ) (k : String) → (ready l now k).settings ≡ l.settings
unfolding cleanup refill prune_stored
settings-ready l now k = ground arith

-- What a decision does to the client `j`, when the attempt is of the client `k`.
abbrev pub Admits : Limiter → String → Limiter × Bool → String → Type 0
Admits l k r j =
    let admitted_j = r.1 && str_eq k j in
    ((state_of r.0 j).failures ≡ (state_of l j).failures)
    × ((state_of r.0 j).in_flight
        ≡ (if admitted_j then (state_of l j).in_flight + 1 else (state_of l j).in_flight))
    × (admitted_j ≡ true
        → length (state_of l j).failures + (state_of l j).in_flight < l.failure_limit)

pub begin_client-Admits : (l : Limiter) (k j : String) → Admits l k (begin_client l k) j
unfolding begin_client spend
begin_client-Admits l k j = ground (
  arith,
  lookup-insert k j (record (state_of l k) { in_flight = (state_of l k).in_flight + 1 }) l.clients,
  str_eq_iff k j,
)

pub finish-Ends :
    (l : Limiter) (now : ℕ) (k j : String) (succeeded : Bool)
    → 0 < (state_of l k).in_flight
    → let s = state_of l j in
      let s' = state_of (finish l now (some k) succeeded) j in
      (s'.in_flight ≡ (if str_eq k j then s.in_flight - 1 else s.in_flight))
      × (length s'.failures ≤ (if str_eq k j then length s.failures + 1 else length s.failures))
unfolding finish settled
finish-Ends l now k j succeeded busy = elim (Option-cases (lookup k l.clients)) [
  | inl absent ↦ ground arith
  | inr (s, found) ↦ ground (
    arith,
    lookup-insert k j (settled now succeeded s) l.clients,
    lookup-remove k j l.clients,
    length-append s.failures (now ∷ []),
    str_eq_iff k j,
  )
]

pub finish-Distinct :
    (l : Limiter) (now : ℕ) (client : Option String) (succeeded : Bool)
    → Distinct l.clients
    → Distinct (finish l now client succeeded).clients
unfolding finish
finish-Distinct l now none succeeded d = d
finish-Distinct l now (some k) succeeded d = elim (Option-cases (lookup k l.clients)) [
  | inl absent ↦ ground arith
  | inr (s, found) ↦ ground (
    arith,
    insert-Distinct k (settled now succeeded s) l.clients d,
    remove-Distinct k l.clients d,
  )
]

pub begin-Distinct :
    (l : Limiter) (now : ℕ) (client : Option String)
    → Distinct l.clients
    → Distinct (begin l now client).0.clients
unfolding begin begin_client begin_shared spend refill
begin-Distinct l now none d = ground (arith, cleanup-Distinct l now d)
begin-Distinct l now (some k) d =
    let base = refill (cleanup l now) now in
    let s = state_of (ready l now k) k in
    ground (
      arith,
      cleanup-Distinct l now d,
      prune_stored-Distinct base now k,
      insert-Distinct k (record s { in_flight = s.in_flight + 1 }) (ready l now k).clients,
    )
