-- ===== src/Portal/Limiter/Budget.antt =====
-- The global budget of `_LoginLimiter`: how many attempts a run of calls can admit.
use cascade_vpn.Base.{
  ℕ, ap, ◌∙◌, ◌+◌, ◌-◌, ◌*◌, ◌≤◌, String, ◌≡◌, refl, Bool, true, false, Option, none, some, List,
  [], ◌∷◌, arith, if◌then◌else◌,
}
use cascade_vpn.Portal.Limiter.{
  Limiter, Call, begins, finishes, cleanup, refill, prune_stored, spend, begin_client, begin_shared,
  begin, finish, step, run,
}

abbrev pub cost : Bool → ℕ → ℕ
cost true c = c
cost false c = 0

-- The fields that decide the budget.
abbrev SameBudget : Limiter → Limiter → Type 0
SameBudget l l' =
    (l'.settings ≡ l.settings)
    × (l'.global_tokens ≡ l.global_tokens)
    × (l'.last_refill ≡ l.last_refill)

cleanup-SameBudget : (l : Limiter) (now : ℕ) → SameBudget l (cleanup l now)
unfolding cleanup
cleanup-SameBudget l now = ground arith

prune_stored-SameBudget : (l : Limiter) (now : ℕ) (k : String) → SameBudget l (prune_stored l now k)
unfolding prune_stored
prune_stored-SameBudget l now k = ground arith

pub finish-SameBudget :
    (l : Limiter) (now : ℕ) (client : Option String) (succeeded : Bool)
    → SameBudget l (finish l now client succeeded)
unfolding finish
finish-SameBudget l now none succeeded = (refl, refl, refl)
finish-SameBudget l now (some k) succeeded = ground arith

-- What one call does to the budget.
abbrev Spends : Limiter → Limiter × Bool → Type 0
Spends l r =
    (r.0.settings ≡ l.settings)
    × (r.0.last_refill ≡ l.last_refill)
    × (r.0.global_tokens + cost r.1 l.second ≡ l.global_tokens)

begin_client-Spends : (l : Limiter) (k : String) → Spends l (begin_client l k)
unfolding begin_client spend
begin_client-Spends l k = ground arith

begin_shared-Spends : (l : Limiter) → Spends l (begin_shared l)
unfolding begin_shared spend
begin_shared-Spends l = ground arith

abbrev capacity : Limiter → ℕ
capacity l = l.global_burst * l.second

-- A begin pays for an admission out of the old budget and what the elapsed time adds, and the
-- budget it leaves is within the burst.
pub begin_pays :
    (l : Limiter) (now : ℕ) (client : Option String)
    → let (l', admitted) = begin l now client in
      (l'.settings ≡ l.settings)
      × (l'.last_refill ≡ now)
      × (l'.global_tokens + cost admitted l.second
          ≤ l.global_tokens + (now - l.last_refill) * l.global_rate)
      × (l'.global_tokens + cost admitted l.second ≤ capacity l)
unfolding begin refill
begin_pays l now none =
    ground (arith, cleanup-SameBudget l now, begin_shared-Spends (refill (cleanup l now) now))
begin_pays l now (some k) = ground (
  arith,
  cleanup-SameBudget l now,
  prune_stored-SameBudget (refill (cleanup l now) now) now k,
  begin_client-Spends (prune_stored (refill (cleanup l now) now) now k) k,
)

-- The clock readings of the begins do not go back, from `t` on.
abbrev pub Ordered : ℕ → List Call → Type 0
Ordered t [] = Unit
Ordered t (begins now _ ∷ cs) = (t ≤ now) × Ordered now cs
Ordered t (finishes _ _ _ ∷ cs) = Ordered t cs

elapsed-mul : (last now rate : ℕ) → last ≤ now → (now - last) * rate + last * rate ≡ now * rate
elapsed-mul last now rate h =
    let e : now ≡ now - last + last = omega arith in omega (arith, ap (λ (t : ℕ). t * rate) e)

account_step :
    (l l' : Limiter) (admitted : Bool) (now n : ℕ) (l'' : Limiter)
    → l'.settings ≡ l.settings
    → l'.last_refill ≡ now
    → l.last_refill ≤ now
    → l'.global_tokens + cost admitted l.second
      ≤ l.global_tokens + (now - l.last_refill) * l.global_rate
    → l''.settings ≡ l'.settings
    → l'.last_refill ≤ l''.last_refill
    → n * l'.second + l''.global_tokens + l'.last_refill * l'.global_rate
      ≤ l'.global_tokens + l''.last_refill * l'.global_rate
    → (l''.settings ≡ l.settings)
      × (l.last_refill ≤ l''.last_refill)
      × (((if admitted then 1 else 0) + n) * l.second
            + l''.global_tokens
            + l.last_refill * l.global_rate
          ≤ l.global_tokens + l''.last_refill * l.global_rate)
account_step l l' true now n l'' s r o p s' o' q =
    let q' = rw (s, r) at q in
    (s' ∙ s, omega arith, omega (arith, elapsed-mul l.last_refill now l.global_rate o, q'))
account_step l l' false now n l'' s r o p s' o' q =
    let q' = rw (s, r) at q in
    (s' ∙ s, omega arith, omega (arith, elapsed-mul l.last_refill now l.global_rate o, q'))

run_accounts :
    (l : Limiter) (cs : List Call)
    → Ordered l.last_refill cs
    → let (n, l') = run l cs in
      (l'.settings ≡ l.settings)
      × (l.last_refill ≤ l'.last_refill)
      × (n * l.second + l'.global_tokens + l.last_refill * l.global_rate
          ≤ l.global_tokens + l'.last_refill * l.global_rate)
unfolding run step
run_accounts l [] h = (refl, omega arith, omega arith)
run_accounts l (begins now client ∷ cs) h =
    let paid = begin_pays l now client in
    let l' = (begin l now client).0 in
    let rest = run_accounts l' cs (rw paid.1 h.1) in
    account_step l l' (begin l now client).1 now (run l' cs).0 (run l' cs).1 paid.0 paid.1 h.0
      paid.2 rest.0 rest.1 rest.2
run_accounts l (finishes now client succeeded ∷ cs) h = ground (
  arith,
  finish-SameBudget l now client succeeded,
  run_accounts (finish l now client succeeded) cs,
)

-- From a budget within the burst, calls whose clock readings do not go back admit, at the price of
-- `second` units a login, at most the burst and what the rate adds from the first refill to the last.
pub admissions_bound :
    (l : Limiter) (cs : List Call)
    → Ordered l.last_refill cs
    → l.global_tokens ≤ capacity l
    → let (n, l') = run l cs in
      n * l.second ≤ l.global_burst * l.second + (l'.last_refill - l.last_refill) * l.global_rate
admissions_bound l cs h full =
    let (n, l') = run l cs in
    let (_, forward, account) = run_accounts l cs h in
    omega (arith, elapsed-mul l.last_refill l'.last_refill l.global_rate forward, account)
