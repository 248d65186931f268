-- ===== src/Portal/Limiter.antt =====
-- `_LoginLimiter` of portal/app/main.py. Time is counted in clock ticks, `second` of them to the
-- second, and the budget in units of which one login costs `second`, so that the product of an
-- elapsed time and the rate is exact. A method runs under the limiter's lock, so it is one step.
pub mod Budget
pub mod Clients
pub mod Interleaving
pub mod Lockout
mod Tests
use cascade_vpn.Base.{
  ℕ, ◌+◌, ◌-◌, ◌*◌, min, String, Bool, true, false, ◌&&◌, ◌||◌, Option, none, some, List, [], ◌∷◌,
  ◌++◌, ltb, leb, ◌==◌, if◌then◌else◌, length, Assoc, lookup, insert, remove, keep_values, get_or,
}

pub record ClientState : Type 0 where
  pub failures : List ℕ
  pub in_flight : ℕ

abbrev pub fresh : ClientState
fresh = record { failures = []; in_flight = 0 }

pub record Settings : Type 0 where
  pub second : ℕ
  pub failure_limit : ℕ
  pub failure_window : ℕ
  pub global_rate : ℕ
  pub global_burst : ℕ

pub record Limiter : Type 0 where
  pub settings : Settings
  pub open settings use *
  pub clients : Assoc ClientState
  pub global_tokens : ℕ
  pub last_refill : ℕ
  pub last_client_cleanup : ℕ

abbrev pub login_failure_limit : ℕ
login_failure_limit = 8

abbrev pub defaults : ℕ → Settings
defaults second = record {
  second = second;
  failure_limit = login_failure_limit;
  failure_window = 300 * second;
  global_rate = 1;
  global_burst = 8;
}

pub init : Settings → ℕ → Limiter
init settings now = record {
  settings = settings;
  clients = [];
  global_tokens = settings.global_burst * settings.second;
  last_refill = now;
  last_client_cleanup = now;
}

-- `state.failures[-1] >= cutoff`, false where there is no failure.
abbrev pub last_at_least : ℕ → ℕ → List ℕ → Bool
last_at_least now window [] = false
last_at_least now window (t ∷ []) = leb now (t + window)
last_at_least now window (t ∷ u ∷ ts) = last_at_least now window (u ∷ ts)

-- `state.in_flight or (state.failures and state.failures[-1] >= cutoff)`
pub survives : ℕ → ℕ → ClientState → Bool
survives now window s = ltb 0 s.in_flight || last_at_least now window s.failures

pub cleanup : Limiter → ℕ → Limiter
cleanup l now =
    if leb (l.last_client_cleanup + min (60 * l.second) l.failure_window) now
    then record l {
      clients = keep_values (survives now l.failure_window) l.clients;
      last_client_cleanup = now;
    }
    else l

pub refill : Limiter → ℕ → Limiter
refill l now = record l {
  global_tokens =
      min (l.global_burst * l.second) (l.global_tokens + (now - l.last_refill) * l.global_rate);
  last_refill = now;
}

-- `while state.failures and state.failures[0] < cutoff: state.failures.popleft()`
pub drop_old : ℕ → ℕ → List ℕ → List ℕ
drop_old now window [] = []
drop_old now window (t ∷ ts) =
    let rest = drop_old now window ts in if ltb (t + window) now then rest else t ∷ ts

pub prune : Limiter → ℕ → ClientState → ClientState
prune l now s = record s { failures = drop_old now l.failure_window s.failures }

-- A state that is in the table is pruned in place; a fresh one is stored only when admitted.
pub prune_stored : Limiter → ℕ → String → Limiter
prune_stored l now k = elim (lookup k l.clients) [
  | none ↦ l
  | some s ↦ record l { clients = insert k (prune l now s) l.clients }
]

pub spend : Limiter → Limiter
spend l = record l { global_tokens = l.global_tokens - l.second }

abbrev pub state_of : Limiter → String → ClientState
state_of l k = get_or (lookup k l.clients) fresh

pub begin_client : Limiter → String → Limiter × Bool
begin_client l k =
    let s = state_of l k in
    if leb l.failure_limit (length s.failures + s.in_flight)
    then (l, false)
    else if ltb l.global_tokens l.second
    then (l, false)
    else (
      record (spend l) { clients = insert k (record s { in_flight = s.in_flight + 1 }) l.clients },
      true,
    )

pub begin_shared : Limiter → Limiter × Bool
begin_shared l = if ltb l.global_tokens l.second then (l, false) else (spend l, true)

pub begin : Limiter → ℕ → Option String → Limiter × Bool
begin l now none = begin_shared (refill (cleanup l now) now)
begin l now (some k) = begin_client (prune_stored (refill (cleanup l now) now) now k) k

-- The state of a client after its attempt has ended.
pub settled : ℕ → Bool → ClientState → ClientState
settled now succeeded s = record {
  failures = if succeeded then [] else s.failures ++ now ∷ [];
  in_flight = s.in_flight - 1;
}

pub finish : Limiter → ℕ → Option String → Bool → Limiter
finish l now none succeeded = l
finish l now (some k) succeeded = elim (lookup k l.clients) [
  | none ↦ l
  | some s ↦
      let s' = settled now succeeded s in
      if length s'.failures == 0 && s'.in_flight == 0
      then record l { clients = remove k l.clients }
      else record l { clients = insert k s' l.clients }
]

-- The calls of the request threads, in the order in which they take the lock.
pub data Call : Type 0 where
  begins : ℕ → Option String → Call
  finishes : ℕ → Option String → Bool → Call

pub step : Limiter → Call → Limiter × Bool
step l (begins now client) = begin l now client
step l (finishes now client succeeded) = (finish l now client succeeded, false)

-- The number of attempts that a run of calls admits, and the limiter after it.
pub run : Limiter → List Call → ℕ × Limiter
run l [] = (0, l)
run l (c ∷ cs) =
    let (l', admitted) = step l c in
    let (n, l'') = run l' cs in ((if admitted then 1 else 0) + n, l'')
