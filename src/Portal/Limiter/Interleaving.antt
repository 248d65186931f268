-- ===== src/Portal/Limiter/Interleaving.antt =====
-- The limiter under the request threads: each admitted attempt of an attributable client ends once,
-- in any order, as `_login` in portal/app/main.py does in its `finally`.
use cascade_vpn.Base.{
  ℕ, ◌+◌, ◌-◌, ◌≤◌, ◌<◌, String, ◌≡◌, refl, Bool, none, some, List, [], ◌∷◌, lookup, arith,
  if◌then◌else◌, length, Distinct, str_eq, str_eq_iff,
}
use cascade_vpn.Portal.Limiter.{
  Limiter, Settings, init, state_of, refill, begin_shared, begin, finish, spend,
}
use cascade_vpn.Portal.Limiter.Budget.{begin_pays, finish-SameBudget}
use cascade_vpn.Portal.Limiter.Clients.{
  ready, begin_client-Admits, ready-Lighter, cleanup-Lighter, finish-Ends, finish-Distinct,
  begin-Distinct, settings-ready,
}

pub record World : Type 0 where
  pub limiter : Limiter
  pub attempts : List String

-- How often a client stands among the attempts under way.
abbrev pub count : String → List String → ℕ
count k [] = 0
count k (j ∷ js) = if str_eq j k then count k js + 1 else count k js

abbrev pub erase : String → List String → List String
erase k [] = []
erase k (j ∷ js) = if str_eq j k then js else j ∷ erase k js

pub data Step (w : World) : World → Type 0 where
  attempt :
      (now : ℕ) (k : String)
      → Step w (record {
        limiter = (begin w.limiter now (some k)).0;
        attempts = if (begin w.limiter now (some k)).1 then k ∷ w.attempts else w.attempts;
      })
  attempt_shared : (now : ℕ) → Step w (record w { limiter = (begin w.limiter now none).0 })
  end :
      (now : ℕ) (k : String) (succeeded : Bool)
      → 0 < count k w.attempts
      → Step w (record {
        limiter = finish w.limiter now (some k) succeeded;
        attempts = erase k w.attempts;
      })
  end_shared :
      (now : ℕ) (succeeded : Bool)
      → Step w (record w { limiter = finish w.limiter now none succeeded })

pub data Reach (v : World) : World → Type 0 where
  here : Reach v v
  next : {w x : World} → Reach v w → Step w x → Reach v x

-- The table counts what is under way, and what is under way or has failed is within the limit.
abbrev IsCounted : World → String → Type 0
IsCounted w k =
    let s = state_of w.limiter k in
    (s.in_flight ≡ count k w.attempts) × (length s.failures + s.in_flight ≤ w.limiter.failure_limit)

pub record Inv (w : World) : Type 0 where
  pub keys : Distinct w.limiter.clients
  pub counted : (k : String) → IsCounted w k

count-erase :
    (k j : String) (js : List String)
    → 0 < count k js
    → count j (erase k js) ≡ (if str_eq k j then count j js - 1 else count j js)
count-erase k j [] h = absurd (omega arith)
count-erase k j (i ∷ js) h =
    ground (arith, count-erase k j js, str_eq_iff i k, str_eq_iff i j, str_eq_iff k j)

attempt-IsCounted :
    (w : World) (now : ℕ) (k j : String)
    → Distinct w.limiter.clients
    → IsCounted w j
    → IsCounted
        (record {
          limiter = (begin w.limiter now (some k)).0;
          attempts = if (begin w.limiter now (some k)).1 then k ∷ w.attempts else w.attempts;
        })
        j
unfolding begin
attempt-IsCounted w now k j d h =
    let l = w.limiter in
    ground (
      arith,
      begin_pays l now (some k),
      settings-ready l now k,
      ready-Lighter l now k j d,
      begin_client-Admits (ready l now k) k j,
    )

attempt_shared-IsCounted :
    (w : World) (now : ℕ) (j : String)
    → Distinct w.limiter.clients
    → IsCounted w j
    → IsCounted (record w { limiter = (begin w.limiter now none).0 }) j
unfolding begin begin_shared refill spend
attempt_shared-IsCounted w now j d h =
    ground (arith, begin_pays w.limiter now none, cleanup-Lighter w.limiter now j d)

end-IsCounted :
    (w : World) (now : ℕ) (k j : String) (succeeded : Bool)
    → 0 < count k w.attempts
    → IsCounted w k
    → IsCounted w j
    → IsCounted
        (record {
          limiter = finish w.limiter now (some k) succeeded;
          attempts = erase k w.attempts;
        })
        j
end-IsCounted w now k j succeeded busy hk h = ground (
  arith,
  finish-SameBudget w.limiter now (some k) succeeded,
  finish-Ends w.limiter now k j succeeded,
  count-erase k j w.attempts,
  str_eq_iff k j,
)

finish-shared : (l : Limiter) (now : ℕ) (succeeded : Bool) → finish l now none succeeded ≡ l
unfolding finish
finish-shared l now succeeded = refl

Step-Inv : {w x : World} → Step w x → Inv w → Inv x
Step-Inv {w} (attempt now k) v = record {
  keys = begin-Distinct w.limiter now (some k) v.keys;
  counted = λ j. attempt-IsCounted w now k j v.keys (v.counted j);
}
Step-Inv {w} (attempt_shared now) v = record {
  keys = begin-Distinct w.limiter now none v.keys;
  counted = λ j. attempt_shared-IsCounted w now j v.keys (v.counted j);
}
Step-Inv {w} (end now k succeeded busy) v = record {
  keys = finish-Distinct w.limiter now (some k) succeeded v.keys;
  counted = λ j. end-IsCounted w now k j succeeded busy (v.counted k) (v.counted j);
}
Step-Inv {w} (end_shared now succeeded) v = rw finish-shared v

-- From a world that satisfies the invariant every interleaving of attempts and their ends leads to
-- one that does: for every client the table counts exactly its attempts under way, and these
-- and its recorded failures together are within the failure limit.
pub Reach-Inv : {v w : World} → Inv v → Reach v w → Inv w
Reach-Inv h here = h
Reach-Inv h (next r st) = Step-Inv st (Reach-Inv h r)

abbrev pub start : Settings → ℕ → World
start settings now = record { limiter = init settings now; attempts = [] }

pub start-Inv : (settings : Settings) (now : ℕ) → Inv (start settings now)
unfolding init lookup
start-Inv settings now = record { keys = tt; counted = λ k. (refl, omega arith) }
