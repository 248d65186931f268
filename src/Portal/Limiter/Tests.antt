-- ===== src/Portal/Limiter/Tests.antt =====
-- Runs of the limiter, and its theorems at concrete inputs.
use cascade_vpn.Base.{
  ◌+◌, ◌*◌, ◌-◌, ◌≤◌, ◌≡◌, refl, true, false, none, some, List, [], ◌∷◌, arith, lookup, insert,
  remove, keep_values,
}
use cascade_vpn.Portal.Limiter.{
  Limiter, ClientState, Call, begins, finishes, defaults, init, begin, finish, step, run, survives,
  drop_old, prune_stored, prune, begin_client, begin_shared, cleanup, refill, spend, settled,
  state_of,
}
use cascade_vpn.Portal.Limiter.Budget.{admissions_bound}
use cascade_vpn.Portal.Limiter.Interleaving.{
  World, Inv, Reach, here, next, attempt, Reach-Inv, start, start-Inv,
}
use cascade_vpn.Portal.Limiter.Lockout.{begin_refused, begin_admits_again, finish_clears}

abbrev started : Limiter
started = record {
  settings = defaults 10;
  clients = [];
  global_tokens = 80;
  last_refill = 1000;
  last_client_cleanup = 1000;
}

-- Seven failures of one client, and one attempt under way.
abbrev busy : ClientState
busy = record { failures = 1000 ∷ 1010 ∷ 1020 ∷ 1030 ∷ 1040 ∷ 1050 ∷ 1060 ∷ []; in_flight = 1 }

abbrev failing : Limiter
failing = record started { clients = ("198.51.100.7", busy) ∷ []; last_refill = 1060 }

abbrev waiting : Limiter
waiting = record started {
  clients = ("198.51.100.7", record busy { in_flight = 0 }) ∷ [];
  global_tokens = 3;
  last_refill = 1060;
}

begin_refuses : (begin failing 1070 (some "198.51.100.7")).1 ≡ false
unfolding begin cleanup refill prune_stored prune begin_client spend drop_old lookup insert
begin_refuses = refl

abbrev calls : List Call
calls =
    begins 1000 (some "198.51.100.7")
    ∷ begins 1001 none
    ∷ finishes 1004 (some "198.51.100.7") false
    ∷ begins 1010 (some "198.51.100.7")
    ∷ []

run-calls : (run started calls).0 ≡ 3
unfolding run step begin finish cleanup refill prune_stored prune begin_client begin_shared spend
    drop_old settled lookup insert remove
run-calls = refl

admissions_bound_example :
    (run started calls).0 * 10 ≤ 8 * 10 + ((run started calls).1.last_refill - 1000) * 1
admissions_bound_example = admissions_bound started calls (omega arith) (omega arith)

abbrev one_attempt : World
one_attempt = record {
  limiter = (begin (init (defaults 10) 1000) 1000 (some "198.51.100.7")).0;
  attempts = "198.51.100.7" ∷ [];
}

admitted_first : (begin (init (defaults 10) 1000) 1000 (some "198.51.100.7")).1 ≡ true
unfolding init begin cleanup refill prune_stored prune begin_client spend drop_old lookup insert
    keep_values survives
admitted_first = refl

Reach-one_attempt : Reach (start (defaults 10) 1000) one_attempt
Reach-one_attempt =
    let begun : Reach (start (defaults 10) 1000) (start (defaults 10) 1000) = here in
    let attempted = next begun (attempt 1000 "198.51.100.7") in rw admitted_first at attempted

Reach-Inv_example : Inv one_attempt
Reach-Inv_example = Reach-Inv (start-Inv (defaults 10) 1000) Reach-one_attempt

begin_refused_example : (begin failing 1070 (some "198.51.100.7")).1 ≡ false
unfolding lookup
begin_refused_example =
    begin_refused failing 1070 "198.51.100.7" busy (refl, tt) refl (omega arith) (omega arith)
      (omega arith)

begin_admits_again_example : (begin waiting 4061 (some "198.51.100.7")).1 ≡ true
unfolding lookup
begin_admits_again_example =
    begin_admits_again waiting 4061 "198.51.100.7" (refl, tt) refl (omega arith) (omega arith)
      (omega arith) (omega arith)

finish_clears_example :
    (state_of (finish failing 1070 (some "198.51.100.7") true) "198.51.100.7").failures ≡ []
finish_clears_example = finish_clears failing 1070 "198.51.100.7"
