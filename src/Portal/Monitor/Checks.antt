-- ===== src/Portal/Monitor/Checks.antt =====
-- What the monitor's operations change.
use mathlib.Core.Option
use cascade_vpn.Base.{
  ℕ, ◌+◌, keep, Bool, false, ◌≡◌, ◌≢◌, refl, ap, sym, subst, ◌∙◌, true, none, some, List, [], ◌∷◌,
  map, length, arith, Result, ok, err, find, ◌==◌, if◌then◌else◌, Bool-cases, inl, inr,
}
use cascade_vpn.Portal.Store.{
  Db, Service, Status, online, degraded, down, unknown, select_service, update_service,
}
use cascade_vpn.Portal.Outbound.{Net, Policy}
use cascade_vpn.Portal.Outbound.Fetch.{FetchFailure, FetchResult, value_error, fetch_url}
use cascade_vpn.Portal.Monitor.{
  ServiceRow, Summary, Visit, is_caught, seen, status_of, assess, record_check, check_row,
  check_service, service_row, count_name, count_all, status_summary, nothing_counted,
}

abbrev is_status : Status → Status → Bool
is_status online online = true
is_status degraded degraded = true
is_status down down = true
is_status unknown unknown = true
is_status _ _ = false

-- The number of services with the status.
abbrev pub count_of : Status → List Status → ℕ
count_of x xs = length (keep (is_status x) xs)

-- The counts grow by the numbers of services with each status.
pub record Adds (s : Summary) (xs : List Status) (t : Summary) : Type 0 where
  pub total : t.total ≡ s.total
  pub onlines : t.online ≡ s.online + count_of online xs
  pub degradeds : t.degraded ≡ s.degraded + count_of degraded xs
  pub downs : t.down ≡ s.down + count_of down xs
  pub unknowns : t.unknown ≡ s.unknown + count_of unknown xs

count_all-Adds : (s : Summary) (xs : List Status) → Adds s xs (count_all s xs)
unfolding count_all count_name
count_all-Adds s [] = record {
  total = refl;
  onlines = omega arith;
  degradeds = omega arith;
  downs = omega arith;
  unknowns = omega arith;
}
count_all-Adds s (x ∷ xs) = by_status x (λ t. count_all-Adds t xs)
  where
    grow :
        (y : Status) (ys : List Status) (n m k : ℕ) (b : Bool)
        → n ≡ m + length ys
        → m ≡ k + length (if b then y ∷ [] else [])
        → n ≡ k + length (if b then y ∷ ys else ys)
    grow y ys n m k true h i = omega arith
    grow y ys n m k false h i = omega arith

    more :
        (x : Status) (t : Summary)
        → t.total ≡ s.total
        → t.online ≡ s.online + count_of online (x ∷ [])
        → t.degraded ≡ s.degraded + count_of degraded (x ∷ [])
        → t.down ≡ s.down + count_of down (x ∷ [])
        → t.unknown ≡ s.unknown + count_of unknown (x ∷ [])
        → Adds t xs (count_all t xs)
        → Adds s (x ∷ xs) (count_all t xs)
    more x t a b c d e h = record {
      total = h.total ∙ a;
      onlines = grow x _ _ _ _ (is_status online x) h.onlines b;
      degradeds = grow x _ _ _ _ (is_status degraded x) h.degradeds c;
      downs = grow x _ _ _ _ (is_status down x) h.downs d;
      unknowns = grow x _ _ _ _ (is_status unknown x) h.unknowns e;
    }

    by_status :
        (x : Status)
        → ((t : Summary) → Adds t xs (count_all t xs))
        → Adds s (x ∷ xs) (count_all s (x ∷ xs))
    by_status online ih =
        more online _ refl (omega arith) (omega arith) (omega arith) (omega arith) (ih _)
    by_status degraded ih =
        more degraded _ refl (omega arith) (omega arith) (omega arith) (omega arith) (ih _)
    by_status down ih =
        more down _ refl (omega arith) (omega arith) (omega arith) (omega arith) (ih _)
    by_status unknown ih =
        more unknown _ refl (omega arith) (omega arith) (omega arith) (omega arith) (ih _)

-- The counts of a summary are the numbers of services with each status, and its total is the number
-- of services.
pub status_summary-Adds :
    (services : List ServiceRow)
    → let t = status_summary services in
      let statuses = map (λ r. r.status) services in
      (t.total ≡ length services)
      × (t.online ≡ count_of online statuses)
      × (t.degraded ≡ count_of degraded statuses)
      × (t.down ≡ count_of down statuses)
      × (t.unknown ≡ count_of unknown statuses)
unfolding status_summary
status_summary-Adds services =
    let h = count_all-Adds (nothing_counted services) (map (λ r. r.status) services) in
    (
      h.total,
      h.onlines ∙ omega arith,
      h.degradeds ∙ omega arith,
      h.downs ∙ omega arith,
      h.unknowns ∙ omega arith,
    )

-- The fetch that a check of a row makes.
abbrev pub fetched : Net → Policy → Visit → Service → Result FetchFailure FetchResult
fetched net policy visit row = (fetch_url net visit.internet policy 0 3 row.url).0

-- What a check says of a service whose fetch ended so.
abbrev pub Shows : Visit → Result FetchFailure FetchResult → ServiceRow → Type 0
Shows visit (ok result) row =
    (row.status ≡ status_of result.status)
    × (row.status_code ≡ some result.status)
    × (row.checked_at ≡ some visit.checked_at)
    × (row.error ≡ some none)
Shows visit (err e) row =
    (row.status ≡ down)
    × (row.status_code ≡ none)
    × (row.checked_at ≡ some visit.checked_at)
    × (row.error ≡ some (some e))
    × (e ≢ value_error)

find-updated :
    (rows : List Service) (f : Service → Service) (id : ℕ)
    → ((r : Service) → (f r).id ≡ r.id)
    → find (λ r. r.id == id) (map (λ r. if r.id == id then f r else r) rows)
      ≡ Option.map f (find (λ r. r.id == id) rows)
find-updated [] f id h = refl
find-updated (r ∷ rows) f id h = elim (Bool-cases (r.id == id)) [
  | inl e ↦ ground (arith, h r)
  | inr e ↦ ground (arith, find-updated rows f id h)
]

module _ (net : Net) (policy : Policy) (visit : Visit) (db : Db) (id : ℕ) (row : Service)
    (stored : select_service db id ≡ some row) where
  updated-row :
      (f : Service → Service)
      → ((r : Service) → (f r).id ≡ r.id)
      → select_service (update_service db id f) id ≡ some (f row)
  unfolding select_service update_service
  updated-row f same = find-updated db.services f id same ∙ ap (Option.map f) stored

  record_check-row :
      (f : Service → Service)
      → ((r : Service) → (f r).id ≡ r.id)
      → record_check db id (some f) ≡ (ok (service_row true (f row)), update_service db id f)
  unfolding record_check
  record_check-row f same = rw (updated-row f same) refl

  record_check-Shows :
      (f : Service → Service) (shown : ServiceRow) (db' : Db)
      → ((r : Service) → (f r).id ≡ r.id)
      → record_check db id (some f) ≡ (ok shown, db')
      → shown ≡ service_row true (f row)
  record_check-Shows f shown db' same h = let recorded = record_check-row f same in ground arith

  assess-Shows :
      (x : Result FetchFailure FetchResult) (shown : ServiceRow) (db' : Db)
      → record_check db id (assess visit x) ≡ (ok shown, db')
      → Shows visit x shown
  unfolding assess service_row record_check
  assess-Shows (ok result) shown db' h =
      let e =
        record_check-Shows (seen visit (status_of result.status) (some result.status) none) shown
          db' (λ r. refl) h in
      rw e (refl, refl, refl, refl)
  assess-Shows (err e) shown db' h = elim (Bool-cases (is_caught e)) [
    | inl caught ↦
        let e' =
          record_check-Shows (seen visit down none (some e)) shown db' (λ r. refl)
            (subst
              (λ b.
                record_check db id (if b then some (seen visit down none (some e)) else none)
                ≡ (ok shown, db'))
              caught h) in
        rw e' (refl, refl, refl, refl, λ p. caught_value (subst (λ x. is_caught x ≡ true) p caught))
    | inr passed ↦ absurd (
        uncaught shown db' (
          subst
            (λ b.
              record_check db id (if b then some (seen visit down none (some e)) else none)
              ≡ (ok shown, db'))
            passed h))
  ]
    where
      caught_value : is_caught value_error ≡ true → ⊥
      caught_value h = ground arith

      uncaught : (shown : ServiceRow) (db' : Db) → record_check db id none ≡ (ok shown, db') → ⊥
      uncaught shown db' h = ground arith

  -- A check that answers shows how the fetch of the stored URL ended: the class of the status, or
  -- that the service is down and why.
  pub check_service-Shows :
      (shown : ServiceRow) (db' : Db)
      → check_service net policy visit db id ≡ (ok shown, db')
      → Shows visit (fetched net policy visit row) shown
  unfolding check_service check_row
  check_service-Shows shown db' h =
      assess-Shows (fetched net policy visit row) shown db'
        (ap (check_row net policy visit db id) (sym stored) ∙ h)
