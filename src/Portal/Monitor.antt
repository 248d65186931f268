-- ===== src/Portal/Monitor.antt =====
-- The service monitor: portal/app/services/monitor.py.
pub mod Checks
use Prim.Native.String.{count}
use cascade_vpn.Base.{
  ℕ, ◌+◌, String, Bool, true, false, ◌&&◌, not, Option, none, some, List, [], ◌∷◌, map, length,
  keep, leb, ltb, if◌then◌else◌, Result, ok, err,
}
use cascade_vpn.Portal.Store.{
  Db, Service, Status, online, degraded, down, unknown, select_service, insert_service,
  delete_service_row, update_service,
}
use cascade_vpn.Portal.Outbound.{
  Net, Internet, Policy, UrlError, ValidatedUrl, required, validate_outbound_url,
}
use cascade_vpn.Portal.Outbound.Fetch.{FetchFailure, FetchResult, unsafe, value_error, fetch_url}
use cascade_vpn.Portal.Request.{Value, text, null, other}
use cascade_vpn.Base.{str_eq}

-- `service_row`; the URL and the error are shown to a session only.
pub record ServiceRow : Type 0 where
  pub id : ℕ
  pub name : String
  pub status : Status
  pub status_code : Option ℕ
  pub latency_ms : Option ℕ
  pub checked_at : Option ℕ
  pub enabled : Bool
  pub url : Option String
  pub error : Option (Option FetchFailure)

unfoldable pub service_row : Bool → Service → ServiceRow
service_row include_url r = record {
  id = r.id;
  name = r.name;
  status = r.status;
  status_code = r.status_code;
  latency_ms = r.latency_ms;
  checked_at = r.checked_at;
  enabled = r.enabled;
  url = if include_url then some r.url else none;
  error = if include_url then some r.error else none;
}

pub data AddError : Type 0 where
  bad_name taken : AddError
  bad_url : UrlError → AddError

-- `name.strip() if isinstance(name, str) else ""`
abbrev pub name_of : Net → Value → String
name_of net (text name) = net.strip name
name_of net _ = ""

pub validated : Net → Internet → Policy → Value → Result UrlError ValidatedUrl
validated net world policy (text url) = validate_outbound_url net world 0 policy url
validated net world policy _ = err required

abbrev added : Db → Option (Db × Service) → Result AddError ServiceRow × Db
added db none = (err taken, db)
added db (some (db', row)) = (ok (service_row true row), db')

pub insert_validated :
    Db → ℕ → String → Result UrlError ValidatedUrl → Result AddError ServiceRow × Db
insert_validated db now name (err e) = (err (bad_url e), db)
insert_validated db now name (ok target) = added db (insert_service db name target.url now)

-- `add_service`
pub add_service : Net → Internet → Policy → ℕ → Db → Value → Value → Result AddError ServiceRow × Db
unfolding validated insert_validated
add_service net world policy now db name url =
    let stripped = name_of net name in
    if not (leb 1 (count stripped) && leb (count stripped) 80)
    then (err bad_name, db)
    else insert_validated db now stripped (validated net world policy url)

-- `delete_service`
pub delete_service : Db → ℕ → Bool × Db
delete_service db id = let (db', found) = delete_service_row db id in (found, db')

-- What the environment answers during a check: the clock, the time that the fetch took, and the
-- network.
pub record Visit : Type 0 where
  pub checked_at : ℕ
  pub latency_ms : ℕ
  pub internet : Internet

pub status_of : ℕ → Status
status_of code =
    if leb 200 code && ltb code 400
    then online
    else if leb 400 code && ltb code 500
    then degraded
    else down

abbrev pub seen : Visit → Status → Option ℕ → Option FetchFailure → Service → Service
seen visit status code error r = record r {
  status = status;
  status_code = code;
  latency_ms = some visit.latency_ms;
  checked_at = some visit.checked_at;
  error = error;
}

-- The `except` clause of `check_service`; nothing catches a `ValueError`.
abbrev pub is_caught : FetchFailure → Bool
is_caught value_error = false
is_caught _ = true

-- How a check changes the row, by how the fetch ended.
pub assess : Visit → Result FetchFailure FetchResult → Option (Service → Service)
unfolding status_of
assess visit (ok result) = some (seen visit (status_of result.status) (some result.status) none)
assess visit (err e) = if is_caught e then some (seen visit down none (some e)) else none

pub data CheckError : Type 0 where
  no_service bad_value : CheckError

abbrev reread : Db → Option Service → Result CheckError ServiceRow × Db
reread db none = (err bad_value, db)
reread db (some row) = (ok (service_row true row), db)

pub record_check : Db → ℕ → Option (Service → Service) → Result CheckError ServiceRow × Db
record_check db id none = (err bad_value, db)
record_check db id (some change) =
    let db' = update_service db id change in reread db' (select_service db' id)

pub check_row : Net → Policy → Visit → Db → ℕ → Option Service → Result CheckError ServiceRow × Db
unfolding assess record_check
check_row net policy visit db id none = (err no_service, db)
check_row net policy visit db id (some row) =
    record_check db id (assess visit (fetch_url net visit.internet policy 0 3 row.url).0)

-- `check_service`: a fetch that follows three redirections and reads no body.
unfoldable pub check_service : Net → Policy → Visit → Db → ℕ → Result CheckError ServiceRow × Db
unfolding check_row
check_service net policy visit db id = check_row net policy visit db id (select_service db id)

abbrev collected :
    Result CheckError ServiceRow
    → Result CheckError (List ServiceRow) × Db
    → Result CheckError (List ServiceRow) × Db
collected (err e) (_, db) = (err e, db)
collected (ok row) (ok rows, db) = (ok (row ∷ rows), db)
collected (ok row) (err e, db) = (err e, db)

-- The loop of `check_all`: an exception ends it.
pub check_each : Net → Policy → (ℕ → Visit) → Db → List ℕ → Result CheckError (List ServiceRow) × Db
check_each net policy visits db [] = (ok [], db)
check_each net policy visits db (id ∷ ids) =
    let (r, db') = check_service net policy (visits id) db id in
    let rest = check_each net policy visits db' ids in
    elim r [ err e ↦ (err e, db') | ok row ↦ collected (ok row) rest ]

-- `check_all`, of the enabled services by their number; rows stand in that order.
pub check_all : Net → Policy → (ℕ → Visit) → Db → Result CheckError (List ServiceRow) × Db
unfolding check_each
check_all net policy visits db =
    check_each net policy visits db (map (λ r. r.id) (keep (λ r. r.enabled) db.services))

pub record Summary : Type 0 where
  pub total : ℕ
  pub online : ℕ
  pub degraded : ℕ
  pub down : ℕ
  pub unknown : ℕ

-- `summary[key] += 1`, where a name that is no key counts as unknown
pub count_name : String → Summary → Summary
count_name name s =
    if str_eq name "total"
    then record s { total = s.total + 1 }
    else if str_eq name "online"
    then record s { online = s.online + 1 }
    else if str_eq name "degraded"
    then record s { degraded = s.degraded + 1 }
    else if str_eq name "down"
    then record s { down = s.down + 1 }
    else record s { unknown = s.unknown + 1 }

-- The text of a status in the table.
abbrev pub status_name : Status → String
status_name online = "online"
status_name degraded = "degraded"
status_name down = "down"
status_name unknown = "unknown"

pub count_all : Summary → List Status → Summary
unfolding count_name
count_all s [] = s
count_all s (x ∷ xs) = count_all (count_name (status_name x) s) xs

abbrev pub nothing_counted : List ServiceRow → Summary
nothing_counted services = record {
  total = length services;
  online = 0;
  degraded = 0;
  down = 0;
  unknown = 0;
}

-- `status_summary`
pub status_summary : List ServiceRow → Summary
unfolding count_all
status_summary services = count_all (nothing_counted services) (map (λ r. r.status) services)
