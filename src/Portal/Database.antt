-- ===== src/Portal/Database.antt =====
-- The migrations and the clean-up: portal/app/database.py.
pub mod Migrations
pub mod Tests
use cascade_vpn.Base.{
  ℕ, ◌≡◌, ◌≤◌, String, Bool, true, false, not, Option, none, some, List, [], ◌∷◌, ◌++◌, any, str_eq,
  if◌then◌else◌,
}

-- A file of the directory of migrations, with what `read_text` makes of it; none is an exception.
pub record Migration : Type 0 where
  pub name : String
  pub script : Option String

-- The file of the database: the tables, the versions of `schema_migrations` that are committed, and
-- the version whose row is inserted and not committed yet.
pub record Store (S : Type 0) : Type 0 where
  pub tables : S
  pub versions : List String
  pub pending : List String

-- How `initialize` ends.
pub data Outcome : Type 0 where
  completed failed : Outcome

abbrev pub is_applied : List String → String → Bool
is_applied applied name = any (str_eq name) applied

module _ {S : Type 0} (execute : String → S → S × Bool) where
  -- `connection.commit()`, which `executescript` does first
  abbrev pub commit : Store S → Store S
  commit s = record s { versions = s.versions ++ s.pending; pending = [] }

  -- `connection.rollback()`
  abbrev pub rollback : Store S → Store S
  rollback s = record s { pending = [] }

  -- The script, each statement of which is its own transaction, and whether it came to its end.
  abbrev pub run_script : String → Store S → Store S × Bool
  run_script script s =
      let (tables, fine) = execute script s.tables in (record (commit s) { tables = tables }, fine)

  abbrev pub after_script :
      String → Store S × Bool → (Store S → Store S × Outcome) → Store S × Outcome
  after_script name (s, false) rest = (rollback s, failed)
  after_script name (s, true) rest = rest (record s { pending = name ∷ [] })

  -- The loop over the sorted files, with the versions that were applied before it.
  unfoldable pub apply_each : List String → List Migration → Store S → Store S × Outcome
  apply_each applied [] s = (commit s, completed)
  apply_each applied (m ∷ ms) s =
      let rest = apply_each applied ms in
      if is_applied applied m.name then rest s else elim m.script [
        | none ↦ (rollback s, failed)
        | some script ↦ after_script m.name (run_script script s) rest
      ]

  -- `Database.initialize`
  unfoldable pub initialize : List Migration → Store S → Store S × Outcome
  unfolding apply_each
  initialize migrations s = apply_each s.versions migrations s
