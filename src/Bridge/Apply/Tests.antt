-- ===== src/Bridge/Apply/Tests.antt =====
-- Runs of `apply_trusttunnel_config`, and its theorem at a concrete environment.
use cascade_vpn.Base.{
  ℕ, String, ◌≡◌, ◌≢◌, refl, Bool, true, false, Option, none, some, List, [], ◌∷◌, ok, err, arith,
  str_eq, str_eq_iff, any, if◌then◌else◌, list_eq, Result,
}
use cascade_vpn.Bridge.Files.{
  FileData, Entry, missing, directory, file, Action, restart, is_active, Outcome, done, failed,
  World, Os, Error, apply_error, recovered, recovery_failed, next_outcome, syscall, syscall_tried,
  syscall_permitted, put, stat, capture_file_state, fsync_directory, unlink, copy_metadata,
  replace_with, make_directories, atomic_write, restore_file_state, systemctl, update,
}
use cascade_vpn.Bridge.Files.Ensures.{Ends}
use cascade_vpn.Bridge.Apply.{
  Config, apply_trusttunnel_config, validate_vpn_config, with_lock, stage_config_if_changed,
  stage_captured, stage_changed, restore_previous, recover_previous_config, load_previous,
}
use cascade_vpn.Bridge.Files.{existed}
use cascade_vpn.Bridge.Files.Atomic.{Wrote, Stopped, atomic_write_lem}
use cascade_vpn.Bridge.Apply.Endings.{Fails}
use cascade_vpn.Bridge.Apply.Commit.{Succeeds, apply_lem}

abbrev pub is_missing : Entry → Bool
is_missing missing = true
is_missing _ = false

pub temporary : (String → Entry) → String → Option String
temporary files path =
    if is_missing (files ".ttx-x")
    then (if str_eq path ".ttx-x" then none else some ".ttx-x")
    else none

pub temporary_new :
    (files : String → Entry) (path tmp : String)
    → temporary files path ≡ some tmp
    → (files tmp ≡ missing) × (path ≢ tmp)
unfolding temporary
temporary_new files path tmp e = go (files ".ttx-x") refl e
  where
    go :
        (entry : Entry)
        → files ".ttx-x" ≡ entry
        → (if is_missing entry
            then (if str_eq path ".ttx-x" then none else some ".ttx-x")
            else none)
          ≡ some tmp
        → (files tmp ≡ missing) × (path ≢ tmp)
    go missing f h = ground (arith, str_eq_iff path ".ttx-x")
    go _ f h = cc

pub beside : String → String
beside path = if str_eq path "vpn.toml" then "vpn.toml.ttx-bak" else "vpn.toml"

pub beside-ne : (path : String) → beside path ≢ path
unfolding beside
beside-ne path =
    ground (arith, str_eq_iff path "vpn.toml", str_eq_iff "vpn.toml.ttx-bak" "vpn.toml")

pub encoded : String → List ℕ
encoded text = if str_eq text "new" then 2 ∷ [] else 1 ∷ []

pub parents : String → List String
parents path = if str_eq path "." then [] else "." ∷ []

pub any-parents : (path : String) → any (str_eq path) (parents path) ≡ false
unfolding parents
any-parents path = ground (arith, str_eq_iff path ".")

pub apart : ◌≢◌ {A = String} ".ttx-bridge.lock" "vpn.toml"
apart = ground (arith, str_eq_iff ".ttx-bridge.lock" "vpn.toml")

abbrev pub linux : Os
linux = record {
  mkstemp = temporary;
  mkstemp_new = temporary_new;
  encode = encoded;
  is_toml = λ text. true;
  backup_of = beside;
  backup_ne = beside-ne;
  parents_of = parents;
  parents_ne = any-parents;
  lock_of = λ path. ".ttx-bridge.lock";
}

abbrev pub cfg : Config
cfg = record { tt_target = "vpn.toml"; tt_restart = true }

abbrev pub old_file : FileData
old_file = record { content = 1 ∷ []; mode = 0o640; uid = 0; gid = 7 }

abbrev new_file : FileData
new_file = record old_file { content = 2 ∷ [] }

-- An environment that ends its calls as the list says.
abbrev pub server : List Outcome → World
server outcomes = record {
  machine = record {
    files = update (update (λ path. missing) "." directory) "vpn.toml" (file old_file);
    service = [];
    output = [];
    uid = 0;
    gid = 0;
  };
  outcomes = outcomes;
}

abbrev good : ℕ → List Outcome → List Outcome
good ℕ.zero rest = rest
good (ℕ.suc n) rest = done ∷ good n rest

abbrev seen : Result Error Bool × World → Result Error Bool × Entry × List (Action × Bool)
seen (r, w) = (r, w.files "vpn.toml", w.service)

-- The parts of a run, for the tests to see through.
all_parts : Unit {0}
unfolding apply_trusttunnel_config validate_vpn_config with_lock stage_config_if_changed
    stage_captured stage_changed restore_previous recover_previous_config load_previous
    restore_file_state atomic_write replace_with fsync_directory unlink copy_metadata
    capture_file_state syscall syscall_tried syscall_permitted put stat systemctl next_outcome
    temporary encoded beside list_eq parents make_directories
all_parts = tt

runs_loaded :
    seen (apply_trusttunnel_config linux cfg "new" false true (server []))
    ≡ (ok true, file new_file, (is_active, true) ∷ (restart, true) ∷ [])
unfolding all_parts
runs_loaded = refl

-- The restart of the new configuration fails, and everything after it goes well.
runs_rolled_back :
    seen (apply_trusttunnel_config linux cfg "new" false true (server (good 22 (failed ∷ [])))) ≡ (
      err (apply_error recovered),
      file old_file,
      (is_active, true) ∷ (restart, true) ∷ (restart, false) ∷ [],
    )
unfolding all_parts
runs_rolled_back = refl

-- The restoration itself fails too: the error says that the file was restored and only its start
-- failed, but the new file is still in place.
runs_not_restored :
    seen (
      apply_trusttunnel_config linux cfg "new" false true (server (good 22 (failed ∷ failed ∷ []))))
    ≡ (err (apply_error recovery_failed), file new_file, (restart, false) ∷ [])
unfolding all_parts
runs_not_restored = refl

apply_lem_example :
    let w = server (good 22 (failed ∷ [])) in
    let (r, w') = apply_trusttunnel_config linux cfg "new" false true w in
    Ends
      (Succeeds linux cfg "new" false true (file old_file) [])
      (Fails "vpn.toml" (file old_file) (encoded "new"))
      r
      w'.machine
apply_lem_example = apply_lem linux cfg "new" false true (server (good 22 (failed ∷ []))) apart

-- The disk fills up while the content is written.
abbrev full_disk : World
full_disk = server (good 1 (failed ∷ []))

atomic_write_lem_example :
    let (r, w') = atomic_write linux "vpn.toml" (2 ∷ []) (existed old_file) full_disk in
    Ends
      (Wrote ("." ∷ []) full_disk.machine "vpn.toml" (2 ∷ []) (existed old_file))
      (Stopped ("." ∷ []) full_disk.machine "vpn.toml" (2 ∷ []) (existed old_file))
      r
      w'.machine
unfolding parents
atomic_write_lem_example = atomic_write_lem linux "vpn.toml" (2 ∷ []) (existed old_file) full_disk
