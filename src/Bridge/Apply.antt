-- ===== src/Bridge/Apply.antt =====
-- `apply_trusttunnel_config` of bridge/ttx_bridge.py and what it calls: the new vpn.toml is written,
-- the service restarted and checked, and after a failure the old file is put back and loaded again.
pub mod Target
pub mod Endings
pub mod Transaction
pub mod Commit
pub mod Tests
use cascade_vpn.Base.{
  ℕ, String, ◌≡◌, Bool, true, false, not, ◌&&◌, Option, none, some, List, [], ◌∷◌, Result, ok, err,
  is_some, list_eq, if◌then◌else◌,
}
use cascade_vpn.Bridge.Files.{
  World, Machine, Os, Io, Entry, missing, directory, file, own_file, put, stat, make_directories,
  Error, os_error, subprocess_error, apply_error, invalid_toml, lock_timeout, recovered,
  recovery_failed, FileState, absent, existed, FileData, Outcome, done, denied, failed, restart,
  is_active, ◌>>=◌, ◌>>◌, pure, raise, catching, finally, next_outcome, syscall, capture_file_state,
  atomic_write, restore_file_state, is_file_error, is_command_error, systemctl, print,
}

-- The fields of `Config` that the application of a file reads.
pub record Config : Type 0 where
  pub tt_target : String
  pub tt_restart : Bool

pub validate_vpn_config : Os → String → Io (Unit {0})
validate_vpn_config os content =
    if os.is_toml content then pure tt else raise (apply_error invalid_toml)

-- `fcntl.flock` in a loop until the deadline.
pub wait_for_lock : Io (Unit {0})
wait_for_lock w =
    let (o, w') = next_outcome w in
    elim o [
      | done ↦ (ok tt, w')
      | denied ↦ (err (apply_error lock_timeout), w')
      | failed ↦ (err os_error, w')
    ]

-- The lock file, which the process makes where it is missing; a directory cannot be opened so.
pub open_lock : String → Entry → Io (Unit {0})
open_lock lock missing w = (do syscall; put lock (file (own_file w.uid w.gid []))) w
open_lock lock directory w = raise os_error w
open_lock lock _ w = syscall w

-- The directories are made, the lock file opened, and its lock waited for.
pub acquire_lock : Os → String → Io (Unit {0})
unfolding wait_for_lock open_lock
acquire_lock os path = do
  make_directories (os.parents_of path)
  entry ← stat (os.lock_of path)
  open_lock (os.lock_of path) entry
  wait_for_lock

-- `with apply_lock(...)`: the lock is released however the block ends.
pub with_lock : {A : Type 0} → Os → String → Io A → Io A
unfolding acquire_lock
with_lock os path block = do acquire_lock os path; finally block syscall

pub is_unchanged : FileState → List ℕ → Bool
is_unchanged absent encoded = false
is_unchanged (existed d) encoded = list_eq d.content encoded

pub write_backup : Os → String → FileState → Io (Unit {0})
write_backup os path absent = pure tt
write_backup os path (existed d) = atomic_write os (os.backup_of path) d.content (existed d)

pub stage_changed : Os → String → String → Bool → FileState → Io (Option FileState)
unfolding write_backup
stage_changed os path content dry_run previous =
    if dry_run then (do print content; pure (some previous)) else (do
      write_backup os path previous
      atomic_write os path (os.encode content) previous
      pure (some previous))

pub stage_captured : Os → String → String → Bool → FileState → Io (Option FileState)
unfolding is_unchanged
stage_captured os path content dry_run previous =
    if is_unchanged previous (os.encode content)
    then pure none
    else stage_changed os path content dry_run previous

pub stage_config_if_changed : Os → String → String → Bool → Io (Option FileState)
stage_config_if_changed os path content dry_run = do
  validate_vpn_config os content
  previous ← capture_file_state path
  stage_captured os path content dry_run previous

pub write_if_changed : Os → String → String → Bool → Io Bool
write_if_changed os path content dry_run = do
  staged ← stage_config_if_changed os path content dry_run
  pure (is_some staged)

pub restart_trusttunnel : Config → Bool → Io Bool
restart_trusttunnel cfg dry_run =
    if not cfg.tt_restart
    then pure false
    else if dry_run
    then pure true
    else (do systemctl restart; pure true)

pub check_trusttunnel_health : Bool → Io (Unit {0})
check_trusttunnel_health dry_run = if dry_run then pure tt else systemctl is_active

-- The text of a recovery error, by what raised it.
pub data RecoveryError : Type 0 where
  not_restored not_started : RecoveryError

pub load_previous : Io (Option RecoveryError)
unfolding check_trusttunnel_health
load_previous =
    catching is_command_error (do systemctl restart; check_trusttunnel_health false; pure none)
      (λ _. pure (some not_started))

pub restore_previous : Os → Config → FileState → Io (Option RecoveryError)
restore_previous os cfg previous =
    catching is_file_error (do restore_file_state os cfg.tt_target previous; pure none)
      (λ _. pure (some not_restored))

pub recover_previous_config : Os → Config → FileState → Io (Option RecoveryError)
recover_previous_config os cfg previous = do
  restored ← restore_previous os cfg previous
  elim restored [ none ↦ load_previous | some e ↦ pure (some e) ]

pub start_new : Config → Io (Unit {0})
unfolding restart_trusttunnel check_trusttunnel_health
start_new cfg = do
  restarted ← restart_trusttunnel cfg false
  if restarted then check_trusttunnel_health false else pure tt

-- The message of the error tells only whether the recovery went through.
pub roll_back : Os → Config → FileState → Io (Unit {0})
roll_back os cfg previous = do
  recovery_error ← recover_previous_config os cfg previous
  raise (apply_error (if is_some recovery_error then recovery_failed else recovered))

pub apply_staged : Os → Config → Bool → Bool → Option FileState → Io Bool
unfolding start_new roll_back
apply_staged os cfg dry_run restarts none = pure false
apply_staged os cfg dry_run restarts (some previous) =
    if dry_run
    then pure true
    else if not restarts
    then pure true
    else (do catching is_command_error (start_new cfg) (λ _. roll_back os cfg previous); pure true)

pub apply_trusttunnel_config : Os → Config → String → Bool → Bool → Io Bool
unfolding apply_staged
apply_trusttunnel_config os cfg content dry_run restarts = do
  validate_vpn_config os content
  with_lock os cfg.tt_target (do
    staged ← stage_config_if_changed os cfg.tt_target content dry_run
    apply_staged os cfg dry_run restarts staged)
