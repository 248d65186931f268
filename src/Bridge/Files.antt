-- ===== src/Bridge/Files.antt =====
-- The file operations of bridge/ttx_bridge.py, over a store of files and an environment that
-- decides how each system call ends. What was written before an exception stays written, so the
-- world comes back beside the error too.
pub mod Ensures
pub mod Replace
pub mod Atomic
pub mod Service
pub mod Plain
use cascade_vpn.Base.{
  ℕ, String, ◌≡◌, ◌≢◌, Bool, true, false, Option, none, some, List, [], ◌∷◌, any, Result, ok, err,
  str_eq, if◌then◌else◌,
}

pub record FileData : Type 0 where
  pub content : List ℕ
  pub mode : ℕ
  pub uid : ℕ
  pub gid : ℕ

-- What a path names; `special` is a device or the like.
pub data Entry : Type 0 where
  missing symlink directory special : Entry
  file : FileData → Entry

-- How the next system call ends: as asked, with a `PermissionError`, or with another error.
pub data Outcome : Type 0 where
  done denied failed : Outcome

pub data Action : Type 0 where
  restart is_active : Action

-- What the operations change.
pub record Machine : Type 0 where
  pub files : String → Entry
  -- the `systemctl` calls so far, newest first, with whether each succeeded
  pub service : List (Action × Bool)
  -- what the process writes to standard output, and its owner
  pub output : List String
  pub uid : ℕ
  pub gid : ℕ

pub record World : Type 0 where
  pub machine : Machine
  pub open machine use *
  pub outcomes : List Outcome

pub data Reason : Type 0 where
  invalid_toml not_regular lock_timeout recovered recovery_failed : Reason

pub data Error : Type 0 where
  os_error subprocess_error : Error
  apply_error : Reason → Error

-- What the operating system and the standard library provide: a name for a temporary file, not in
-- use and other than the target, unless none is found, the path of the backup, UTF-8 and the TOML parser's verdict.
pub record Os : Type 0 where
  pub mkstemp : (String → Entry) → String → Option String
  pub mkstemp_new :
      (files : String → Entry) (path tmp : String)
      → mkstemp files path ≡ some tmp
      → (files tmp ≡ missing) × (path ≢ tmp)
  pub encode : String → List ℕ
  pub is_toml : String → Bool
  pub backup_of : String → String
  pub backup_ne : (path : String) → backup_of path ≢ path
  -- `path.parents`, the outermost first
  pub parents_of : String → List String
  pub parents_ne : (path : String) → any (str_eq path) (parents_of path) ≡ false
  -- `path.parent / ".ttx-bridge.lock"`
  pub lock_of : String → String

abbrev pub Io {ℓ} : Type ℓ → Type ℓ
Io A = World → Result Error A × World

abbrev pub pure {ℓ} : {A : Type ℓ} → A → Io A
pure a w = (ok a, w)

abbrev pub raise {ℓ} : {A : Type ℓ} → Error → Io A
raise e w = (err e, w)

abbrev pub continue {ℓ κ} : {A : Type ℓ} {B : Type κ} → Result Error A → (A → Io B) → Io B
continue (ok a) f w = f a w
continue (err e) f w = (err e, w)

infixl 5 ◌>>=◌ ◌>>◌
abbrev pub ◌>>=◌ {ℓ κ} : {A : Type ℓ} {B : Type κ} → Io A → (A → Io B) → Io B
◌>>=◌ m f w = let (r, w') = m w in continue r f w'

abbrev pub ◌>>◌ {ℓ κ} : {A : Type ℓ} {B : Type κ} → Io A → Io B → Io B
m >> k = m >>= λ _. k

abbrev handle {ℓ} : {A : Type ℓ} → (Error → Bool) → Result Error A → (Error → Io A) → Io A
handle caught (ok a) h w = (ok a, w)
handle caught (err e) h w = if caught e then h e w else (err e, w)

-- `try: m except ... as e: h e`, for the exceptions that the test picks.
abbrev pub catching {ℓ} : {A : Type ℓ} → (Error → Bool) → Io A → (Error → Io A) → Io A
catching caught m h w = let (r, w') = m w in handle caught r h w'

abbrev after_finally {ℓ} : {A : Type ℓ} → Result Error A → Result Error (Unit {0}) → Result Error A
after_finally r (ok _) = r
after_finally r (err e) = err e

-- `try: m finally: k`; an exception of `k` replaces that of `m`.
abbrev pub finally {ℓ} : {A : Type ℓ} → Io A → Io (Unit {0}) → Io A
finally m k w = let (r, w') = m w in let (r', w'') = k w' in (after_finally r r', w'')

-- The outcome of the next call; the environment answers `done` once its list is used up.
unfoldable pub next_outcome : World → Outcome × World
next_outcome w = elim w.outcomes [ [] ↦ (done, w) | o ∷ rest ↦ (o, record w { outcomes = rest }) ]

unfoldable pub syscall : Io (Unit {0})
syscall w =
    let (o, w') = next_outcome w in
    elim o [ done ↦ (ok tt, w') | denied ↦ (err os_error, w') | failed ↦ (err os_error, w') ]

-- A call whose `PermissionError` is passed over; the result says whether it took effect.
unfoldable pub syscall_permitted : Io Bool
syscall_permitted w =
    let (o, w') = next_outcome w in
    elim o [ done ↦ (ok true, w') | denied ↦ (ok false, w') | failed ↦ (err os_error, w') ]

-- A call whose `OSError` is passed over.
unfoldable pub syscall_tried : Io Bool
syscall_tried w =
    let (o, w') = next_outcome w in
    elim o [ done ↦ (ok true, w') | denied ↦ (ok false, w') | failed ↦ (ok false, w') ]

abbrev pub update : (String → Entry) → String → Entry → String → Entry
update files path e other = if str_eq path other then e else files other

unfoldable pub put : String → Entry → Io (Unit {0})
put path e w = (ok tt, record w { machine = record w.machine { files = update w.files path e } })

unfoldable pub stat : String → Io Entry
stat path w = (ok (w.files path), w)

-- `class FileState`; `uid` and `gid` are None only where the file did not exist.
pub data FileState : Type 0 where
  absent : FileState
  existed : FileData → FileState

unfoldable pub read_entry : Entry → Io FileState
read_entry missing = pure absent
read_entry symlink = raise os_error
read_entry directory = do syscall; raise os_error
read_entry special = do syscall; raise (apply_error not_regular)
read_entry (file d) = do syscall; syscall; pure (existed d)

unfoldable pub capture_file_state : String → Io FileState
unfolding read_entry
capture_file_state path = do entry ← stat path; read_entry entry

-- `_fsync_directory`: errors of `open` and `fsync` are passed over, one of `close` is not.
unfoldable pub fsync_directory : Io (Unit {0})
fsync_directory = do opened ← syscall_tried; if opened then (do syscall_tried; syscall) else pure tt

-- `tmp.unlink()`, with `FileNotFoundError` passed over.
unlink_entry : String → Entry → Io (Unit {0})
unlink_entry path missing = pure tt
unlink_entry path _ = do syscall; put path missing

unfoldable pub unlink : String → Io (Unit {0})
unfolding unlink_entry
unlink path = do entry ← stat path; unlink_entry path entry

-- The owner and mode of the state are put on the temporary file.
unfoldable pub copy_metadata : FileState → FileData → Io FileData
copy_metadata absent tmp = pure tmp
copy_metadata (existed d) tmp = do
  syscall
  owned ← syscall_permitted
  let kept = record tmp { mode = d.mode }
  pure (if owned then record kept { uid = d.uid; gid = d.gid } else kept)

-- The body of the `try` of `atomic_write`: the content goes to the temporary file, which then
-- replaces the target in one step.
unfoldable pub replace_with : FileData → String → String → FileState → Io (Unit {0})
replace_with new tmp path state = do
  syscall
  put tmp (file new)
  syscall
  final ← copy_metadata state new
  put tmp (file final)
  syscall
  put path (file final)
  put tmp missing
  fsync_directory

-- A file that the process has just made.
abbrev pub own_file : ℕ → ℕ → List ℕ → FileData
own_file uid gid content = record { content = content; mode = 0o600; uid = uid; gid = gid }

pub write_through : ℕ → ℕ → String → String → List ℕ → FileState → Io (Unit {0})
write_through uid gid tmp path content state = do
  syscall
  put tmp (file (own_file uid gid []))
  finally (replace_with (own_file uid gid content) tmp path state) (unlink tmp)

-- One directory of `mkdir(parents=True, exist_ok=True)`: a link may lead to one.
pub make_directory : String → Entry → Io (Unit {0})
make_directory path missing = do syscall; put path directory
make_directory path directory = pure tt
make_directory path symlink = syscall
make_directory path _ = raise os_error

unfoldable pub make_directories : List String → Io (Unit {0})
unfolding make_directory
make_directories [] = pure tt
make_directories (path ∷ paths) = do
  entry ← stat path
  make_directory path entry
  make_directories paths

pub write_by_way_of : Option String → ℕ → ℕ → String → List ℕ → FileState → Io (Unit {0})
unfolding write_through
write_by_way_of none uid gid path content state = raise os_error
write_by_way_of (some tmp) uid gid path content state = write_through uid gid tmp path content state

-- What follows the making of the directories.
unfoldable pub write_in : Os → String → List ℕ → FileState → Io (Unit {0})
unfolding write_by_way_of
write_in os path content state w =
    write_by_way_of (os.mkstemp w.files path) w.uid w.gid path content state w

unfoldable pub atomic_write : Os → String → List ℕ → FileState → Io (Unit {0})
unfolding write_in
atomic_write os path content state = do
  make_directories (os.parents_of path)
  write_in os path content state

unfoldable pub restore_file_state : Os → String → FileState → Io (Unit {0})
restore_file_state os path (existed d) = atomic_write os path d.content (existed d)
restore_file_state os path absent = do unlink path; fsync_directory

-- Every error but the one that reports a rollback that went through.
abbrev pub is_plain : Error → Bool
is_plain os_error = true
is_plain subprocess_error = true
is_plain (apply_error invalid_toml) = true
is_plain (apply_error not_regular) = true
is_plain (apply_error lock_timeout) = true
is_plain (apply_error recovered) = false
is_plain (apply_error recovery_failed) = true

-- The clauses `except (OSError, TrustTunnelApplyError)` and `except (OSError, SubprocessError)`.
abbrev pub is_file_error : Error → Bool
is_file_error os_error = true
is_file_error subprocess_error = false
is_file_error (apply_error _) = true

abbrev pub is_command_error : Error → Bool
is_command_error os_error = true
is_command_error subprocess_error = true
is_command_error (apply_error _) = false

log_call : Action → Bool → World → World
log_call action succeeded w = record w {
  machine = record w.machine { service = (action, succeeded) ∷ w.service };
}

-- `subprocess.run(["systemctl", ...], check=True, timeout=...)`: the command succeeds, or cannot be
-- started, or fails or takes too long.
pub called : Action → Outcome × World → Result Error (Unit {0}) × World
unfolding log_call
called action (done, w) = (ok tt, log_call action true w)
called action (denied, w) = (err os_error, w)
called action (failed, w) = (err subprocess_error, log_call action false w)

unfoldable pub systemctl : Action → Io (Unit {0})
unfolding called
systemctl action w = called action (next_outcome w)

unfoldable pub print : String → Io (Unit {0})
print text w = (ok tt, record w { machine = record w.machine { output = text ∷ w.output } })
