-- ===== src/Bridge/Apply/Commit.antt =====
-- `apply_trusttunnel_config` as a whole: the lock, the staging, the restart and the rollback.
use cascade_vpn.Base.{
  ℕ, String, ◌≡◌, ◌≢◌, refl, Bool, true, false, not, Option, none, some, List, arith, list_eq_iff,
  str_eq_iff, Result, ok, err,
}
use cascade_vpn.Bridge.Files.{
  FileData, Entry, missing, symlink, directory, special, file, Machine, update, stat,
  make_directories, World, Os, Error, pure, FileState, absent, existed, ◌>>=◌, ◌>>◌, catching,
  syscall, is_command_error,
}
use cascade_vpn.Bridge.Files.Ensures.{
  Ends, Ensures, Ensures-pure, Ensures-raise, Ensures-bind, Ensures-finally, Ensures-quiet,
  Ensures-syscall, Ensures-weaken, Ensures-put, Ensures-stat, Ensures-if, Ensures-then,
  machine-next_outcome,
}
use cascade_vpn.Bridge.Files.Atomic.{Grown, start-Grown, make_directories-Ensures}
use cascade_vpn.Bridge.Files.Service.{Calls}
use cascade_vpn.Bridge.Apply.{
  Config, validate_vpn_config, acquire_lock, open_lock, with_lock, wait_for_lock,
  stage_config_if_changed, stage_captured, is_unchanged, start_new, roll_back, apply_staged,
  apply_trusttunnel_config,
}
use cascade_vpn.Bridge.Apply.Target.{
  Grown-At, At, New, Captures, Staged, Broken, same, shown, written, old, new, capture-Ensures,
  stage_changed-Ensures,
}
use cascade_vpn.Bridge.Files.Plain.{
  Plain, Plain-pure, Plain-bind, Plain-raise, Plain-if, Ensures-plain, syscall-Plain, capture-Plain,
  atomic_write-Plain, print-Plain, put-Plain, stat-Plain, make_directories-Plain,
}
use cascade_vpn.Bridge.Apply.Endings.{Whole, unchanged, replaced, Fails, Fails-Whole, started}
use cascade_vpn.Bridge.Apply.Transaction.{plain-Fails, started-Ensures}
use cascade_vpn.Bridge.Apply.{stage_changed, write_backup}

module _ (os : Os) (cfg : Config) (text : String) (dry_run restarts : Bool) (e : Entry)
    (s : Calls) where
  abbrev path : String
  path = cfg.tt_target

  abbrev content : List ℕ
  content = os.encode text

  -- The result of a call that returns: `false` for a file that held the content already; `true` for
  -- a dry run, which changes nothing, for a new file that is not to be loaded, and for one that
  -- the service was restarted with and found active, if the configuration asks for a restart.
  pub data Succeeds : Bool → Machine → Type 0 where
    up_to_date :
        {m : Machine} (d : FileData)
        → e ≡ file d
        → d.content ≡ content
        → At path e s m
        → Succeeds false m
    only_shown : {m : Machine} → dry_run ≡ true → At path e s m → Succeeds true m
    not_loaded :
        {m : Machine} (state : FileState)
        → dry_run ≡ false
        → restarts ≡ false
        → Captures e state
        → New path content state s m
        → Succeeds true m
    loaded :
        {m : Machine} (state : FileState)
        → dry_run ≡ false
        → restarts ≡ true
        → (taken : Captures e state)
        → New path content state (started os cfg e content state taken s) m
        → Succeeds true m

  abbrev Broke : Error → Machine → Type 0
  Broke _ = Broken path s content dry_run e

  Broken-Whole : (m : Machine) → Broken path s content dry_run e m → Whole path e content m
  Broken-Whole m (old a) = unchanged s a
  Broken-Whole m (new state c n) = replaced state s c n

  is_unchanged-same :
      (state : FileState)
      → Captures e state
      → is_unchanged state content ≡ true
      → (d : FileData) × (e ≡ file d) × (d.content ≡ content)
  unfolding is_unchanged
  is_unchanged-same absent c h = cc
  is_unchanged-same (existed d) c h = (d, c, (list_eq_iff d.content content).0 h)

  stage_captured-Ensures :
      (state : FileState)
      → Ensures
          (λ m. Captures e state × At path e s m)
          (stage_captured os path text dry_run state)
          (Staged path s content dry_run e)
          Broke
  unfolding stage_captured
  stage_captured-Ensures state =
      Ensures-if _ _ _ (is_unchanged state content) _ _
        (λ h.
          Ensures-pure _ _ _ none
            λ m p. let (d, is_file, eq) = is_unchanged-same state p.0 h in same d is_file eq p.1)
        (λ _. record {
          run = λ w p. (stage_changed-Ensures os path s text dry_run e state p.0).run w p.1;
        })

  validate-Ensures :
      (P : Machine → Type 0) → Ensures P (validate_vpn_config os text) (λ _. P) (λ _. P)
  unfolding validate_vpn_config
  validate-Ensures P =
      Ensures-if _ _ _ (os.is_toml text) _ _ (λ _. Ensures-pure _ _ _ tt (λ m p. p))
        (λ _. Ensures-raise _ _ _ _ (λ m p. p))

  stage-Ensures :
      Ensures
        (At path e s)
        (stage_config_if_changed os path text dry_run)
        (Staged path s content dry_run e)
        Broke
  unfolding stage_config_if_changed
  stage-Ensures =
      Ensures-then _ (λ _. At path e s) _ _ (λ _ m a. old a) _ _ (validate-Ensures (At path e s))
        λ _.
          Ensures-then _ (λ state m. Captures e state × At path e s m) _ _ (λ _ m a. old a) _ _
            (capture-Ensures os path s content e) stage_captured-Ensures

  validate-Plain : Plain (validate_vpn_config os text)
  unfolding validate_vpn_config
  validate-Plain = Plain-if (os.is_toml text) _ _ (Plain-pure tt) (Plain-raise _ refl)

  write_backup-Plain : (state : FileState) → Plain (write_backup os path state)
  unfolding write_backup
  write_backup-Plain absent = Plain-pure tt
  write_backup-Plain (existed d) = atomic_write-Plain os _ d.content (existed d)

  stage-Plain : Plain (stage_config_if_changed os path text dry_run)
  unfolding stage_config_if_changed stage_captured stage_changed
  stage-Plain = Plain-bind _ _ validate-Plain λ _. Plain-bind _ _ (capture-Plain path) λ state.
      Plain-if _ _ _ (Plain-pure none) (
        Plain-if dry_run _ _ (Plain-bind _ _ (print-Plain text) (λ _. Plain-pure (some state))) (
          Plain-bind _ _ (write_backup-Plain state) λ _.
            Plain-bind _ _ (atomic_write-Plain os path content state)
              (λ _. Plain-pure (some state))))

  none-Succeeds : {m : Machine} → Staged path s content dry_run e none m → Succeeds false m
  none-Succeeds (same d is_file eq a) = up_to_date d is_file eq a

  dry-Succeeds :
      {state : FileState} {m : Machine}
      → dry_run ≡ true
      → Staged path s content dry_run e (some state) m
      → Succeeds true m
  dry-Succeeds dry (shown state d c a) = only_shown dry a
  dry-Succeeds dry (written state live c n) = cc (dry, live)

  live-New :
      {state : FileState} {m : Machine}
      → dry_run ≡ false
      → Staged path s content dry_run e (some state) m
      → Captures e state × New path content state s m
  live-New live (shown state d c a) = cc (d, live)
  live-New live (written state d c n) = (c, n)

  load-Ensures :
      (state : FileState)
      → dry_run ≡ false
      → restarts ≡ true
      → Ensures
          (Staged path s content dry_run e (some state))
          (catching is_command_error (start_new cfg) (λ _. roll_back os cfg state) >> pure true)
          Succeeds
          (Fails path e content)
  load-Ensures state live on = record {
    run = λ w p.
        let (taken, n) = live-New live p in
        (Ensures-bind _ _ _ _ _ _ (started-Ensures os cfg e content state taken s) λ _.
            Ensures-pure _ Succeeds (Fails path e content) true
              (λ m q. loaded state live on taken q)).run
          w n;
  }

  apply_staged-Ensures :
      (staged : Option FileState)
      → Ensures
          (Staged path s content dry_run e staged)
          (apply_staged os cfg dry_run restarts staged)
          Succeeds
          (Fails path e content)
  unfolding apply_staged
  apply_staged-Ensures none = Ensures-pure _ _ _ false (λ m p. none-Succeeds p)
  apply_staged-Ensures (some state) =
      Ensures-if _ _ _ dry_run _ _ (λ dry. Ensures-pure _ _ _ true (λ m p. dry-Succeeds dry p))
        (λ live.
          Ensures-if _ _ _ (not restarts) _ _
            (λ off. Ensures-pure _ _ _ true λ m p.
              let (taken, n) = live-New live p in not_loaded state live (ground arith) taken n)
            (λ on. load-Ensures state live (ground arith)))

  block-Ensures :
      Ensures
        (At path e s)
        (do
          staged ← stage_config_if_changed os path text dry_run
          apply_staged os cfg dry_run restarts staged)
        Succeeds
        (Fails path e content)
  block-Ensures =
      Ensures-bind _ (Staged path s content dry_run e) _ _ _ _
        (Ensures-plain _ _ Broke _ _ stage-Ensures stage-Plain
          (λ x m h b. plain-Fails path e content x m h (Broken-Whole m b)))
        apply_staged-Ensures

  Succeeds-Whole : {b : Bool} {m : Machine} → Succeeds b m → Whole path e content m
  Succeeds-Whole (up_to_date d is_file eq a) = unchanged s a
  Succeeds-Whole (only_shown d a) = unchanged s a
  Succeeds-Whole (not_loaded state d r c n) = replaced state s c n
  Succeeds-Whole (loaded state d r c n) = replaced state _ c n

  released-Ensures :
      (P : Machine → Type 0)
      → ((m : Machine) → P m → Whole path e content m)
      → Ensures P syscall (λ _. P) (Fails path e content)
  released-Ensures P whole =
      Ensures-plain _ _ (λ _. P) _ _ (Ensures-syscall P) syscall-Plain
        (λ x m h p. plain-Fails path e content x m h (whole m p))

  wait_machine : (w : World) → (wait_for_lock w).1.machine ≡ w.machine
  unfolding wait_for_lock
  wait_machine w = ground (arith, machine-next_outcome w)

  wait-Plain : Plain wait_for_lock
  unfolding wait_for_lock
  wait-Plain = record { at = λ w. ground arith }

  module _ (apart : os.lock_of path ≢ path) where
    made-At :
        (m : Machine) (x : Entry)
        → At path e s m
        → At path e s (record m { files = update m.files (os.lock_of path) x })
    made-At m x a = (ground (arith, a.0, str_eq_iff (os.lock_of path) path), a.1)

    open_lock-Ensures :
        (x : Entry)
        → Ensures
            (At path e s)
            (open_lock (os.lock_of path) x)
            (λ _. At path e s)
            (λ _. At path e s)
    unfolding open_lock
    open_lock-Ensures missing = record {
      run = λ w a.
          (Ensures-bind (At path e s) (λ _. At path e s) _ _ _ _ (Ensures-syscall (At path e s))
              λ _.
                Ensures-put (At path e s) (At path e s) (λ _. At path e s) (os.lock_of path) _
                  λ m b. made-At m _ b).run
            w a;
    }
    open_lock-Ensures directory = record { run = λ w a. a }
    open_lock-Ensures symlink = record { run = (Ensures-syscall (At path e s)).run }
    open_lock-Ensures special = record { run = (Ensures-syscall (At path e s)).run }
    open_lock-Ensures (file d) = record { run = (Ensures-syscall (At path e s)).run }

    make-Ensures :
        Ensures
          (At path e s)
          (make_directories (os.parents_of path))
          (λ _. At path e s)
          (λ _. At path e s)
    make-Ensures = record { run = λ w a. made w a _ _ (run_of w) }
      where
        paths : List String
        paths = os.parents_of path

        run_of :
            (w : World)
            → Ends
                (λ _. Grown paths w.machine)
                (λ _. Grown paths w.machine)
                (make_directories paths w).0
                (make_directories paths w).1.machine
        run_of w = (make_directories-Ensures paths w.machine).run w (start-Grown paths w.machine)

        made :
            (w : World)
            → At path e s w.machine
            → (r : Result Error (Unit {0})) (m : Machine)
            → Ends (λ _. Grown paths w.machine) (λ _. Grown paths w.machine) r m
            → Ends (λ _. At path e s) (λ _. At path e s) r m
        made w a (ok u) m g = Grown-At paths path e s w.machine m (os.parents_ne path) g a
        made w a (err x) m g = Grown-At paths path e s w.machine m (os.parents_ne path) g a

    stat-At : Ensures (At path e s) (stat (os.lock_of path)) (λ _. At path e s) (λ _. At path e s)
    stat-At =
        Ensures-weaken _ _ _ (At path e s) _ (λ _. At path e s) _ (λ m a. a) (λ x m a. a.0)
          (λ _ m a. a) (Ensures-stat (At path e s) (λ _. At path e s) (os.lock_of path))

    open_lock-Plain : (x : Entry) → Plain (open_lock (os.lock_of path) x)
    unfolding open_lock
    open_lock-Plain missing = record {
      at = λ w. (Plain-bind _ _ syscall-Plain λ _. put-Plain (os.lock_of path) _).at w;
    }
    open_lock-Plain directory = record { at = λ w. refl }
    open_lock-Plain symlink = record { at = syscall-Plain.at }
    open_lock-Plain special = record { at = syscall-Plain.at }
    open_lock-Plain (file d) = record { at = syscall-Plain.at }

    lock-Ensures :
        Ensures (At path e s) (acquire_lock os path) (λ _. At path e s) (Fails path e content)
    unfolding acquire_lock
    lock-Ensures =
        let P : Machine → Type 0 = At path e s in
        Ensures-plain _ _ (λ _. P) _ _
          (Ensures-bind P (λ _. P) _ _ _ _ make-Ensures
            λ _.
              Ensures-bind P (λ _. P) _ _ _ _ stat-At
                λ x.
                  Ensures-bind P (λ _. P) _ _ _ _ (open_lock-Ensures x)
                    λ _. Ensures-quiet P wait_for_lock wait_machine)
          (Plain-bind _ _ (make_directories-Plain (os.parents_of path)) λ _.
            Plain-bind _ _ (stat-Plain (os.lock_of path))
              λ x. Plain-bind _ _ (open_lock-Plain x) λ _. wait-Plain)
          (λ x m h a. plain-Fails path e content x m h (unchanged s a))

    pub apply-Ensures :
        Ensures
          (At path e s)
          (apply_trusttunnel_config os cfg text dry_run restarts)
          Succeeds
          (Fails path e content)
    unfolding apply_trusttunnel_config with_lock
    apply-Ensures =
        Ensures-bind _ (λ _. At path e s) _ _ _ _
          (Ensures-plain _ _ (λ _. At path e s) _ _ (validate-Ensures (At path e s)) validate-Plain
            (λ x m h a. plain-Fails path e content x m h (unchanged s a)))
          λ _.
            Ensures-bind _ (λ _. At path e s) _ _ _ _ lock-Ensures
              λ _.
                Ensures-finally _ Succeeds Succeeds (Fails path e content) _ _ _ block-Ensures
                  (λ b. released-Ensures (Succeeds b) (λ m q. Succeeds-Whole q))
                  (λ x.
                    Ensures-plain _ _ (λ _. Fails path e content x) _ _
                      (Ensures-syscall (Fails path e content x)) syscall-Plain
                      (λ y m h f.
                        plain-Fails path e content y m h (Fails-Whole path e content x m f)))

-- Whatever system and `systemctl` calls fail, an application ends so, where the lock file is not the
-- target. It is about the target, which was the entry `e`, and about the `systemctl` calls; the lock
-- file, the backup, directories and a temporary file may be made besides. Where it returns: the
-- target held the content already; or this is a dry run, with the target and the calls as before; or
-- the whole new file is in place, and is not loaded under --no-restart, and otherwise the service was
-- restarted and found active, if the configuration asks for restarts. Where it raises: the target is
-- as before, or the whole new file, loaded or not, or the old one put back. It is put back, and the
-- last two calls restarted the service and found it active, if the error says so.
pub apply_lem :
    (os : Os) (cfg : Config) (text : String) (dry_run restarts : Bool) (w : World)
    → os.lock_of cfg.tt_target ≢ cfg.tt_target
    → let e = w.files cfg.tt_target in
      let (r, w') = apply_trusttunnel_config os cfg text dry_run restarts w in
      Ends
        (Succeeds os cfg text dry_run restarts e w.service)
        (Fails cfg.tt_target e (os.encode text))
        r
        w'.machine
apply_lem os cfg text dry_run restarts w apart =
    (apply-Ensures os cfg text dry_run restarts (w.files cfg.tt_target) w.service apart).run w
      (refl, refl)
