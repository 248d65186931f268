-- ===== src/Bridge/Apply/Transaction.antt =====
-- The application of a new vpn.toml as a transaction, from the staging to the rollback.
use cascade_vpn.Base.{
  ℕ, String, ◌≡◌, ◌⊎◌, inl, inr, true, Option, none, some, List, Result, ok, err, if◌then◌else◌,
  is_some, str_eq_refl,
}
use cascade_vpn.Bridge.Files.{
  FileData, Entry, missing, file, restart, is_active, Machine, Os, Error, os_error,
  subprocess_error, pure, raise, FileState, absent, existed, catching, unlink, restore_file_state,
  apply_error, not_regular, invalid_toml, lock_timeout, recovered, recovery_failed, is_file_error,
  is_command_error, is_plain,
}
use cascade_vpn.Bridge.Files.Ensures.{
  Ends, Ensures, Ensures-pure, Ensures-raise, Ensures-weaken, Ensures-bind, Ensures-catching,
}
use cascade_vpn.Bridge.Files.Replace.{fsync_directory-Ensures, unlink-Ensures}
use cascade_vpn.Bridge.Files.Service.{Calls}
use cascade_vpn.Bridge.Apply.{
  Config, RecoveryError, not_restored, not_started, check_trusttunnel_health, load_previous,
  restore_previous, recover_previous_config, start_new, roll_back,
}
use cascade_vpn.Bridge.Apply.Target.{At, New, OldOrNew, Captures, write_target-Ensures}
use cascade_vpn.Bridge.Files.Plain.{
  Plain, Plain-pure, Plain-catching, systemctl-Plain, restore-Plain, Plain-bind, Ensures-plain,
}
use cascade_vpn.Bridge.Apply.Endings.{
  Restored, Whole, replaced, back, Reloaded, Fails, Stopped, started, start_new-Ensures,
  load_previous-Ensures, LoadEnding,
}

pub plain-Fails :
    (path : String) (e : Entry) (content : List ℕ) (x : Error) (m : Machine)
    → is_plain x ≡ true
    → Whole path e content m
    → Fails path e content x m
plain-Fails path e content os_error m h w = w
plain-Fails path e content subprocess_error m h w = w
plain-Fails path e content (apply_error invalid_toml) m h w = w
plain-Fails path e content (apply_error not_regular) m h w = w
plain-Fails path e content (apply_error lock_timeout) m h w = w
plain-Fails path e content (apply_error recovered) m h w = cc
plain-Fails path e content (apply_error recovery_failed) m h w = w

module _ (os : Os) (path : String) (e : Entry) (content : List ℕ) (s : Calls) where
  -- A new file is put over by the old one.
  module _ (d : FileData) (taken : e ≡ file d) where
    overwritten-Ends :
        (r : Result Error (Unit {0})) (m : Machine) (final : FileData)
        → final.content ≡ content
        → final.mode ≡ d.mode
        → Ends
            (λ _. New path d.content (existed d) s)
            (OldOrNew path (file final) d.content (existed d) s)
            r
            m
        → Ends (λ _. New path d.content (existed d) s) (λ _. Whole path e content) r m
    overwritten-Ends (ok u) m final c f q = q
    overwritten-Ends (err x) m final c f (inl q) =
        replaced (existed d) s taken
          (record { final = final; stored = q.0; whole = c; fits = f; calls = q.1 })
    overwritten-Ends (err x) m final c f (inr q) = back (existed d) s taken q

  -- A new file is removed where there was none.
  module _ (taken : e ≡ missing) where
    abbrev Removing : Machine → Type 0
    Removing m = New path content absent s m ⊎ At path missing s m

    Removing-calls : (m : Machine) → Removing m → m.service ≡ s
    Removing-calls m (inl n) = n.calls
    Removing-calls m (inr a) = a.1

    Removing-Whole : (m : Machine) → Removing m → Whole path e content m
    Removing-Whole m (inl n) = replaced absent s taken n
    Removing-Whole m (inr a) = back absent s taken a

    removed-Ensures :
        Ensures
          (New path content absent s)
          (restore_file_state os path absent)
          (λ _. At path missing s)
          (λ _. Whole path e content)
    unfolding restore_file_state
    removed-Ensures =
        Ensures-bind _ (λ _ m. Removing m × (m.files path ≡ missing)) _ _ (unlink path) _
          (Ensures-weaken _ _ _ Removing (λ _ m. Removing m × (m.files path ≡ missing))
            (λ _. Removing) _ (λ m n. inl n) (λ _ m q. q) (λ _ m q. Removing-Whole m q)
            (unlink-Ensures Removing path λ m q. inr (rw str_eq_refl, Removing-calls m q)))
          λ _.
            Ensures-weaken _ _ _ (At path missing s) (λ _. At path missing s)
              (λ _. At path missing s) _ (λ m q. (q.1, Removing-calls m q.0)) (λ _ m q. q)
              (λ _ m q. back absent s taken q) (fsync_directory-Ensures (At path missing s))

  restore-Ensures :
      (state : FileState)
      → Captures e state
      → Ensures
          (New path content state s)
          (restore_file_state os path state)
          (λ _. Restored path e content state s)
          (λ _. Whole path e content)
  unfolding restore_file_state
  restore-Ensures absent taken = removed-Ensures taken
  restore-Ensures (existed d) taken = record {
    run = λ w n. overwritten-Ends d taken _ _ n.final n.whole n.fits (
        (write_target-Ensures os path (file n.final) s d.content (existed d)).run w
          (n.stored, n.calls));
  }

module _ (os : Os) (cfg : Config) (e : Entry) (content : List ℕ) (state : FileState)
    (taken : Captures e state) where
  abbrev path : String
  path = cfg.tt_target

  -- What the recovery reports, and what it leaves.
  abbrev Recovery : Option RecoveryError → Machine → Type 0
  Recovery none m = Reloaded path e content m
  Recovery (some _) m = Whole path e content m

  abbrev Back : Calls → Option RecoveryError → Machine → Type 0
  Back s none m = Restored path e content state s m
  Back s (some _) m = Whole path e content m

  restore_previous-Ensures :
      (s : Calls)
      → Ensures
          (New path content state s)
          (restore_previous os cfg state)
          (Back s)
          (λ _. Whole path e content)
  unfolding restore_previous
  restore_previous-Ensures s =
      Ensures-catching _ (Back s) (λ _. Whole path e content) _ is_file_error _ _
        (Ensures-bind _ (λ _. Restored path e content state s) _ _ _ _
          (restore-Ensures os path e content s state taken) λ _. Ensures-pure _ _ _ none (λ m r. r))
        (λ x _. Ensures-pure _ _ _ (some not_restored) (λ m h. h)) (λ x m _ h. h)

  recover-Ensures :
      (s : Calls)
      → Ensures
          (New path content state s)
          (recover_previous_config os cfg state)
          Recovery
          (λ _. Whole path e content)
  unfolding recover_previous_config
  recover-Ensures s = Ensures-bind _ (Back s) _ _ _ _ (restore_previous-Ensures s) load
    where
      loaded :
          (failure : Option RecoveryError) (m : Machine)
          → LoadEnding os cfg e content state taken s failure m
          → Recovery failure m
      loaded none m r = record { state = state; earlier = s; taken = taken; restored = r }
      loaded (some x) m r = back state r.0 taken r.1

      load :
          (failure : Option RecoveryError)
          → Ensures
              (Back s failure)
              (elim failure [ none ↦ load_previous | some x ↦ pure (some x) ])
              Recovery
              (λ _. Whole path e content)
      load none =
          Ensures-weaken _ _ _ _ _ _ _ (λ m p. p) loaded (λ _ m h. h)
            (load_previous-Ensures os cfg e content state taken s)
      load (some x) = Ensures-pure _ _ _ (some x) (λ m h. h)

  recover-Plain : Plain (recover_previous_config os cfg state)
  unfolding recover_previous_config restore_previous load_previous check_trusttunnel_health
  recover-Plain = Plain-bind _ _ restored after
    where
      restored : Plain (restore_previous os cfg state)
      restored =
          Plain-catching is_file_error _ _
            (Plain-bind _ _ (restore-Plain os path state) (λ _. Plain-pure none))
            (λ _. Plain-pure (some not_restored))

      after :
          (failure : Option RecoveryError)
          → Plain (elim failure [ none ↦ load_previous | some x ↦ pure (some x) ])
      after none =
          Plain-catching is_command_error _ _
            (Plain-bind _ _ (systemctl-Plain restart)
              λ _. Plain-bind _ _ (systemctl-Plain is_active) (λ _. Plain-pure none))
            (λ _. Plain-pure (some not_started))
      after (some x) = Plain-pure (some x)

  roll_back-Ensures :
      (s : Calls) (Q : Unit {0} → Machine → Type 0)
      → Ensures (New path content state s) (roll_back os cfg state) Q (Fails path e content)
  unfolding roll_back
  roll_back-Ensures s Q =
      Ensures-bind _ Recovery _ _ _ _
        (Ensures-plain _ _ (λ _. Whole path e content) _ _ (recover-Ensures s) recover-Plain
          (plain-Fails path e content))
        report
    where
      report :
          (failure : Option RecoveryError)
          → Ensures
              (Recovery failure)
              (raise (apply_error (if is_some failure then recovery_failed else recovered)))
              Q
              (Fails path e content)
      report none = Ensures-raise _ _ _ _ (λ m r. r)
      report (some x) = Ensures-raise _ _ _ _ (λ m h. h)

  -- The new file is loaded, or the error tells of the rollback.
  pub started-Ensures :
      (s : Calls)
      → Ensures
          (New path content state s)
          (catching is_command_error (start_new cfg) (λ _. roll_back os cfg state))
          (λ _. New path content state (started os cfg e content state taken s))
          (Fails path e content)
  started-Ensures s =
      Ensures-catching _ _ (Stopped os cfg e content state taken (New path content state)) _
        is_command_error _ _ (start_new-Ensures os cfg e content state taken s)
        (λ x _. record { run = λ w p. (roll_back-Ensures p.1.0 _).run w p.1.1 })
        (λ x m passed p. cc (p.0, passed))
