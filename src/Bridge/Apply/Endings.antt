-- ===== src/Bridge/Apply/Endings.antt =====
-- How `apply_trusttunnel_config` ends, whatever system calls and `systemctl` calls fail.
use cascade_vpn.Base.{
  ℕ, String, ◌≡◌, Bool, true, false, not, Option, none, some, List, ◌∷◌, arith, if◌then◌else◌,
}
use cascade_vpn.Bridge.Files.{
  Entry, missing, restart, is_active, Machine, Os, Error, os_error, subprocess_error, pure,
  FileState, absent, existed, apply_error, not_regular, invalid_toml, lock_timeout, recovered,
  recovery_failed, is_command_error,
}
use cascade_vpn.Bridge.Files.Ensures.{
  Ensures, Ensures-pure, Ensures-bind, Ensures-catching, Ensures-if,
}
use cascade_vpn.Bridge.Files.Service.{Calls, Tracks, systemctl-Ensures}
use cascade_vpn.Bridge.Apply.{
  Config, RecoveryError, not_started, restart_trusttunnel, check_trusttunnel_health, load_previous,
  start_new,
}
use cascade_vpn.Bridge.Apply.Target.{At, At-Tracks, New-Tracks, New, Captures}

module _ (path : String) (e : Entry) (content : List ℕ) where
  -- The file that the snapshot `state` was taken of is back, by content and mode.
  abbrev pub Restored : FileState → Calls → Machine → Type 0
  Restored absent s m = At path missing s m
  Restored (existed d) s m = New path d.content (existed d) s m

  -- The target is never anything but the old file, the whole new one, or the old one put back.
  pub data Whole (m : Machine) : Type 0 where
    unchanged : (s : Calls) → At path e s m → Whole m
    replaced :
        (state : FileState) (s : Calls) → Captures e state → New path content state s m → Whole m
    back : (state : FileState) (s : Calls) → Captures e state → Restored state s m → Whole m

  -- The old file is back, and the last two calls restarted the service and found it active.
  pub record Reloaded (m : Machine) : Type 0 where
    pub state : FileState
    pub earlier : Calls
    pub taken : Captures e state
    pub restored : Restored state ((is_active, true) ∷ (restart, true) ∷ earlier) m

  abbrev pub Fails : Error → Machine → Type 0
  Fails os_error m = Whole m
  Fails subprocess_error m = Whole m
  Fails (apply_error invalid_toml) m = Whole m
  Fails (apply_error not_regular) m = Whole m
  Fails (apply_error lock_timeout) m = Whole m
  Fails (apply_error recovered) m = Reloaded m
  Fails (apply_error recovery_failed) m = Whole m

  pub Reloaded-Whole : (m : Machine) → Reloaded m → Whole m
  Reloaded-Whole m r = back r.state _ r.taken r.restored

  pub Fails-Whole : (x : Error) (m : Machine) → Fails x m → Whole m
  Fails-Whole os_error m h = h
  Fails-Whole subprocess_error m h = h
  Fails-Whole (apply_error invalid_toml) m h = h
  Fails-Whole (apply_error not_regular) m h = h
  Fails-Whole (apply_error lock_timeout) m h = h
  Fails-Whole (apply_error recovered) m h = Reloaded-Whole m h
  Fails-Whole (apply_error recovery_failed) m h = h

Restored-Tracks :
    (path : String) (e : Entry) (content : List ℕ) (state : FileState)
    → Tracks (Restored path e content state)
Restored-Tracks path e content absent = At-Tracks path missing
Restored-Tracks path e content (existed d) = New-Tracks path d.content (existed d)

-- The steps that follow once the new file is in place.
module _ (os : Os) (cfg : Config) (e : Entry) (content : List ℕ) (state : FileState)
    (taken : Captures e state) where
  abbrev pub Placed : Calls → Machine → Type 0
  Placed = New cfg.tt_target content state

  abbrev pub PutBack : Calls → Machine → Type 0
  PutBack = Restored cfg.tt_target e content state

  abbrev pub IsWhole : Machine → Type 0
  IsWhole = Whole cfg.tt_target e content

  -- The calls of a start that went through.
  abbrev pub started : Calls → Calls
  started s = if cfg.tt_restart then (is_active, true) ∷ (restart, true) ∷ s else s

  -- A command failed; the files are as `P` says.
  abbrev pub Stopped : (Calls → Machine → Type 0) → Error → Machine → Type 0
  Stopped P x m = (is_command_error x ≡ true) × ((s' : Calls) × P s' m)

  Placed-Tracks : Tracks Placed
  Placed-Tracks = New-Tracks cfg.tt_target content state

  -- The restart was made, as the configuration asks for.
  abbrev Restarted : Calls → Bool → Machine → Type 0
  Restarted s b m = (cfg.tt_restart ≡ b) × Placed (if b then (restart, true) ∷ s else s) m

  restart-Ensures :
      (s : Calls)
      → Ensures (Placed s) (restart_trusttunnel cfg false) (Restarted s) (Stopped Placed)
  unfolding restart_trusttunnel
  restart-Ensures s =
      Ensures-if _ _ _ (not cfg.tt_restart) _ _
        (λ off. Ensures-pure _ _ _ false (λ m p. (ground arith, p)))
        (λ on.
          Ensures-bind (Placed s) (λ _. Placed ((restart, true) ∷ s)) _ _ _ _
            (systemctl-Ensures Placed Placed-Tracks s restart)
            λ _. Ensures-pure _ _ _ true (λ m p. (ground arith, p)))

  started-eq :
      (s : Calls) (b : Bool)
      → cfg.tt_restart ≡ b
      → started s ≡ (if b then (is_active, true) ∷ (restart, true) ∷ s else s)
  started-eq s b h = ground arith

  pub start_new-Ensures :
      (s : Calls) → Ensures (Placed s) (start_new cfg) (λ _. Placed (started s)) (Stopped Placed)
  unfolding start_new check_trusttunnel_health
  start_new-Ensures s = Ensures-bind (Placed s) (Restarted s) _ _ _ _ (restart-Ensures s) finish
    where
      finish :
          (b : Bool)
          → Ensures
              (Restarted s b)
              (if b then check_trusttunnel_health false else pure tt)
              (λ _. Placed (started s))
              (Stopped Placed)
      finish true = record {
        run = λ w p.
            rw (started-eq s true p.0)
              ((systemctl-Ensures Placed Placed-Tracks ((restart, true) ∷ s) is_active).run w p.1);
      }
      finish false = Ensures-pure _ _ _ tt (λ m p. rw (started-eq s false p.0) p.1)

  abbrev pub LoadEnding : Calls → Option RecoveryError → Machine → Type 0
  LoadEnding s none m = PutBack ((is_active, true) ∷ (restart, true) ∷ s) m
  LoadEnding s (some _) m = (s' : Calls) × PutBack s' m

  pub load_previous-Ensures :
      (s : Calls) → Ensures (PutBack s) load_previous (LoadEnding s) (λ _. IsWhole)
  unfolding load_previous check_trusttunnel_health
  load_previous-Ensures s =
      Ensures-catching (PutBack s) (LoadEnding s) (Stopped PutBack) _ is_command_error _ _
        (Ensures-bind (PutBack s) (λ _. PutBack ((restart, true) ∷ s)) _ _ _ _
          (systemctl-Ensures PutBack tracks s restart)
          λ _.
            Ensures-bind _ (λ _. PutBack ((is_active, true) ∷ (restart, true) ∷ s)) _ _ _ _
              (systemctl-Ensures PutBack tracks ((restart, true) ∷ s) is_active)
              λ _. Ensures-pure _ _ _ none (λ m p. p))
        (λ x _. Ensures-pure _ _ _ (some not_started) (λ m p. p.1))
        (λ x m _ p. back state (p.1).0 taken (p.1).1)
    where
      tracks : Tracks PutBack
      tracks = Restored-Tracks cfg.tt_target e content state
