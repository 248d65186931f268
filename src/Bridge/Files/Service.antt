-- ===== src/Bridge/Files/Service.antt =====
-- `systemctl` calls: they change no file, and each is recorded with its result.
use cascade_vpn.Base.{◌≡◌, refl, Bool, true, false, List, ◌∷◌}
use cascade_vpn.Bridge.Files.{
  Action, Machine, World, Error, Outcome, done, denied, failed, next_outcome, called, systemctl,
  is_command_error,
}
use cascade_vpn.Bridge.Files.Ensures.{Ends, Ensures, machine-next_outcome}

-- The calls of `systemctl` so far, newest first.
abbrev pub Calls : Type 0
Calls = List (Action × Bool)

-- A predicate about the files, with the calls beside it.
pub record Tracks (P : Calls → Machine → Type 0) : Type 0 where
  pub calls : (s : Calls) (m : Machine) → P s m → m.service ≡ s
  pub reindex : (s s' : Calls) (m : Machine) → P s m → P s' (record m { service = s' })

module _ (P : Calls → Machine → Type 0) (tracks : Tracks P) (s : Calls) (a : Action) where
  -- After an exception the call may have been made.
  abbrev pub Somehow : Error → Machine → Type 0
  Somehow x m = (is_command_error x ≡ true) × ((s' : Calls) × P s' m)

  called-Ends :
      (o : Outcome) (w : World)
      → P s w.machine
      → Ends (λ _. P ((a, true) ∷ s)) Somehow (called a (o, w)).0 (called a (o, w)).1.machine
  unfolding called
  called-Ends done w p =
      rw (tracks.calls s w.machine p) (tracks.reindex s ((a, true) ∷ s) w.machine p)
  called-Ends denied w p = (refl, (s, p))
  called-Ends failed w p =
      (refl, ((a, false) ∷ w.service, tracks.reindex s ((a, false) ∷ w.service) w.machine p))

  pub systemctl-Ensures : Ensures (P s) (systemctl a) (λ _. P ((a, true) ∷ s)) Somehow
  unfolding systemctl
  systemctl-Ensures = record {
    run = λ w p. called-Ends (next_outcome w).0 (next_outcome w).1 (rw machine-next_outcome p);
  }
