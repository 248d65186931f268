-- ===== src/Bridge/Command/Exit.antt =====
-- What the exit code of `cmd_reconcile` says of the files and the service.
use cascade_vpn.Base.{
  ℕ, ◌≡◌, ◌⊎◌, Bool, true, false, Option, none, some, List, [], ◌∷◌, Result, ok, err,
}
use cascade_vpn.Bridge.Json.{Members}
use cascade_vpn.Bridge.Panel.{Failure}
use cascade_vpn.Bridge.Ingress.{reconcile_ingress}
use cascade_vpn.Bridge.Panel.{new_client}
use cascade_vpn.Bridge.Versions.{Problem, check_compat}
use cascade_vpn.Bridge.Render.Config.{render_vpn_config, is_looping}
use cascade_vpn.Bridge.Files.{World, Error}
use cascade_vpn.Bridge.Apply.Endings.{Fails}
use cascade_vpn.Bridge.Apply.Commit.{Succeeds}
use cascade_vpn.Bridge.Command.{Host, Stop, Outcome, described}

module _ (h : Host) (dry_run restarts : Bool) (w : World) where
  abbrev pub versions : Option (List Problem)
  versions = check_compat h.digits h.found

  abbrev pub ingress : Result Failure Members
  ingress = described (reconcile_ingress h.codec h.panel h.server dry_run new_client).0

  -- The versions do not end the command: they have no problem, or the configuration is not strict.
  abbrev pub Compatible : Type 0
  Compatible = (ps : List Problem) × (versions ≡ some ps) × ((ps ≡ []) ⊎ (h.compat_strict ≡ false))

  -- The panel was reconciled.
  pub record Settled : Type 0 where
    pub compatible : Compatible
    pub found : Members
    pub reconciled : ingress ≡ ok found

  abbrev pub rendered_of : List ℕ → List ℕ
  rendered_of base = render_vpn_config h.texts h.upstream base

  -- The panel was reconciled, and the file rendered.
  pub record Rendered (rendered : List ℕ) (looping : Bool) : Type 0 where
    pub settled : Settled
    pub base : List ℕ
    pub read : h.base ≡ some base
    pub made : rendered ≡ rendered_of base
    pub checked : is_looping h.texts h.upstream rendered ≡ looping

  -- Why a command stops without an exit code.
  abbrev pub Stops : Stop → Type 0
  Stops Stop.bad_compat = versions ≡ none
  Stops (Stop.panel_failure e) = Compatible × (ingress ≡ err e)
  Stops Stop.no_base = Settled × (h.base ≡ none)
  Stops Stop.traffic_loop = (rendered : List ℕ) × Rendered rendered true

  -- How a command ends, and why.
  pub data Exits (out : Outcome) : Type 0 where
    stopped : (s : Stop) → Stops s → out ≡ (err s, w) → Exits out
    refused :
        (p : Problem) (ps : List Problem)
        → versions ≡ some (p ∷ ps)
        → h.compat_strict ≡ true
        → out ≡ (ok 3, w)
        → Exits out
    applied :
        (rendered : List ℕ) (changed : Bool)
        → Rendered rendered false
        → out.0 ≡ ok 0
        → Succeeds h.os h.files
            (h.text_of rendered)
            dry_run
            restarts
            (w.files h.files.tt_target)
            w.service
            changed
            out.1.machine
        → Exits out
    not_applied :
        (rendered : List ℕ) (e : Error)
        → Rendered rendered false
        → out.0 ≡ ok 4
        → Fails h.files.tt_target
            (w.files h.files.tt_target)
            (h.os.encode (h.text_of rendered))
            e
            out.1.machine
        → Exits out
