-- ===== src/Bridge/Command.antt =====
-- `cmd_reconcile` of bridge/ttx_bridge.py: the versions, the panel, the rendered file and its
-- application, one after the other.
pub mod Exit
mod Tests
use cascade_vpn.Base.{
  ℕ, String, Bool, true, false, Option, none, some, List, [], ◌∷◌, if◌then◌else◌, Result, ok, err,
}
use cascade_vpn.Bridge.Json.{Json, object, Members}
use cascade_vpn.Bridge.Panel as Panel
use cascade_vpn.Bridge.Panel.{Server, Client, Failure, bad_shape, new_client}
use cascade_vpn.Bridge.Ingress.{Codec, reconcile_ingress}
use cascade_vpn.Bridge.Versions.{Digits, Found, Problem, check_compat}
use cascade_vpn.Bridge.Render.Config.{Texts, Upstream, render_vpn_config, is_looping}
use cascade_vpn.Bridge.Files.{World, Os, Error}
use cascade_vpn.Bridge.Apply as Apply
use cascade_vpn.Bridge.Apply.{apply_trusttunnel_config}

-- What stands around a command: the settings, the libraries, the panel, and what is read of the
-- versions and of the base file; none is an exception.
pub record Host : Type 0 where
  pub panel : Panel.Config
  pub upstream : Upstream
  pub files : Apply.Config
  pub compat_strict : Bool
  pub codec : Codec
  pub texts : Texts
  pub digits : Digits
  pub os : Os
  pub server : Server
  pub found : Found
  pub base : Option (List ℕ)
  -- the text of these code points
  pub text_of : List ℕ → String

-- What ends a command without an exit code: an exception, or the `SystemExit` of `guard_loop`.
pub data Stop : Type 0 where
  panel_failure : Failure → Stop
  bad_compat no_base traffic_loop : Stop

-- The exit code or what stopped the command, and what it left of the files and the service.
abbrev pub Outcome : Type 0
Outcome = Result Stop ℕ × World

-- Every exception of the application is caught.
abbrev pub exit_code : Result Error Bool × World → Outcome
exit_code (ok changed, w) = (ok 0, w)
exit_code (err e, w) = (ok 4, w)

-- `ingress.get(...)` wants an object.
abbrev pub described : Result Failure Json → Result Failure Members
described (ok (object ms)) = ok ms
described (ok _) = err bad_shape
described (err e) = err e

module _ (h : Host) (dry_run restarts : Bool) where
  abbrev pub apply_rendered : List ℕ → World → Outcome
  apply_rendered rendered w =
      exit_code (apply_trusttunnel_config h.os h.files (h.text_of rendered) dry_run restarts w)

  abbrev pub guarded : List ℕ → World → Outcome
  guarded rendered w =
      if is_looping h.texts h.upstream rendered
      then (err traffic_loop, w)
      else apply_rendered rendered w

  abbrev pub with_base : Option (List ℕ) → World → Outcome
  with_base none w = (err no_base, w)
  with_base (some base) w = guarded (render_vpn_config h.texts h.upstream base) w

  abbrev pub with_ingress : Result Failure Members → World → Outcome
  with_ingress (err e) w = (err (panel_failure e), w)
  with_ingress (ok ingress) w = with_base h.base w

  abbrev pub after_panel : World → Outcome
  after_panel w =
      with_ingress (described (reconcile_ingress h.codec h.panel h.server dry_run new_client).0) w

  -- The first problem ends a strict command.
  abbrev pub with_problems : Option (List Problem) → World → Outcome
  with_problems none w = (err bad_compat, w)
  with_problems (some []) w = after_panel w
  with_problems (some (p ∷ ps)) w = if h.compat_strict then (ok 3, w) else after_panel w

  -- `cmd_reconcile`
  unfoldable pub cmd_reconcile : World → Outcome
  cmd_reconcile w = with_problems (check_compat h.digits h.found) w
