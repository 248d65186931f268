-- ===== src/Portal/App/Keeps.antt =====
-- Parts of the state that a handler leaves as they are.
use cascade_vpn.Base.{◌≡◌, ◌∙◌, ok, err}
use cascade_vpn.Portal.Request.{Api}
use cascade_vpn.Portal.App.{App, Handler, continue, ◌>>=◌}

module _ {ℓ κ} {X : Type ℓ} (part : App → X) {A : Type κ} where
  abbrev pub Keeps : Handler A → Type ℓ
  Keeps m = (s : App) → part (m s).1 ≡ part s

module _ {ℓ κ μ} {X : Type ℓ} (part : App → X) {A : Type κ} {B : Type μ} where
  pub continue-Keeps :
      (f : A → Handler B) (s : App) (x : Api A × App)
      → part x.1 ≡ part s
      → ((a : A) → Keeps part (f a))
      → part (continue x f).1 ≡ part s
  continue-Keeps f s (ok a, s') h k = k a s' ∙ h
  continue-Keeps f s (err e, s') h k = h

  pub bind-Keeps :
      (m : Handler A) (f : A → Handler B)
      → Keeps part m
      → ((a : A) → Keeps part (f a))
      → Keeps part (m >>= f)
  bind-Keeps m f h k s = continue-Keeps f s (m s) (h s) k
