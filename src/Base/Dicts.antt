-- ===== src/Base/Dicts.antt =====
-- A dictionary keyed by text, in insertion order.
use Prim.Native.String.{String}
use mathlib.Core.Path.{◌≡◌, refl}
use mathlib.Core.Bool.{Bool}
use mathlib.Core.Option.{Option, none, some}
use mathlib.Core.List.{List, [], ◌∷◌}
use native.Mathlib.Omega.{arith}
use text.Mathlib.Text.{◌==◌ as str_eq}
use text.Mathlib.TextEquality.{eq_iff as str_eq_iff}
use cascade_vpn.Base.Tests.{if◌then◌else◌}

abbrev pub Assoc {ℓ} : Type ℓ → Type ℓ
Assoc V = List (String × V)

module _ {ℓ} {V : Type ℓ} where
  -- `d.get(k)`
  unfoldable pub lookup : String → Assoc V → Option V
  lookup k [] = none
  lookup k ((j, v) ∷ d) = if str_eq j k then some v else lookup k d

  -- `d[k] = v`
  unfoldable pub insert : String → V → Assoc V → Assoc V
  insert k v [] = (k, v) ∷ []
  insert k v ((j, w) ∷ d) = if str_eq j k then (j, v) ∷ d else (j, w) ∷ insert k v d

  -- `d.pop(k, None)`
  unfoldable pub remove : String → Assoc V → Assoc V
  remove k [] = []
  remove k ((j, v) ∷ d) = let rest = remove k d in if str_eq j k then rest else (j, v) ∷ rest

  pub lookup-insert :
      (key other : String) (value : V) (d : Assoc V)
      → lookup other (insert key value d)
        ≡ (if str_eq key other then some value else lookup other d)
  unfolding lookup insert
  lookup-insert key other value [] = refl
  lookup-insert key other value ((first, old) ∷ rest) = ground (
    arith,
    lookup-insert key other value rest,
    str_eq_iff first key,
    str_eq_iff first other,
    str_eq_iff key other,
  )

  pub lookup-remove :
      (key other : String) (d : Assoc V)
      → lookup other (remove key d) ≡ (if str_eq key other then none else lookup other d)
  unfolding remove lookup
  lookup-remove key other [] = ground arith
  lookup-remove key other ((first, old) ∷ rest) = ground (
    arith,
    str_eq_iff first key,
    str_eq_iff first other,
    str_eq_iff key other,
    lookup-remove key other rest,
  )

  -- `{k: v for k, v in d.items() if p(v)}`
  unfoldable pub keep_values : (V → Bool) → Assoc V → Assoc V
  keep_values p [] = []
  keep_values p ((j, v) ∷ d) = let rest = keep_values p d in if p v then (j, v) ∷ rest else rest

  -- No key stands twice, as in every dictionary.
  abbrev pub Distinct : Assoc V → Type ℓ
  Distinct [] = Unit
  Distinct ((j, v) ∷ d) = (lookup j d ≡ none) × Distinct d

  abbrev pub keep_option : (V → Bool) → Option V → Option V
  keep_option p none = none
  keep_option p (some v) = if p v then some v else none

  pub lookup-keep_values :
      (p : V → Bool) (k : String) (d : Assoc V)
      → Distinct d
      → lookup k (keep_values p d) ≡ keep_option p (lookup k d)
  unfolding lookup keep_values
  lookup-keep_values p k [] h = refl
  lookup-keep_values p k ((j, v) ∷ d) h =
      ground (arith, lookup-keep_values p k d h.1, str_eq_iff j k)

  pub insert-Distinct : (k : String) (v : V) (d : Assoc V) → Distinct d → Distinct (insert k v d)
  unfolding lookup insert
  insert-Distinct k v [] h = (refl, tt)
  insert-Distinct k v ((j, w) ∷ d) h =
      ground
        (arith, insert-Distinct k v d h.1, lookup-insert k j v d, str_eq_iff j k, str_eq_iff k j)

  pub remove-Distinct : (k : String) (d : Assoc V) → Distinct d → Distinct (remove k d)
  unfolding lookup remove
  remove-Distinct k [] h = tt
  remove-Distinct k ((j, w) ∷ d) h =
      ground (arith, remove-Distinct k d h.1, lookup-remove k j d, str_eq_iff j k, str_eq_iff k j)

  pub keep_values-Distinct : (p : V → Bool) (d : Assoc V) → Distinct d → Distinct (keep_values p d)
  unfolding keep_values
  keep_values-Distinct p [] h = tt
  keep_values-Distinct p ((j, w) ∷ d) h =
      ground (arith, keep_values-Distinct p d h.1, lookup-keep_values p j d h.1)
