-- ===== src/Bridge/Versions.antt =====
-- The versions that the bridge compares: parse_version and check_compat of bridge/ttx_bridge.py, on
-- the code points of a text.
use Prim.Native.Nat.{compare, Ordering}
use cascade_vpn.Base.{
  ℕ, ◌+◌, ◌*◌, Bool, true, false, Option, none, some, List, [], ◌∷◌, ◌==◌, if◌then◌else◌,
}

pub record Version : Type 0 where
  pub major : ℕ
  pub minor : ℕ
  pub patch : ℕ

abbrev pub zero_version : Version
zero_version = record { major = 0; minor = 0; patch = 0 }

abbrev dot : ℕ
dot = 46

-- `\d`, with the value of the digit.
pub record Digits : Type 0 where
  pub digit : ℕ → Option ℕ

module _ (d : Digits) where
  -- `\d+` after a number that was begun, as far as it goes, and what follows it.
  pub read_digits : ℕ → List ℕ → ℕ × List ℕ
  read_digits n [] = (n, [])
  read_digits n (c ∷ cs) = elim (d.digit c) [
    | none ↦ (n, c ∷ cs)
    | some k ↦ read_digits (n * 10 + k) cs
  ]

  -- `(\d+)`
  pub read_number : List ℕ → Option (ℕ × List ℕ)
  unfolding read_digits
  read_number [] = none
  read_number (c ∷ cs) = elim (d.digit c) [ none ↦ none | some k ↦ some (read_digits k cs) ]

  abbrev after_dot : List ℕ → Option (List ℕ)
  after_dot [] = none
  after_dot (c ∷ cs) = if c == dot then some cs else none

  infixl 5 ◌>>=◌
  abbrev ◌>>=◌ {ℓ κ} : {A : Type ℓ} {B : Type κ} → Option A → (A → Option B) → Option B
  none >>= f = none
  some a >>= f = f a

  -- `(\d+)\.(\d+)\.(\d+)` at the beginning of the text.
  pub version_here : List ℕ → Option Version
  unfolding read_number
  version_here text = do
    major ← read_number text
    rest ← after_dot major.1
    minor ← read_number rest
    rest ← after_dot minor.1
    patch ← read_number rest
    some (record { major = major.0; minor = minor.0; patch = patch.0 })

  -- `parse_version`: the leftmost one, or 0.0.0.
  unfoldable pub parse_version : List ℕ → Version
  unfolding version_here
  parse_version [] = zero_version
  parse_version (c ∷ cs) =
      let rest = parse_version cs in elim (version_here (c ∷ cs)) [ none ↦ rest | some v ↦ v ]

-- The comparison of tuples, by the comparison of their parts.
abbrev pub then_compare : Ordering → Ordering → Ordering
then_compare Ordering.eq o = o
then_compare o _ = o

abbrev is_less : Ordering → Bool
is_less Ordering.lt = true
is_less _ = false

pub is_older : Version → Version → Bool
is_older v w = is_less (
    then_compare (compare v.major w.major)
      (then_compare (compare v.minor w.minor) (compare v.patch w.patch)))

pub data Problem : Type 0 where
  too_old : Version → Version → Problem
  unknown_version : Problem

-- What the bridge finds of the versions: the text of `min_version`, where the file exists, none for
-- an exception while it is read; whether a binary is named; and what it prints, none for an
-- exception of the call that is caught.
pub record Found : Type 0 where
  pub min_version : Option (Option (List ℕ))
  pub has_binary : Bool
  pub output : Option (List ℕ)

abbrev problem_of : Version → Option Version → List Problem
problem_of wanted none = unknown_version ∷ []
problem_of wanted (some have) = if is_older have wanted then too_old have wanted ∷ [] else []

abbrev parsed : Digits → Option (List ℕ) → Option Version
parsed d none = none
parsed d (some text) = some (parse_version d text)

abbrev compared : Digits → Found → Version → List Problem
compared d found wanted = if found.has_binary then problem_of wanted (parsed d found.output) else []

-- `check_compat`; none is an exception.
unfoldable pub check_compat : Digits → Found → Option (List Problem)
check_compat d found = elim found.min_version [
  | none ↦ some []
  | some none ↦ none
  | some (some text) ↦ some (compared d found (parse_version d text))
]
