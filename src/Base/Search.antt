-- ===== src/Base/Search.antt =====
-- Searching a text, as a list of code points, the way Python's `in`, `count`, `partition` and `replace`
-- do, for a pattern that is not empty.
use Prim.Native.Nat.{ℕ, zero, suc, ◌-◌}
use Prim.Native.Char.{code}
use Prim.Native.String.{String, [] as empty, ◌∷◌ as ◌▸◌}
use mathlib.Core.Path.{◌≡◌, refl, ap, subst, ◌∙◌}
use mathlib.Core.Bool.{Bool, true, false, ◌&&◌, ◌||◌, not}
use mathlib.Core.List.{List, [], ◌∷◌, ◌++◌}
use mathlib.Core.Option.{Option, none, some}
use native.Mathlib.Omega.{arith}
use cascade_vpn.Base.Tests.{if◌then◌else◌, ◌==◌, is_some}
use cascade_vpn.Base.Lists.{length, drop, all}

-- The code points of a text.
unfoldable pub codes : String → List ℕ
codes empty = []
codes (c ▸ s) = code c ∷ codes s

unfoldable pub begins : List ℕ → List ℕ → Bool
begins [] s = true
begins (x ∷ p) [] = false
begins (x ∷ p) (y ∷ s) = (x == y) && begins p s

abbrev pub Parts : Type 0
Parts = List ℕ × List ℕ

abbrev before_cut : ℕ → Option Parts → Option Parts
before_cut c none = none
before_cut c (some (b, a)) = some (c ∷ b, a)

-- What stands before and after the first occurrence: `partition`.
unfoldable pub cut : List ℕ → List ℕ → Option Parts
cut p [] = none
cut p (c ∷ s) =
    let rest = cut p s in
    if begins p (c ∷ s) then some ([], drop (length p) (c ∷ s)) else before_cut c rest

-- `p in s`
abbrev pub occurs : List ℕ → List ℕ → Bool
occurs p s = is_some (cut p s)

-- `s.count(p)`: occurrences do not overlap, so a number of places is passed over after one.
unfoldable pub count_from : List ℕ → ℕ → List ℕ → ℕ
count_from p skip [] = 0
count_from p (suc skip) (c ∷ s) = count_from p skip s
count_from p zero (c ∷ s) =
    let found = begins p (c ∷ s) in
    let rest = count_from p (if found then length p - 1 else 0) s in
    if found then suc rest else rest

abbrev pub occurrences : List ℕ → List ℕ → ℕ
occurrences p s = count_from p 0 s

abbrev rejoined : List ℕ → Option Parts → List ℕ
rejoined s none = s
rejoined s (some (b, a)) = b ++ a

-- `s.replace(p, "", 1)`
unfoldable pub without_first : List ℕ → List ℕ → List ℕ
unfolding cut
without_first p s = rejoined s (cut p s)

begins_split : (p s : List ℕ) → begins p s ≡ true → s ≡ p ++ drop (length p) s
unfolding begins
begins_split [] s h = refl
begins_split (x ∷ p) [] h = ground arith
begins_split (x ∷ p) (y ∷ s) h = ground (arith, begins_split p s)

-- The parts of a cut text stand around the pattern.
abbrev Around : List ℕ → List ℕ → Option Parts → Type 0
Around p s none = Unit
Around p s (some (b, a)) = s ≡ b ++ (p ++ a)

cut-Around : (p s : List ℕ) → Around p s (cut p s)
unfolding cut
cut-Around p [] = tt
cut-Around p (c ∷ s) = by_found (cut-Around p s) (begins p (c ∷ s)) refl
  where
    grow : (parts : Option Parts) → Around p s parts → Around p (c ∷ s) (before_cut c parts)
    grow none h = tt
    grow (some (b, a)) h = ap (λ t. c ∷ t) h

    by_found :
        Around p s (cut p s)
        → (x : Bool) → begins p (c ∷ s) ≡ x
        → Around p
            (c ∷ s)
            (if x then some ([], drop (length p) (c ∷ s)) else before_cut c (cut p s))
    by_found rest true h = begins_split p (c ∷ s) h
    by_found rest false h = grow (cut p s) rest

pub cut_split : (p s b a : List ℕ) → cut p s ≡ some (b, a) → s ≡ b ++ (p ++ a)
cut_split p s b a h = subst (Around p s) h (cut-Around p s)

pub occurs-cons :
    (p : List ℕ) (c : ℕ) (s : List ℕ) → occurs p (c ∷ s) ≡ (begins p (c ∷ s) || occurs p s)
unfolding cut
occurs-cons p c s = by_found (begins p (c ∷ s)) (cut p s)
  where
    by_found :
        (x : Bool) (parts : Option Parts)
        → is_some (if x then some ([], drop (length p) (c ∷ s)) else before_cut c parts)
          ≡ (x || is_some parts)
    by_found true parts = refl
    by_found false none = refl
    by_found false (some _) = refl

pub begins-append : (p s : List ℕ) → begins p (p ++ s) ≡ true
unfolding begins
begins-append [] s = refl
begins-append (x ∷ p) s = ground (arith, begins-append p s)

pub begins-prefix : (q p s : List ℕ) → begins (q ++ p) s ≡ true → begins q s ≡ true
unfolding begins
begins-prefix [] p s h = refl
begins-prefix (x ∷ q) p [] h = h
begins-prefix (x ∷ q) p (y ∷ s) h = ground (arith, begins-prefix q p s)

begins-more : (p s t : List ℕ) → begins p s ≡ true → begins p (s ++ t) ≡ true
unfolding begins
begins-more [] s t h = refl
begins-more (x ∷ p) [] t h = ground arith
begins-more (x ∷ p) (y ∷ s) t h = ground (arith, begins-more p s t)

drop-append : (p s : List ℕ) → drop (length p) (p ++ s) ≡ s
drop-append [] s = refl
drop-append (x ∷ p) s = drop-append p s

-- The code point does not occur in the pattern.
abbrev pub lacks : ℕ → List ℕ → Bool
lacks d p = all (λ c. not (c == d)) p

begins_line : (d : ℕ) (p x t : List ℕ) → lacks d p ≡ true → begins p (x ++ d ∷ t) ≡ begins p x
unfolding begins
begins_line d [] x t h = refl
begins_line d (c ∷ p) [] t h = ground arith
begins_line d (c ∷ p) (y ∷ x) t h = ground (arith, begins_line d p x t)

pub occurs-left : (p s t : List ℕ) → occurs p (s ++ t) ≡ false → occurs p s ≡ false
unfolding cut
occurs-left p [] t h = refl
occurs-left p (c ∷ s) t h =
    ground (
      arith,
      occurs-cons p c (s ++ t),
      occurs-cons p c s,
      begins-more p (c ∷ s) t,
      occurs-left p s t,
    )

pub occurs-right : (p s t : List ℕ) → occurs p (s ++ t) ≡ false → occurs p t ≡ false
occurs-right p [] t h = h
occurs-right p (c ∷ s) t h = ground (arith, occurs-cons p c (s ++ t), occurs-right p s t)

-- A pattern that does not occur in a line, nor after it, does not occur in both together.
pub occurs_line :
    (d : ℕ) (p s t : List ℕ)
    → lacks d p ≡ true
    → occurs p s ≡ false
    → occurs p (d ∷ t) ≡ false
    → occurs p (s ++ d ∷ t) ≡ false
occurs_line d p [] t h k l = l
occurs_line d p (c ∷ s) t h k l = ground (
  arith,
  occurs-cons p c s,
  occurs-cons p c (s ++ d ∷ t),
  begins_line d p (c ∷ s) t,
  occurs_line d p s t,
)

-- A longer pattern does not occur where its beginning does not.
pub occurs_longer : (q p s : List ℕ) → occurs q s ≡ false → occurs (q ++ p) s ≡ false
unfolding cut
occurs_longer q p [] h = refl
occurs_longer q p (c ∷ s) h = ground (
  arith,
  occurs-cons q c s,
  occurs-cons (q ++ p) c s,
  begins-prefix q p (c ∷ s),
  occurs_longer q p s,
)

begins-absent : (c : ℕ) (p s : List ℕ) → occurs (c ∷ p) s ≡ false → begins (c ∷ p) s ≡ false
unfolding begins
begins-absent c p [] h = refl
begins-absent c p (d ∷ s) h = ground (arith, occurs-cons (c ∷ p) d s)

-- Nor does it with one more character before it.
pub occurs_after :
    (d c : ℕ) (p s : List ℕ) → occurs (c ∷ p) s ≡ false → occurs (d ∷ c ∷ p) s ≡ false
unfolding cut begins
occurs_after d c p [] h = refl
occurs_after d c p (e ∷ s) h = ground (
  arith,
  occurs-cons (c ∷ p) e s,
  occurs-cons (d ∷ c ∷ p) e s,
  begins-absent c p s,
  occurs_after d c p s,
)

-- The pattern begins at no place of the first text, in the two together.
abbrev pub Fresh : List ℕ → List ℕ → List ℕ → Type 0
Fresh p [] t = Unit
Fresh p (c ∷ s) t = (begins p (c ∷ s ++ t) ≡ false) × Fresh p s t

pub line-Fresh :
    (d : ℕ) (p s t : List ℕ) → lacks d p ≡ true → occurs p s ≡ false → Fresh p s (d ∷ t)
line-Fresh d p [] t h k = tt
line-Fresh d p (c ∷ s) t h k =
    ground (arith, occurs-cons p c s, begins_line d p (c ∷ s) t, line-Fresh d p s t)

-- A longer pattern is fresh where its beginning is.
pub longer-Fresh : (q p s t : List ℕ) → Fresh q s t → Fresh (q ++ p) s t
longer-Fresh q p [] t h = tt
longer-Fresh q p (c ∷ s) t h = ground (arith, begins-prefix q p (c ∷ s ++ t), longer-Fresh q p s t)

-- So is a pattern with one more character before it.
pub after-Fresh : (d : ℕ) (p s t : List ℕ) → begins p t ≡ false → Fresh p s t → Fresh (d ∷ p) s t
unfolding begins
after-Fresh d p [] t h k = tt
after-Fresh d p (c ∷ []) t h k = ground arith
after-Fresh d p (c ∷ e ∷ s) t h k = ground (arith, after-Fresh d p (e ∷ s) t)

before_all : List ℕ → Option Parts → Option Parts
before_all [] parts = parts
before_all (c ∷ s) parts = before_cut c (before_all s parts)

cut-Fresh : (p s t : List ℕ) → Fresh p s t → cut p (s ++ t) ≡ before_all s (cut p t)
unfolding cut before_all
cut-Fresh p [] t h = refl
cut-Fresh p (c ∷ s) t h = ground (arith, cut-Fresh p s t)

before_all-some : (s a : List ℕ) → before_all s (some ([], a)) ≡ some (s, a)
unfolding before_all
before_all-some [] a = refl
before_all-some (c ∷ s) a = ap (before_cut c) (before_all-some s a)

pub count-Fresh : (p s t : List ℕ) → Fresh p s t → occurrences p (s ++ t) ≡ occurrences p t
unfolding count_from
count-Fresh p [] t h = refl
count-Fresh p (c ∷ s) t h = ground (arith, count-Fresh p s t)

pub count_absent :
    (p : List ℕ) (skip : ℕ) (s : List ℕ) → occurs p s ≡ false → count_from p skip s ≡ 0
unfolding count_from
count_absent p skip [] h = refl
count_absent p (suc skip) (c ∷ s) h = ground (arith, occurs-cons p c s, count_absent p skip s)
count_absent p zero (c ∷ s) h = ground (arith, occurs-cons p c s, count_absent p 0 s)

count_skip : (p x s : List ℕ) → count_from p (length x) (x ++ s) ≡ occurrences p s
unfolding count_from
count_skip p [] s = refl
count_skip p (c ∷ x) s = count_skip p x s

-- The pattern (a character and more) stands once in a text where it does not occur after itself and
-- begins nowhere before.
pub count_once :
    (c : ℕ) (p s t : List ℕ)
    → Fresh (c ∷ p) s (c ∷ p ++ t)
    → occurs (c ∷ p) t ≡ false
    → occurrences (c ∷ p) (s ++ (c ∷ p ++ t)) ≡ 1
unfolding count_from
count_once c p s t h k = ground (
  arith,
  count-Fresh (c ∷ p) s (c ∷ p ++ t),
  begins-append (c ∷ p) t,
  count_skip (c ∷ p) p t,
  count_absent (c ∷ p) 0 t k,
)

cut_here : (c : ℕ) (p t : List ℕ) → cut (c ∷ p) (c ∷ p ++ t) ≡ some ([], t)
unfolding cut
cut_here c p t = ground (arith, begins-append (c ∷ p) t, drop-append p t)

-- And it is cut out there.
pub without_first-Fresh :
    (c : ℕ) (p s t : List ℕ)
    → Fresh (c ∷ p) s (c ∷ p ++ t)
    → without_first (c ∷ p) (s ++ (c ∷ p ++ t)) ≡ s ++ t
unfolding without_first
without_first-Fresh c p s t h =
    ap (rejoined (s ++ (c ∷ p ++ t))) (
      cut-Fresh (c ∷ p) s (c ∷ p ++ t) h ∙ ap (before_all s) (cut_here c p t) ∙ before_all-some s t)

-- What stands once occurs.
pub occurs_once : (p s : List ℕ) → occurrences p s ≡ 1 → occurs p s ≡ true
occurs_once p s h = ground (arith, count_absent p 0 s)
