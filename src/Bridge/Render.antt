-- ===== src/Bridge/Render.antt =====
-- `strip_tables` of bridge/ttx_bridge.py, on the lines of a TOML text by their code points.
mod Tests
pub mod Config
use cascade_vpn.Base.{
  ℕ, ◌≡◌, refl, ap, Bool, true, false, ◌&&◌, ◌||◌, not, keep, map, Option, none, some, List, [],
  ◌∷◌, any, All, list_eq, leb, ◌==◌, if◌then◌else◌, arith,
}

-- `\s` of the `re` module.
pub record Pattern : Type 0 where
  pub is_space : ℕ → Bool

pub is_name_char : ℕ → Bool
is_name_char c =
    (leb 65 c && leb c 90)
    || (leb 97 c && leb c 122)
    || (leb 48 c && leb c 57)
    || c == 95
    || c == 45

pub skip_spaces : Pattern → List ℕ → List ℕ
skip_spaces p [] = []
skip_spaces p (c ∷ cs) = let rest = skip_spaces p cs in if p.is_space c then rest else c ∷ cs

-- The name up to its first dot: `m.group(1).split(".")[0]`.
pub root_of : List ℕ → List ℕ
root_of [] = []
root_of (c ∷ cs) = let rest = root_of cs in if is_name_char c then c ∷ rest else []

-- `[A-Za-z0-9_\-.]+` matches at least one character.
pub name_root : List ℕ → Option (List ℕ)
unfolding root_of is_name_char
name_root [] = none
name_root (c ∷ cs) = if is_name_char c || c == 46 then some (root_of (c ∷ cs)) else none

abbrev left_bracket : ℕ
left_bracket = 91

pub second_bracket : List ℕ → List ℕ
second_bracket [] = []
second_bracket (c ∷ cs) = if c == left_bracket then cs else c ∷ cs

pub opened : List ℕ → Option (List ℕ)
unfolding name_root second_bracket
opened [] = none
opened (c ∷ cs) = if c == left_bracket then name_root (second_bracket cs) else none

-- The root name of the table that a line begins, by `TOP_TABLE_RE`.
pub table_root : Pattern → List ℕ → Option (List ℕ)
unfolding opened skip_spaces
table_root p line = opened (skip_spaces p line)

abbrev pub is_member : List (List ℕ) → Option (List ℕ) → Bool → Bool
is_member names none otherwise = otherwise
is_member names (some root) otherwise = any (list_eq root) names

-- The loop of `strip_tables`, with the value of `skipping` before it.
pub strip_lines : Pattern → List (List ℕ) → Bool → List (List ℕ) → List (List ℕ)
strip_lines p names skipping [] = []
strip_lines p names skipping (line ∷ lines) =
    let skips = is_member names (table_root p line) skipping in
    let rest = strip_lines p names skips lines in if skips then rest else line ∷ rest

module _ (p : Pattern) (names : List (List ℕ)) where
  -- The line begins none of the tables.
  abbrev pub IsForeign : List ℕ → Type 0
  IsForeign line = is_member names (table_root p line) false ≡ false

  member-foreign :
      (root : Option (List ℕ)) (skipping : Bool)
      → is_member names root skipping ≡ false
      → is_member names root false ≡ false
  member-foreign none skipping h = refl
  member-foreign (some root) skipping h = h

  strip_lines-IsForeign :
      (skipping : Bool) (lines : List (List ℕ)) → All IsForeign (strip_lines p names skipping lines)
  unfolding strip_lines
  strip_lines-IsForeign skipping [] = tt
  strip_lines-IsForeign skipping (line ∷ lines) =
      kept (is_member names (table_root p line) skipping) refl (λ s. strip_lines-IsForeign s lines)
    where
      kept :
          (skips : Bool)
          → is_member names (table_root p line) skipping ≡ skips
          → ((s : Bool) → All IsForeign (strip_lines p names s lines))
          → All IsForeign (
              if skips
              then strip_lines p names skips lines
              else line ∷ strip_lines p names skips lines)
      kept true h ih = ih true
      kept false h ih = (member-foreign (table_root p line) skipping h, ih false)

  strip_foreign :
      (lines : List (List ℕ)) → All IsForeign lines → strip_lines p names false lines ≡ lines
  unfolding strip_lines
  strip_foreign [] h = refl
  strip_foreign (line ∷ lines) h =
      let foreign = h.0 in let rest = strip_foreign lines h.1 in ground arith

  -- A line that begins no table is in the one before.
  abbrev pub or_before : Option (List ℕ) → Option (List ℕ) → Option (List ℕ)
  or_before none before = before
  or_before (some root) before = some root

  -- Every line, with the root name of the table that it stands in: the last one that it or a line
  -- before it begins.
  abbrev pub with_table : Option (List ℕ) → List (List ℕ) → List (Option (List ℕ) × List ℕ)
  with_table before [] = []
  with_table before (line ∷ lines) =
      let table = or_before (table_root p line) before in (table, line) ∷ with_table table lines

  -- The lines that stand in none of the tables.
  abbrev pub outside : List (Option (List ℕ) × List ℕ) → List (List ℕ)
  outside ls = map (λ l. l.1) (keep (λ l. not (is_member names l.0 false)) ls)

  strip_lines-outside :
      (lines : List (List ℕ)) (before : Option (List ℕ))
      → strip_lines p names (is_member names before false) lines ≡ outside (with_table before lines)
  unfolding strip_lines
  strip_lines-outside [] before = refl
  strip_lines-outside (line ∷ lines) before =
      by_root (table_root p line) (strip_lines-outside lines)
    where
      by_test :
          (table : Option (List ℕ)) (others : List (Option (List ℕ) × List ℕ)) (b : Bool)
          → strip_lines p names b lines ≡ outside others
          → (if b then strip_lines p names b lines else line ∷ strip_lines p names b lines)
            ≡ map
                (λ l. l.1)
                (if not b
                  then (table, line) ∷ keep (λ l. not (is_member names l.0 false)) others
                  else keep (λ l. not (is_member names l.0 false)) others)
      by_test table others true h = h
      by_test table others false h = ap (λ ls. line ∷ ls) h

      by_root :
          (root : Option (List ℕ))
          → ((t : Option (List ℕ))
              → strip_lines p names (is_member names t false) lines ≡ outside (with_table t lines))
          → let skips = is_member names root (is_member names before false) in
            let rest = strip_lines p names skips lines in
            (if skips then rest else line ∷ rest)
            ≡ outside ((or_before root before, line) ∷ with_table (or_before root before) lines)
      by_root none ih =
          by_test before (with_table before lines) (is_member names before false) (ih before)
      by_root (some root) ih =
          by_test (some root) (with_table (some root) lines) (any (list_eq root) names)
            (ih (some root))

  -- The stripped text has, in their order, the lines that stand in none of the tables, where a line
  -- stands in the last table that it or a line before it begins. None of them begins one of the
  -- tables, and stripping them again changes nothing.
  pub strip_lines_lem :
      (lines : List (List ℕ))
      → (strip_lines p names false lines ≡ outside (with_table none lines))
        × All IsForeign (strip_lines p names false lines)
        × (strip_lines p names false (strip_lines p names false lines)
            ≡ strip_lines p names false lines)
  strip_lines_lem lines =
      let clean = strip_lines-IsForeign false lines in
      (strip_lines-outside lines none, clean, strip_foreign (strip_lines p names false lines) clean)
