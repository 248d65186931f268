-- ===== src/Bridge/Render/Tests.antt =====
-- A text with one table to strip.
use cascade_vpn.Base.{ℕ, ◌≡◌, refl, false, none, List, [], ◌∷◌, All, ◌==◌, list_eq}
use cascade_vpn.Bridge.Render.{
  Pattern, IsForeign, with_table, outside, table_root, strip_lines, strip_lines_lem,
}

abbrev pattern_of_spaces : Pattern
pattern_of_spaces = record { is_space = λ c. c == 32 }

-- The lines "x", "[a.b]", "y", "[b]" and "z".
abbrev text : List (List ℕ)
text =
    (120 ∷ [])
    ∷ (91 ∷ 97 ∷ 46 ∷ 98 ∷ 93 ∷ [])
    ∷ (121 ∷ [])
    ∷ (32 ∷ 91 ∷ 98 ∷ 93 ∷ [])
    ∷ (122 ∷ [])
    ∷ []

abbrev stripped : List (List ℕ)
stripped = (120 ∷ []) ∷ (32 ∷ 91 ∷ 98 ∷ 93 ∷ []) ∷ (122 ∷ []) ∷ []

runs_strip : strip_lines pattern_of_spaces ((97 ∷ []) ∷ []) false text ≡ stripped
unfolding strip_lines table_root list_eq
runs_strip = refl

strip_lines_lem_example :
    (strip_lines pattern_of_spaces ((97 ∷ []) ∷ []) false text
      ≡ outside pattern_of_spaces
          ((97 ∷ []) ∷ [])
          (with_table pattern_of_spaces ((97 ∷ []) ∷ []) none text))
    × All
        (IsForeign pattern_of_spaces ((97 ∷ []) ∷ []))
        (strip_lines pattern_of_spaces ((97 ∷ []) ∷ []) false text)
    × (strip_lines pattern_of_spaces
          ((97 ∷ []) ∷ [])
          false
          (strip_lines pattern_of_spaces ((97 ∷ []) ∷ []) false text)
        ≡ strip_lines pattern_of_spaces ((97 ∷ []) ∷ []) false text)
strip_lines_lem_example = strip_lines_lem pattern_of_spaces ((97 ∷ []) ∷ []) text
