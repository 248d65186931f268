-- ===== src/Portal/Database/Tests.antt =====
-- Two migrations, the settings of an empty environment, and the theorems at them.
use cascade_vpn.Base.{ℕ, ◌≡◌, ◌+◌, refl, String, Bool, true, some, List, [], ◌∷◌, ◌++◌}
use cascade_vpn.Portal.Database.{Migration, Store, completed, initialize}
use cascade_vpn.Portal.Database.Migrations.{fresh_names, initialize_twice}

abbrev execute : String → ℕ → ℕ × Bool
execute text tables = (tables + 1, true)

abbrev empty : Store ℕ
empty = record { tables = 0; versions = []; pending = [] }

abbrev files : List Migration
files =
    record { name = "001"; script = some "create" }
    ∷ record { name = "002"; script = some "alter" }
    ∷ []

abbrev started : Store ℕ
started = record { tables = 2; versions = "001" ∷ "002" ∷ []; pending = [] }

starts : initialize execute files empty ≡ (started, completed)
unfolding initialize
starts = refl

initialize_twice_example :
    (started.versions ≡ empty.versions ++ fresh_names empty.versions files)
    × (initialize execute files started ≡ (started, completed))
initialize_twice_example = initialize_twice execute files empty started refl starts
