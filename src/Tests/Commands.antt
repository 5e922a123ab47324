-- ===== src/Tests/Commands.antt =====
-- Command lines, and the theorems on their parser applied.
use coproto.Prelude.{◌≡◌, ◌≢◌, ◌⊎◌, refl, true, some, List, [], ◌∷◌, arith}
use coproto.Clp.{Text, Values, Clp, returns, throws, parse, empty_clp, find, set_default, has_value}
use coproto.Clp.Keys.{Defaulted, set_default_lem}
use coproto.Clp.Parse.{Leads, parse-ends, print, parse-print}
use coproto.Clp.Range.{push_range, pushed, range_lem}

-- -u 3 -7 -v -u 5
abbrev arguments : Values
arguments =
    (117 ∷ [], (51 ∷ []) ∷ (45 ∷ 55 ∷ []) ∷ []) ∷ (118 ∷ [], []) ∷ (117 ∷ [], (53 ∷ []) ∷ []) ∷ []

parse-print_example :
    (d : Clp) × (parse ((112 ∷ []) ∷ print arguments) empty_clp ≡ some (returns d))
    × (d.program_name ≡ 112 ∷ [])
    × ((k : Text) → find k d.key_values ≡ find k arguments)
parse-print_example =
    parse-print (112 ∷ []) arguments (refl, (refl, (refl, tt)), (refl, tt, (refl, (refl, tt), tt)))

abbrev plain : List Text
plain = (51 ∷ []) ∷ (45 ∷ 117 ∷ []) ∷ []

parse-ends_example :
    (Leads plain × ((d : Clp) × (parse ((112 ∷ []) ∷ plain) empty_clp ≡ some (returns d))))
    ⊎ ((¬ Leads plain)
        × ((d : Clp) × (parse ((112 ∷ []) ∷ plain) empty_clp ≡ some (throws d))
            × (d.key_values ≡ [])))
parse-ends_example = parse-ends (112 ∷ []) plain empty_clp

-- -v has been given without a value.
abbrev flagged : Clp
flagged = record empty_clp { key_values = (118 ∷ [], []) ∷ [] }

set_default_lem_example :
    (d : Clp) × (set_default (118 ∷ []) (97 ∷ 32 ∷ 98 ∷ []) flagged ≡ some d)
    × (has_value (118 ∷ []) d ≡ true)
    × Defaulted (some []) (97 ∷ 32 ∷ 98 ∷ []) (find (118 ∷ []) d.key_values)
    × ((j : Text) → (118 ∷ []) ≢ j → find j d.key_values ≡ find j flagged.key_values)
set_default_lem_example = set_default_lem (118 ∷ []) (97 ∷ 32 ∷ 98 ∷ []) flagged

-- 5..8 with bytes, and 3..3.
range_lem_example : push_range 8 5 8 ≡ some (pushed 5 8)
range_lem_example = range_lem 8 5 8 (omega arith) (omega arith)

ascending_range : push_range 8 5 8 ≡ some (6 ∷ 7 ∷ [])
unfolding push_range
ascending_range = refl

equal_range : push_range 8 3 3 ≡ some (2 ∷ 1 ∷ 0 ∷ [])
unfolding push_range
equal_range = refl
