-- ===== src/Examples/Tables.antt =====
-- Runs of csv.ts: a table with a formula, a quote and a comma is written and read back.
use church_management.Base.{◌⊎◌, ◌≡◌, refl, List, [], ◌∷◌, map, arith}
use church_management.Registry.Csv.{Units, parsed, parse_csv}
use church_management.Registry.Csv.Writer.{guarded, csv_cell, csv_text}
use church_management.Registry.Csv.RoundTrip.{parse_csv-csv_text}
use church_management.Registry.Csv.Checks.{IsTable, parse_csv-IsTable}
use church_management.Registry.Csv.Formulas.{IsDangerous, guarded_is_safe}

-- `a,b`
abbrev names : List Units
names = (97 ∷ []) ∷ (98 ∷ []) ∷ []

-- `=1` and `",`
abbrev cells : List Units
cells = (61 ∷ 49 ∷ []) ∷ (34 ∷ 44 ∷ []) ∷ []

parse_csv-csv_text_example :
    parse_csv (csv_text (names ∷ cells ∷ [])) ≡ parsed (map (map guarded) (names ∷ cells ∷ []))
unfolding guarded csv_cell
parse_csv-csv_text_example =
    parse_csv-csv_text names (cells ∷ []) (refl, (refl, tt)) (omega arith) (omega arith)
      (omega arith) refl (refl, tt)

-- The line breaks of a plain text, without quotes.
abbrev plain : Units
plain = 97 ∷ 44 ∷ 98 ∷ 10 ∷ 49 ∷ 44 ∷ 50 ∷ []

parse_csv-IsTable_example : IsTable plain (names ∷ ((49 ∷ []) ∷ (50 ∷ []) ∷ []) ∷ [])
unfolding parse_csv
parse_csv-IsTable_example = parse_csv-IsTable plain (names ∷ ((49 ∷ []) ∷ (50 ∷ []) ∷ []) ∷ []) refl

-- `\t@1` would be run by a spreadsheet.
guarded_is_safe_example :
    (¬ IsDangerous (guarded (9 ∷ 64 ∷ 49 ∷ [])))
    × ((IsDangerous (9 ∷ 64 ∷ 49 ∷ []) × (guarded (9 ∷ 64 ∷ 49 ∷ []) ≡ 39 ∷ 9 ∷ 64 ∷ 49 ∷ []))
        ⊎ ((¬ IsDangerous (9 ∷ 64 ∷ 49 ∷ [])) × (guarded (9 ∷ 64 ∷ 49 ∷ []) ≡ 9 ∷ 64 ∷ 49 ∷ [])))
guarded_is_safe_example = guarded_is_safe (9 ∷ 64 ∷ 49 ∷ [])
