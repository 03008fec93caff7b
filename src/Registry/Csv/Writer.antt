-- ===== src/Registry/Csv/Writer.antt =====
-- registry/domain/csv.ts: csvCell, and the text of an export that transfer.service.ts makes with it.
use church_management.Base.{
  ℕ, List, [], ◌∷◌, ◌++◌, Bool, false, ◌||◌, if◌then◌else◌, ltb, leb, ◌==◌,
}
use church_management.Registry.Csv.{
  Units, quote, comma, line_feed, carriage_return, byte_order_mark, is_space_unit,
}

abbrev pub apostrophe : ℕ
apostrophe = 39

-- The loop of `csvCell` over `offset`: what is left of the text.
abbrev pub after_space : Units → Units
after_space [] = []
after_space (c ∷ cs) =
    let rest = after_space cs in if leb c 32 || is_space_unit c then rest else c ∷ cs

-- `/^[=+@-]/`
abbrev pub starts_formula : Units → Bool
starts_formula [] = false
starts_formula (c ∷ cs) = c == 61 || c == 43 || c == 64 || c == 45

abbrev pub starts_control : Units → Bool
starts_control [] = false
starts_control (c ∷ cs) = ltb c 32

-- The text with an apostrophe in front where a spreadsheet would take it for a formula.
unfoldable pub guarded : Units → Units
guarded text =
    if starts_formula (after_space text) || starts_control text then apostrophe ∷ text else text

-- `text.replaceAll('"', '""')`
abbrev pub doubled : Units → Units
doubled [] = []
doubled (c ∷ cs) = let rest = doubled cs in if c == quote then quote ∷ quote ∷ rest else c ∷ rest

unfoldable pub csv_cell : Units → Units
unfolding guarded
csv_cell text = quote ∷ (doubled (guarded text) ++ quote ∷ [])

-- `.map(csvCell).join(',')`
abbrev pub csv_row : List Units → Units
csv_row [] = []
csv_row (t ∷ []) = csv_cell t
csv_row (t ∷ u ∷ ts) = csv_cell t ++ comma ∷ csv_row (u ∷ ts)

-- `.join('\r\n')`
abbrev pub csv_rows : List (List Units) → Units
csv_rows [] = []
csv_rows (r ∷ []) = csv_row r
csv_rows (r ∷ q ∷ rs) = csv_row r ++ carriage_return ∷ line_feed ∷ csv_rows (q ∷ rs)

-- The text of an export (transfer.service.ts).
abbrev pub csv_text : List (List Units) → Units
csv_text rows = byte_order_mark ∷ csv_rows rows
