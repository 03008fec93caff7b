-- ===== src/Registry/Csv/Reads.antt =====
-- registry/domain/csv.ts: the loop of the reader on what the writer has written.
use mathlib.Core.List.{append-nil, append_assoc}
use church_management.Base.{
  ℕ, ◌≡◌, refl, ap, ◌∙◌, List, [], ◌∷◌, ◌++◌, map, any, not, ltb, length, some, if◌then◌else◌, true,
  false, Bool, ◌==◌, eq_of_==, Bool-cases, inl, inr, is_id,
}
use church_management.Registry.Csv.{
  Units, quote, comma, carriage_return, line_feed, Reader, Parsed, parsed, refused, CsvError,
  end_cell, end_row, is_nil, head, inside_quotes, at_separator, step, read,
}
use church_management.Registry.Csv.Writer.{doubled, guarded, csv_cell, csv_row}

-- The variables inside quotes, and between two units outside of them.
abbrev pub inside : List (List Units) → List Units → Units → Reader
inside rows row cell = record { rows = rows; row = row; cell = cell; quoted = true; closed = false }

abbrev pub outside : List (List Units) → List Units → Units → Bool → Reader
outside rows row cell closed = record {
  rows = rows;
  row = row;
  cell = cell;
  quoted = false;
  closed = closed;
}

module _ (rows : List (List Units)) (row : List Units) where
  read-unit :
      (c : ℕ) (cs acc : Units)
      → (c == quote) ≡ false
      → read (c ∷ cs) false (inside rows row acc) ≡ read cs false (inside rows row (acc ++ c ∷ []))
  unfolding read step inside_quotes
  read-unit c cs acc h = rw h refl

  read-doubled :
      (t acc rest : Units)
      → is_id (head rest) quote ≡ false
      → read (doubled t ++ quote ∷ rest) false (inside rows row acc)
        ≡ read rest false (outside rows row (acc ++ t) true)
  unfolding read step inside_quotes
  read-doubled [] acc rest h = rw (h, append-nil acc) refl
  read-doubled (c ∷ t) acc rest h = elim (Bool-cases (c == quote)) [
    | inl e ↦ rw (eq_of_== c quote e) (
        read-doubled t (acc ++ quote ∷ []) rest h
        ∙ ap (λ x. read rest false (outside rows row x true)) (append_assoc acc (quote ∷ []) t))
    | inr e ↦ rw e (
        read-unit c (doubled t ++ quote ∷ rest) acc e
        ∙ read-doubled t (acc ++ c ∷ []) rest h
        ∙ ap (λ x. read rest false (outside rows row x true)) (append_assoc acc (c ∷ []) t))
  ]

  -- What is written for a cell, read between two cells.
  pub read-cell :
      (t rest : Units)
      → is_id (head rest) quote ≡ false
      → read (csv_cell t ++ rest) false (outside rows row [] false)
        ≡ read rest false (outside rows row (guarded t) true)
  unfolding read step csv_cell
  read-cell t rest h =
      ap (λ x. read (quote ∷ x) false (outside rows row [] false))
        (append_assoc (doubled (guarded t)) (quote ∷ []) rest)
      ∙ read-doubled (guarded t) [] rest h

  pub read-comma :
      (cell rest : Units)
      → read (comma ∷ rest) false (outside rows row cell true)
        ≡ read rest false (outside rows (row ++ cell ∷ []) [] false)
  unfolding read step at_separator
  read-comma cell rest = refl

  ended :
      (cell : Units)
      → any (λ x. not (is_nil x)) (row ++ cell ∷ []) ≡ true
      → end_row (end_cell (outside rows row cell true))
        ≡ outside (rows ++ (row ++ cell ∷ []) ∷ []) [] [] false
  ended cell full = rw full refl

  step-line_end :
      (cell : Units)
      → any (λ x. not (is_nil x)) (row ++ cell ∷ []) ≡ true
      → ltb 501 (length (rows ++ (row ++ cell ∷ []) ∷ [])) ≡ false
      → step carriage_return (some line_feed) (outside rows row cell true)
        ≡ parsed (true, outside (rows ++ (row ++ cell ∷ []) ∷ []) [] [] false)
  unfolding step at_separator
  step-line_end cell full room =
      ap
        (λ (x : Reader).
          if ltb 501 (length x.rows) then refused CsvError.too_many_rows else parsed (true, x))
        (ended cell full)
      ∙ rw room refl

  -- The end of a line that is not empty, while there is room for another row.
  pub read-line_end :
      (cell rest : Units)
      → any (λ x. not (is_nil x)) (row ++ cell ∷ []) ≡ true
      → ltb 501 (length (rows ++ (row ++ cell ∷ []) ∷ [])) ≡ false
      → read (carriage_return ∷ line_feed ∷ rest) false (outside rows row cell true)
        ≡ read rest false (outside (rows ++ (row ++ cell ∷ []) ∷ []) [] [] false)
  unfolding read
  read-line_end cell rest full room =
      ap
        (λ (x : Parsed (Bool × Reader)). elim x as (λ _. Parsed Reader) [
          | refused e ↦ refused e
          | parsed (skip, s) ↦ read (line_feed ∷ rest) skip s
        ])
        (step-line_end cell full room)

-- The rest of a row: its last cell stands in `cell` when the row has been read.
pub read-row :
    (rows : List (List Units)) (row : List Units) (t : Units) (ts : List Units) (rest : Units)
    → is_id (head rest) quote ≡ false
    → (done : List Units) × (last : Units) × (read
          (csv_row (t ∷ ts) ++ rest)
          false
          (outside rows row [] false)
        ≡ read rest false (outside rows done last true))
      × (done ++ last ∷ [] ≡ row ++ map guarded (t ∷ ts))
read-row rows row t [] rest h = (row, guarded t, read-cell rows row t rest h, refl)
read-row rows row t (u ∷ ts) rest h =
    let (done, last, e, k) = read-row rows (row ++ guarded t ∷ []) u ts rest h in
    (
      done,
      last,
      ap (λ x. read x false (outside rows row [] false))
            (append_assoc (csv_cell t) (comma ∷ csv_row (u ∷ ts)) rest)
          ∙ read-cell rows row t (comma ∷ (csv_row (u ∷ ts) ++ rest)) refl
          ∙ read-comma rows row (guarded t) (csv_row (u ∷ ts) ++ rest)
          ∙ e,
      k ∙ append_assoc row (guarded t ∷ []) (map guarded (u ∷ ts)),
    )
