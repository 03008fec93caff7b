-- ===== src/Registry/Csv.antt =====
-- registry/domain/csv.ts: the reader and the writer of tables as text. A text is the list of its UTF-16
-- code units, which is what the language counts and indexes.
pub mod Writer
pub mod Reads
pub mod RoundTrip
pub mod Checks
pub mod Formulas
use church_management.Base.{
  ℕ, suc, ◌+◌, List, [], ◌∷◌, ◌++◌, Bool, true, false, not, ◌&&◌, ◌||◌, Option, none, some,
  if◌then◌else◌, ltb, leb, ◌==◌, is_id, any, every, length,
}

abbrev pub Units : Type 0
Units = List ℕ

abbrev pub quote : ℕ
quote = 34

abbrev pub comma : ℕ
comma = 44

abbrev pub line_feed : ℕ
line_feed = 10

abbrev pub carriage_return : ℕ
carriage_return = 13

abbrev pub byte_order_mark : ℕ
byte_order_mark = 65279

-- The errors that `parseCsv` throws, in the order of its tests.
pub data CsvError : Type 0 where
  too_long quote_in_cell too_many_rows text_after_quote unclosed_quote row_count bad_header
        uneven_rows :
      CsvError

pub data Parsed (A : Type 0) : Type 0 where
  parsed : A → Parsed A
  refused : CsvError → Parsed A

-- The variables of the loop.
pub record Reader : Type 0 where
  pub rows : List (List Units)
  pub row : List Units
  pub cell : Units
  pub quoted : Bool
  pub closed : Bool

abbrev pub is_nil {ℓ} : {A : Type ℓ} → List A → Bool
is_nil [] = true
is_nil (x ∷ xs) = false

abbrev pub head {ℓ} : {A : Type ℓ} → List A → Option A
head [] = none
head (x ∷ xs) = some x

abbrev pub add_unit : ℕ → Reader → Reader
add_unit c s = record s { cell = s.cell ++ c ∷ [] }

abbrev pub end_cell : Reader → Reader
end_cell s = record s { row = s.row ++ s.cell ∷ []; cell = []; closed = false }

-- `if (row.some((x) => x !== '')) rows.push(row); row = []`
abbrev pub end_row : Reader → Reader
end_row s = record s {
  rows = if any (λ x. not (is_nil x)) s.row then s.rows ++ s.row ∷ [] else s.rows;
  row = [];
}

abbrev pub is_separator : ℕ → Bool
is_separator c = c == comma || c == line_feed || c == carriage_return

-- One round of the loop at a unit and the one after it: whether the next unit is skipped, and the
-- variables after the round.
unfoldable pub inside_quotes : ℕ → Option ℕ → Reader → Bool × Reader
inside_quotes c after s =
    if c == quote
    then (if is_id after quote
        then (true, add_unit quote s)
        else (false, record s { quoted = false; closed = true }))
    else (false, add_unit c s)

unfoldable pub at_separator : ℕ → Option ℕ → Reader → Parsed (Bool × Reader)
at_separator c after s =
    if c == comma
    then parsed (false, end_cell s)
    else if ltb 501 (length (end_row (end_cell s)).rows)
    then refused CsvError.too_many_rows
    else parsed (c == carriage_return && is_id after line_feed, end_row (end_cell s))

unfoldable pub step : ℕ → Option ℕ → Reader → Parsed (Bool × Reader)
unfolding inside_quotes at_separator
step c after s =
    if s.quoted
    then parsed (inside_quotes c after s)
    else if c == quote
    then (if not (is_nil s.cell) || s.closed
        then refused CsvError.quote_in_cell
        else parsed (false, record s { quoted = true }))
    else if is_separator c
    then at_separator c after s
    else if s.closed
    then refused CsvError.text_after_quote
    else parsed (false, add_unit c s)

-- The loop; the Boolean says that this unit is skipped (`i++` in the round before).
unfoldable pub read : Units → Bool → Reader → Parsed Reader
unfolding step
read [] skip s = parsed s
read (c ∷ cs) true s = read cs false s
read (c ∷ cs) false s = elim (step c (head cs) s) [
  | refused e ↦ refused e
  | parsed (skip, s') ↦ read cs skip s'
]

-- After the loop: a row that has begun is the last row.
unfoldable pub finish : Reader → Parsed (List (List Units))
finish s =
    if s.quoted
    then refused CsvError.unclosed_quote
    else parsed (
        if not (is_nil s.cell) || s.closed || not (is_nil s.row)
        then s.rows ++ (s.row ++ s.cell ∷ []) ∷ []
        else s.rows)

-- The white space of `\s` and of `trim`.
abbrev pub is_space_unit : ℕ → Bool
is_space_unit c =
    (leb 9 c && leb c 13)
    || c == 32
    || c == 0xa0
    || c == 0x1680
    || (leb 0x2000 c && leb c 0x200a)
    || c == 0x2028
    || c == 0x2029
    || c == 0x202f
    || c == 0x205f
    || c == 0x3000
    || c == 0xfeff

-- `!x.trim()`
abbrev pub is_blank : Units → Bool
is_blank = every is_space_unit

abbrev pub units_eq : Units → Units → Bool
units_eq [] [] = true
units_eq [] (y ∷ ys) = false
units_eq (x ∷ xs) [] = false
units_eq (x ∷ xs) (y ∷ ys) = x == y && units_eq xs ys

-- `new Set(row).size`: each text counts where it stands first.
abbrev pub distinct_from : List Units → List Units → ℕ
distinct_from seen [] = 0
distinct_from seen (x ∷ xs) =
    let rest = distinct_from (x ∷ seen) xs in if any (units_eq x) seen then rest else suc rest

abbrev pub bad_headers : List Units → Bool
bad_headers row = not (distinct_from [] row == length row) || any is_blank row

-- The tests on the rows that were read.
unfoldable pub check_rows : List (List Units) → Parsed (List (List Units))
check_rows [] = refused CsvError.row_count
check_rows (header ∷ rows) =
    if ltb (suc (length rows)) 2 || ltb 501 (suc (length rows))
    then refused CsvError.row_count
    else if bad_headers header
    then refused CsvError.bad_header
    else if any (λ (r : List Units). not (length r == length header)) (header ∷ rows)
    then refused CsvError.uneven_rows
    else parsed (header ∷ rows)

unfoldable pub finish_read : Parsed Reader → Parsed (List (List Units))
unfolding finish check_rows
finish_read (refused e) = refused e
finish_read (parsed s) = elim (finish s) [ refused e ↦ refused e | parsed rows ↦ check_rows rows ]

abbrev pub begin_reader : Reader
begin_reader = record { rows = []; row = []; cell = []; quoted = false; closed = false }

-- `text.replace(/^\uFEFF/, '')`
abbrev pub without_mark : Units → Units
without_mark [] = []
without_mark (c ∷ cs) = if c == byte_order_mark then cs else c ∷ cs

unfoldable pub parse_csv : Units → Parsed (List (List Units))
unfolding read finish_read
parse_csv text =
    if ltb 500000 (length text)
    then refused CsvError.too_long
    else finish_read (read (without_mark text) false begin_reader)
