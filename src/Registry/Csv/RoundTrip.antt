-- ===== src/Registry/Csv/RoundTrip.antt =====
-- registry/domain/csv.ts: the reader takes back what the writer has written.
use mathlib.Core.List.{append-nil, append_assoc}
use church_management.Base.{
  ℕ, suc, ◌+◌, ◌≤◌, ◌≡◌, refl, sym, ap, subst, ◌∙◌, List, [], ◌∷◌, ◌++◌, map, any, not, ltb, length,
  ◌==◌, ==-self, true, false, Bool, ◌||◌, if◌then◌else◌, Bool-cases, inl, inr, arith, All,
}
use church_management.Registry.Csv.{
  Units, carriage_return, line_feed, Parsed, parsed, refused, CsvError, is_nil, read, finish,
  check_rows, finish_read, parse_csv, bad_headers, begin_reader,
}
use church_management.Registry.Csv.Writer.{guarded, csv_row, csv_rows, csv_text}
use church_management.Registry.Csv.Reads.{outside, read-row, read-line_end}

-- A row with a cell that is not empty.
abbrev pub HasText : List Units → Type 0
HasText row = any (λ x. not (is_nil x)) row ≡ true

guarded-is_nil : (t : Units) → is_nil (guarded t) ≡ is_nil t
unfolding guarded
guarded-is_nil [] = refl
guarded-is_nil (c ∷ t) = ground arith

guarded-HasText : (row : List Units) → HasText row → HasText (map guarded row)
guarded-HasText [] h = cc
guarded-HasText (t ∷ row) h = elim (Bool-cases (is_nil t)) [
  | inl e ↦ ground (arith, guarded-is_nil t, guarded-HasText row (ground arith))
  | inr e ↦ ground (arith, guarded-is_nil t)
]

or_true : (b c : Bool) → (b || true || c) ≡ true
or_true b c = ground arith

finish-closed :
    (rows : List (List Units)) (row : List Units) (cell : Units)
    → finish (outside rows row cell true) ≡ parsed (rows ++ (row ++ cell ∷ []) ∷ [])
unfolding finish
finish-closed rows row cell = rw (or_true (not (is_nil cell)) (not (is_nil row))) refl

length-concat : {A : Type 0} (xs : List A) (x : A) → length (xs ++ x ∷ []) ≡ length xs + 1
length-concat [] x = refl
length-concat (y ∷ xs) x = omega (arith, length-concat xs x)

read-last :
    (rows : List (List Units)) (r : List Units)
    → HasText r
    → finish_read (read (csv_row r) false (outside rows [] [] false))
      ≡ check_rows (rows ++ map guarded r ∷ [])
unfolding finish_read read
read-last rows [] h = cc
read-last rows (t ∷ ts) h =
    let (done, last, e, k) = read-row rows [] t ts [] refl in
    ap (λ x. finish_read (read x false (outside rows [] [] false)))
      (sym (append-nil (csv_row (t ∷ ts))))
    ∙ ap finish_read e
    ∙ ap
        (λ (x : Parsed (List (List Units))). elim x as (λ _. Parsed (List (List Units))) [
          | refused e ↦ refused e
          | parsed rows ↦ check_rows rows
        ])
        (finish-closed rows done last)
    ∙ ap (λ x. check_rows (rows ++ x ∷ [])) k

read-line :
    (rows : List (List Units)) (r : List Units) (rest : Units)
    → HasText r
    → length rows ≤ 500
    → read (csv_row r ++ carriage_return ∷ line_feed ∷ rest) false (outside rows [] [] false)
      ≡ read rest false (outside (rows ++ map guarded r ∷ []) [] [] false)
read-line rows [] rest h room = cc
read-line rows (t ∷ ts) rest h room =
    let (done, last, e, k) = read-row rows [] t ts (carriage_return ∷ line_feed ∷ rest) refl in
    e
    ∙ read-line_end rows done last rest
        (ap (λ x. any (λ y. not (is_nil y)) x) k ∙ guarded-HasText (t ∷ ts) h)
        (ground (arith, length-concat rows (done ++ last ∷ []), room))
    ∙ ap (λ x. read rest false (outside (rows ++ x ∷ []) [] [] false)) k

read-rows :
    (rows : List (List Units)) (r : List Units) (rs : List (List Units))
    → All HasText (r ∷ rs)
    → length rows + length (r ∷ rs) ≤ 501
    → finish_read (read (csv_rows (r ∷ rs)) false (outside rows [] [] false))
      ≡ check_rows (rows ++ map (map guarded) (r ∷ rs))
read-rows rows r [] h room = read-last rows r h.0
read-rows rows r (q ∷ rs) h room =
    ap finish_read (read-line rows r (csv_rows (q ∷ rs)) h.0 (omega (arith, room)))
    ∙ read-rows (rows ++ map guarded r ∷ []) q rs h.1
        (omega (arith, room, length-concat rows (map guarded r)))
    ∙ ap check_rows (append_assoc rows (map guarded r ∷ []) (map (map guarded) (q ∷ rs)))

length-map : (row : List Units) → length (map guarded row) ≡ length row
length-map [] = refl
length-map (t ∷ row) = omega (arith, length-map row)

length-table : (rows : List (List Units)) → length (map (map guarded) rows) ≡ length rows
length-table [] = refl
length-table (r ∷ rows) = omega (arith, length-table rows)

same_width :
    (n : ℕ) (rows : List (List Units))
    → All (λ r. length r ≡ n) rows
    → any (λ (r : List Units). not (length r == n)) (map (map guarded) rows) ≡ false
same_width n [] h = refl
same_width n (r ∷ rows) h = ground (arith, length-map r, h.0, same_width n rows h.1)

in_limit : (n : ℕ) → n ≤ 500000 → ltb 500000 n ≡ false
in_limit n h = ground arith

counted : (n : ℕ) → 1 ≤ n → n ≤ 500 → (ltb (suc n) 2 || ltb 501 (suc n)) ≡ false
counted n h k = ground arith

own_width : (n : ℕ) (b : Bool) → b ≡ false → (not (n == n) || b) ≡ false
own_width n b h = ground (arith, ==-self n)

check_rows-parsed :
    (header : List Units) (rows : List (List Units))
    → 1 ≤ length rows
    → length rows ≤ 500
    → bad_headers header ≡ false
    → any (λ (r : List Units). not (length r == length header)) rows ≡ false
    → check_rows (header ∷ rows) ≡ parsed (header ∷ rows)
unfolding check_rows
check_rows-parsed header rows some_rows few good wide =
    rw (counted (length rows) some_rows few, good, own_width (length header) _ wide) refl

-- A table of a header and one to five hundred rows is read back from the text of its export, with an
-- apostrophe in front of each cell that a spreadsheet would take for a formula. The rows are as wide as the
-- header, none is without text, the headers are different and not blank, and the text is in the limit.
pub parse_csv-csv_text :
    (header : List Units) (rows : List (List Units))
    → All HasText (header ∷ rows)
    → 1 ≤ length rows
    → length rows ≤ 500
    → length (csv_text (header ∷ rows)) ≤ 500000
    → bad_headers (map guarded header) ≡ false
    → All (λ r. length r ≡ length header) rows
    → parse_csv (csv_text (header ∷ rows)) ≡ parsed (map (map guarded) (header ∷ rows))
unfolding parse_csv
parse_csv-csv_text header rows h some_rows few short good wide =
    ap
      (λ b.
        if b
        then refused CsvError.too_long
        else finish_read (read (csv_rows (header ∷ rows)) false begin_reader))
      (in_limit _ short)
    ∙ read-rows [] header rows h (omega (arith, few))
    ∙ check_rows-parsed (map guarded header) (map (map guarded) rows)
        (omega (arith, some_rows, length-table rows)) (omega (arith, few, length-table rows)) good
        (subst (λ n. any (λ (r : List Units). not (length r == n)) (map (map guarded) rows) ≡ false)
          (sym (length-map header)) (same_width (length header) rows wide))
