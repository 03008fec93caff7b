-- ===== src/Registry/Csv/Checks.antt =====
-- registry/domain/csv.ts: what the reader lets through.
use church_management.Base.{
  ℕ, suc, ◌≤◌, ◌≡◌, refl, sym, subst, List, [], ◌∷◌, any, not, ltb, ◌==◌, length, true, false, Bool,
  ◌||◌, if◌then◌else◌, All, All-weaken, All-any-false, arith, ||-false,
}
use church_management.Registry.Csv.{
  Units, Reader, Parsed, CsvError, parsed, refused, is_blank, distinct_from, bad_headers, read,
  finish, check_rows, finish_read, parse_csv, without_mark, begin_reader,
}

-- A table that was let through.
pub record IsTable (text : Units) (table : List (List Units)) : Type 0 where
  pub header : List Units
  pub rows : List (List Units)
  pub split : table ≡ header ∷ rows
  pub in_limit : length text ≤ 500000
  pub some_rows : 1 ≤ length rows
  pub few : length rows ≤ 500
  pub all_different : distinct_from [] header ≡ length header
  pub no_blank : any is_blank header ≡ false
  pub wide : All (λ r. length r ≡ length header) table

passed :
    {A : Type 0} {y : A} (b : Bool) (e : CsvError) (x : Parsed A)
    → (if b then refused e else x) ≡ parsed y
    → (b ≡ false) × (x ≡ parsed y)
passed true e x h = cc
passed false e x h = (refl, h)

same_parsed : {A : Type 0} {x y : A} → parsed x ≡ parsed y → x ≡ y
same_parsed h = cc

row_limits : (n : ℕ) → (ltb (suc n) 2 || ltb 501 (suc n)) ≡ false → (1 ≤ n) × (n ≤ 500)
row_limits n h = (ground arith, ground arith)

equal_of_not : (v w : ℕ) → not (v == w) ≡ false → v ≡ w
equal_of_not v w h = ground arith

header_facts :
    (header : List Units)
    → bad_headers header ≡ false
    → (distinct_from [] header ≡ length header) × (any is_blank header ≡ false)
header_facts header h =
    let (a, b) = ||-false (not (distinct_from [] header == length header)) _ h in
    (equal_of_not _ _ a, b)

check_rows-IsTable :
    (text : Units) (raw table : List (List Units))
    → length text ≤ 500000
    → check_rows raw ≡ parsed table
    → IsTable text table
unfolding check_rows
check_rows-IsTable text [] table short h = cc
check_rows-IsTable text (header ∷ rows) table short h =
    let (count, e₁) = passed _ _ _ h in
    let (good, e₂) = passed _ _ _ e₁ in
    let (wide, e₃) = passed _ _ _ e₂ in
    let same : header ∷ rows ≡ table = same_parsed e₃ in
    record {
      header = header;
      rows = rows;
      split = sym same;
      in_limit = short;
      some_rows = (row_limits _ count).0;
      few = (row_limits _ count).1;
      all_different = (header_facts header good).0;
      no_blank = (header_facts header good).1;
      wide = subst (All (λ r. length r ≡ length header)) same (
          All-weaken (λ r k. equal_of_not _ _ k) (header ∷ rows)
            (All-any-false _ (header ∷ rows) wide));
    }

finish_read-IsTable :
    (text : Units) (r : Parsed Reader) (table : List (List Units))
    → length text ≤ 500000
    → finish_read r ≡ parsed table
    → IsTable text table
unfolding finish_read
finish_read-IsTable text (refused e) table short h = cc
finish_read-IsTable text (parsed s) table short h = go (finish s) h
  where
    go :
        (x : Parsed (List (List Units)))
        → (elim x as (λ _. Parsed (List (List Units))) [
          | refused e ↦ refused e
          | parsed rows ↦ check_rows rows
        ])
          ≡ parsed table
        → IsTable text table
    go (refused e) h = cc
    go (parsed rows) h = check_rows-IsTable text rows table short h

within : (n : ℕ) → ltb 500000 n ≡ false → n ≤ 500000
within n h = ground arith

-- A text that is let through has at most 500,000 units and gives a header and one to five hundred rows: the
-- headers are different and not blank, and every row is as wide as the header.
pub parse_csv-IsTable :
    (text : Units) (table : List (List Units)) → parse_csv text ≡ parsed table → IsTable text table
unfolding parse_csv
parse_csv-IsTable text table h =
    let (short, e) = passed _ _ _ h in
    finish_read-IsTable text (read (without_mark text) false begin_reader) table (within _ short) e
