-- ===== src/Finance/Ledger/Periods.antt =====
-- ledger.service.ts: accounting periods. Those of one church never share a day, and what is closed
-- stays closed to every posting.
use church_management.Base.{
  ℕ, ◌≤◌, ◌<◌, ◌≡◌, ◌≢◌, inl, inr, ◌⊎◌, String, List, [], ◌∷◌, none, some, true, false, ◌&&◌, ◌==◌,
  find_first, update_where, All, All-any-false, All-weaken, All-find_first, find_first-none,
  find_first-accepts, Pairwise, Pairwise-concat, Pairwise-update_where, arith, Bool-cases,
}
use church_management.Runtime.{Runtime}
use church_management.Store.{Db}
use church_management.Store.Books.{FinancePeriod}
use church_management.Tx.{Result, ok, pure}
use church_management.Tx.Laws.{bind-pure}
use church_management.Identity.{Actor}
use church_management.Finance.Policy.{covers, open_period}
use church_management.Finance.Policy.Laws.{write_ok, write_keeps, open_period_ok}
use church_management.Finance.Ledger.Calendar.{
  PeriodDto, create_period, period_tx, new_period, overlaps, period_of, close, close_tx,
}
use church_management.Finance.Ledger.Laws.{period_tx_ok, close_tx_ok}

-- Two periods of one church have no day in common.
abbrev pub Apart : FinancePeriod → FinancePeriod → Type 0
Apart p q = p.church_id ≡ q.church_id → (p.ends_on < q.starts_on) ⊎ (q.ends_on < p.starts_on)

abbrev pub Disjoint : List FinancePeriod → Type 0
Disjoint = Pairwise Apart

Apart-of_overlaps :
    (rt : Runtime) (c : ℕ) (d : PeriodDto) (first last : ℕ) (p : FinancePeriod)
    → overlaps c first last p ≡ false
    → Apart p (new_period rt c d first last)
Apart-of_overlaps rt c d first last p h same = ground arith

-- Creating a period keeps the periods of every church disjoint, whether it succeeds or is refused.
pub create_period-Disjoint :
    (rt : Runtime) (a : Actor) (c : ℕ) (d : PeriodDto) (db : Db)
    → Disjoint db.periods
    → Disjoint (create_period rt a c d db).1.periods
unfolding create_period
create_period-Disjoint rt a c d db h =
    write_keeps rt a c _ (period_tx rt a c d) true (λ x. Disjoint x.periods) db (λ _ k. k) kept h
  where
    kept : (x : ℕ) (db' : Db) → period_tx rt a c d db ≡ ok (x, db') → Disjoint db'.periods
    kept x db' done =
        let (first, last, _, apart, event, same) = period_tx_ok db rt a c d done in
        rw same (
          Pairwise-concat Apart db.periods _ h (
            All-weaken (Apart-of_overlaps rt c d first last) db.periods
              (All-any-false _ db.periods apart)))

-- So does closing one.
pub close-Disjoint :
    (rt : Runtime) (a : Actor) (c id : ℕ) (db : Db)
    → Disjoint db.periods
    → Disjoint (close rt a c id db).1.periods
unfolding close
close-Disjoint rt a c id db h =
    write_keeps rt a c _ (close_tx rt a c id) true (λ x. Disjoint x.periods) db (λ _ k. k) kept h
  where
    kept : (x : Unit {0}) (db' : Db) → close_tx rt a c id db ≡ ok (x, db') → Disjoint db'.periods
    kept x db' done =
        let (_, _, _, event, same) = close_tx_ok db rt a c id done in
        rw same (
          Pairwise-update_where Apart (λ p. p.id == id) (λ p. record p { closed_at = some rt.now })
            db.periods (λ _ _ r. r) (λ _ _ r. r) h)

-- Where periods are disjoint, the only ones that hold a day of a period have its id.
only_holder :
    (c id day : ℕ) {row : FinancePeriod} (ps : List FinancePeriod)
    → Disjoint ps
    → find_first (λ p. p.id == id && p.church_id == c) ps ≡ some row
    → row.starts_on ≤ day
    → day ≤ row.ends_on
    → All (λ q. covers c day q ≡ true → q.id ≡ id) ps
only_holder c id day [] h found after before = tt
only_holder c id day {row} (p ∷ ps) h found after before =
    elim (Bool-cases (p.id == id && p.church_id == c)) [
      | inl here ↦
          let same : p ≡ row = ground arith in
          (
            (λ _. ground arith),
            All-weaken (λ q apart k. absurd (ground (arith, same, apart))) ps h.0,
          )
      | inr other ↦
          let later : find_first (λ q. q.id == id && q.church_id == c) ps ≡ some row =
            ground arith in
          let apart : Apart p row = All-find_first (Apart p) _ ps h.0 later in
          let mine : (row.id == id && row.church_id == c) ≡ true = find_first-accepts _ ps later in
          ((λ k. absurd (ground (arith, apart))), only_holder c id day ps h.1 later after before)
    ]

closed_out :
    (c id now day : ℕ) (ps : List FinancePeriod)
    → All (λ q. covers c day q ≡ true → q.id ≡ id) ps
    → All
        (λ q. covers c day q ≡ false)
        (update_where (λ p. p.id == id) (λ p. record p { closed_at = some now }) ps)
closed_out c id now day [] h = tt
closed_out c id now day (p ∷ ps) h = (ground (arith, h.0), closed_out c id now day ps h.1)

-- After a period has been closed, no day of it passes the test that every posting makes: the periods
-- of the church are taken to be disjoint, and the posting may come from any later call.
pub close-seals :
    (rt : Runtime) (a : Actor) (c id day : ℕ) (row : FinancePeriod) (db db' : Db)
    → Disjoint db.periods
    → period_of c id db ≡ some row
    → row.starts_on ≤ day
    → day ≤ row.ends_on
    → close rt a c id db ≡ (Result.ok tt, db')
    → (later : Runtime) (s : String) (x : (FinancePeriod × ℕ) × Db) → later.parse_date s ≡ some day
    → open_period later c s db' ≢ ok x
unfolding close
close-seals rt a c id day row db db' h found after before done later s x parsed opened =
    let (_, _, _, ended) = write_ok rt a c _ (close_tx rt a c id) true db done in
    let (_, _, _, event, same) = close_tx_ok db rt a c id ended in
    let (p, d, parsed', holds, _) = open_period_ok db' later c s pure (bind-pure _ opened) in
    let shut : find_first (covers c day) db'.periods ≡ none = rw same (
      find_first-none _ _ (
        closed_out c id rt.now day db.periods
          (only_holder c id day db.periods h found after before))) in
    let same_day : d ≡ day = ground arith in cc (rw same_day at holds)
