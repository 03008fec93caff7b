-- ===== src/Examples/Books.antt =====
-- Runs of ledger.service.ts: journals are reversed, periods are created and closed.
use church_management.Base.{arith, ◌≢◌, refl, [], ◌∷◌, none}
use church_management.Store.{Db}
use church_management.Store.Books.{Description, FinancePeriod, JournalEntry}
use church_management.Tx.{ok}
use church_management.Finance.Policy.{open_period}
use church_management.Finance.Ledger.{ReverseDto, reverse, debit_line, credit_line}
use church_management.Finance.Ledger.Calendar.{PeriodDto, create_period, close}
use church_management.Finance.Ledger.Balance.{IsSound, Reversed, reverse-IsSound, reverse-Reversed}
use church_management.Finance.Ledger.Periods.{Disjoint, create_period-Disjoint, close-seals}
use church_management.Examples.Church.{run, rt, treasurer, start}

abbrev booked : JournalEntry
booked = record {
  id = 81;
  church_id = 9;
  period_id = 31;
  posted_on = 50;
  posted_by = 4;
  description = Description.expense_payment 41;
  reversal_of = none;
  lines = debit_line 12 21 5000 ∷ credit_line 11 21 5000 ∷ [];
}

abbrev with_books : Db
with_books = record start { journals = booked ∷ [] }

abbrev correction : ReverseDto
correction = record { posted_on = "2025-03-01"; reason = "wrong account" }

abbrev first_half : FinancePeriod
first_half = record {
  id = 31;
  church_id = 9;
  name = "2025 H1";
  starts_on = 1;
  ends_on = 181;
  closed_at = none;
}

abbrev second_half : PeriodDto
second_half = record { name = "2025 H2"; starts_on = "2025-07-01"; ends_on = "2025-12-31" }

booked-IsSound : IsSound (booked ∷ [])
booked-IsSound = record { balanced = (refl, tt); once = (tt, tt) }

reverse-IsSound_example : IsSound (reverse rt treasurer 9 81 correction with_books).1.journals
reverse-IsSound_example = reverse-IsSound rt treasurer 9 81 correction with_books booked-IsSound

reverse-Reversed_example :
    Reversed with_books (reverse rt treasurer 9 81 correction with_books).1 9 81
unfolding run reverse
reverse-Reversed_example = reverse-Reversed rt treasurer 9 81 correction with_books refl

create_period-Disjoint_example : Disjoint (create_period rt treasurer 9 second_half start).1.periods
create_period-Disjoint_example = create_period-Disjoint rt treasurer 9 second_half start (tt, tt)

close-seals_example :
    (open_period rt 9 "2025-03-01" (close rt treasurer 9 31 start).1)
    ≢ ok ((first_half, 60), (close rt treasurer 9 31 start).1)
unfolding run close
close-seals_example =
    close-seals rt treasurer 9 31 60 first_half start (close rt treasurer 9 31 start).1 (tt, tt)
      refl (omega arith) (omega arith) refl rt "2025-03-01"
      ((first_half, 60), (close rt treasurer 9 31 start).1) refl
