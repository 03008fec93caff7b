-- ===== src/Finance/Ledger/Balance.antt =====
-- ledger.service.ts: double entry. The books stay balanced, no journal is reversed twice, and a
-- reversal takes back what the original journal booked.
use church_management.Base.{
  ℕ, ◌+◌, ◌≤◌, ◌≡◌, refl, ap, List, [], ◌∷◌, ◌++◌, map, Option, none, some, true, false, ◌&&◌,
  is_some, is_id, ◌==◌, ==-self, if◌then◌else◌, any, sum_of, All, All-any-false, All-concat,
  All-weaken, All-find_first, Pairwise, Pairwise-concat, arith, ||-false,
}
use church_management.Runtime.{Runtime}
use church_management.Store.{Db}
use church_management.Store.Books.{FinancePeriod, JournalLine, JournalEntry, Description}
use church_management.Tx.{Result, ok}
use church_management.Identity.{Actor}
use church_management.Finance.Policy.Laws.{write_ok, write_keeps}
use church_management.Finance.Ledger.{
  OfferingPosting, ExpensePosting, ReverseDto, offering_journal, expense_journal, reversal,
  swap_line, journal_of, is_reversed, reverse_tx, reverse,
}
use church_management.Finance.Ledger.Laws.{reverse_tx_ok}

abbrev pub debits : List JournalLine → ℕ
debits = sum_of (λ l. l.debit)

abbrev pub credits : List JournalLine → ℕ
credits = sum_of (λ l. l.credit)

abbrev pub IsBalanced : JournalEntry → Type 0
IsBalanced j = debits j.lines ≡ credits j.lines

-- Two journals do not reverse the same one.
abbrev pub Once : JournalEntry → JournalEntry → Type 0
Once j k = (n : ℕ) → j.reversal_of ≡ some n → ¬ (k.reversal_of ≡ some n)

-- The invariant of the books.
pub record IsSound (js : List JournalEntry) : Type 0 where
  pub balanced : All IsBalanced js
  pub once : Pairwise Once js

debits-swap : (ls : List JournalLine) → debits (map swap_line ls) ≡ credits ls
debits-swap [] = refl
debits-swap (l ∷ ls) = omega (arith, debits-swap ls)

credits-swap : (ls : List JournalLine) → credits (map swap_line ls) ≡ debits ls
credits-swap [] = refl
credits-swap (l ∷ ls) = omega (arith, credits-swap ls)

-- A new balanced journal that reverses none keeps the books sound.
pub IsSound-original :
    (js : List JournalEntry) (j : JournalEntry)
    → IsSound js
    → IsBalanced j
    → j.reversal_of ≡ none
    → IsSound (js ++ j ∷ [])
IsSound-original js j s b fresh = record {
  balanced = All-concat IsBalanced js s.balanced b;
  once =
      Pairwise-concat Once js j s.once
        (All-weaken {P = IsBalanced} (λ k _ n _ e. cc) js s.balanced);
}

-- So does a reversal of a balanced journal that no journal has reversed.
pub IsSound-reversal :
    (js : List JournalEntry) (j : JournalEntry) (id : ℕ)
    → IsSound js
    → IsBalanced j
    → j.reversal_of ≡ some id
    → any (λ k. is_id k.reversal_of id) js ≡ false
    → IsSound (js ++ j ∷ [])
IsSound-reversal js j id s b points fresh = record {
  balanced = All-concat IsBalanced js s.balanced b;
  once = Pairwise-concat Once js j s.once (All-weaken apart js (All-any-false _ js fresh));
}
  where
    apart : (k : JournalEntry) → is_id k.reversal_of id ≡ false → Once k j
    apart k other n e e' = ground (arith, ==-self id)

pub expense_journal-IsBalanced :
    (rt : Runtime) (a : Actor) (c : ℕ) (d : ExpensePosting) (opened : FinancePeriod × ℕ)
    → IsBalanced (expense_journal rt a c d opened)
expense_journal-IsBalanced rt a c d opened = omega arith

pub offering_journal-IsBalanced :
    (rt : Runtime) (a : Actor) (c : ℕ) (d : OfferingPosting) (opened : FinancePeriod × ℕ)
    → IsBalanced (offering_journal rt a c d opened)
offering_journal-IsBalanced rt a c d opened = omega arith

pub reversal-IsBalanced :
    (rt : Runtime) (a : Actor) (c : ℕ) (text : Description) (original : JournalEntry) (id : ℕ)
    (opened : FinancePeriod × ℕ)
    → IsBalanced original
    → IsBalanced (reversal rt a c text original id opened)
reversal-IsBalanced rt a c text original id opened b =
    omega (arith, debits-swap original.lines, credits-swap original.lines)

-- Reversing a journal keeps the books sound, whether the call succeeds or is refused.
pub reverse-IsSound :
    (rt : Runtime) (a : Actor) (c id : ℕ) (d : ReverseDto) (db : Db)
    → IsSound db.journals
    → IsSound (reverse rt a c id d db).1.journals
unfolding reverse
reverse-IsSound rt a c id d db s =
    write_keeps rt a c _ (reverse_tx rt a c id d) true (λ x. IsSound x.journals) db (λ _ h. h) kept
      s
  where
    kept : (x : ℕ) (db' : Db) → reverse_tx rt a c id d db ≡ ok (x, db') → IsSound db'.journals
    kept x db' h =
        let (original, opened, found, _, fresh, _, _, text, event, same) =
          reverse_tx_ok db rt a c id d h in
        let balanced : IsBalanced original = All-find_first IsBalanced _ _ s.balanced found in
        rw same (
          IsSound-reversal db.journals _ id s
            (reversal-IsBalanced rt a c text original id opened balanced) refl
            (||-false _ _ fresh).1)

-- What a journal books on one account and fund.
abbrev pub on_account : ℕ → ℕ → (JournalLine → ℕ) → List JournalLine → ℕ
on_account acc fund side =
    sum_of (λ l. if l.account_id == acc && l.fund_id == fund then side l else 0)

pub on_account-swap :
    (acc fund : ℕ) (ls : List JournalLine)
    → (on_account acc fund (λ l. l.debit) (map swap_line ls)
        ≡ on_account acc fund (λ l. l.credit) ls)
      × (on_account acc fund (λ l. l.credit) (map swap_line ls)
          ≡ on_account acc fund (λ l. l.debit) ls)
on_account-swap acc fund [] = (refl, refl)
on_account-swap acc fund (l ∷ ls) = ground (arith, on_account-swap acc fund ls)

-- What a successful reversal has found and written.
pub record Reversed (db db' : Db) (c id : ℕ) : Type 0 where
  pub original : JournalEntry
  pub entry : JournalEntry
  pub found : journal_of c id db ≡ some original
  pub written : db'.journals ≡ db.journals ++ entry ∷ []
  pub linked : entry.reversal_of ≡ some id
  pub first_time : is_reversed id db ≡ false
  pub not_a_reversal : original.reversal_of ≡ none
  pub not_before : original.posted_on ≤ entry.posted_on
  pub cancels :
      (acc fund : ℕ)
      → on_account acc fund (λ l. l.debit) original.lines
          + on_account acc fund (λ l. l.debit) entry.lines
        ≡ on_account acc fund (λ l. l.credit) original.lines
          + on_account acc fund (λ l. l.credit) entry.lines

none_of_is_some : (o : Option ℕ) → is_some o ≡ false → o ≡ none
none_of_is_some none h = refl
none_of_is_some (some n) h = cc

-- A reversal that succeeds adds one journal, of a day that is not before the original's, that links to
-- the original; the original was no reversal and had none, and on every account and fund the two
-- journals together book as much debit as credit.
pub reverse-Reversed :
    (rt : Runtime) (a : Actor) (c id : ℕ) (d : ReverseDto) (db : Db) {x : ℕ} {db' : Db}
    → reverse rt a c id d db ≡ (Result.ok x, db')
    → Reversed db db' c id
unfolding reverse
reverse-Reversed rt a c id d db h =
    let (_, _, _, done) = write_ok rt a c _ (reverse_tx rt a c id d) true db h in
    let (original, opened, found, _, fresh, _, later, text, event, same) =
      reverse_tx_ok db rt a c id d done in
    record {
      original = original;
      entry = reversal rt a c text original id opened;
      found = found;
      written = ap (λ x. x.journals) same;
      linked = refl;
      first_time = (||-false _ _ fresh).1;
      not_a_reversal = none_of_is_some _ (||-false _ _ fresh).0;
      not_before = ground arith;
      cancels = λ acc fund. omega (
        arith,
        (on_account-swap acc fund original.lines).0,
        (on_account-swap acc fund original.lines).1,
      );
    }
