-- ===== src/Finance/Offering/Posting/Correction.antt =====
-- offering.service.ts (reverse): what a correction has found and written in the books.
use church_management.Base.{
  ℕ, ◌+◌, ◌≤◌, ◌≡◌, String, List, map, ap, sym, [], ◌∷◌, ◌++◌, Bool, true, false, not, ◌||◌, some,
  arith,
}
use church_management.Runtime.{Runtime}
use church_management.Store.{Db}
use church_management.Store.Books.{FinancePeriod, JournalLine, JournalEntry, Description}
use church_management.Store.Giving.{Offering, posted, offering_state_eq}
use church_management.Tx.{Result, ok}
use church_management.Tx.Laws.{or_throw_ok, throw_if_ok, throw_if_found_ok, modify_ok, pure_ok}
use church_management.Identity.{Actor, has}
use church_management.Identity.Laws.{record_audit_ok}
use church_management.Finance.Policy.Laws.{write_ok, write_keeps, after_check_ok, after_check_keeps}
use church_management.Finance.Ledger.{ReverseDto, journal_of, is_reversed, swap_line}
use church_management.Finance.Ledger.Laws.{Opened, reverse_offering_ok}
use church_management.Finance.Ledger.Balance.{
  IsSound, IsSound-reversal, IsBalanced, reversal-IsBalanced, on_account, on_account-swap,
}
use church_management.Base.{All-find_first, refl}
use church_management.Finance.Offering.{offering_of}
use church_management.Finance.Offering.Entry.Laws.{get_any_ok}
use church_management.Finance.Offering.Posting.{is_claimed, reverse_tx, reverse}

-- What a correction of an offering has found and written.
pub record Corrected (rt : Runtime) (a : Actor) (c id : ℕ) (reason : String) (db db' : Db)
    : Type 0 where
  pub row : Offering
  pub journal_id : ℕ
  pub original : JournalEntry
  pub opened : FinancePeriod × ℕ
  pub found : offering_of c id db ≡ some row
  pub was_posted : offering_state_eq row.state posted ≡ true
  pub booked : row.journal_id ≡ some journal_id
  pub journal_found : journal_of c journal_id db ≡ some original
  pub unclaimed : is_claimed c id db ≡ false
  pub first_time : is_reversed journal_id db ≡ false
  pub period_open : Opened c db opened
  pub not_before : original.posted_on ≤ opened.1
  pub exchanged : List JournalLine
  pub swapped :
      exchanged
      ≡ map
          (λ l. record {
            account_id = l.account_id;
            fund_id = l.fund_id;
            debit = l.credit;
            credit = l.debit;
          })
          original.lines
  pub journals :
      db'.journals
      ≡ db.journals
        ++ record {
          id = rt.new_id 0;
          church_id = c;
          period_id = opened.0.id;
          posted_on = opened.1;
          posted_by = a.user_id;
          description = Description.offering_correction;
          reversal_of = some journal_id;
          lines = exchanged;
        }
          ∷ []
  pub cancels :
      (acc fund : ℕ)
      → on_account acc fund (λ l. l.debit) original.lines
          + on_account acc fund (λ l. l.debit) exchanged
        ≡ on_account acc fund (λ l. l.credit) original.lines
          + on_account acc fund (λ l. l.credit) exchanged
  pub corrections :
      db'.offering_reversals
      ≡ db.offering_reversals
        ++ record {
          church_id = c;
          offering_id = id;
          journal_id = rt.new_id 0;
          reason = reason;
          created_by = a.user_id;
        }
          ∷ []

posted_facts : (s n : Bool) → (not s || n) ≡ false → s ≡ true
posted_facts s n h = ground arith

pub reverse_tx-Corrected :
    (rt : Runtime) (a : Actor) (c id : ℕ) (d : ReverseDto) (db : Db) {x : ℕ} {db' : Db}
    → reverse_tx rt a c id d db ≡ ok (x, db')
    → Corrected rt a c id d.reason db db'
unfolding reverse_tx
reverse_tx-Corrected rt a c id d db h =
    let (row, found, e₁) = get_any_ok db c id _ h in
    let (state, e₂) = throw_if_ok _ _ _ e₁ in
    let (unclaimed, e₃) = throw_if_found_ok _ _ _ e₂ in
    let (journal_id, booked, e₄) = or_throw_ok _ _ _ e₃ in
    let (original, opened, journal_found, fresh, period_open, later, e₅) =
      reverse_offering_ok db rt a c journal_id d _ e₄ in
    let e₆ = record_audit_ok _ _ _ _ _ _ _ (modify_ok _ _ e₅) in
    let same = sym (pure_ok e₆).1 in
    record {
      row = row;
      journal_id = journal_id;
      original = original;
      opened = opened;
      found = found;
      was_posted = posted_facts _ _ state;
      booked = booked;
      journal_found = journal_found;
      unclaimed = unclaimed;
      first_time = fresh;
      period_open = period_open;
      not_before = ground arith;
      exchanged = map swap_line original.lines;
      swapped = refl;
      journals = ap (λ (y : Db). y.journals) same;
      cancels = λ acc fund. omega (
        arith,
        (on_account-swap acc fund original.lines).0,
        (on_account-swap acc fund original.lines).1,
      );
      corrections = ap (λ (y : Db). y.offering_reversals) same;
    }

-- A correction that succeeds comes from a member with the permission to correct offerings, and has
-- found a posted offering that no receipt claims and whose journal had not been reversed; it adds one
-- journal, of a day that is not before it, that links to it and together with it books as much debit as
-- credit on every account and fund, and a row that names the offering, that journal and the reason.
pub reverse-Corrected :
    (rt : Runtime) (a : Actor) (c id : ℕ) (d : ReverseDto) (db : Db) {x : ℕ} {db' : Db}
    → reverse rt a c id d db ≡ (Result.ok x, db')
    → (a.church_id ≡ c) × (has a "offering.reverse" ≡ true) × Corrected rt a c id d.reason db db'
unfolding reverse
reverse-Corrected rt a c id d db h =
    let (member, permission, _, done) =
      write_ok rt a c _ (reverse_tx rt a c id d) true db (after_check_ok a c _ _ db h) in
    (member, permission, reverse_tx-Corrected rt a c id d db done)

-- Correcting an offering keeps the books sound, whether the call succeeds or is refused.
pub reverse_offering-IsSound :
    (rt : Runtime) (a : Actor) (c id : ℕ) (d : ReverseDto) (db : Db)
    → IsSound db.journals
    → IsSound (reverse rt a c id d db).1.journals
unfolding reverse
reverse_offering-IsSound rt a c id d db s =
    after_check_keeps a c _ _ db (λ y. IsSound y.journals) s
      (write_keeps rt a c _ (reverse_tx rt a c id d) true (λ y. IsSound y.journals) db (λ _ k. k)
        kept s)
  where
    kept : (x : ℕ) (db' : Db) → reverse_tx rt a c id d db ≡ ok (x, db') → IsSound db'.journals
    kept x db' h =
        let p = reverse_tx-Corrected rt a c id d db h in
        let balanced : IsBalanced p.original =
          All-find_first IsBalanced _ _ s.balanced p.journal_found in
        rw (p.journals, p.swapped)
          (IsSound-reversal db.journals _ p.journal_id s
            (reversal-IsBalanced rt a c Description.offering_correction p.original p.journal_id
              p.opened balanced)
            refl p.first_time)
