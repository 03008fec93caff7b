-- ===== src/Finance/Offering/Posting/Laws.antt =====
-- offering.service.ts (post): what a posting has found and written in the books.
use church_management.Base.{
  ℕ, ◌+◌, ◌≡◌, none, ap, sym, [], ◌∷◌, ◌++◌, Bool, true, false, not, some, ◌==◌, arith,
  update_where,
}
use church_management.Runtime.{Runtime}
use church_management.Store.{Db}
use church_management.Store.Books.{FinancePeriod, Description}
use church_management.Store.Giving.{OfferingType, Offering, reviewed, posted, offering_state_eq}
use church_management.Tx.{Result, ok}
use church_management.Tx.Laws.{find_row_ok, throw_if_ok, modify_ok, pure_ok}
use church_management.Identity.{Actor, has}
use church_management.Finance.Policy.Laws.{write_ok, write_keeps, after_check_ok, after_check_keeps}
use church_management.Finance.Ledger.Laws.{Opened, post_offering_ok}
use church_management.Finance.Ledger.Balance.{
  IsSound, IsSound-original, offering_journal-IsBalanced,
}
use church_management.Base.{refl}
use church_management.Finance.Offering.{offering_of}
use church_management.Finance.Offering.Entry.Laws.{get_ok, event_ok}
use church_management.Finance.Offering.Posting.{type_of, posting, posted_row, post_tx, post}

-- What a posting that succeeds has found and written.
pub record Posted (rt : Runtime) (a : Actor) (c id v : ℕ) (db db' : Db) : Type 0 where
  pub row : Offering
  pub kind : OfferingType
  pub opened : FinancePeriod × ℕ
  pub found : offering_of c id db ≡ some row
  pub current : row.version ≡ v
  pub was_reviewed : offering_state_eq row.state reviewed ≡ true
  pub kind_found : type_of c row.type_id db ≡ some kind
  pub period_open : Opened c db opened
  pub day : rt.parse_date (rt.iso_date row.given_on) ≡ some opened.1
  pub journals :
      db'.journals
      ≡ db.journals
        ++ record {
          id = rt.new_id 0;
          church_id = c;
          period_id = opened.0.id;
          posted_on = opened.1;
          posted_by = a.user_id;
          description = Description.offering_receipt id;
          reversal_of = none;
          lines =
              record {
                account_id = row.asset_account_id;
                fund_id = kind.fund_id;
                debit = row.amount;
                credit = 0;
              }
              ∷ record {
                account_id = kind.revenue_account_id;
                fund_id = kind.fund_id;
                debit = 0;
                credit = row.amount;
              }
              ∷ [];
        }
          ∷ []
  pub offerings :
      db'.offerings
      ≡ update_where
          (λ o. o.id == id)
          (λ o. record o {
            state = posted;
            journal_id = some (rt.new_id 0);
            version = o.version + 1;
          })
          db.offerings

true_of_not : (b : Bool) → not b ≡ false → b ≡ true
true_of_not b h = ground arith

pub post_tx-Posted :
    (rt : Runtime) (a : Actor) (c id v : ℕ) (db : Db) {x : Unit {0}} {db' : Db}
    → post_tx rt a c id v db ≡ ok (x, db')
    → Posted rt a c id v db db'
unfolding post_tx
post_tx-Posted rt a c id v db h =
    let (row, found, current, e₁) = get_ok db c id v _ h in
    let (state, e₂) = throw_if_ok _ _ _ e₁ in
    let (kind, kind_found, e₃) = find_row_ok _ _ _ e₂ in
    let (opened, period_open, day, e₄) = post_offering_ok db rt a c (posting rt id row kind) _ e₃ in
    let (e, e₅) = event_ok _ a (posted_row (rt.new_id 0) row) "post" "" _ (modify_ok _ _ e₄) in
    let same = sym (pure_ok e₅).1 in
    record {
      row = row;
      kind = kind;
      opened = opened;
      found = found;
      current = current;
      was_reviewed = true_of_not _ state;
      kind_found = kind_found;
      period_open = period_open;
      day = day;
      journals = ap (λ (y : Db). y.journals) same;
      offerings = ap (λ (y : Db). y.offerings) same;
    }

-- A posting that succeeds comes from a member with the permission to post offerings, on a reviewed
-- offering at the version named, whose day lies in an open period. It adds one journal of that day that
-- debits the offering's account and credits the revenue account of its type, both with the offering's
-- amount and the fund of its type, and marks the offering posted with the id of that journal.
pub post-Posted :
    (rt : Runtime) (a : Actor) (c id v : ℕ) (db : Db) {x : Unit {0}} {db' : Db}
    → post rt a c id v db ≡ (Result.ok x, db')
    → (a.church_id ≡ c) × (has a "offering.post" ≡ true) × Posted rt a c id v db db'
unfolding post
post-Posted rt a c id v db h =
    let (member, permission, _, done) =
      write_ok rt a c _ (post_tx rt a c id v) true db (after_check_ok a c _ _ db h) in
    (member, permission, post_tx-Posted rt a c id v db done)

-- Posting an offering keeps the books sound, whether the call succeeds or is refused.
pub post-IsSound :
    (rt : Runtime) (a : Actor) (c id v : ℕ) (db : Db)
    → IsSound db.journals
    → IsSound (post rt a c id v db).1.journals
unfolding post
post-IsSound rt a c id v db s =
    after_check_keeps a c _ _ db (λ y. IsSound y.journals) s
      (write_keeps rt a c _ (post_tx rt a c id v) true (λ y. IsSound y.journals) db (λ _ k. k) kept
        s)
  where
    kept : (x : Unit {0}) (db' : Db) → post_tx rt a c id v db ≡ ok (x, db') → IsSound db'.journals
    kept x db' h =
        let p = post_tx-Posted rt a c id v db h in
        rw p.journals (
          IsSound-original db.journals _ s
            (offering_journal-IsBalanced rt a c (posting rt id p.row p.kind) p.opened) refl)
