-- ===== src/Finance/Offering/Custody.antt =====
-- offering.service.ts: the life of an offering. What is reviewed or posted was reviewed by someone who
-- neither entered nor last edited it, and only what is posted has a journal.
use church_management.Base.{
  ℕ, ◌≡◌, ◌≢◌, refl, String, All-find_first, List, true, false, ◌||◌, none, some, ◌==◌, ==-self,
  arith, All, All-concat, All-update_found, Pairwise-concat, Unique, Unique-update_where,
  update_where, ||-false,
}
use church_management.Runtime.{Runtime}
use church_management.Store.{Db}
use church_management.Store.Giving.{
  Offering, OfferingState, draft, reviewed, posted, cancelled, offering_state_eq,
}
use church_management.Tx.{ok}
use church_management.Identity.{Actor}
use church_management.Finance.Policy.Laws.{write_keeps, after_check_keeps}
use church_management.Finance.Offering.{OfferingDto, offering_of}
use church_management.Finance.Offering.Entry.{
  new_offering, create, create_tx, is_open, edited, update, update_tx, reviewed_row, review,
  review_tx, cancelled_row, cancel, cancel_tx,
}
use church_management.Finance.Offering.Entry.Laws.{
  offering_of-id, create_tx_ok, update_tx_ok, review_tx_ok, cancel_tx_ok,
}
use church_management.Finance.Offering.Posting.{posted_row, post, post_tx}
use church_management.Finance.Offering.Posting.Laws.{post_tx-Posted}

-- Someone other than the two who wrote the offering has reviewed it.
abbrev pub HasReviewer : Offering → Type 0
HasReviewer o = (u : ℕ) × (o.reviewed_by ≡ some u) × (u ≢ o.created_by) × (u ≢ o.edited_by)

-- What the columns hold in each state.
abbrev pub StateFits : OfferingState → Offering → Type 0
StateFits draft o = (o.reviewed_by ≡ none) × (o.journal_id ≡ none)
StateFits reviewed o = HasReviewer o × (o.journal_id ≡ none)
StateFits posted o = HasReviewer o × ((j : ℕ) × (o.journal_id ≡ some j))
StateFits cancelled o = o.journal_id ≡ none

abbrev pub IsHonest : Offering → Type 0
IsHonest o = StateFits o.state o

-- The invariant of the offerings.
pub record IsOrderly (os : List Offering) : Type 0 where
  pub unique : Unique (λ (o : Offering). o.id) os
  pub honest : All IsHonest os

-- An update of the row that was found keeps the invariant, if it keeps the id and the new row fits.
found-IsOrderly :
    (c id : ℕ) (f : Offering → Offering) (db : Db) (row : Offering)
    → IsOrderly db.offerings
    → offering_of c id db ≡ some row
    → ((o : Offering) → (f o).id ≡ o.id)
    → IsHonest (f row)
    → IsOrderly (update_where (λ o. o.id == id) f db.offerings)
found-IsOrderly c id f db row h found keep new = record {
  unique = Unique-update_where (λ (o : Offering). o.id) _ f db.offerings keep h.unique;
  honest =
      All-update_found (λ (o : Offering). o.id) IsHonest _ id f db.offerings h.unique found
        (offering_of-id c id db found) h.honest new;
}

-- The row that is found is honest.
IsHonest-row :
    (c id : ℕ) (db : Db) (row : Offering)
    → IsOrderly db.offerings
    → offering_of c id db ≡ some row
    → IsHonest row
IsHonest-row c id db row h found = All-find_first IsHonest _ db.offerings h.honest found

open_facts : (o : Offering) → IsHonest o → is_open o ≡ true → o.journal_id ≡ none
open_facts o h k = go o.state h k
  where
    go :
        (s : OfferingState)
        → StateFits s o
        → (offering_state_eq s draft || offering_state_eq s reviewed) ≡ true
        → o.journal_id ≡ none
    go draft h k = h.1
    go reviewed h k = h.1
    go posted h k = cc
    go cancelled h k = cc

reviewed_facts :
    (o : Offering) → IsHonest o → offering_state_eq o.state reviewed ≡ true → HasReviewer o
reviewed_facts o h k = go o.state h k
  where
    go : (s : OfferingState) → StateFits s o → offering_state_eq s reviewed ≡ true → HasReviewer o
    go reviewed h k = h.0
    go draft h k = cc
    go posted h k = cc
    go cancelled h k = cc

draft_facts : (o : Offering) → offering_state_eq o.state draft ≡ true → is_open o ≡ true
draft_facts o h = ground arith

differs : (u v : ℕ) → (v == u) ≡ false → u ≢ v
differs u v h e = ground (arith, ==-self v)

-- Entering an offering keeps the invariant, whether it succeeds or is refused; the id that the
-- database gives to the new row is not in use.
pub create-IsOrderly :
    (rt : Runtime) (a : Actor) (c : ℕ) (d : OfferingDto) (db : Db)
    → All (λ (o : Offering). o.id ≢ rt.new_id 0) db.offerings
    → IsOrderly db.offerings
    → IsOrderly (create rt a c d db).1.offerings
unfolding create
create-IsOrderly rt a c d db fresh h =
    after_check_keeps a c _ _ db (λ y. IsOrderly y.offerings) h
      (write_keeps rt a c _ (create_tx rt a c d) false (λ y. IsOrderly y.offerings) db (λ _ k. k)
        kept h)
  where
    kept : (x : ℕ) (db' : Db) → create_tx rt a c d db ≡ ok (x, db') → IsOrderly db'.offerings
    kept x db' done =
        let (day, e, same) = create_tx_ok db rt a c d done in
        rw same (record {
          unique =
              Pairwise-concat (λ x y. x.id ≢ y.id) db.offerings (new_offering rt a c d day) h.unique
                fresh;
          honest =
              All-concat IsHonest db.offerings {x = new_offering rt a c d day} h.honest
                (refl, refl);
        })

-- Editing an offering keeps the invariant: what was reviewed is a draft again.
pub update-IsOrderly :
    (rt : Runtime) (a : Actor) (c id v : ℕ) (d : OfferingDto) (db : Db)
    → IsOrderly db.offerings
    → IsOrderly (update rt a c id v d db).1.offerings
unfolding update
update-IsOrderly rt a c id v d db h =
    after_check_keeps a c _ _ db (λ y. IsOrderly y.offerings) h
      (write_keeps rt a c _ (update_tx rt a c id v d) false (λ y. IsOrderly y.offerings) db
        (λ _ k. k) kept h)
  where
    kept :
        (x : Unit {0}) (db' : Db)
        → update_tx rt a c id v d db ≡ ok (x, db')
        → IsOrderly db'.offerings
    kept x db' done =
        let (day, y, still_open) = update_tx_ok db rt a c id v d done in
        rw y.written (
          found-IsOrderly c id (edited a d day) db y.row h y.found (λ _. refl)
            (refl, open_facts y.row (IsHonest-row c id db y.row h y.found) still_open))

-- A review keeps the invariant: the reviewer is neither the one who entered the offering nor the
-- one who edited it last.
pub review-IsOrderly :
    (rt : Runtime) (a : Actor) (c id v : ℕ) (db : Db)
    → IsOrderly db.offerings
    → IsOrderly (review rt a c id v db).1.offerings
unfolding review
review-IsOrderly rt a c id v db h =
    after_check_keeps a c _ _ db (λ y. IsOrderly y.offerings) h
      (write_keeps rt a c _ (review_tx a c id v) true (λ y. IsOrderly y.offerings) db (λ _ k. k)
        kept h)
  where
    kept : (x : Unit {0}) (db' : Db) → review_tx a c id v db ≡ ok (x, db') → IsOrderly db'.offerings
    kept x db' done =
        let (y, was_draft, others) = review_tx_ok db rt a c id v done in
        let (not_creator, not_editor) = ||-false _ _ others in
        rw y.written (
          found-IsOrderly c id (reviewed_row a) db y.row h y.found (λ _. refl)
            (
              (a.user_id, refl, differs _ _ not_creator, differs _ _ not_editor),
              open_facts y.row (IsHonest-row c id db y.row h y.found) (draft_facts y.row was_draft),
            ))

-- A cancellation keeps the invariant.
pub cancel-IsOrderly :
    (rt : Runtime) (a : Actor) (c id v : ℕ) (reason : String) (db : Db)
    → IsOrderly db.offerings
    → IsOrderly (cancel rt a c id v reason db).1.offerings
unfolding cancel
cancel-IsOrderly rt a c id v reason db h =
    after_check_keeps a c _ _ db (λ y. IsOrderly y.offerings) h
      (write_keeps rt a c _ (cancel_tx a c id v reason) false (λ y. IsOrderly y.offerings) db
        (λ _ k. k) kept h)
  where
    kept :
        (x : Unit {0}) (db' : Db)
        → cancel_tx a c id v reason db ≡ ok (x, db')
        → IsOrderly db'.offerings
    kept x db' done =
        let (y, still_open) = cancel_tx_ok db rt a c id v reason done in
        rw y.written (
          found-IsOrderly c id cancelled_row db y.row h y.found (λ _. refl)
            (open_facts y.row (IsHonest-row c id db y.row h y.found) still_open))

-- Posting keeps the invariant: what is posted was reviewed, and has its journal.
pub post-IsOrderly :
    (rt : Runtime) (a : Actor) (c id v : ℕ) (db : Db)
    → IsOrderly db.offerings
    → IsOrderly (post rt a c id v db).1.offerings
unfolding post
post-IsOrderly rt a c id v db h =
    after_check_keeps a c _ _ db (λ y. IsOrderly y.offerings) h
      (write_keeps rt a c _ (post_tx rt a c id v) true (λ y. IsOrderly y.offerings) db (λ _ k. k)
        kept h)
  where
    kept :
        (x : Unit {0}) (db' : Db) → post_tx rt a c id v db ≡ ok (x, db') → IsOrderly db'.offerings
    kept x db' done =
        let y = post_tx-Posted rt a c id v db done in
        rw y.offerings (
          found-IsOrderly c id (posted_row (rt.new_id 0)) db y.row h y.found (λ _. refl)
            (
              reviewed_facts y.row (IsHonest-row c id db y.row h y.found) y.was_reviewed,
              (rt.new_id 0, refl),
            ))
