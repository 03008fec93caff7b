-- ===== src/Finance/Offering/Bookings.antt =====
-- offering.service.ts (post) and ledger.service.ts (postOffering): the journals that offerings point at.
use church_management.Base.{
  ℕ, ◌≡◌, ◌⊎◌, refl, sym, ap, inl, inr, List, ◌∷◌, [], ◌++◌, none, some, All, All-weaken,
  All-update_found, true, arith,
}
use mathlib.Core.List.{Mem, mem-append_left, mem-append_right, mem-cons_self}
use church_management.Runtime.{Runtime}
use church_management.Store.{Db}
use church_management.Store.Books.{JournalEntry, Description}
use church_management.Store.Giving.{Offering}
use church_management.Tx.{ok}
use church_management.Identity.{Actor}
use church_management.Finance.Policy.Laws.{write_keeps, after_check_keeps}
use church_management.Finance.Ledger.Balance.{debits, credits}
use church_management.Finance.Offering.Entry.Laws.{offering_of-id}
use church_management.Finance.Offering.Posting.{posted_row, post, post_tx}
use church_management.Finance.Offering.Posting.Laws.{post_tx-Posted}
use church_management.Finance.Offering.Custody.{IsOrderly, post-IsOrderly}

-- The journal of an offering stands in the books: it names the offering, and books its amount.
abbrev pub IsBooked : List JournalEntry → Offering → Type 0
IsBooked js o =
    (o.journal_id ≡ none)
    ⊎ ((j : JournalEntry) × (o.journal_id ≡ some j.id)
        × Mem j js
        × (j.description ≡ Description.offering_receipt o.id)
        × (debits j.lines ≡ o.amount)
        × (credits j.lines ≡ o.amount))

more-IsBooked :
    (js : List JournalEntry) (j : JournalEntry) (o : Offering)
    → IsBooked js o
    → IsBooked (js ++ j ∷ []) o
more-IsBooked js j o (inl e) = inl e
more-IsBooked js j o (inr (k, id, there, text, dr, cr)) =
    inr (k, id, mem-append_left _ there, text, dr, cr)

last : (js : List JournalEntry) (j : JournalEntry) → Mem j (js ++ j ∷ [])
last js j = mem-append_right js mem-cons_self

-- Posting keeps two invariants of the offerings: what is posted was reviewed by another than the two who
-- entered and last edited it, and every offering with a journal's id points at a journal of the books
-- that names the offering and books its amount on both sides.
pub post-IsBooked :
    (rt : Runtime) (a : Actor) (c id v : ℕ) (db : Db)
    → IsOrderly db.offerings
    → All (IsBooked db.journals) db.offerings
    → IsOrderly (post rt a c id v db).1.offerings
      × All (IsBooked (post rt a c id v db).1.journals) (post rt a c id v db).1.offerings
unfolding post
post-IsBooked rt a c id v db h booked = (
  post-IsOrderly rt a c id v db h,
  after_check_keeps a c _ _ db (λ y. All (IsBooked y.journals) y.offerings) booked
      (write_keeps rt a c _ (post_tx rt a c id v) true (λ y. All (IsBooked y.journals) y.offerings)
        db (λ _ k. k) kept booked),
)
  where
    kept :
        (x : Unit {0}) (db' : Db)
        → post_tx rt a c id v db ≡ ok (x, db')
        → All (IsBooked db'.journals) db'.offerings
    kept x db' done =
        let y = post_tx-Posted rt a c id v db done in
        let same = offering_of-id c id db y.found in
        rw (y.offerings, y.journals)
          (All-update_found (λ (o : Offering). o.id) (IsBooked _) _ id (posted_row (rt.new_id 0))
            db.offerings h.unique y.found same
            (All-weaken (more-IsBooked db.journals _) db.offerings booked)
            (inr (
              _,
              refl,
              last db.journals _,
              ap Description.offering_receipt (sym same),
              omega arith,
              omega arith,
            )))
