-- ===== src/Examples/Offerings.antt =====
-- Runs of offering.service.ts: an offering is entered, reviewed, posted and corrected.
use church_management.Base.{All, inl, ℕ, ◌≡◌, ◌≢◌, refl, [], ◌∷◌, Option, none, some, true, arith}
use church_management.Identity.{Actor, has}
use church_management.Store.{Db}
use church_management.Store.Books.{Description, JournalEntry}
use church_management.Store.Giving.{Offering, OfferingState, draft, reviewed, posted}
use church_management.Finance.Ledger.{
  ReverseDto, debit_line, credit_line, post_offering, reverse_offering,
}
use church_management.Finance.Offering.{OfferingDto, get, get_any, event}
use church_management.Finance.Policy.{after_check}
use church_management.Finance.Offering.Entry.{review}
use church_management.Finance.Offering.Posting.{post, reverse}
use church_management.Finance.Offering.Posting.Laws.{Posted, post-Posted}
use church_management.Finance.Offering.Posting.Correction.{Corrected, reverse-Corrected}
use church_management.Finance.Offering.Custody.{IsOrderly, review-IsOrderly}
use church_management.Finance.Offering.Bookings.{IsBooked, post-IsBooked}
use church_management.Examples.Church.{run, rt, person, start}

abbrev clerk : Actor
clerk = person 1 ("offering.read" ∷ "offering.write" ∷ [])

abbrev officer : Actor
officer = person 5 ("offering.read" ∷ "offering.review" ∷ "offering.post" ∷ "offering.reverse" ∷ [])

abbrev pub gift : OfferingState → Option ℕ → Option ℕ → Offering
gift state reviewer journal = record {
  id = 41;
  church_id = 9;
  donor_id = none;
  type_id = 15;
  asset_account_id = 11;
  given_on = 60;
  amount = 3000;
  reference = "O-1";
  source = "CASH";
  state = state;
  version = 2;
  created_by = 1;
  edited_by = 1;
  reviewed_by = reviewer;
  journal_id = journal;
}

abbrev with_type : Db
with_type = record start {
  offering_types =
      record {
        id = 15;
        church_id = 9;
        name = "Tithe";
        revenue_account_id = 13;
        fund_id = 21;
        receipt_eligible = true;
      }
      ∷ [];
}

abbrev entered : Db
entered = record with_type { offerings = gift draft none none ∷ [] }

abbrev checked : Db
checked = record with_type { offerings = gift reviewed (some 5) none ∷ [] }

abbrev booked : JournalEntry
booked = record {
  id = 81;
  church_id = 9;
  period_id = 31;
  posted_on = 60;
  posted_by = 5;
  description = Description.offering_receipt 41;
  reversal_of = none;
  lines = debit_line 11 21 3000 ∷ credit_line 13 21 3000 ∷ [];
}

abbrev pub in_books : Db
in_books = record with_type {
  offerings = gift posted (some 5) (some 81) ∷ [];
  journals = booked ∷ [];
}

abbrev form : OfferingDto
form = record {
  donor_id = none;
  type_id = 15;
  asset_account_id = 11;
  given_on = "2025-03-01";
  amount = 4000;
  reference = "O-2";
  source = "BANK";
}

abbrev correction : ReverseDto
correction = record { posted_on = "2025-03-01"; reason = "counted twice" }

entered-IsOrderly : IsOrderly entered.offerings
entered-IsOrderly = record { unique = (tt, tt); honest = ((refl, refl), tt) }

others_id : ◌≢◌ {A = ℕ} 5 1
others_id e = omega (arith, e)

checked-IsOrderly : IsOrderly checked.offerings
checked-IsOrderly = record {
  unique = (tt, tt);
  honest = (((5, refl, others_id, others_id), refl), tt);
}

fresh_id : ◌≢◌ {A = ℕ} 41 100
fresh_id e = omega (arith, e)

review-IsOrderly_example : IsOrderly (review rt officer 9 41 2 entered).1.offerings
review-IsOrderly_example = review-IsOrderly rt officer 9 41 2 entered entered-IsOrderly

post-IsBooked_example :
    IsOrderly (post rt officer 9 41 2 checked).1.offerings
    × All
        (IsBooked (post rt officer 9 41 2 checked).1.journals)
        (post rt officer 9 41 2 checked).1.offerings
post-IsBooked_example = post-IsBooked rt officer 9 41 2 checked checked-IsOrderly (inl refl, tt)

post-Posted_example :
    (officer.church_id ≡ 9)
    × (has officer "offering.post" ≡ true)
    × Posted rt officer 9 41 2 checked (post rt officer 9 41 2 checked).1
unfolding run after_check get event post_offering post
post-Posted_example = post-Posted rt officer 9 41 2 checked refl

reverse-Corrected_example :
    (officer.church_id ≡ 9)
    × (has officer "offering.reverse" ≡ true)
    × Corrected rt officer 9 41 "counted twice" in_books
        (reverse rt officer 9 41 correction in_books).1
unfolding run after_check get_any event reverse_offering reverse
reverse-Corrected_example = reverse-Corrected rt officer 9 41 correction in_books refl
