-- ===== src/Examples/Receipts.antt =====
-- Runs of receipt.service.ts: a receipt is issued, cancelled, and not printed any more.
use church_management.Base.{◌≡◌, ◌≢◌, refl, [], ◌∷◌, none, some, true, false, Pairwise}
use church_management.Runtime.{Runtime}
use church_management.Identity.{Actor, has}
use church_management.Store.{Db}
use church_management.Store.Giving.{Offering, posted, DonationReceipt}
use church_management.Tx.{Result}
use church_management.Finance.Policy.{after_check}
use church_management.Finance.Receipt.{eligible}
use church_management.Finance.Receipt.Issue.{ReceiptIssueDto, item_rows, issue}
use church_management.Finance.Receipt.Issued.{Issued, issue-Issued}
use church_management.Finance.Receipt.Cancel.{print, cancel}
use church_management.Finance.Receipt.Claims.{
  ClaimedOnce, Numbered, issue-ClaimedOnce, issue-Numbered, cancel-print,
}
use church_management.Examples.Church.{run, rt, person}
use church_management.Examples.Offerings.{gift, in_books}

abbrev secretary : Actor
secretary = person 6 ("receipt.read" ∷ "receipt.issue" ∷ "receipt.print" ∷ "receipt.cancel" ∷ [])

abbrev given : Offering
given = record (gift posted (some 5) (some 81)) { donor_id = some 71 }

abbrev ready : Db
ready = record in_books {
  offerings = given ∷ [];
  donors =
      record {
        id = 71;
        church_id = 9;
        member_id = some 7;
        name = "Lee";
        address = "Seoul";
        version = 1;
      }
      ∷ [];
  issuers =
      record {
        church_id = 9;
        name = "Church";
        registration_number = "123-45-67890";
        address = "Seoul";
        representative = "Park";
        legal_basis = "Act";
        qualification_reference = "Q-1";
        electronic_required = false;
        version = 1;
      }
      ∷ [];
}

abbrev form : ReceiptIssueDto
form = record {
  preview = record { donor_id = 71; tax_year = 2025 };
  offering_ids = 41 ∷ [];
  donor_version = 1;
  issuer_version = 1;
}

abbrev rt_on_day : Runtime
rt_on_day = record rt { today = λ zone. "2025-03-01" }

abbrev issued : Db
issued = (issue rt_on_day secretary 9 form ready).1

issue-Issued_example :
    (secretary.church_id ≡ 9)
    × (has secretary "receipt.issue" ≡ true)
    × Issued rt_on_day 9 form ready issued
unfolding run after_check eligible item_rows issue
issue-Issued_example = issue-Issued rt_on_day secretary 9 form ready refl

issue-ClaimedOnce_example : ClaimedOnce issued.claims
issue-ClaimedOnce_example = issue-ClaimedOnce rt_on_day secretary 9 form ready (tt, tt) tt

issue-Numbered_example : Pairwise Numbered issued.receipts
issue-Numbered_example = issue-Numbered rt_on_day secretary 9 form ready tt

abbrev void : Db
void = (cancel rt_on_day secretary 9 100 "wrong name" issued).1

abbrev sheet : DonationReceipt
sheet = record {
  id = 100;
  church_id = 9;
  donor_id = 71;
  tax_year = 2025;
  serial_year = 2025;
  serial = 1;
  number = "D-2025-000001";
  donor_name = "Lee";
  donor_address = "Seoul";
  issuer_name = "Church";
  issuer_registration_number = "123-45-67890";
  issuer_address = "Seoul";
  issuer_representative = "Park";
  issuer_legal_basis = "Act";
  qualification_reference = "Q-1";
  total_amount = 3000;
  issued_by = 6;
  issued_on = 60;
  items = record { offering_id = 41; given_on = 60; amount = 3000; type_name = "Tithe" } ∷ [];
}

-- The receipt of the run.
issued_rows : issued.receipts ≡ sheet ∷ []
unfolding run after_check eligible item_rows issue
issued_rows = refl

cancel-print_example : print rt_on_day secretary 9 100 void ≢ (Result.ok (sheet, none), void)
unfolding run after_check eligible item_rows issue cancel
cancel-print_example =
    cancel-print rt_on_day secretary 9 100 "wrong name" issued void refl rt_on_day secretary
      (sheet, none) void
