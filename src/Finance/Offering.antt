-- ===== src/Finance/Offering.antt =====
-- finance/application/offering.service.ts: what the operations on offerings share.
pub mod Donors
pub mod Entry
pub mod Posting
pub mod Custody
pub mod Bookings
use church_management.Base.{
  ℕ, ◌+◌, String, join, List, [], ◌∷◌, ◌++◌, Bool, not, ◌&&◌, Option, none, some, ◌==◌, is_id,
  find_first, any, update_where, trim,
}
use text.Mathlib.Text.{◌==◌ as str_eq}
use church_management.Runtime.{Runtime}
use church_management.Store.{Db}
use church_management.Store.People.{ResourceId}
use church_management.Store.Books.{AccountKind}
use church_management.Store.Giving.{Offering, OfferingEvent}
use church_management.Tx.{Error, Tx, pure, throw_if, find_row, throw_if_found, modify, ◌>>=◌, ◌>>◌}
use church_management.Identity.{Actor, record_audit}
use church_management.Finance.Policy.{date, open_period, account}

pub record OfferingDto : Type 0 where
  pub donor_id : Option ℕ
  pub type_id : ℕ
  pub asset_account_id : ℕ
  pub given_on : String
  pub amount : ℕ
  pub reference : String
  pub source : String

-- `d.donorId && !(await tx.offeringDonor.count(…))`
abbrev pub unknown_donor : ℕ → Option ℕ → Db → Bool
unknown_donor c none db = Bool.false
unknown_donor c (some id) db = not (any (λ x. x.church_id == c && x.id == id) db.donors)

-- Another offering of the church has the reference; `except` is the offering that is edited.
abbrev pub reference_used : ℕ → String → Option ℕ → Db → Bool
reference_used c ref except db =
    any (λ x. x.church_id == c && str_eq x.reference ref && not (is_id except x.id)) db.offerings

-- OfferingService.validate ends with the day of the offering; the other columns are the DTO's.
unfoldable pub validate : Runtime → ℕ → OfferingDto → Option ℕ → Tx ℕ
validate rt c d except = do
  opened ← open_period rt c d.given_on
  account c d.asset_account_id AccountKind.asset
  throw_if_found (λ db. not (any (λ x. x.church_id == c && x.id == d.type_id) db.offering_types))
      Error.bad
  throw_if_found (unknown_donor c d.donor_id) Error.bad
  throw_if_found (reference_used c (trim d.reference) except) Error.bad
  date rt d.given_on

abbrev pub new_offering_event : Actor → Offering → String → String → OfferingEvent
new_offering_event a r action reason = record {
  church_id = r.church_id;
  offering_id = r.id;
  actor_id = a.user_id;
  version = r.version;
  action = action;
  reason = reason;
}

abbrev pub add_offering_event : OfferingEvent → Db → Db
add_offering_event e db = record db { offering_events = db.offering_events ++ e ∷ [] }

-- OfferingService.event
unfoldable pub event : Actor → Offering → String → String → Tx (Unit {0})
event a r action reason = do
  modify (add_offering_event (new_offering_event a r action reason))
  record_audit a (join "offering." action) "offering" (ResourceId.row r.id) []

abbrev pub offering_of : ℕ → ℕ → Db → Option Offering
offering_of c id db = find_first (λ o. o.church_id == c && o.id == id) db.offerings

-- OfferingService.get without a version
unfoldable pub get_any : ℕ → ℕ → Tx Offering
get_any c id = find_row (offering_of c id) Error.missing

-- OfferingService.get with a version
unfoldable pub get : ℕ → ℕ → ℕ → Tx Offering
unfolding get_any
get c id v = do r ← get_any c id; throw_if (not (r.version == v)) Error.conflict; pure r

-- `offering.update({ where: { id }, … })`
abbrev pub replace : ℕ → (Offering → Offering) → Db → Db
replace id f db = record db { offerings = update_where (λ o. o.id == id) f db.offerings }
