-- ===== src/Identity/Laws.antt =====
-- The permission test and the audit step, inverted for the proofs of the handlers.
use church_management.Base.{ℕ, String, List, ◌≡◌, true, false, not, Bool, eq_of_==, arith}
use church_management.Store.{Db}
use church_management.Store.People.{ResourceId}
use church_management.Tx.{ok, Tx, ◌>>◌, throw_if}
use church_management.Identity.{Actor, has, check, add_audit, audit_event, record_audit}

not-false : (b : Bool) → not b ≡ false → b ≡ true
not-false b h = ground arith

-- A check that ends changes nothing, and the caller belongs to the church and holds the code.
pub check_ok :
    {B : Type 0} {db : Db} {r : B × Db} (a : Actor) (c : ℕ) (p : String) (k : Tx B)
    → (check a c p >> k) db ≡ ok r
    → (a.church_id ≡ c) × (has a p ≡ true) × (k db ≡ ok r)
unfolding check throw_if ◌>>◌
check_ok a c p k h = ground (arith, eq_of_== a.church_id c)

pub record_audit_ok :
    {B : Type 0} (db : Db) {r : B × Db} (a : Actor) (action kind : String) (id : ResourceId)
    (fields : List String) (k : Tx B)
    → (record_audit a action kind id fields >> k) db ≡ ok r
    → k (add_audit (audit_event a action kind id fields "success") db) ≡ ok r
unfolding record_audit ◌>>◌
record_audit_ok db a action kind id fields k h = h
