-- ===== src/System/Frames.antt =====
-- finance/application: which tables each transaction writes. Every other one is as it was.
pub mod Spending
pub mod Giving
pub mod Settings
use church_management.Base.{ℕ, String, Bool, ◌≡◌, refl, ◌∙◌}
use church_management.Runtime.{Runtime}
use church_management.Store.{Db}
use church_management.Identity.{Actor}
use church_management.Tx.{Tx, Result}
use church_management.Tx.Frame.{Frame}
use church_management.Finance.Policy.{write, after_check}
use church_management.Finance.Policy.Laws.{denial, write_keeps, after_check_keeps}

module _ {X : Type 0} {A : Type 0} (v : Db → X) (rt : Runtime) (a : Actor) (c : ℕ) (p : String)
    (fn : Tx A) (recent : Bool) (db : Db) (frame : Frame v fn)
    (audited : (d : Db) → v (denial a d) ≡ v d) where
  -- A call keeps the view that its transaction keeps, whether it succeeds or is refused.
  pub write_same : v (write rt a c p fn recent db).1 ≡ v db
  write_same =
      write_keeps rt a c p fn recent (λ d. v d ≡ v db) db (λ d k. audited d ∙ k)
        (λ x d h. frame.at db x d h) refl

  pub after_check_same : (q : String) → v (after_check a c q (write rt a c p fn recent) db).1 ≡ v db
  after_check_same q =
      after_check_keeps a c q (write rt a c p fn recent) db (λ d. v d ≡ v db) refl write_same
