-- ===== src/Examples/Roles.antt =====
-- A run of admin.controller.ts: an administrator gives a role to a member.
use church_management.Base.{refl, [], ◌∷◌, true}
use church_management.Store.{Db}
use church_management.Identity.{Actor}
use church_management.Identity.Admin.{grantable, guarded_write, assign_in, assign}
use church_management.Identity.Admin.Laws.{Assigned, assign-Assigned}
use church_management.Examples.Church.{run, rt, person, start}
use church_management.Examples.Login.{kim}

abbrev administrator : Actor
administrator = person 5 ("identity.manage" ∷ "expense.write" ∷ [])

abbrev staffed : Db
staffed = record start {
  users = kim ∷ record kim { id = 5; username = "park" } ∷ [];
  roles =
      record { id = 80; church_id = 9; name = "clerk"; permissions = "expense.write" ∷ [] } ∷ [];
}

assign-Assigned_example :
    Assigned rt administrator 9 2
      (80 ∷ [])
      true
      staffed
      (assign rt administrator 9 2 (80 ∷ []) true staffed).1
unfolding run grantable guarded_write assign_in assign
assign-Assigned_example = assign-Assigned rt administrator 9 2 (80 ∷ []) true staffed refl
