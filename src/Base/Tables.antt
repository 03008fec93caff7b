-- ===== src/Base/Tables.antt =====
-- Tables whose rows have an id of their own: an update by id replaces the row that was found.
use Prim.Native.Nat.{ℕ}
use mathlib.Core.Path.{◌≡◌, subst, sym}
use mathlib.Core.Logic.{inl, inr, ◌≢◌}
use mathlib.Core.List.{List, [], ◌∷◌}
use mathlib.Core.Bool.{Bool}
use mathlib.Core.Option.{some}
use native.Mathlib.Omega.{arith}
use church_management.Base.Tests.{◌==◌, Bool-cases, eq_of_==}
use church_management.Base.Lists.{
  find_first, update_where, All, All-weaken, All-find_first, Pairwise, Pairwise-update_where,
}

module _ {ℓ} {A : Type ℓ} (key : A → ℕ) where
  -- The primary key: no two rows have the same id.
  abbrev pub Unique : List A → Type 0
  Unique = Pairwise (λ x y. key x ≢ key y)

  -- A row with the id of the row that was found is that row.
  pub only_row :
      (p : A → Bool) (k : ℕ) (xs : List A) {r : A}
      → Unique xs
      → find_first p xs ≡ some r
      → key r ≡ k
      → All (λ x. key x ≡ k → x ≡ r) xs
  only_row p k [] h found same = tt
  only_row p k (x ∷ xs) {r} h found same = elim (Bool-cases (p x)) [
    | inl here ↦
        let it : x ≡ r = ground arith in
        ((λ _. it), All-weaken (λ y apart e. absurd (apart (cc))) xs h.0)
    | inr there ↦
        let later : find_first p xs ≡ some r = ground arith in
        let apart : key x ≢ key r = All-find_first (λ y. key x ≢ key y) p xs h.0 later in
        ((λ e. absurd (apart (cc))), only_row p k xs h.1 later same)
  ]

  pub Unique-update_where :
      (p : A → Bool) (f : A → A) (xs : List A)
      → ((x : A) → key (f x) ≡ key x)
      → Unique xs
      → Unique (update_where p f xs)
  Unique-update_where p f xs keep h =
      Pairwise-update_where (λ x y. key x ≢ key y) p f xs (λ x y r e. r (cc (keep x)))
        (λ x y r e. r (cc (keep y))) h

  module _ {κ} (P : A → Type κ) where
    update_only :
        (k : ℕ) (f : A → A) (r : A) (xs : List A)
        → All (λ x. key x ≡ k → x ≡ r) xs
        → All P xs
        → P (f r)
        → All P (update_where (λ x. key x == k) f xs)
    update_only k f r [] only h new = tt
    update_only k f r (x ∷ xs) only h new = (
      elim (Bool-cases (key x == k)) [
        | inl e ↦ rw e (subst (λ y. P (f y)) (sym (only.0 (eq_of_== (key x) k e))) new)
        | inr e ↦ rw e h.0
      ],
      update_only k f r xs only.1 h.1 new,
    )

    -- An update by id keeps a property of all rows, if it gives it to the row that was found.
    pub All-update_found :
        (p : A → Bool) (k : ℕ) (f : A → A) (xs : List A) {r : A}
        → Unique xs
        → find_first p xs ≡ some r
        → key r ≡ k
        → All P xs
        → P (f r)
        → All P (update_where (λ x. key x == k) f xs)
    All-update_found p k f xs h found same all new =
        update_only k f _ xs (only_row p k xs h found same) all new
