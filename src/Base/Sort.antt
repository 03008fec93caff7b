-- ===== src/Base/Sort.antt =====
-- `ORDER BY`: the rows in the order of a Boolean test, and what sorting, taking and mapping keep.
use Prim.Native.Nat.{ℕ, zero, suc}
use mathlib.Core.Path.{◌≡◌}
use mathlib.Core.Logic.{inl, inr}
use mathlib.Core.List.{List, [], ◌∷◌, map}
use mathlib.Core.Bool.{Bool, true}
use church_management.Base.Tests.{if◌then◌else◌, Bool-cases}
use mathlib.Core.List.{◌++◌}
use mathlib.Core.Option.{some}
use native.Mathlib.Omega.{arith}
use church_management.Base.Lists.{find_first, All-append, take, select, All, All-select, Pairwise}

module _ {ℓ} {A : Type ℓ} (before : A → A → Bool) where
  abbrev pub insert_by : A → List A → List A
  insert_by x [] = x ∷ []
  insert_by x (y ∷ ys) = let rest = insert_by x ys in if before x y then x ∷ y ∷ ys else y ∷ rest

  abbrev pub sort_by : List A → List A
  sort_by [] = []
  sort_by (x ∷ xs) = insert_by x (sort_by xs)

  module _ {κ} (P : A → Type κ) where
    pub All-insert_by : (x : A) (xs : List A) → P x → All P xs → All P (insert_by x xs)
    All-insert_by x [] p h = (p, tt)
    All-insert_by x (y ∷ ys) p h = elim (Bool-cases (before x y)) [
      | inl e ↦ rw e (p, h)
      | inr e ↦ rw e (h.0, All-insert_by x ys p h.1)
    ]

    pub All-sort_by : (xs : List A) → All P xs → All P (sort_by xs)
    All-sort_by [] h = tt
    All-sort_by (x ∷ xs) h = All-insert_by x (sort_by xs) h.0 (All-sort_by xs h.1)

  module _ {κ} (R : A → A → Type κ) (swap : (x y : A) → R x y → R y x) where
    insert_by-Pairwise :
        (x : A) (xs : List A) → All (R x) xs → Pairwise R xs → Pairwise R (insert_by x xs)
    insert_by-Pairwise x [] h k = (tt, tt)
    insert_by-Pairwise x (y ∷ ys) h k = elim (Bool-cases (before x y)) [
      | inl e ↦ rw e (h, k)
      | inr e ↦ rw e (All-insert_by (R y) x ys (swap x y h.0) k.0, insert_by-Pairwise x ys h.1 k.1)
    ]

    -- Sorting keeps a symmetric relation between all rows.
    pub sort_by-Pairwise : (xs : List A) → Pairwise R xs → Pairwise R (sort_by xs)
    sort_by-Pairwise [] h = tt
    sort_by-Pairwise (x ∷ xs) h =
        insert_by-Pairwise x (sort_by xs) (All-sort_by (R x) xs h.0) (sort_by-Pairwise xs h.1)

module _ {ℓ κ} {A : Type ℓ} where
  pub All-take : (P : A → Type κ) (n : ℕ) (xs : List A) → All P xs → All P (take n xs)
  All-take P zero xs h = tt
  All-take P (suc n) [] h = tt
  All-take P (suc n) (x ∷ xs) h = (h.0, All-take P n xs h.1)

  pub take-Pairwise :
      (R : A → A → Type κ) (n : ℕ) (xs : List A) → Pairwise R xs → Pairwise R (take n xs)
  take-Pairwise R zero xs h = tt
  take-Pairwise R (suc n) [] h = tt
  take-Pairwise R (suc n) (x ∷ xs) h = (All-take (R x) n xs h.0, take-Pairwise R n xs h.1)

  pub select-Pairwise :
      (R : A → A → Type κ) (p : A → Bool) (xs : List A) → Pairwise R xs → Pairwise R (select p xs)
  select-Pairwise R p [] h = tt
  select-Pairwise R p (x ∷ xs) h = elim (Bool-cases (p x)) [
    | inl e ↦ rw e (All-select (R x) p xs h.0, select-Pairwise R p xs h.1)
    | inr e ↦ rw e (select-Pairwise R p xs h.1)
  ]

  -- A property of the selected rows, row by row.
  pub All-select_cons :
      (P : A → Type κ) (p : A → Bool) (x : A) (xs : List A)
      → (p x ≡ true → P x)
      → All P (select p xs)
      → All P (select p (x ∷ xs))
  All-select_cons P p x xs h k = elim (Bool-cases (p x)) [ inl e ↦ rw e (h e, k) | inr e ↦ rw e k ]

module _ {ℓ} {A : Type ℓ} where
  -- The rows that are selected pass the test.
  pub select-passes : (p : A → Bool) (xs : List A) → All (λ x. p x ≡ true) (select p xs)
  select-passes p [] = tt
  select-passes p (x ∷ xs) = elim (Bool-cases (p x)) [
    | inl e ↦ rw e (e, select-passes p xs)
    | inr e ↦ rw e (select-passes p xs)
  ]

module _ {ℓ κ λ'} {A : Type ℓ} {B : Type κ} where
  pub All-map :
      (P : B → Type λ') (f : A → B) (xs : List A) → All (λ x. P (f x)) xs → All P (map f xs)
  All-map P f [] h = tt
  All-map P f (x ∷ xs) h = (h.0, All-map P f xs h.1)

  pub map-Pairwise :
      (R : B → B → Type λ') (f : A → B) (xs : List A)
      → Pairwise (λ x y. R (f x) (f y)) xs
      → Pairwise R (map f xs)
  map-Pairwise R f [] h = tt
  map-Pairwise R f (x ∷ xs) h = (All-map (R (f x)) f xs h.0, map-Pairwise R f xs h.1)

module _ {ℓ κ} {A : Type ℓ} (R : A → A → Type κ) where
  -- Two lists in the relation, each row of the first with each of the second.
  pub Pairwise-append :
      (xs ys : List A)
      → Pairwise R xs
      → Pairwise R ys
      → All (λ x. All (R x) ys) xs
      → Pairwise R (xs ++ ys)
  Pairwise-append [] ys h k m = k
  Pairwise-append (x ∷ xs) ys h k m =
      (All-append (R x) xs ys h.0 m.0, Pairwise-append xs ys h.1 k m.1)

module _ {ℓ κ λ'} {A : Type ℓ} {B : Type κ} (R : A → B → Type λ') where
  All-nil : (xs : List A) → All (λ x. All (R x) []) xs
  All-nil [] = tt
  All-nil (x ∷ xs) = (tt, All-nil xs)

  All-cons :
      (y : B) (xs : List A) (ys : List B)
      → All (λ x. R x y) xs
      → All (λ x. All (R x) ys) xs
      → All (λ x. All (R x) (y ∷ ys)) xs
  All-cons y [] ys h k = tt
  All-cons y (x ∷ xs) ys h k = ((h.0, k.0), All-cons y xs ys h.1 k.1)

  pub All-swap :
      (xs : List A) (ys : List B) → All (λ y. All (λ x. R x y) xs) ys → All (λ x. All (R x) ys) xs
  All-swap xs [] h = All-nil xs
  All-swap xs (y ∷ ys) h = All-cons y xs ys h.0 (All-swap xs ys h.1)

module _ {ℓ} {A : Type ℓ} where
  -- A row at the end is found, if no earlier one is.
  pub find_first-concat :
      (p : A → Bool) (xs : List A) (x : A)
      → p x ≡ true
      → (y : A) × (find_first p (xs ++ x ∷ []) ≡ some y)
  find_first-concat p [] x h = (x, ground arith)
  find_first-concat p (z ∷ zs) x h = elim (Bool-cases (p z)) [
    | inl e ↦ (z, ground arith)
    | inr e ↦ let (y, found) = find_first-concat p zs x h in (y, ground arith)
  ]
