-- ===== src/Base/Lists.antt =====
-- Lists as tables: the reads and writes that the services make, and the laws that their proofs use.
use Prim.Native.Nat.{ℕ, zero, suc, ◌+◌, ◌≤◌, ◌<◌}
use mathlib.Core.Path.{◌≡◌, refl}
use mathlib.Core.Logic.{inl, inr}
use mathlib.Core.List.{List, [], ◌∷◌, ◌++◌}
use mathlib.Core.Bool.{Bool, true, false, ◌&&◌, ◌||◌}
use mathlib.Core.Option.{Option, none, some}
use native.Mathlib.Omega.{arith}
use church_management.Base.Tests.{ltb, if◌then◌else◌, Bool-cases}

module _ {ℓ} {A : Type ℓ} where
  abbrev pub length : List A → ℕ
  length [] = 0
  length (x ∷ xs) = suc (length xs)

  abbrev pub take : ℕ → List A → List A
  take zero xs = []
  take (suc n) [] = []
  take (suc n) (x ∷ xs) = x ∷ take n xs

  abbrev pub get_elem? : List A → ℕ → Option A
  get_elem? [] i = none
  get_elem? (x ∷ xs) zero = some x
  get_elem? (x ∷ xs) (suc i) = get_elem? xs i

  -- `findFirst` and `Array.find`: the first row that the test accepts.
  abbrev pub find_first : (A → Bool) → List A → Option A
  find_first p [] = none
  find_first p (x ∷ xs) = let rest = find_first p xs in if p x then some x else rest

  -- `count(…)` read as a condition, and `Array.some`.
  abbrev pub any : (A → Bool) → List A → Bool
  any p [] = false
  any p (x ∷ xs) = p x || any p xs

  abbrev pub every : (A → Bool) → List A → Bool
  every p [] = true
  every p (x ∷ xs) = p x && every p xs

  -- `findMany`: the rows that the test accepts, in order.
  abbrev pub select : (A → Bool) → List A → List A
  select p [] = []
  select p (x ∷ xs) = if p x then x ∷ select p xs else select p xs

  -- `update`: the rows that the test accepts are replaced.
  abbrev pub update_where : (A → Bool) → (A → A) → List A → List A
  update_where p f [] = []
  update_where p f (x ∷ xs) = (if p x then f x else x) ∷ update_where p f xs

  abbrev pub sum_of : (A → ℕ) → List A → ℕ
  sum_of f [] = 0
  sum_of f (x ∷ xs) = f x + sum_of f xs

module _ {ℓ κ} {A : Type ℓ} (P : A → Type κ) where
  abbrev pub All : List A → Type κ
  All [] = Unit
  All (x ∷ xs) = P x × All xs

  pub All-select : (p : A → Bool) (xs : List A) → All xs → All (select p xs)
  All-select p [] h = tt
  All-select p (x ∷ xs) h = elim (Bool-cases (p x)) [
    | inl e ↦ rw e (h.0, All-select p xs h.1)
    | inr e ↦ rw e (All-select p xs h.1)
  ]

  pub All-find_first :
      (p : A → Bool) (xs : List A) {x : A} → All xs → find_first p xs ≡ some x → P x
  All-find_first p [] h e = cc
  All-find_first p (y ∷ xs) h e = elim (Bool-cases (p y)) [
    | inl here ↦ let same : y ≡ _ = ground arith in rw same at h.0
    | inr there ↦ All-find_first p xs h.1 (ground arith)
  ]

  -- An update keeps a property of all rows, if it keeps it of each row that it replaces.
  pub All-update_where :
      (p : A → Bool) (f : A → A) (xs : List A)
      → ((x : A) → p x ≡ true → P x → P (f x))
      → All xs
      → All (update_where p f xs)
  All-update_where p f [] keep h = tt
  All-update_where p f (x ∷ xs) keep h = elim (Bool-cases (p x)) [
    | inl e ↦ rw e (keep x e h.0, All-update_where p f xs keep h.1)
    | inr e ↦ rw e (h.0, All-update_where p f xs keep h.1)
  ]

module _ {ℓ} {A : Type ℓ} where
  -- The row that is found is accepted by the test.
  pub find_first-accepts :
      (p : A → Bool) (xs : List A) {x : A} → find_first p xs ≡ some x → p x ≡ true
  find_first-accepts p [] e = cc
  find_first-accepts p (y ∷ xs) {x} e = elim (Bool-cases (p y)) [
    | inl here ↦ let same : y ≡ x = ground arith in rw same at here
    | inr there ↦ find_first-accepts p xs (ground arith)
  ]

  pub All-any-false : (p : A → Bool) (xs : List A) → any p xs ≡ false → All (λ x. p x ≡ false) xs
  All-any-false p [] h = tt
  All-any-false p (x ∷ xs) h = (ground arith, All-any-false p xs (ground arith))

  pub any-false-All : (p : A → Bool) (xs : List A) → All (λ x. p x ≡ false) xs → any p xs ≡ false
  any-false-All p [] h = refl
  any-false-All p (x ∷ xs) h = ground (arith, any-false-All p xs h.1)

  pub sum_of-append : (f : A → ℕ) (xs ys : List A) → sum_of f (xs ++ ys) ≡ sum_of f xs + sum_of f ys
  sum_of-append f [] ys = omega arith
  sum_of-append f (x ∷ xs) ys = omega (arith, sum_of-append f xs ys)

module _ {ℓ κ λ'} {A : Type ℓ} {P : A → Type κ} {Q : A → Type λ'} where
  pub All-weaken : ((x : A) → P x → Q x) → (xs : List A) → All P xs → All Q xs
  All-weaken f [] h = tt
  All-weaken f (x ∷ xs) h = (f x h.0, All-weaken f xs h.1)

module _ {ℓ κ} {A : Type ℓ} (P : A → Type κ) where
  pub All-append : (xs ys : List A) → All P xs → All P ys → All P (xs ++ ys)
  All-append [] ys h k = k
  All-append (x ∷ xs) ys h k = (h.0, All-append xs ys h.1 k)

  pub All-concat : (xs : List A) {x : A} → All P xs → P x → All P (xs ++ x ∷ [])
  All-concat xs h p = All-append xs (_ ∷ []) h (p, tt)

-- A relation that holds between each row and every later one.
module _ {ℓ κ} {A : Type ℓ} (R : A → A → Type κ) where
  abbrev pub Pairwise : List A → Type κ
  Pairwise [] = Unit
  Pairwise (x ∷ xs) = All (R x) xs × Pairwise xs

  pub Pairwise-concat :
      (xs : List A) (y : A) → Pairwise xs → All (λ x. R x y) xs → Pairwise (xs ++ y ∷ [])
  Pairwise-concat [] y h k = (tt, tt)
  Pairwise-concat (x ∷ xs) y h k = (All-concat (R x) xs h.0 k.0, Pairwise-concat xs y h.1 k.1)

  -- An update that changes nothing that the relation looks at keeps it.
  pub Pairwise-update_where :
      (p : A → Bool) (f : A → A) (xs : List A)
      → ((x y : A) → R x y → R (f x) y)
      → ((x y : A) → R x y → R x (f y))
      → Pairwise xs
      → Pairwise (update_where p f xs)
  Pairwise-update_where p f [] left right h = tt
  Pairwise-update_where p f (x ∷ xs) left right h = (
    elim (Bool-cases (p x)) [
      | inl e ↦ rw e (All-weaken (left x) _ (moved h.0))
      | inr e ↦ rw e (moved h.0)
    ],
    Pairwise-update_where p f xs left right h.1,
  )
    where
      moved : All (R x) xs → All (R x) (update_where p f xs)
      moved k = All-update_where (R x) p f xs (λ y _ r. right x y r) k

module _ {ℓ} {A : Type ℓ} where
  -- No row is found exactly when the test refuses every row.
  pub find_first-none :
      (p : A → Bool) (xs : List A) → All (λ x. p x ≡ false) xs → find_first p xs ≡ none
  find_first-none p [] h = refl
  find_first-none p (x ∷ xs) h = ground (arith, find_first-none p xs h.1)

-- `findFirst` with `orderBy: { version: 'desc' }`: the row with the greatest key.
module _ {ℓ} {A : Type ℓ} (key : A → ℕ) where
  abbrev pub latest : List A → Option A
  latest [] = none
  latest (x ∷ xs) = elim (latest xs) [
    | none ↦ some x
    | some y ↦ if ltb (key x) (key y) then some y else some x
  ]

  abbrev pub key_or_zero : Option A → ℕ
  key_or_zero none = 0
  key_or_zero (some x) = key x

  -- No row has a greater key.
  pub latest-All : (xs : List A) → All (λ x. key x ≤ key_or_zero (latest xs)) xs
  latest-All [] = tt
  latest-All (x ∷ xs) = (ground arith, All-weaken (λ y h. ground arith) xs (latest-All xs))

  -- A row whose key is above those of the rows that the test accepts is the latest of them.
  pub latest-select_concat :
      (p : A → Bool) (xs : List A) (y : A)
      → p y ≡ true
      → All (λ x. p x ≡ true → key x < key y) xs
      → latest (select p (xs ++ y ∷ [])) ≡ some y
  latest-select_concat p [] y e h = rw e refl
  latest-select_concat p (x ∷ xs) y e h = ground (arith, h.0, latest-select_concat p xs y e h.1)

  select-All_le :
      (p : A → Bool) (b : ℕ) (xs : List A)
      → All (λ x. key x ≤ b) (select p xs)
      → All (λ x. p x ≡ true → key x ≤ b) xs
  select-All_le p b [] h = tt
  select-All_le p b (x ∷ xs) h = elim (Bool-cases (p x)) [
    | inl e ↦ let k = rw e at h in ((λ _. k.0), select-All_le p b xs k.1)
    | inr e ↦ ((λ k. cc), select-All_le p b xs (rw e at h))
  ]

  pub latest-select-All :
      (p : A → Bool) (xs : List A)
      → All (λ x. p x ≡ true → key x ≤ key_or_zero (latest (select p xs))) xs
  latest-select-All p xs = select-All_le p _ xs (latest-All (select p xs))
