-- ===== src/Prelude/Lists.antt =====
-- Lists over the native numbers, tests on lists, and a selection of rows: `SELECT ... WHERE`.
use Prim.Native.Nat.{ℕ, zero, suc, ◌+◌, ◌≤◌}
use mathlib.Core.Path.{◌≡◌, refl, ◌∙◌}
use mathlib.Core.Logic.{inl, inr}
use mathlib.Core.Bool.{Bool, true, false, ◌||◌}
use mathlib.Core.List.{List, [], ◌∷◌, ◌++◌}
use mathlib.Core.Option.{Option, none, some}
use native.Mathlib.Omega.{arith}
use saas_billing_entitlement.Prelude.Tests.{if◌then◌else◌, is_some, Option-cases, Bool-cases}

module _ {ℓ} {A : Type ℓ} where
  abbrev pub length : List A → ℕ
  length [] = 0
  length (x ∷ xs) = suc (length xs)

  abbrev pub take : ℕ → List A → List A
  take zero xs = []
  take (suc n) [] = []
  take (suc n) (x ∷ xs) = x ∷ take n xs

  -- The rows that pass a test, in order.
  abbrev pub where_rows : (A → Bool) → List A → List A
  where_rows p [] = []
  where_rows p (x ∷ xs) = let rest = where_rows p xs in if p x then x ∷ rest else rest

  -- The first row that passes a test.
  abbrev pub find_row : (A → Bool) → List A → Option A
  find_row p [] = none
  find_row p (x ∷ xs) = let rest = find_row p xs in if p x then some x else rest

  abbrev pub any : (A → Bool) → List A → Bool
  any p [] = false
  any p (x ∷ xs) = p x || any p xs

  -- `UPDATE ... SET ... WHERE`
  abbrev pub update_rows : (A → Bool) → (A → A) → List A → List A
  update_rows p f [] = []
  update_rows p f (x ∷ xs) = (if p x then f x else x) ∷ update_rows p f xs

  abbrev pub count_rows : (A → Bool) → List A → ℕ
  count_rows p [] = 0
  count_rows p (x ∷ xs) = (if p x then 1 else 0) + count_rows p xs

  -- A predicate holds of every row.
  abbrev pub All {κ} : (A → Type κ) → List A → Type κ
  All P [] = Unit
  All P (x ∷ xs) = P x × All P xs

module _ {ℓ} {A : Type ℓ} where
  pub length-append : (xs ys : List A) → length (xs ++ ys) ≡ length xs + length ys
  length-append [] ys = omega arith
  length-append (x ∷ xs) ys = omega (arith, length-append xs ys)

  pub length-update_rows :
      (p : A → Bool) (f : A → A) (xs : List A) → length (update_rows p f xs) ≡ length xs
  length-update_rows p f [] = refl
  length-update_rows p f (x ∷ xs) = omega (arith, length-update_rows p f xs)

  pub count_rows-append :
      (p : A → Bool) (xs ys : List A) → count_rows p (xs ++ ys) ≡ count_rows p xs + count_rows p ys
  count_rows-append p [] ys = omega arith
  count_rows-append p (x ∷ xs) ys = omega (arith, count_rows-append p xs ys)

  -- Appending a row at the end: the first match stays, or is the new row.
  pub find_row-append :
      (p : A → Bool) (xs : List A) (y : A)
      → find_row p xs ≡ none
      → find_row p (xs ++ y ∷ []) ≡ (if p y then some y else none)
  find_row-append p [] y h = refl
  find_row-append p (x ∷ xs) y h = ground (arith, find_row-append p xs y)

  pub find_row-append_some :
      (p : A → Bool) (xs ys : List A) {a : A}
      → find_row p xs ≡ some a
      → find_row p (xs ++ ys) ≡ some a
  find_row-append_some p [] ys h = cc
  find_row-append_some p (x ∷ xs) ys {a} h = ground (arith, find_row-append_some p xs ys {a = a})

  pub find_row-holds : (p : A → Bool) (xs : List A) {a : A} → find_row p xs ≡ some a → p a ≡ true
  find_row-holds p [] h = cc
  find_row-holds p (x ∷ xs) {a} h = ground (arith, find_row-holds p xs {a = a})

  pub any-eq_find_row : (p : A → Bool) (xs : List A) → any p xs ≡ is_some (find_row p xs)
  any-eq_find_row p [] = refl
  any-eq_find_row p (x ∷ xs) = ground (arith, any-eq_find_row p xs)

module _ {ℓ} {A : Type ℓ} where
  pub any-false_count : (p : A → Bool) (xs : List A) → any p xs ≡ false → count_rows p xs ≡ 0
  any-false_count p [] h = refl
  any-false_count p (x ∷ xs) h = ground (arith, any-false_count p xs)

  pub any-true_count : (p : A → Bool) (xs : List A) → any p xs ≡ true → 1 ≤ count_rows p xs
  any-true_count p [] h = cc
  any-true_count p (x ∷ xs) h = ground (arith, any-true_count p xs)

  pub any-append_last :
      (p : A → Bool) (xs : List A) (y : A) → p y ≡ true → any p (xs ++ y ∷ []) ≡ true
  any-append_last p [] y h = ground arith
  any-append_last p (x ∷ xs) y h = ground (arith, any-append_last p xs y h)

  pub any-append :
      (p : A → Bool) (xs : List A) (y : A) → any p xs ≡ true → any p (xs ++ y ∷ []) ≡ true
  any-append p [] y h = cc
  any-append p (x ∷ xs) y h = ground (arith, any-append p xs y)

  pub All-append {κ} :
      (P : A → Type κ) (xs : List A) (y : A) → All P xs → P y → All P (xs ++ y ∷ [])
  All-append P [] y h p = (p, tt)
  All-append P (x ∷ xs) y h p = (h.0, All-append P xs y h.1 p)

  pub All-map {κ} : {P Q : A → Type κ} → ((x : A) → P x → Q x) → (xs : List A) → All P xs → All Q xs
  All-map f [] h = tt
  All-map f (x ∷ xs) h = (f x h.0, All-map f xs h.1)

module _ {ℓ} {A : Type ℓ} where
  -- Writing a row that fails a test over some rows leaves no new row that passes.
  pub any-update_rows :
      (p q : A → Bool) (y : A) (xs : List A)
      → p y ≡ false
      → any p xs ≡ false
      → any p (update_rows q (λ _. y) xs) ≡ false
  any-update_rows p q y [] e h = refl
  any-update_rows p q y (x ∷ xs) e h = ground (arith, any-update_rows p q y xs e)

  -- Writing it over all rows that could pass leaves none.
  pub any-update_rows_all :
      (p q : A → Bool) (y : A) (xs : List A)
      → p y ≡ false
      → ((x : A) → q x ≡ false → p x ≡ false)
      → any p (update_rows q (λ _. y) xs) ≡ false
  any-update_rows_all p q y [] e h = refl
  any-update_rows_all p q y (x ∷ xs) e h = ground (arith, h x, any-update_rows_all p q y xs e h)

-- Writing a row over the only row that passes `q`.
module _ {ℓ} {A : Type ℓ} (p q : A → Bool) (y : A) where
  pub find_row-count_rows : (xs : List A) → find_row p xs ≡ none → count_rows p xs ≡ 0
  find_row-count_rows [] h = refl
  find_row-count_rows (x ∷ xs) h = ground (arith, find_row-count_rows xs)

  count-update_none :
      (xs : List A)
      → count_rows q xs ≡ 0
      → count_rows p (update_rows q (λ _. y) xs) ≡ count_rows p xs
  count-update_none [] h = refl
  count-update_none (x ∷ xs) h = ground (arith, count-update_none xs)

  pub count-update_le :
      (xs : List A) {x : A}
      → find_row q xs ≡ some x
      → count_rows q xs ≤ 1
      → (p y ≡ true → p x ≡ true)
      → count_rows p (update_rows q (λ _. y) xs) ≤ count_rows p xs
  count-update_le [] h le f = omega arith
  count-update_le (z ∷ xs) {x} h le f =
      ground (arith, count-update_le xs {x = x}, count-update_none xs)

  pub count-update_suc :
      (xs : List A)
      → count_rows q xs ≤ 1
      → count_rows p (update_rows q (λ _. y) xs) ≤ suc (count_rows p xs)
  count-update_suc [] le = omega arith
  count-update_suc (z ∷ xs) le = ground (arith, count-update_suc xs, count-update_none xs)

  -- A row that is written back with no other answer to `p` counts the same.
  pub count-update_same :
      (xs : List A) → (q y ≡ true) → count_rows q (update_rows q (λ _. y) xs) ≡ count_rows q xs
  count-update_same [] e = refl
  count-update_same (z ∷ xs) e = ground (arith, count-update_same xs)

  pub count_rows-found :
      (xs : List A) {a : A} → find_row p xs ≡ some a → q a ≡ true → 1 ≤ count_rows q xs
  count_rows-found [] h e = cc
  count_rows-found (z ∷ xs) {a} h e = ground (arith, count_rows-found xs {a = a})

  -- Two tests that single out one row each, where one row passes both.
  pub find_row_unique :
      (xs : List A) {a b : A}
      → find_row p xs ≡ some a
      → find_row q xs ≡ some b
      → count_rows q xs ≤ 1
      → q a ≡ true
      → some a ≡ some b
  find_row_unique [] h k le e = cc
  find_row_unique (z ∷ xs) {a} {b} h k le e =
      ground (arith, find_row_unique xs {a = a} {b = b}, count_rows-found xs {a = a})

  -- What one test finds is what another, that it alone passes, finds.
  pub find_row_transfer :
      (xs : List A) {a : A}
      → find_row p xs ≡ some a
      → count_rows q xs ≤ 1
      → q a ≡ true
      → find_row q xs ≡ some a
  find_row_transfer [] h le e = cc
  find_row_transfer (z ∷ xs) {a} h le e =
      ground (arith, find_row_transfer xs {a = a}, count_rows-found xs {a = a})

-- A key that is not among the first rows is looked up among the rest.
pub find_row-skip {ℓ} :
    {A : Type ℓ} (p : A → Bool) (xs ys : List A)
    → find_row p xs ≡ none
    → find_row p (xs ++ ys) ≡ find_row p ys
find_row-skip p [] ys h = refl
find_row-skip p (x ∷ xs) ys h = ground (arith, find_row-skip p xs ys)

-- A row found in a session that has rolled back to what others committed.
pub find_row-ends {ℓ} :
    {A : Type ℓ} (p : A → Bool) (xs ys : List A) {a : A}
    → find_row p ys ≡ some a
    → (b : A) × (find_row p (xs ++ ys) ≡ some b)
find_row-ends p xs ys {a} h = elim (Option-cases (find_row p xs)) [
  | inl absent ↦ (a, find_row-skip p xs ys absent ∙ h)
  | inr (b, there) ↦ (b, find_row-append_some p xs ys there)
]

module _ {ℓ} {A : Type ℓ} where
  -- A row that is written over the rows of its test is found by that test.
  pub find_row-update_rows :
      (q : A → Bool) (y : A) (xs : List A) {x : A}
      → q y ≡ true
      → find_row q xs ≡ some x
      → find_row q (update_rows q (λ _. y) xs) ≡ some y
  find_row-update_rows q y [] e h = cc
  find_row-update_rows q y (z ∷ xs) {x} e h = ground (arith, find_row-update_rows q y xs {x = x} e)

  -- An update that keeps the answers to a test changes what the test finds by its own rule.
  pub find_row-update_kept :
      (p q : A → Bool) (f : A → A) (xs : List A)
      → ((x : A) → p (f x) ≡ p x)
      → find_row p (update_rows q f xs)
        ≡ elim (find_row p xs) [ none ↦ none | some x ↦ some (if q x then f x else x) ]
  find_row-update_kept p q f [] kept = refl
  find_row-update_kept p q f (x ∷ xs) kept =
      ground (arith, kept x, find_row-update_kept p q f xs kept)

  pub any-update_kept :
      (p q : A → Bool) (f : A → A) (xs : List A)
      → ((x : A) → p (f x) ≡ p x)
      → any p (update_rows q f xs) ≡ any p xs
  any-update_kept p q f [] kept = refl
  any-update_kept p q f (x ∷ xs) kept = ground (arith, kept x, any-update_kept p q f xs kept)

  pub All-update_rows {κ} :
      (P : A → Type κ) (q : A → Bool) (f : A → A) (xs : List A)
      → ((x : A) → P x → P (f x))
      → All P xs
      → All P (update_rows q f xs)
  All-update_rows P q f [] kept h = tt
  All-update_rows P q f (x ∷ xs) kept h = elim (Bool-cases (q x)) [
    | inl hit ↦ rw hit (kept x h.0, All-update_rows P q f xs kept h.1)
    | inr miss ↦ rw miss (h.0, All-update_rows P q f xs kept h.1)
  ]

  -- An update that has nothing more to change, and one that finds nothing.
  pub update_rows-twice :
      (p : A → Bool) (f : A → A) (xs : List A)
      → ((x : A) → f (f x) ≡ f x)
      → ((x : A) → p (f x) ≡ p x)
      → update_rows p f (update_rows p f xs) ≡ update_rows p f xs
  update_rows-twice p f [] twice kept = refl
  update_rows-twice p f (x ∷ xs) twice kept =
      ground (arith, twice x, kept x, update_rows-twice p f xs twice kept)

  pub update_rows-absent :
      (p : A → Bool) (f : A → A) (xs : List A) → find_row p xs ≡ none → update_rows p f xs ≡ xs
  update_rows-absent p f [] h = refl
  update_rows-absent p f (x ∷ xs) h = ground (arith, update_rows-absent p f xs)

  pub update_rows-append :
      (p : A → Bool) (f : A → A) (xs ys : List A)
      → update_rows p f (xs ++ ys) ≡ update_rows p f xs ++ update_rows p f ys
  update_rows-append p f [] ys = refl
  update_rows-append p f (x ∷ xs) ys = ground (arith, update_rows-append p f xs ys)

  pub count-update_kept :
      (p q : A → Bool) (f : A → A) (xs : List A)
      → ((x : A) → p (f x) ≡ p x)
      → count_rows p (update_rows q f xs) ≡ count_rows p xs
  count-update_kept p q f [] kept = refl
  count-update_kept p q f (x ∷ xs) kept = ground (arith, kept x, count-update_kept p q f xs kept)
