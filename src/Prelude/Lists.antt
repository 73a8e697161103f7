-- ===== src/Prelude/Lists.antt =====
-- Lists measured by native numbers, and tables as lists of rows: the queries and the writes of the
-- database client (`findMany`, `findFirst`, `count`, `updateMany`, `deleteMany`).
use Prim.Native.Nat.{ℕ, suc, ◌+◌, ◌≤◌}
use mathlib.Core.Path.{◌≡◌, refl, ap}
use mathlib.Core.Logic.{inl, inr}
use mathlib.Core.Bool.{Bool, true, false, ◌&&◌, ◌||◌}
use mathlib.Core.Option.{Option, none, some}
use mathlib.Core.List.{List, [], ◌∷◌, ◌++◌}
use native.Mathlib.Omega.{arith}
use skytest_agent.Prelude.Tests.{if◌then◌else◌, Bool-cases}

module _ {ℓ} {A : Type ℓ} where
  abbrev pub length : List A → ℕ
  length [] = 0
  length (_ ∷ xs) = suc (length xs)

  abbrev pub any : (A → Bool) → List A → Bool
  any p [] = false
  any p (x ∷ xs) = p x || any p xs

  abbrev pub every : (A → Bool) → List A → Bool
  every p [] = true
  every p (x ∷ xs) = p x && every p xs

  -- `filter`, `findMany`
  abbrev pub select : (A → Bool) → List A → List A
  select p [] = []
  select p (x ∷ xs) = let rest = select p xs in if p x then x ∷ rest else rest

  -- `count`
  abbrev pub count_where : (A → Bool) → List A → ℕ
  count_where p [] = 0
  count_where p (x ∷ xs) = (if p x then 1 else 0) + count_where p xs

  -- the first row, or null
  abbrev pub find_first : (A → Bool) → List A → Option A
  find_first p [] = none
  find_first p (x ∷ xs) = if p x then some x else find_first p xs

  -- `updateMany`
  abbrev pub update_where : (A → Bool) → (A → A) → List A → List A
  update_where p f [] = []
  update_where p f (x ∷ xs) = (if p x then f x else x) ∷ update_where p f xs

  -- `deleteMany`
  abbrev pub delete_where : (A → Bool) → List A → List A
  delete_where p [] = []
  delete_where p (x ∷ xs) = let rest = delete_where p xs in if p x then rest else x ∷ rest

  -- A predicate on every row, by recursion.
  abbrev pub All {κ} : (A → Type κ) → List A → Type κ
  All P [] = Unit
  All P (x ∷ xs) = P x × All P xs

module _ {ℓ} {A : Type ℓ} where
  pub length-append : (xs ys : List A) → length (xs ++ ys) ≡ length xs + length ys
  length-append [] ys = omega arith
  length-append (x ∷ xs) ys = omega (arith, length-append xs ys)

  pub length-update_where :
      (p : A → Bool) (f : A → A) (xs : List A) → length (update_where p f xs) ≡ length xs
  length-update_where p f [] = refl
  length-update_where p f (x ∷ xs) = ap suc (length-update_where p f xs)

  pub count_where-append :
      (p : A → Bool) (xs ys : List A)
      → count_where p (xs ++ ys) ≡ count_where p xs + count_where p ys
  count_where-append p [] ys = omega arith
  count_where-append p (x ∷ xs) ys = ground (arith, count_where-append p xs ys)

module _ {ℓ} {A : Type ℓ} where
  -- A stronger filter counts less.
  pub count_where-le :
      (p q : A → Bool)
      → ((x : A) → p x ≡ true → q x ≡ true)
      → (xs : List A) → count_where p xs ≤ count_where q xs
  count_where-le p q h [] = omega arith
  count_where-le p q h (x ∷ xs) = ground (arith, h x, count_where-le p q h xs)

  pub find_first_sound :
      (p : A → Bool) (xs : List A) {x : A} → find_first p xs ≡ some x → p x ≡ true
  find_first_sound p [] h = ground arith
  find_first_sound p (y ∷ ys) h = elim (Bool-cases (p y)) [
    | inl t ↦ ground arith
    | inr f ↦ find_first_sound p ys (ground arith)
  ]

  pub any-false-select : (p : A → Bool) (xs : List A) → any p xs ≡ false → select p xs ≡ []
  any-false-select p [] h = refl
  any-false-select p (x ∷ xs) h = ground (arith, any-false-select p xs)

module _ {ℓ κ} {A : Type ℓ} (P : A → Type κ) where
  pub select-All : (p : A → Bool) (xs : List A) → All P xs → All P (select p xs)
  select-All p [] h = tt
  select-All p (x ∷ xs) h = ground (arith, select-All p xs h.1)

module _ {ℓ} {A : Type ℓ} where
  -- The rows of `xs` put one by one before those of `ys`.
  abbrev pub onto : List A → List A → List A
  onto [] ys = ys
  onto (x ∷ xs) ys = onto xs (x ∷ ys)

module _ {ℓ κ} {A : Type ℓ} (P : A → Type κ) where
  pub onto-All : (xs ys : List A) → All P (onto xs ys) → All P xs × All P ys
  onto-All [] ys h = (tt, h)
  onto-All (x ∷ xs) ys h = let (a, b) = onto-All xs (x ∷ ys) h in ((b.0, a), b.1)

  pub All-append : (xs ys : List A) → All P xs → All P ys → All P (xs ++ ys)
  All-append [] ys a b = b
  All-append (x ∷ xs) ys a b = (a.0, All-append xs ys a.1 b)

  pub All-map {μ} : {Q : A → Type μ} → ((x : A) → P x → Q x) → (xs : List A) → All P xs → All Q xs
  All-map f [] h = tt
  All-map f (x ∷ xs) h = (f x h.0, All-map f xs h.1)

module _ {ℓ} {A : Type ℓ} where
  pub select-append :
      (p : A → Bool) (xs ys : List A) → select p (xs ++ ys) ≡ select p xs ++ select p ys
  select-append p [] ys = refl
  select-append p (x ∷ xs) ys = ground (arith, select-append p xs ys)

  pub any-append : (p : A → Bool) (xs ys : List A) → any p (xs ++ ys) ≡ (any p xs || any p ys)
  any-append p [] ys = refl
  any-append p (x ∷ xs) ys = ground (arith, any-append p xs ys)

  pub any-select : (p q : A → Bool) (xs : List A) → any p (select q xs) ≡ any (λ x. q x && p x) xs
  any-select p q [] = refl
  any-select p q (x ∷ xs) = ground (arith, any-select p q xs)

  pub count_where-select :
      (p q : A → Bool) (xs : List A)
      → count_where p (select q xs) ≡ count_where (λ x. q x && p x) xs
  count_where-select p q [] = refl
  count_where-select p q (x ∷ xs) = ground (arith, count_where-select p q xs)

  pub any_mono :
      (p q : A → Bool) (xs : List A)
      → ((x : A) → p x ≡ true → q x ≡ true)
      → any p xs ≡ true
      → any q xs ≡ true
  any_mono p q [] f h = h
  any_mono p q (x ∷ xs) f h = ground (arith, f x, any_mono p q xs f)

  pub find_first-any :
      (p : A → Bool) (xs : List A) {x : A} → find_first p xs ≡ some x → any p xs ≡ true
  find_first-any p [] h = ground arith
  find_first-any p (y ∷ ys) {x} h = ground (arith, find_first-any p ys {x = x})

  pub append_nil : (xs : List A) → xs ++ [] ≡ xs
  append_nil [] = refl
  append_nil (x ∷ xs) = ap (λ ys. x ∷ ys) (append_nil xs)

module _ {ℓ} {A : Type ℓ} (q p : A → Bool) (f : A → A) where
  -- A row read by its key after `updateMany`, where the key stays.
  pub find_first-update_where :
      ((x : A) → q (f x) ≡ q x)
      → (xs : List A)
      → find_first q (update_where p f xs)
        ≡ (elim (find_first q xs) [ none ↦ none | some x ↦ some (if p x then f x else x) ])
  find_first-update_where keep [] = refl
  find_first-update_where keep (x ∷ xs) = ground (arith, keep x, find_first-update_where keep xs)

  -- A filter that the update does not touch selects the updated rows.
  pub count_where-update_where :
      ((x : A) → q (f x) ≡ q x)
      → (xs : List A) → count_where q (update_where p f xs) ≡ count_where q xs
  count_where-update_where keep [] = refl
  count_where-update_where keep (x ∷ xs) = ground (arith, keep x, count_where-update_where keep xs)
