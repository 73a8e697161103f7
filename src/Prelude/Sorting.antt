-- ===== src/Prelude/Sorting.antt =====
-- `Array.prototype.sort` by a numeric key: stable.
use Prim.Native.Nat.{ℕ, ◌≤◌}
use mathlib.Core.Path.{◌≡◌, refl, subst}
use mathlib.Core.Option.{some, some-injective}
use native.Mathlib.Nat.{le_refl}
use mathlib.Core.Logic.{inl, inr}
use mathlib.Core.Bool.{Bool, true}
use mathlib.Core.List.{List, [], ◌∷◌}
use native.Mathlib.Omega.{arith}
use skytest_agent.Prelude.Tests.{leb, if◌then◌else◌, Bool-cases, leb→le}
use skytest_agent.Prelude.Lists.{All, length, count_where, find_first}

module _ {ℓ} {A : Type ℓ} (key : A → ℕ) where
  -- Before the first row with a larger or equal key, so that equal rows keep their order.
  abbrev pub insert_by : A → List A → List A
  insert_by x [] = x ∷ []
  insert_by x (y ∷ ys) = if leb (key x) (key y) then x ∷ y ∷ ys else y ∷ insert_by x ys

  abbrev pub sort_by : List A → List A
  sort_by [] = []
  sort_by (x ∷ xs) = insert_by x (sort_by xs)

  abbrev pub IsSorted : List A → Type 0
  IsSorted [] = Unit
  IsSorted (x ∷ xs) = All (λ y. key x ≤ key y) xs × IsSorted xs

module _ {ℓ} {A : Type ℓ} (key : A → ℕ) where
  module _ {κ} (P : A → Type κ) where
    pub insert_by-All : (x : A) (xs : List A) → P x → All P xs → All P (insert_by key x xs)
    insert_by-All x [] p h = (p, tt)
    insert_by-All x (y ∷ ys) p h = elim (Bool-cases (leb (key x) (key y))) [
      | inl e ↦ rw e (p, h)
      | inr e ↦ rw e (h.0, insert_by-All x ys p h.1)
    ]

    pub sort_by-All : (xs : List A) → All P xs → All P (sort_by key xs)
    sort_by-All [] h = tt
    sort_by-All (x ∷ xs) h = insert_by-All x (sort_by key xs) h.0 (sort_by-All xs h.1)

    insert_by-All_inv : (x : A) (xs : List A) → All P (insert_by key x xs) → P x × All P xs
    insert_by-All_inv x [] h = h
    insert_by-All_inv x (y ∷ ys) h = elim (Bool-cases (leb (key x) (key y))) [
      | inl e ↦ rw e at h
      | inr e ↦ let (p, q) = rw e at h in let (a, b) = insert_by-All_inv x ys q in (a, (p, b))
    ]

    pub sort_by-All_inv : (xs : List A) → All P (sort_by key xs) → All P xs
    sort_by-All_inv [] h = tt
    sort_by-All_inv (x ∷ xs) h =
        let (a, b) = insert_by-All_inv x (sort_by key xs) h in (a, sort_by-All_inv xs b)

  count_where-insert_by :
      (p : A → Bool) (x : A) (xs : List A)
      → count_where p (insert_by key x xs) ≡ count_where p (x ∷ xs)
  count_where-insert_by p x [] = refl
  count_where-insert_by p x (y ∷ ys) = elim (Bool-cases (leb (key x) (key y))) [
    | inl e ↦ rw e
    | inr e ↦ rw e (omega (arith, count_where-insert_by p x ys))
  ]

  pub count_where-sort_by :
      (p : A → Bool) (xs : List A) → count_where p (sort_by key xs) ≡ count_where p xs
  count_where-sort_by p [] = refl
  count_where-sort_by p (x ∷ xs) =
      omega (arith, count_where-insert_by p x (sort_by key xs), count_where-sort_by p xs)

  length-insert_by : (x : A) (xs : List A) → length (insert_by key x xs) ≡ length (x ∷ xs)
  length-insert_by x [] = refl
  length-insert_by x (y ∷ ys) = elim (Bool-cases (leb (key x) (key y))) [
    | inl e ↦ rw e
    | inr e ↦ rw e (omega (arith, length-insert_by x ys))
  ]

  pub length-sort_by : (xs : List A) → length (sort_by key xs) ≡ length xs
  length-sort_by [] = refl
  length-sort_by (x ∷ xs) = omega (arith, length-insert_by x (sort_by key xs), length-sort_by xs)

  All-le_trans : (a b : ℕ) (xs : List A) → a ≤ b → All (λ y. b ≤ key y) xs → All (λ y. a ≤ key y) xs
  All-le_trans a b [] h k = tt
  All-le_trans a b (x ∷ xs) h k = (omega arith, All-le_trans a b xs h k.1)

  insert_by-IsSorted : (x : A) (xs : List A) → IsSorted key xs → IsSorted key (insert_by key x xs)
  insert_by-IsSorted x [] h = (tt, tt)
  insert_by-IsSorted x (y ∷ ys) h = elim (Bool-cases (leb (key x) (key y))) [
    | inl e ↦ rw e ((leb→le _ _ e, All-le_trans (key x) (key y) ys (leb→le _ _ e) h.0), h)
    | inr e ↦
        rw e
          (insert_by-All (λ z. key y ≤ key z) x ys (ground arith) h.0, insert_by-IsSorted x ys h.1)
  ]

  pub sort_by-IsSorted : (xs : List A) → IsSorted key (sort_by key xs)
  sort_by-IsSorted [] = tt
  sort_by-IsSorted (x ∷ xs) = insert_by-IsSorted x (sort_by key xs) (sort_by-IsSorted xs)

  -- The first row of a sorted table has the least key.
  pub first-least :
      (xs : List A) (x : A)
      → find_first (λ _. true) (sort_by key xs) ≡ some x
      → All (λ y. key x ≤ key y) xs
  first-least xs x h =
      sort_by-All_inv (λ y. key x ≤ key y) xs (go (sort_by key xs) (sort_by-IsSorted xs) h)
    where
      go :
          (ys : List A)
          → IsSorted key ys
          → find_first (λ _. true) ys ≡ some x
          → All (λ y. key x ≤ key y) ys
      go [] s e = cc
      go (y ∷ ys) s e =
          subst (λ z. All (λ w. key z ≤ key w) (y ∷ ys)) (some-injective _ _ e)
            (le_refl (key y), s.0)
