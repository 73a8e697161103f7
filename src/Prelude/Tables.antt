-- ===== src/Prelude/Tables.antt =====
-- A table with one row of a key.
use Prim.Native.Nat.{ℕ, ◌+◌, ◌≤◌}
use mathlib.Core.Path.{◌≡◌, refl, ap, subst}
use mathlib.Core.Logic.{inl, inr}
use mathlib.Core.Bool.{Bool, true, false, ◌&&◌}
use mathlib.Core.Option.{none, some, some-injective}
use mathlib.Core.List.{List, [], ◌∷◌}
use native.Mathlib.Omega.{arith}
use skytest_agent.Prelude.Tests.{◌==◌, if◌then◌else◌, Bool-cases}
use skytest_agent.Prelude.Lists.{
  length, count_where, count_where-le, find_first, update_where, delete_where, any, All, All-map,
  select,
}

module _ {ℓ} {A : Type ℓ} where
  pub count_where-and_none :
      (q r : A → Bool) (xs : List A) → count_where q xs ≡ 0 → count_where (λ x. q x && r x) xs ≡ 0
  count_where-and_none q r xs h =
      omega (arith, count_where-le (λ x. q x && r x) q (λ x e. ground arith) xs)

  -- Of the rows with a key that one row has, a further filter takes that row or none.
  pub count_where-key :
      (q r : A → Bool) (xs : List A) (x : A)
      → find_first q xs ≡ some x
      → count_where q xs ≡ 1
      → count_where (λ y. q y && r y) xs ≡ (if r x then 1 else 0)
  count_where-key q r [] x f n = ground arith
  count_where-key q r (y ∷ ys) x f n =
      ground (arith, count_where-and_none q r ys, count_where-key q r ys x)

  -- `updateMany` where no row fits changes nothing.
  pub update_where-none :
      (p : A → Bool) (f : A → A) (xs : List A) → count_where p xs ≡ 0 → update_where p f xs ≡ xs
  update_where-none p f [] h = refl
  update_where-none p f (x ∷ xs) h = ground (arith, update_where-none p f xs)

  pub count_where-any : (p : A → Bool) (xs : List A) → any p xs ≡ false → count_where p xs ≡ 0
  count_where-any p [] h = refl
  count_where-any p (x ∷ xs) h = ground (arith, count_where-any p xs)

  pub All-update_where :
      (P Q : A → Type 0) (p : A → Bool) (f : A → A)
      → ((x : A) → P x → Q (if p x then f x else x))
      → (xs : List A) → All P xs
      → All Q (update_where p f xs)
  All-update_where P Q p f h [] a = tt
  All-update_where P Q p f h (x ∷ xs) a = (h x a.0, All-update_where P Q p f h xs a.1)

  pub All-delete_where :
      (P : A → Type 0) (p : A → Bool) (xs : List A) → All P xs → All P (delete_where p xs)
  All-delete_where P p [] a = tt
  All-delete_where P p (x ∷ xs) a = ground (arith, All-delete_where P p xs a.1)

module _ {ℓ} {A : Type ℓ} where
  pub count_where-delete_where :
      (q p : A → Bool) (xs : List A) → count_where q (delete_where p xs) ≤ count_where q xs
  count_where-delete_where q p [] = omega arith
  count_where-delete_where q p (x ∷ xs) = ground (arith, count_where-delete_where q p xs)

  -- An update adds at most the rows that it touches.
  pub count_where-update_le :
      (q p : A → Bool) (f : A → A) (xs : List A)
      → count_where q (update_where p f xs) ≤ count_where q xs + count_where p xs
  count_where-update_le q p f [] = omega arith
  count_where-update_le q p f (x ∷ xs) = ground (arith, count_where-update_le q p f xs)

  pub select-holds : (p : A → Bool) (xs : List A) → All (λ x. p x ≡ true) (select p xs)
  select-holds p [] = tt
  select-holds p (x ∷ xs) = ground (arith, select-holds p xs)

  pub length-select : (p : A → Bool) (xs : List A) → length (select p xs) ≡ count_where p xs
  length-select p [] = refl
  length-select p (x ∷ xs) = ground (arith, length-select p xs)

  pub first-none : (xs : List A) → find_first (λ _. true) xs ≡ none → length xs ≡ 0
  first-none [] h = refl
  first-none (x ∷ xs) h = ground arith

  pub delete_where-none :
      (p : A → Bool) (xs : List A) → count_where p xs ≡ 0 → delete_where p xs ≡ xs
  delete_where-none p [] h = refl
  delete_where-none p (x ∷ xs) h = ground (arith, delete_where-none p xs)

  pub delete_where-never :
      (p : A → Bool) (xs : List A) → ((x : A) → p x ≡ false) → delete_where p xs ≡ xs
  delete_where-never p [] h = refl
  delete_where-never p (x ∷ xs) h = ground (arith, h x, delete_where-never p xs h)

  pub find_first-zero : (q : A → Bool) (xs : List A) → count_where q xs ≡ 0 → find_first q xs ≡ none
  find_first-zero q [] h = refl
  find_first-zero q (x ∷ xs) h = ground (arith, find_first-zero q xs)

  pub find_first-count :
      (q : A → Bool) (xs : List A) (x : A) → find_first q xs ≡ some x → 1 ≤ count_where q xs
  find_first-count q [] x h = ground arith
  find_first-count q (y ∷ ys) x h = ground (arith, find_first-count q ys x)

module _ {ℓ κ} {A : Type ℓ} (P : A → Type κ) where
  -- What holds of every row holds of the first one.
  pub first-All : (xs : List A) (x : A) → find_first (λ _. true) xs ≡ some x → All P xs → P x
  first-All [] x h a = cc
  first-All (y ∷ ys) x h a = subst P (some-injective _ _ h) a.0

  pub All-of_select :
      (p : A → Bool) (xs : List A) → All P (select p xs) → All (λ x. p x ≡ true → P x) xs
  All-of_select p [] a = tt
  All-of_select p (x ∷ xs) a = elim (Bool-cases (p x)) [
    | inl t ↦ let b = rw t at a in ((λ _. b.0), All-of_select p xs b.1)
    | inr f ↦ ((λ h. cc), All-of_select p xs (rw f at a))
  ]

module _ {ℓ} {A : Type ℓ} (key : A → ℕ) where
  -- Where keys are unique, every row is found by its key.
  pub find_first-All :
      (xs : List A)
      → ((k : ℕ) → count_where (λ x. key x == k) xs ≤ 1)
      → All (λ r. find_first (λ x. key x == key r) xs ≡ some r) xs
  find_first-All [] u = tt
  find_first-All (x ∷ xs) u = (
    ground arith,
    All-map _
        (λ r h. ground (arith, u (key r), find_first-count (λ (y : A). key y == key r) xs r h)) xs
        (find_first-All xs (λ k. ground (arith, u k))),
  )

module _ {ℓ} {A : Type ℓ} (q p : A → Bool) (f g : A → A) (r : A) where
  -- One row of a unique key is updated first, and then all rows.
  pub update_where-once :
      (xs : List A)
      → find_first q xs ≡ some r
      → count_where q xs ≤ 1
      → p r ≡ true
      → p (f r) ≡ false
      → f r ≡ g r
      → update_where p g (update_where q f xs) ≡ update_where p g xs
  update_where-once [] h n a b c = ground arith
  update_where-once (x ∷ xs) h n a b c = elim (Bool-cases (q x)) [
    | inl t ↦
        let same : x ≡ r = some-injective _ _ (rw t at h) in
        let alone = update_where-none q f xs (ground (arith, t, n)) in
        rw (t, same, alone, a, b) (ap (λ y. y ∷ update_where p g xs) c)
    | inr e ↦ rw e (
        ap (λ ys. (if p x then g x else x) ∷ ys)
          (update_where-once xs (rw e at h) (ground (arith, e, n)) a b c))
  ]

module _ {ℓ} {A : Type ℓ} (q p : A → Bool) (f : A → A) (r : A) where
  -- What an update of the one row of a key does to a count.
  pub count_where-once :
      (xs : List A)
      → find_first q xs ≡ some r
      → count_where q xs ≤ 1
      → count_where p xs + (if p (f r) then 1 else 0)
        ≡ count_where p (update_where q f xs) + (if p r then 1 else 0)
  count_where-once [] h n = ground arith
  count_where-once (x ∷ xs) h n = elim (Bool-cases (q x)) [
    | inl t ↦
        let same : x ≡ r = some-injective _ _ (rw t at h) in
        let alone = update_where-none q f xs (ground (arith, t, n)) in
        rw (t, same, alone) (omega arith)
    | inr e ↦ rw e (omega (arith, count_where-once xs (rw e at h) (ground (arith, e, n))))
  ]

module _ {ℓ} {A : Type ℓ} (P : A → Type 0) (q : A → Bool) (f : A → A) (r : A) where
  -- An update of the one row of a key keeps what holds of the rows, if it holds of the new one.
  pub All-update_key :
      (xs : List A)
      → find_first q xs ≡ some r
      → count_where q xs ≤ 1
      → P (f r)
      → All P xs
      → All P (update_where q f xs)
  All-update_key [] h n new a = tt
  All-update_key (x ∷ xs) h n new a = elim (Bool-cases (q x)) [
    | inl t ↦
        let same : x ≡ r = some-injective _ _ (rw t at h) in
        let alone = update_where-none q f xs (ground (arith, t, n)) in
        rw (t, same, alone) (new, a.1)
    | inr e ↦ rw e (a.0, All-update_key xs (rw e at h) (ground (arith, e, n)) new a.1)
  ]
