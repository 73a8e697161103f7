-- ===== src/Scheduler/Numbers.antt =====
-- Sets of numbers that are sorted, and lists of numerals with commas.
use skytest_agent.Prelude.{
  ℕ, ◌+◌, ◌≤◌, ◌≡◌, refl, ap, sym, ◌∙◌, true, false, Option, none, some, List, [], ◌∷◌, ◌++◌, map,
  is_empty, ◌==◌, any, any-append, All, length, length-append, length-sort_by, is_empty-append,
  decimal-not_empty, count_where, count_where-any, count_where-append, count_where-sort_by,
  insert_by, IsSorted, sort_by-IsSorted, append_nil, split_by, split_by-append, split_by-single,
  comma, is_comma, is_space, decimal, decimal-digits, parse_int-decimal, digit-not_space, arith,
  Bool-cases, inl, inr,
}
use mathlib.Core.Path.{subst}
use mathlib.Core.Option.{some-injective}
use skytest_agent.Scheduler.Cron.{
  add_number, unique_numbers, ascending, in_range, checked_numbers, number_list, kept_numbers,
  parse_cron_int_list,
}

-- No number stands twice.
unfoldable pub IsDistinct : List ℕ → Type 0
IsDistinct numbers = (n : ℕ) → count_where (λ x. x == n) numbers ≤ 1

count-none : (n : ℕ) (xs : List ℕ) → count_where (λ x. x == n) xs ≡ 0 → any (λ x. x == n) xs ≡ false
count-none n [] h = refl
count-none n (x ∷ xs) h = ground (arith, count-none n xs)

append_assoc : (xs : List ℕ) (n : ℕ) (ys : List ℕ) → (xs ++ n ∷ []) ++ ys ≡ xs ++ n ∷ ys
append_assoc [] n ys = refl
append_assoc (x ∷ xs) n ys = ap (λ zs. x ∷ zs) (append_assoc xs n ys)

add_number-count :
    (n m : ℕ) (xs : List ℕ)
    → count_where (λ x. x == m) xs ≤ 1
    → count_where (λ x. x == m) (add_number n xs) ≤ 1
add_number-count n m xs h =
    ground (arith, count_where-append (λ x. x == m) xs (n ∷ []), count_where-any (λ x. x == n) xs)

unique_numbers-count :
    (m : ℕ) (seen xs : List ℕ)
    → count_where (λ x. x == m) seen ≤ 1
    → count_where (λ x. x == m) (unique_numbers seen xs) ≤ 1
unique_numbers-count m seen [] h = h
unique_numbers-count m seen (x ∷ xs) h =
    unique_numbers-count m (add_number x seen) xs (add_number-count x m seen h)

unique_numbers-kept :
    (seen xs : List ℕ)
    → ((n : ℕ) → count_where (λ x. x == n) seen + count_where (λ x. x == n) xs ≤ 1)
    → unique_numbers seen xs ≡ seen ++ xs
unique_numbers-kept seen [] h = sym (append_nil seen)
unique_numbers-kept seen (x ∷ xs) h =
    let fresh : any (λ y. y == x) seen ≡ false = count-none x seen (ground (arith, h x)) in
    rw fresh (
      unique_numbers-kept (seen ++ x ∷ []) xs
        (λ n. ground (arith, h n, count_where-append (λ y. y == n) seen (x ∷ [])))
      ∙ append_assoc seen x xs)

insert_by-least : (x : ℕ) (ys : List ℕ) → All (λ y. x ≤ y) ys → insert_by (λ n. n) x ys ≡ x ∷ ys
insert_by-least x [] h = refl
insert_by-least x (y ∷ ys) h = let first = h.0 in ground (arith, first)

ascending-sorted : (xs : List ℕ) → IsSorted (λ n. n) xs → ascending xs ≡ xs
ascending-sorted [] h = refl
ascending-sorted (x ∷ xs) h =
    ap (λ ys. insert_by (λ n. n) x ys) (ascending-sorted xs h.1) ∙ insert_by-least x xs h.0

-- The numbers of a sorted set are their own set.
pub ascending-unique_numbers :
    (xs : List ℕ)
    → ascending (unique_numbers [] (ascending (unique_numbers [] xs)))
      ≡ ascending (unique_numbers [] xs)
ascending-unique_numbers xs =
    ap ascending (
      unique_numbers-kept [] (ascending (unique_numbers [] xs)) (λ n. ground (
        arith,
        count_where-sort_by (λ x. x) (λ x. x == n) (unique_numbers [] xs),
        unique_numbers-count n [] xs,
      )))
    ∙ ascending-sorted (ascending (unique_numbers [] xs))
        (sort_by-IsSorted (λ x. x) (unique_numbers [] xs))

-- The numbers among the values that were entered.
abbrev pub entered_numbers : List (Option ℕ) → List ℕ
entered_numbers [] = []
entered_numbers (none ∷ values) = entered_numbers values
entered_numbers (some n ∷ values) = n ∷ entered_numbers values

pub checked_numbers_unique :
    (low high : ℕ) (unique : List ℕ) (values : List (Option ℕ)) (numbers : List ℕ)
    → checked_numbers low high unique values ≡ some numbers
    → numbers ≡ unique_numbers unique (entered_numbers values)
checked_numbers_unique low high unique [] numbers h = ground arith
checked_numbers_unique low high unique (none ∷ values) numbers h = ground arith
checked_numbers_unique low high unique (some n ∷ values) numbers h =
    checked_numbers_unique low high (add_number n unique) values numbers (ground arith)

module _ (low high : ℕ) where
  add_number-range :
      (n : ℕ) (xs : List ℕ)
      → in_range low high n ≡ true
      → All (λ x. in_range low high x ≡ true) xs
      → All (λ x. in_range low high x ≡ true) (add_number n xs)
  add_number-range n xs h a = elim (Bool-cases (any (λ x. x == n) xs)) [
    | inl e ↦ rw e a
    | inr e ↦ rw e (go xs a)
  ]
    where
      go :
          (ys : List ℕ)
          → All (λ x. in_range low high x ≡ true) ys
          → All (λ x. in_range low high x ≡ true) (ys ++ n ∷ [])
      go [] b = (h, tt)
      go (y ∷ ys) b = (b.0, go ys b.1)

  pub checked_numbers-range :
      (unique : List ℕ) (values : List (Option ℕ)) (numbers : List ℕ)
      → checked_numbers low high unique values ≡ some numbers
      → All (λ x. in_range low high x ≡ true) unique
      → All (λ x. in_range low high x ≡ true) numbers
  checked_numbers-range unique [] numbers h a =
      subst (λ xs. All (λ x. in_range low high x ≡ true) xs) (some-injective _ _ h) a
  checked_numbers-range unique (none ∷ values) numbers h a = ground arith
  checked_numbers-range unique (some n ∷ values) numbers h a =
      elim (Bool-cases (in_range low high n)) [
        | inl e ↦
            checked_numbers-range (add_number n unique) values numbers (ground (arith, e))
              (add_number-range n unique e a)
        | inr e ↦ let absurd = rw e at h in ground (arith, absurd)
      ]

  kept_numbers-decimal :
      (xs : List ℕ)
      → All (λ x. in_range low high x ≡ true) xs
      → kept_numbers low high (map decimal xs) ≡ xs
  kept_numbers-decimal [] a = refl
  kept_numbers-decimal (x ∷ xs) a =
      rw (parse_int-decimal x) (rw a.0 (ap (λ ys. x ∷ ys) (kept_numbers-decimal xs a.1)))

pub decimal-not_comma : (n : ℕ) → any is_comma (decimal n) ≡ false
decimal-not_comma n = decimal-digits is_comma (λ c h k. ground arith) n

pub decimal-not_space : (n : ℕ) → any is_space (decimal n) ≡ false
decimal-not_space n = decimal-digits is_space digit-not_space n

split_by-number_list :
    (x : ℕ) (xs : List ℕ) → split_by is_comma (number_list (x ∷ xs)) ≡ map decimal (x ∷ xs)
split_by-number_list x [] = split_by-single is_comma (decimal x) (decimal-not_comma x)
split_by-number_list x (y ∷ xs) =
    split_by-append is_comma (decimal x) (number_list (y ∷ xs)) comma (decimal-not_comma x) refl
    ∙ ap (λ parts. decimal x ∷ parts) (split_by-number_list y xs)

pub number_list-not_space : (xs : List ℕ) → any is_space (number_list xs) ≡ false
number_list-not_space [] = refl
number_list-not_space (x ∷ []) = decimal-not_space x
number_list-not_space (x ∷ y ∷ xs) =
    any-append is_space (decimal x) (comma ∷ number_list (y ∷ xs))
    ∙ ground (arith, decimal-not_space x, number_list-not_space (y ∷ xs))

pub number_list-not_empty : (xs : List ℕ) → 1 ≤ length xs → is_empty (number_list xs) ≡ false
number_list-not_empty [] h = elim h [ ]
number_list-not_empty (x ∷ []) h = decimal-not_empty x
number_list-not_empty (x ∷ y ∷ xs) h = is_empty-append (decimal x) _ (decimal-not_empty x)

length-unique_numbers : (seen xs : List ℕ) → length seen ≤ length (unique_numbers seen xs)
length-unique_numbers seen [] = omega arith
length-unique_numbers seen (x ∷ xs) =
    ground (arith, length-append seen (x ∷ []), length-unique_numbers (add_number x seen) xs)

pub unique_numbers-not_empty :
    (x : ℕ) (xs : List ℕ) → 1 ≤ length (ascending (unique_numbers [] (x ∷ xs)))
unique_numbers-not_empty x xs =
    omega (
      arith,
      length-sort_by (λ n. n) (unique_numbers (x ∷ []) xs),
      length-unique_numbers (x ∷ []) xs,
    )

-- A list of numerals is read back as the set of its numbers.
pub parse_cron_int_list-number_list :
    (low high : ℕ) (xs : List ℕ)
    → 1 ≤ length xs
    → All (λ x. in_range low high x ≡ true) xs
    → parse_cron_int_list (some (number_list xs)) low high ≡ ascending (unique_numbers [] xs)
parse_cron_int_list-number_list low high [] h a = elim h [ ]
parse_cron_int_list-number_list low high (x ∷ xs) h a = rw (number_list-not_empty (x ∷ xs) h) (
    ap (λ parts. ascending (unique_numbers [] (kept_numbers low high parts)))
      (split_by-number_list x xs)
    ∙ ap (λ ns. ascending (unique_numbers [] ns)) (kept_numbers-decimal low high (x ∷ xs) a))
