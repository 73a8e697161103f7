-- ===== src/Scheduler/Lists.antt =====
-- The numbers of a compiled expression.
use skytest_agent.Prelude.{
  ℕ, ◌≤◌, ◌≡◌, refl, ap, sym, ◌∙◌, true, Option, none, some, List, [], ◌∷◌, String, All, length,
  Option-cases, sort_by-All, inl, inr,
}
use mathlib.Core.Path.{subst}
use skytest_agent.Scheduler.{valid}
use skytest_agent.Scheduler.Cron.{
  parse_int_list, checked_numbers, unique_numbers, ascending, in_range, number_list,
  parse_cron_int_list,
}
use skytest_agent.Scheduler.Values.{valid-injective}
use skytest_agent.Scheduler.Numbers.{
  entered_numbers, ascending-unique_numbers, checked_numbers_unique, checked_numbers-range,
  unique_numbers-not_empty, parse_cron_int_list-number_list,
}

-- The numbers entered, each once and in ascending order.
abbrev pub number_set : Option (List (Option ℕ)) → List ℕ
number_set none = []
number_set (some values) = ascending (unique_numbers [] (entered_numbers values))

-- What a list of numbers that was accepted is.
pub parse_int_list-set :
    (entered : Option (List (Option ℕ))) (low high : ℕ) (message : String) (numbers : List ℕ)
    → parse_int_list entered low high message ≡ valid numbers
    → (numbers ≡ number_set entered)
      × (1 ≤ length numbers)
      × All (λ x. in_range low high x ≡ true) numbers
parse_int_list-set none low high message numbers h = cc
parse_int_list-set (some []) low high message numbers h = cc
parse_int_list-set (some (none ∷ values)) low high message numbers h = cc
parse_int_list-set (some (some n ∷ values)) low high message numbers h =
    elim (Option-cases (checked_numbers low high [] (some n ∷ values))) [
      | inl e ↦ let absurd = rw (e, parse_int_list) at h in cc
      | inr (unique, e) ↦
          let made : ascending unique ≡ numbers = valid-injective (rw (e, parse_int_list) at h) in
          let set = checked_numbers_unique low high [] (some n ∷ values) unique e in
          let range = checked_numbers-range low high [] (some n ∷ values) unique e tt in
          let same : numbers ≡ number_set (some (some n ∷ values)) = sym made ∙ ap ascending set in
          (
            same,
            subst (λ ns. 1 ≤ length ns) (sym same)
                (unique_numbers-not_empty n (entered_numbers values)),
            subst (λ ns. All (λ x. in_range low high x ≡ true) ns) made
                (sort_by-All (λ n. n) (λ x. in_range low high x ≡ true) unique range),
          )
    ]

number_set_idem :
    (entered : Option (List (Option ℕ)))
    → ascending (unique_numbers [] (number_set entered)) ≡ number_set entered
number_set_idem none = refl
number_set_idem (some values) = ascending-unique_numbers (entered_numbers values)

-- An accepted list of numbers, written and read.
pub numbers-read :
    (entered : Option (List (Option ℕ))) (low high : ℕ) (message : String) (numbers : List ℕ)
    → parse_int_list entered low high message ≡ valid numbers
    → parse_cron_int_list (some (number_list numbers)) low high ≡ number_set entered
numbers-read entered low high message numbers h =
    let (set, some_number, range) = parse_int_list-set entered low high message numbers h in
    parse_cron_int_list-number_list low high numbers some_number range
    ∙ ap (λ ns. ascending (unique_numbers [] ns)) set
    ∙ number_set_idem entered
