-- ===== src/Masking/Hidden.antt =====
-- A masked text shows no masked value.
use skytest_agent.Prelude.{
  ℕ, zero, suc, ◌-◌, ◌≡◌, refl, ap, ◌∙◌, Bool, true, false, ◌||◌, none, List, [], ◌∷◌, Text,
  is_empty, text_eq, text_eq→≡, starts_with, if◌then◌else◌, ◌==◌, any, any-append, find_first,
  length, arith, Bool-cases, Option-cases, inl, inr, if_intro,
}
use skytest_agent.Masking.{
  star, add_value, unique_values, insert_by_length, longest_first, normalize_masked_values,
  replace_values, create_exact_value_masker,
}

-- `text.includes(value)`
abbrev pub contains : (value text : Text) → Bool
contains value [] = is_empty value
contains value (c ∷ text) = starts_with (c ∷ text) value || contains value text

abbrev pub has_star : Text → Bool
has_star value = any (λ c. c == star) value

abbrev pub has_value : Text → List Text → Bool
has_value value values = any (text_eq value) values

find_first-missed :
    (value text : Text) (values : List Text)
    → has_value value values ≡ true
    → find_first (starts_with text) values ≡ none
    → starts_with text value ≡ false
find_first-missed value text [] l h = ground arith
find_first-missed value text (v ∷ values) l h = elim (Bool-cases (text_eq value v)) [
  | inl e ↦ rw (text_eq→≡ value v e) (ground arith)
  | inr e ↦ find_first-missed value text values (ground (arith, e)) (ground arith)
]

or_false : (a b : Bool) → a ≡ false → b ≡ false → (a || b) ≡ false
or_false a b h k = ground arith

star-blocks :
    (value text : Text)
    → is_empty value ≡ false
    → has_star value ≡ false
    → starts_with (star ∷ text) value ≡ false
star-blocks [] text n s = ground arith
star-blocks (b ∷ value) text n s = ground (arith, s)

module _ (values : List Text) where
  -- A text without stars that a masked text starts with has been there before.
  starts_with-replace_values :
      (value text : Text)
      → has_star value ≡ false
      → starts_with (replace_values values zero text) value ≡ true
      → starts_with text value ≡ true
  unfolding replace_values
  starts_with-replace_values [] text s h = refl
  starts_with-replace_values (b ∷ value) [] s h = h
  starts_with-replace_values (b ∷ value) (c ∷ text) s h =
      elim (Option-cases (find_first (starts_with (c ∷ text)) values)) [
        | inl e ↦ ground (arith, e, h, starts_with-replace_values value text)
        | inr (v, e) ↦ ground (arith, e, h, s)
      ]

  replace_values-hides :
      (value : Text) (skip : ℕ) (text : Text)
      → has_value value values ≡ true
      → is_empty value ≡ false
      → has_star value ≡ false
      → contains value (replace_values values skip text) ≡ false
  unfolding replace_values
  replace_values-hides value skip [] l n s = n
  replace_values-hides value (suc skip) (c ∷ text) l n s =
      replace_values-hides value skip text l n s
  replace_values-hides value zero (c ∷ text) l n s =
      elim (Option-cases (find_first (starts_with (c ∷ text)) values)) [
        | inl e ↦
            let missed = find_first-missed value (c ∷ text) values l e in
            let kept : replace_values values zero (c ∷ text) ≡ c ∷ replace_values values zero text =
              rw (e, replace_values) refl in
            let first : starts_with (c ∷ replace_values values zero text) value ≡ false =
              elim (Bool-cases (starts_with (c ∷ replace_values values zero text) value)) [
                | inl t ↦ cc (starts_with-replace_values value (c ∷ text) s (rw kept t), missed)
                | inr f ↦ f
              ] in
            rw (e, replace_values) (or_false _ _ first (replace_values-hides value zero text l n s))
        | inr (v, e) ↦
            rw (e, replace_values)
              (let rest = replace_values-hides value (length v - 1) text l n s in
                or_false _ _ (star-blocks value _ n s) (
                  or_false _ _ (star-blocks value _ n s) (
                    or_false _ _ (star-blocks value _ n s)
                      (or_false _ _ (star-blocks value _ n s) rest))))
      ]

has_value-add_value :
    (value x : Text) (seen : List Text)
    → has_value value (add_value x seen) ≡ (text_eq value x || has_value value seen)
has_value-add_value value x seen = elim (Bool-cases (any (text_eq x) seen)) [
  | inl t ↦ elim (Bool-cases (text_eq value x)) [
    | inl e ↦ ground (arith, t, text_eq→≡ value x e)
    | inr e ↦ ground (arith, t, e)
  ]
  | inr f ↦ rw f (ground (arith, any-append (text_eq value) seen (x ∷ [])))
]

has_value-added :
    (value x : Text) (seen : List Text) (later : Bool)
    → is_empty value ≡ false
    → (has_value value seen || (text_eq value x || later)) ≡ true
    → (has_value value (if is_empty x then seen else add_value x seen) || later) ≡ true
has_value-added value [] seen later n h = elim (Bool-cases (text_eq value [])) [
  | inl e ↦ cc (text_eq→≡ value [] e, n)
  | inr e ↦ ground (arith, e, h)
]
has_value-added value (c ∷ x) seen later n h =
    rw (has_value-add_value value (c ∷ x) seen) (ground (arith, h))

has_value-unique_values :
    (value : Text) (seen values : List Text)
    → is_empty value ≡ false
    → (has_value value seen || has_value value values) ≡ true
    → has_value value (unique_values seen values) ≡ true
unfolding unique_values
has_value-unique_values value seen [] n h = ground (arith, h)
has_value-unique_values value seen (x ∷ values) n h =
    has_value-unique_values value (if is_empty x then seen else add_value x seen) values n
      (has_value-added value x seen (has_value value values) n h)

has_value-insert_by_length :
    (value x : Text) (values : List Text)
    → has_value value (insert_by_length x values) ≡ (text_eq value x || has_value value values)
has_value-insert_by_length value x [] = refl
has_value-insert_by_length value x (y ∷ values) =
    ground (arith, has_value-insert_by_length value x values)

has_value-longest_first :
    (value : Text) (values : List Text)
    → has_value value (longest_first values) ≡ has_value value values
has_value-longest_first value [] = refl
has_value-longest_first value (x ∷ values) =
    has_value-insert_by_length value x (longest_first values)
    ∙ ap (λ b. text_eq value x || b) (has_value-longest_first value values)

has_value-empty :
    (value : Text) (values : List Text)
    → (length values == 0) ≡ true
    → has_value value values ≡ false
has_value-empty value [] e = refl
has_value-empty value (x ∷ values) e = ground arith

-- A nonempty masked value without stars does not occur in what the masker makes of any text.
pub create_exact_value_masker-hides :
    (masked_values : List Text) (text value : Text)
    → any (text_eq value) masked_values ≡ true
    → is_empty value ≡ false
    → any (λ c. c == star) value ≡ false
    → contains value (create_exact_value_masker masked_values text) ≡ false
unfolding create_exact_value_masker normalize_masked_values
create_exact_value_masker-hides masked_values text value l n s =
    let listed : has_value value (normalize_masked_values masked_values) ≡ true =
      has_value-longest_first value (unique_values [] masked_values)
      ∙ has_value-unique_values value [] masked_values n l in
    if_intro (λ t. contains value t ≡ false) (length (normalize_masked_values masked_values) == 0)
      (λ e. cc (has_value-empty value _ e, listed))
      (λ _. replace_values-hides (normalize_masked_values masked_values) value zero text listed n s)
