-- ===== src/Prelude/Numerals.antt =====
-- Decimal numerals: `String(n)` and `Number.parseInt(text, 10)`.
use Prim.Native.Nat.{ℕ, zero, suc, ◌+◌, ◌-◌, ◌*◌, ◌/◌, ◌%◌, ◌≤◌, ◌<◌}
use mathlib.Core.Path.{◌≡◌, refl, sym, ap, ◌∙◌}
use mathlib.Core.Logic.{inl, inr}
use mathlib.Core.Bool.{Bool, true, false, ◌&&◌}
use mathlib.Core.Option.{Option, none, some}
use mathlib.Core.List.{[], ◌∷◌, ◌++◌}
use native.Mathlib.Omega.{arith}
use skytest_agent.Prelude.Tests.{Text, ◌==◌, leb, ltb, ltb→lt, if◌then◌else◌, Bool-cases}
use skytest_agent.Prelude.Lists.{any, any-append, append_nil}
use skytest_agent.Prelude.Words.{trim_start, is_space}
use skytest_agent.Prelude.Texts.{is_empty}

-- A whole number of JavaScript.
pub data SignedNumber : Type 0 where
  whole minus : (magnitude : ℕ) → SignedNumber

abbrev pub is_digit : ℕ → Bool
is_digit c = leb 48 c && leb c 57

abbrev digits_from : (fuel n : ℕ) → Text
digits_from zero n = []
digits_from (suc fuel) n =
    let earlier = digits_from fuel (n / 10) in
    if ltb n 10 then (48 + n) ∷ [] else earlier ++ (48 + n % 10) ∷ []

-- `String(n)`: no number has more digits than its successor.
abbrev pub decimal : ℕ → Text
decimal n = digits_from (suc n) n

-- `String(n)`
abbrev pub to_text : SignedNumber → Text
to_text (whole n) = decimal n
to_text (minus n) = if n == 0 then decimal 0 else 45 ∷ decimal n

abbrev pub read_digits : (value : ℕ) → Text → ℕ
read_digits value [] = value
read_digits value (c ∷ text) =
    let more = read_digits (value * 10 + (c - 48)) text in if is_digit c then more else value

abbrev read_number : (ℕ → SignedNumber) → Text → Option SignedNumber
read_number sign [] = none
read_number sign (c ∷ text) = if is_digit c then some (sign (read_digits 0 (c ∷ text))) else none

abbrev read_signed : Text → Option SignedNumber
read_signed [] = none
read_signed (c ∷ text) =
    if c == 45
    then read_number minus text
    else if c == 43
    then read_number whole text
    else read_number whole (c ∷ text)

-- `Number.parseInt(text, 10)`, none where it is NaN.
abbrev pub parse_int : Text → Option SignedNumber
parse_int text = read_signed (trim_start text)

append_one : (xs : Text) (d : ℕ) (rest : Text) → (xs ++ d ∷ []) ++ rest ≡ xs ++ d ∷ rest
append_one [] d rest = refl
append_one (x ∷ xs) d rest = ap (λ ys. x ∷ ys) (append_one xs d rest)

tenth-less : (n fuel : ℕ) → n < suc fuel → 10 ≤ n → n / 10 < fuel
tenth-less n fuel h k = omega arith

tens : (n : ℕ) → n / 10 * 10 + n % 10 ≡ n
tens n = omega arith

read_digits-figure :
    (value d : ℕ) (rest : Text)
    → d < 10
    → read_digits value ((48 + d) ∷ rest) ≡ read_digits (value * 10 + d) rest
read_digits-figure value d rest h =
    let same : value * 10 + (48 + d - 48) ≡ value * 10 + d = omega arith in
    let digit : is_digit (48 + d) ≡ true = ground arith in
    rw digit (ap (λ k. read_digits k rest) same)

read_digits-digits_from :
    (fuel n : ℕ) (rest : Text)
    → n < fuel
    → read_digits 0 (digits_from fuel n ++ rest) ≡ read_digits n rest
read_digits-digits_from zero n rest h = elim h [ ]
read_digits-digits_from (suc fuel) n rest h = elim (Bool-cases (ltb n 10)) [
  | inl e ↦
      rw e
        (read_digits-figure 0 n rest (ltb→lt n 10 e) ∙ ap (λ k. read_digits k rest) (omega arith))
  | inr e ↦ rw e (
      ap (λ text. read_digits 0 text) (append_one (digits_from fuel (n / 10)) (48 + n % 10) rest)
      ∙ read_digits-digits_from fuel (n / 10) ((48 + n % 10) ∷ rest)
          (tenth-less n fuel h (ground (arith, e)))
      ∙ read_digits-figure (n / 10) (n % 10) rest (omega arith)
      ∙ ap (λ k. read_digits k rest) (tens n))
]

-- Every figure of a numeral is a digit.
pub decimal-digits :
    (p : ℕ → Bool) → ((c : ℕ) → 48 ≤ c → c ≤ 57 → p c ≡ false) → (n : ℕ) → any p (decimal n) ≡ false
decimal-digits p h n = go (suc n) n
  where
    go : (fuel k : ℕ) → any p (digits_from fuel k) ≡ false
    go zero k = refl
    go (suc fuel) k = elim (Bool-cases (ltb k 10)) [
      | inl e ↦ rw e (ground (arith, h (48 + k) (omega arith) (omega (arith, ltb→lt k 10 e))))
      | inr e ↦ rw e (
          any-append p (digits_from fuel (k / 10)) ((48 + k % 10) ∷ [])
          ∙ ground (arith, go fuel (k / 10), h (48 + k % 10) (omega arith) (omega arith)))
    ]

pub digit-not_space : (c : ℕ) → 48 ≤ c → c ≤ 57 → is_space c ≡ false
digit-not_space c h k = ground arith

-- A numeral begins with a digit.
abbrev starts_digit : Text → Bool
starts_digit [] = false
starts_digit (c ∷ text) = is_digit c

starts_digit-append : (xs ys : Text) → starts_digit xs ≡ true → starts_digit (xs ++ ys) ≡ true
starts_digit-append [] ys h = ground arith
starts_digit-append (x ∷ xs) ys h = h

starts_digit-digits_from : (fuel n : ℕ) → n < fuel → starts_digit (digits_from fuel n) ≡ true
starts_digit-digits_from zero n h = elim h [ ]
starts_digit-digits_from (suc fuel) n h = elim (Bool-cases (ltb n 10)) [
  | inl e ↦ rw e (ground (arith, ltb→lt n 10 e))
  | inr e ↦ rw e (
      starts_digit-append (digits_from fuel (n / 10)) ((48 + n % 10) ∷ [])
        (starts_digit-digits_from fuel (n / 10) (tenth-less n fuel h (ground (arith, e)))))
]

parse_int-digits :
    (text : Text) → starts_digit text ≡ true → parse_int text ≡ some (whole (read_digits 0 text))
parse_int-digits [] h = ground arith
parse_int-digits (c ∷ text) h =
    let digit : is_digit c ≡ true = h in
    let low : 48 ≤ c = ground (arith, digit) in
    let high : c ≤ 57 = ground (arith, digit) in
    let not_minus : (c == 45) ≡ false = ground arith in
    let not_plus : (c == 43) ≡ false = ground arith in
    rw (digit-not_space c low high, not_minus, not_plus, digit) refl

starts_digit-not_empty : (text : Text) → starts_digit text ≡ true → is_empty text ≡ false
starts_digit-not_empty [] h = ground arith
starts_digit-not_empty (c ∷ text) h = refl

pub read_digits-decimal : (n : ℕ) → read_digits 0 (decimal n) ≡ n
read_digits-decimal n =
    ap (λ text. read_digits 0 text) (sym (append_nil (decimal n)))
    ∙ read_digits-digits_from (suc n) n [] (omega arith)

pub parse_int-decimal : (n : ℕ) → parse_int (decimal n) ≡ some (whole n)
parse_int-decimal n =
    parse_int-digits (decimal n) (starts_digit-digits_from (suc n) n (omega arith))
    ∙ ap (λ k. some (whole k))
        (ap (λ text. read_digits 0 text) (sym (append_nil (decimal n)))
          ∙ read_digits-digits_from (suc n) n [] (omega arith))

pub decimal-not_empty : (n : ℕ) → is_empty (decimal n) ≡ false
decimal-not_empty n =
    ground
      (arith, starts_digit-not_empty (decimal n) (starts_digit-digits_from (suc n) n (omega arith)))

digits_from-small : (fuel n : ℕ) → n < fuel → n < 10 → digits_from fuel n ≡ (48 + n) ∷ []
digits_from-small zero n h k = elim h [ ]
digits_from-small (suc fuel) n h k = ground arith

pub decimal-small : (n : ℕ) → n < 10 → decimal n ≡ (48 + n) ∷ []
decimal-small n h = digits_from-small (suc n) n (omega arith) h

pub decimal-large : (n : ℕ) → 10 ≤ n → n < 100 → decimal n ≡ (48 + n / 10) ∷ (48 + n % 10) ∷ []
decimal-large n h k =
    let large : ltb n 10 ≡ false = ground arith in
    rw large (
      ap (λ text. text ++ (48 + n % 10) ∷ [])
        (digits_from-small n (n / 10) (omega arith) (omega arith)))
