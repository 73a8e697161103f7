-- ===== src/Prelude/Words.antt =====
-- Texts cut at separators (`split`, `trim`) and put together (`join`).
use Prim.Native.Nat.{ℕ}
use mathlib.Core.Path.{◌≡◌, refl}
use mathlib.Core.Bool.{Bool, true, false, not, ◌&&◌, ◌||◌}
use mathlib.Core.List.{List, [], ◌∷◌, ◌++◌}
use native.Mathlib.Omega.{arith}
use skytest_agent.Prelude.Tests.{Text, ◌==◌, leb, if◌then◌else◌}
use skytest_agent.Prelude.Lists.{any, select}
use skytest_agent.Prelude.Texts.{is_empty}

abbrev pub comma : ℕ
comma = 44

-- `\s`, and what `trim` takes off.
abbrev pub is_space : ℕ → Bool
is_space c =
    (leb 9 c && leb c 13)
    || (any (λ x. c == x) (32 ∷ 160 ∷ 5760 ∷ 8232 ∷ 8233 ∷ 8239 ∷ 8287 ∷ 12288 ∷ 65279 ∷ [])
        || (leb 8192 c && leb c 8202))

abbrev pub is_comma : ℕ → Bool
is_comma c = c == comma

abbrev pub trim_start : Text → Text
trim_start [] = []
trim_start (c ∷ text) = let rest = trim_start text in if is_space c then rest else c ∷ text

abbrev pub trim_end : Text → Text
trim_end [] = []
trim_end (c ∷ text) =
    let rest = trim_end text in if is_space c && is_empty rest then [] else c ∷ rest

abbrev pub trim : Text → Text
trim text = trim_end (trim_start text)

abbrev pub push : ℕ → List Text → List Text
push c [] = (c ∷ []) ∷ []
push c (part ∷ parts) = (c ∷ part) ∷ parts

-- `split` at each separator.
abbrev pub split_by : (ℕ → Bool) → Text → List Text
split_by p [] = [] ∷ []
split_by p (c ∷ text) = let parts = split_by p text in if p c then [] ∷ parts else push c parts

abbrev pub or_empty : List Text → List Text
or_empty [] = [] ∷ []
or_empty (part ∷ parts) = part ∷ parts

-- `trim().split(/\s+/)`: the words, or one empty text if there is none.
abbrev pub split_words : Text → List Text
split_words text = or_empty (select (λ part. not (is_empty part)) (split_by is_space text))

-- `parts.join(separator)`
abbrev pub join : ℕ → List Text → Text
join separator [] = []
join separator (part ∷ []) = part
join separator (part ∷ next ∷ parts) = part ++ separator ∷ join separator (next ∷ parts)

module _ (p : ℕ → Bool) where
  pub split_by-append :
      (part rest : Text) (separator : ℕ)
      → any p part ≡ false
      → p separator ≡ true
      → split_by p (part ++ separator ∷ rest) ≡ part ∷ split_by p rest
  split_by-append [] rest separator n s = rw s refl
  split_by-append (c ∷ part) rest separator n s =
      ground (arith, split_by-append part rest separator)

  pub split_by-single : (part : Text) → any p part ≡ false → split_by p part ≡ part ∷ []
  split_by-single [] n = refl
  split_by-single (c ∷ part) n = ground (arith, split_by-single part)
