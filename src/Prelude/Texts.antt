-- ===== src/Prelude/Texts.antt =====
-- Texts as code points.
use Prim.Native.Char.{code}
use Prim.Native.Nat.{ℕ, ◌+◌}
use Prim.Native.String.{String}
use mathlib.Core.Path.{◌≡◌, refl}
use mathlib.Core.Bool.{Bool, true, false, ◌&&◌}
use mathlib.Core.List.{[], ◌∷◌, ◌++◌}
use native.Mathlib.Omega.{arith}
use skytest_agent.Prelude.Tests.{Text, ltb, if◌then◌else◌, ◌==◌}

abbrev pub codes : String → Text
codes String.[] = []
codes (String.◌∷◌ c s) = code c ∷ codes s

-- `text.length`: a code point above 65535 takes two units of UTF-16.
abbrev pub utf16_length : Text → ℕ
utf16_length [] = 0
utf16_length (c ∷ text) = (if ltb 65535 c then 2 else 1) + utf16_length text

abbrev pub is_empty : Text → Bool
is_empty [] = true
is_empty (_ ∷ _) = false

-- `text.startsWith(prefix)`, `LIKE prefix%`
abbrev pub starts_with : Text → Text → Bool
starts_with text [] = true
starts_with [] (_ ∷ _) = false
starts_with (a ∷ text) (b ∷ prefix) = a == b && starts_with text prefix

pub starts_with-append : (prefix rest : Text) → starts_with (prefix ++ rest) prefix ≡ true
starts_with-append [] rest = refl
starts_with-append (a ∷ prefix) rest = ground (arith, starts_with-append prefix rest)

pub append-cancel : (prefix s t : Text) → prefix ++ s ≡ prefix ++ t → s ≡ t
append-cancel [] s t h = h
append-cancel (a ∷ prefix) s t h = append-cancel prefix s t (ground arith)

pub is_empty-append : (s t : Text) → is_empty s ≡ false → is_empty (s ++ t) ≡ false
is_empty-append [] t h = ground arith
is_empty-append (a ∷ s) t h = refl
