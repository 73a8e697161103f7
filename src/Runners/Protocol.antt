-- ===== src/Runners/Protocol.antt =====
-- apps/web/src/lib/runners/protocol.ts: which versions of a runner and of its protocol are accepted. The
-- versions of this side are constants of packages/runner-protocol/src/index.ts.
use skytest_agent.Prelude.{
  ℕ, Bool, true, false, not, ◌&&◌, ◌||◌, Option, none, some, List, [], ◌∷◌, Text, is_empty,
  if◌then◌else◌, ◌==◌, ltb, codes, every, trim, split_by, is_digit, read_digits,
}

pub record Version : Type 0 where
  pub major : ℕ
  pub minor : ℕ
  pub patch : ℕ

abbrev pub is_dot : ℕ → Bool
is_dot c = c == 46

-- `\d+`
abbrev pub is_numeral : Text → Bool
is_numeral text = not (is_empty text) && every is_digit text

-- `SEMVER_PATTERN`, on the parts between the dots.
abbrev pub version_of_parts : List Text → Option Version
version_of_parts (a ∷ b ∷ c ∷ []) =
    if is_numeral a && (is_numeral b && is_numeral c)
    then some (record { major = read_digits 0 a; minor = read_digits 0 b; patch = read_digits 0 c })
    else none
version_of_parts _ = none

unfoldable pub parse_semver : Text → Option Version
parse_semver version = version_of_parts (split_by is_dot (trim version))

pub data Order : Type 0 where
  less same greater : Order

abbrev pub compare_parts : (left right : ℕ) → Order → Order
compare_parts left right next =
    if ltb right left then greater else if ltb left right then less else next

abbrev pub compare_versions : Version → Version → Order
compare_versions left right =
    compare_parts left.major right.major
      (compare_parts left.minor right.minor (compare_parts left.patch right.patch same))

abbrev pub compare_parsed : Option Version → Option Version → Option Order
compare_parsed none right = none
compare_parsed (some left) none = none
compare_parsed (some left) (some right) = some (compare_versions left right)

unfoldable pub compare_semver : (left right : Text) → Option Order
unfolding parse_semver
compare_semver left right = compare_parsed (parse_semver left) (parse_semver right)

-- `RUNNER_PROTOCOL_CURRENT_VERSION` and `RUNNER_PROTOCOL_MINIMUM_VERSION`
abbrev pub protocol_version : Text
protocol_version = codes "1.0.0"

-- `RUNNER_MINIMUM_VERSION`
abbrev pub runner_minimum_version : Text
runner_minimum_version = codes "0.1.0"

abbrev pub is_null_or_less : Option Order → Bool
is_null_or_less none = true
is_null_or_less (some less) = true
is_null_or_less (some _) = false

abbrev pub is_null_or_greater : Option Order → Bool
is_null_or_greater none = true
is_null_or_greater (some greater) = true
is_null_or_greater (some _) = false

-- `upgradeRequired` of `evaluateRunnerCompatibility`.
unfoldable pub upgrade_required : (protocol_version runner_version : Text) → Bool
unfolding compare_semver
upgrade_required protocol runner =
    let unsupported_protocol =
      is_null_or_less (compare_semver protocol protocol_version)
      || is_null_or_greater (compare_semver protocol protocol_version) in
    let outdated_runner = is_null_or_less (compare_semver runner runner_minimum_version) in
    unsupported_protocol || outdated_runner
