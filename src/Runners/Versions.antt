-- ===== src/Runners/Versions.antt =====
-- The versions that a runner may have.
use skytest_agent.Prelude.{
  ℕ, ◌≤◌, ◌≡◌, refl, ap, ◌∙◌, ◌↔◌, ◌⊎◌, inl, inr, true, false, not, ◌&&◌, ◌||◌, Option, some, [],
  ◌∷◌, ◌++◌, Text, ◌==◌, ltb, every, any, any-append, trim, trim_start, trim_end, is_space,
  split_by, split_by-append, split_by-single, is_digit, read_digits, decimal, decimal-digits,
  digit-not_space, decimal-not_empty, read_digits-decimal, arith, Bool-cases,
}
use skytest_agent.Runners.Protocol.{
  Version, is_dot, is_numeral, version_of_parts, parse_semver, compare_versions, compare_parsed,
  compare_semver, protocol_version, runner_minimum_version, is_null_or_less, is_null_or_greater,
  upgrade_required,
}

-- A version as it is written.
abbrev pub version_text : Version → Text
version_text v = decimal v.major ++ 46 ∷ (decimal v.minor ++ 46 ∷ decimal v.patch)

trim_start-kept : (text : Text) → any is_space text ≡ false → trim_start text ≡ text
trim_start-kept [] h = refl
trim_start-kept (c ∷ text) h = ground (arith, h)

trim_end-kept : (text : Text) → any is_space text ≡ false → trim_end text ≡ text
trim_end-kept [] h = refl
trim_end-kept (c ∷ text) h = ground (arith, h, trim_end-kept text)

every_digit : (text : Text) → any (λ c. not (is_digit c)) text ≡ false → every is_digit text ≡ true
every_digit [] h = refl
every_digit (c ∷ text) h = ground (arith, h, every_digit text)

decimal-numeral : (n : ℕ) → is_numeral (decimal n) ≡ true
decimal-numeral n = ground (
  arith,
  decimal-not_empty n,
  every_digit (decimal n) (decimal-digits (λ c. not (is_digit c)) (λ c h k. ground arith) n),
)

decimal-no_dot : (n : ℕ) → any is_dot (decimal n) ≡ false
decimal-no_dot n = decimal-digits is_dot (λ c h k. ground arith) n

decimal-no_space : (n : ℕ) → any is_space (decimal n) ≡ false
decimal-no_space n = decimal-digits is_space digit-not_space n

version_text-no_space : (v : Version) → any is_space (version_text v) ≡ false
version_text-no_space v =
    any-append is_space (decimal v.major) (46 ∷ (decimal v.minor ++ 46 ∷ decimal v.patch))
    ∙ ground (
      arith,
      decimal-no_space v.major,
      decimal-no_space v.minor,
      decimal-no_space v.patch,
      any-append is_space (decimal v.minor) (46 ∷ decimal v.patch),
    )

parts_of_version :
    (v : Version)
    → split_by is_dot (trim (version_text v))
      ≡ decimal v.major ∷ decimal v.minor ∷ decimal v.patch ∷ []
parts_of_version v =
    let no_space = version_text-no_space v in
    let trimmed : trim (version_text v) ≡ version_text v =
      ap trim_end (trim_start-kept (version_text v) no_space)
      ∙ trim_end-kept (version_text v) no_space in
    ap (λ text. split_by is_dot text) trimmed
    ∙ split_by-append is_dot (decimal v.major) (decimal v.minor ++ 46 ∷ decimal v.patch) 46
        (decimal-no_dot v.major) refl
    ∙ ap (λ parts. decimal v.major ∷ parts)
        (split_by-append is_dot (decimal v.minor) (decimal v.patch) 46 (decimal-no_dot v.minor) refl
          ∙ ap (λ parts. decimal v.minor ∷ parts)
              (split_by-single is_dot (decimal v.patch) (decimal-no_dot v.patch)))

three_numbers :
    {a b c : ℕ} (v : Version)
    → a ≡ v.major
    → b ≡ v.minor
    → c ≡ v.patch
    → Path (Option Version) (some (record { major = a; minor = b; patch = c })) (some v)
three_numbers v h k l = rw (h, k, l) refl

version-read :
    (a b c : Text)
    → is_numeral a ≡ true
    → is_numeral b ≡ true
    → is_numeral c ≡ true
    → version_of_parts (a ∷ b ∷ c ∷ [])
      ≡ some (record { major = read_digits 0 a; minor = read_digits 0 b; patch = read_digits 0 c })
version-read a b c h k l = ground (arith, h, k, l)

parse_semver-version_text : (v : Version) → parse_semver (version_text v) ≡ some v
unfolding parse_semver
parse_semver-version_text v =
    ap version_of_parts (parts_of_version v)
    ∙ version-read (decimal v.major) (decimal v.minor) (decimal v.patch) (decimal-numeral v.major)
        (decimal-numeral v.minor) (decimal-numeral v.patch)
    ∙ three_numbers v (read_digits-decimal v.major) (read_digits-decimal v.minor)
        (read_digits-decimal v.patch)

abbrev one_zero_zero : Version
one_zero_zero = record { major = 1; minor = 0; patch = 0 }

abbrev zero_one_zero : Version
zero_one_zero = record { major = 0; minor = 1; patch = 0 }

compare-protocol :
    (v : Version)
    → compare_semver (version_text v) protocol_version ≡ some (compare_versions v one_zero_zero)
unfolding compare_semver parse_semver
compare-protocol v =
    ap (λ o. compare_parsed o (parse_semver protocol_version)) (parse_semver-version_text v)

compare-runner :
    (v : Version)
    → compare_semver (version_text v) runner_minimum_version
      ≡ some (compare_versions v zero_one_zero)
unfolding compare_semver parse_semver
compare-runner v =
    ap (λ o. compare_parsed o (parse_semver runner_minimum_version)) (parse_semver-version_text v)

only_version :
    (v : Version)
    → (is_null_or_less (some (compare_versions v one_zero_zero))
        || is_null_or_greater (some (compare_versions v one_zero_zero)))
      ≡ not (v.major == 1 && (v.minor == 0 && v.patch == 0))
only_version v = ground arith

least_version :
    (v : Version)
    → is_null_or_less (some (compare_versions v zero_one_zero))
      ≡ not (ltb 0 v.major || ltb 0 v.minor)
least_version v = ground arith

accepted :
    (a b c m n : ℕ)
    → ((not (a == 1 && (b == 0 && c == 0)) || not (ltb 0 m || ltb 0 n)) ≡ false)
      ↔ ((a ≡ 1) × (b ≡ 0) × (c ≡ 0) × ((1 ≤ m) ⊎ (1 ≤ n)))
accepted a b c m n = (
  (λ h.
      let facts : (a ≡ 1) × (b ≡ 0) × (c ≡ 0) = ground (arith, h) in
      (
        facts.0,
        facts.1,
        facts.2,
        elim (Bool-cases (ltb 0 m)) [
          | inl e ↦ inl (ground (arith, e))
          | inr e ↦ inr (ground (arith, h, e))
        ],
      )),
  (λ (p, q, r, s). elim s [
    | inl k ↦ ground (arith, p, q, r, k)
    | inr k ↦ ground (arith, p, q, r, k)
  ]),
)

-- Of a protocol and a runner whose versions are written as three numbers no upgrade is asked exactly
-- where the protocol is 1.0.0 and the runner is at least 0.1.0.
pub upgrade_required_iff :
    (protocol runner : Version)
    → (upgrade_required (version_text protocol) (version_text runner) ≡ false) ↔ (
        (protocol.major ≡ 1)
        × (protocol.minor ≡ 0)
        × (protocol.patch ≡ 0)
        × ((1 ≤ runner.major) ⊎ (1 ≤ runner.minor)))
unfolding upgrade_required
upgrade_required_iff protocol runner =
    rw
      (
        compare-protocol protocol,
        compare-runner runner,
        only_version protocol,
        least_version runner,
      )
      (accepted protocol.major protocol.minor protocol.patch runner.major runner.minor)
