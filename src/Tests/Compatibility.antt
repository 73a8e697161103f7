-- ===== src/Tests/Compatibility.antt =====
-- A runner of version 0.2.0, and one that is too old.
use skytest_agent.Prelude.{true, false, ◌≡◌, ◌≤◌, ◌↔◌, ◌⊎◌, refl, codes}
use skytest_agent.Runners.Protocol.{Version, upgrade_required, compare_semver, parse_semver}
use skytest_agent.Runners.Versions.{version_text, upgrade_required_iff}

abbrev spoken : Version
spoken = record { major = 1; minor = 0; patch = 0 }

abbrev installed : Version
installed = record { major = 0; minor = 2; patch = 0 }

upgrade_required_iff_example :
    (upgrade_required (version_text spoken) (version_text installed) ≡ false) ↔ (
      (spoken.major ≡ 1)
      × (spoken.minor ≡ 0)
      × (spoken.patch ≡ 0)
      × ((1 ≤ installed.major) ⊎ (1 ≤ installed.minor)))
upgrade_required_iff_example = upgrade_required_iff spoken installed

too_old : upgrade_required (codes "1.0.0") (codes "0.0.9") ≡ true
unfolding upgrade_required compare_semver parse_semver
too_old = refl

not_a_version : upgrade_required (codes "1.0") (codes "0.2.0") ≡ true
unfolding upgrade_required compare_semver parse_semver
not_a_version = refl
