-- ===== src/Store/Keys.antt =====
-- Reading a table by its primary key.
use skytest_agent.Prelude.{ℕ, Bool, true, false, Option, some, List, ◌==◌, find_first, any}
use skytest_agent.Store.{TestRun, TestCase, Project, Runner, Capability, android, browser}

abbrev pub find_run : ℕ → List TestRun → Option TestRun
find_run id runs = find_first (λ r. r.id == id) runs

abbrev pub find_case : ℕ → List TestCase → Option TestCase
find_case id cases = find_first (λ c. c.id == id) cases

abbrev pub find_project : ℕ → List Project → Option Project
find_project id projects = find_first (λ p. p.id == id) projects

abbrev pub find_runner : ℕ → List Runner → Option Runner
find_runner id runners = find_first (λ r. r.id == id) runners

abbrev pub is_android : Option Capability → Bool
is_android (some android) = true
is_android _ = false

abbrev pub is_browser : Option Capability → Bool
is_browser (some browser) = true
is_browser _ = false

abbrev pub is_member : ℕ → List ℕ → Bool
is_member id ids = any (λ x. x == id) ids
