-- ===== src/Tests/Permissions.antt =====
-- A member of the team of a run's project.
use skytest_agent.Prelude.{true, ◌≡◌, ◌↔◌, some, [], ◌∷◌, refl, arith}
use skytest_agent.Status.{queued}
use skytest_agent.Store.{TestCase}
use skytest_agent.Access.{
  Directory, owner, member, is_test_run_project_member, is_test_case_project_member,
  is_project_member, get_project_access, get_project_route_access, access_ok, forbidden,
  can_delete_project,
}
use skytest_agent.Access.Members.{is_test_run_project_member-agrees}
use skytest_agent.Tests.Data.{rows, passed}

abbrev directory : Directory
directory = record {
  memberships =
      record { team_id = 1; user_id = some 8; role = member }
      ∷ record { team_id = 2; user_id = some 9; role = owner }
      ∷ [];
  projects = rows.projects;
  cases = rows.cases;
  runs = rows.runs;
}

abbrev case_5 : TestCase
case_5 = record { id = 5; project_id = 1; status = queued }

is_test_run_project_member-agrees_example :
    (is_test_run_project_member directory 8 1 ≡ is_test_case_project_member directory 8 5)
    × (is_test_case_project_member directory 8 5 ≡ is_project_member directory 8 1)
    × (is_project_member directory 8 1 ≡ (get_project_access directory 8 1).is_member)
    × ((get_project_route_access directory 8 1 ≡ access_ok)
        ↔ (is_project_member directory 8 1 ≡ true))
    × (can_delete_project directory 8 1 ≡ true → is_project_member directory 8 1 ≡ true)
is_test_run_project_member-agrees_example =
    is_test_run_project_member-agrees directory 8 passed case_5 (λ id. ground arith)
      (λ id. ground arith) (λ id. ground arith) refl refl refl

one_member : is_project_member directory 8 1 ≡ true
unfolding is_project_member
one_member = refl

other_team : get_project_route_access directory 9 1 ≡ forbidden
unfolding get_project_route_access is_project_member
other_team = refl
