-- ===== src/Access.antt =====
-- apps/web/src/lib/security/permissions.ts and project-route-access.ts: who may see a project and what
-- belongs to it, and who may delete. `!!findFirst(...)` is whether a row fits.
pub mod Members
use skytest_agent.Prelude.{
  ℕ, Bool, true, false, not, ◌&&◌, Option, none, some, List, if◌then◌else◌, ◌==◌, holds, is_null,
  any, find_first,
}
use skytest_agent.Store.{Project, TestCase, TestRun}
use skytest_agent.Store.Keys.{find_project}

pub data TeamRole : Type 0 where
  owner member : TeamRole

pub record TeamMembership : Type 0 where
  pub team_id : ℕ
  pub user_id : Option ℕ
  pub role : TeamRole

pub record TeamCapabilities : Type 0 where
  pub can_delete_projects : Bool
  pub can_delete_team : Bool
  pub can_transfer_ownership : Bool

pub record TeamAccess : Type 0 where
  pub team_id : Option ℕ
  pub role : Option TeamRole
  pub is_member : Bool
  pub capabilities : TeamCapabilities

-- The tables that the checks read.
pub record Directory : Type 0 where
  pub memberships : List TeamMembership
  pub projects : List Project
  pub cases : List TestCase
  pub runs : List TestRun

abbrev pub default_capabilities : TeamCapabilities
default_capabilities = record {
  can_delete_projects = false;
  can_delete_team = false;
  can_transfer_ownership = false;
}

abbrev pub team_role_capabilities : TeamRole → TeamCapabilities
team_role_capabilities owner = record {
  can_delete_projects = true;
  can_delete_team = true;
  can_transfer_ownership = true;
}
team_role_capabilities member = default_capabilities

abbrev pub is_membership_of : (user_id team_id : ℕ) → TeamMembership → Bool
is_membership_of user_id team_id m = m.team_id == team_id && holds m.user_id user_id

unfoldable pub get_team_role : Directory → (user_id team_id : ℕ) → Option TeamRole
get_team_role db user_id team_id =
    elim (find_first (is_membership_of user_id team_id) db.memberships) [
      | none ↦ none
      | some m ↦ some m.role
    ]

abbrev pub capabilities_of : Option TeamRole → TeamCapabilities
capabilities_of none = default_capabilities
capabilities_of (some role) = team_role_capabilities role

unfoldable pub get_team_access : Directory → (user_id team_id : ℕ) → TeamAccess
unfolding get_team_role
get_team_access db user_id team_id =
    let role = get_team_role db user_id team_id in
    record {
      team_id = some team_id;
      role = role;
      is_member = not (is_null role);
      capabilities = capabilities_of role;
    }

unfoldable pub get_project_access : Directory → (user_id project_id : ℕ) → TeamAccess
unfolding get_team_access
get_project_access db user_id project_id = elim (find_project project_id db.projects) [
  | none ↦ record {
    team_id = none;
    role = none;
    is_member = false;
    capabilities = default_capabilities;
  }
  | some project ↦ get_team_access db user_id project.team_id
]

-- `team: { memberships: { some: { userId } } }`
abbrev pub has_member : Directory → (user_id team_id : ℕ) → Bool
has_member db user_id team_id = any (is_membership_of user_id team_id) db.memberships

unfoldable pub is_project_member : Directory → (user_id project_id : ℕ) → Bool
is_project_member db user_id project_id =
    any (λ (p : Project). p.id == project_id && has_member db user_id p.team_id) db.projects

-- The relation filters of a row's project, which is there as the column refers to it.
abbrev pub in_member_project : Directory → (user_id project_id : ℕ) → Bool
in_member_project db user_id project_id = elim (find_project project_id db.projects) [
  | none ↦ false
  | some project ↦ has_member db user_id project.team_id
]

unfoldable pub is_test_case_project_member : Directory → (user_id test_case_id : ℕ) → Bool
is_test_case_project_member db user_id test_case_id =
    any (λ (c : TestCase). c.id == test_case_id && in_member_project db user_id c.project_id)
      db.cases

abbrev pub in_member_case : Directory → (user_id test_case_id : ℕ) → Bool
in_member_case db user_id test_case_id =
    elim (find_first (λ (c : TestCase). c.id == test_case_id) db.cases) [
      | none ↦ false
      | some test_case ↦ in_member_project db user_id test_case.project_id
    ]

unfoldable pub is_test_run_project_member : Directory → (user_id test_run_id : ℕ) → Bool
is_test_run_project_member db user_id test_run_id =
    any
      (λ (r : TestRun).
        r.id == test_run_id && (is_null r.deleted_at && in_member_case db user_id r.test_case_id))
      db.runs

unfoldable pub can_delete_project : Directory → (user_id project_id : ℕ) → Bool
unfolding get_project_access
can_delete_project db user_id project_id =
    let access = get_project_access db user_id project_id in
    let capabilities = access.capabilities in capabilities.can_delete_projects

pub data ProjectRouteAccessResult : Type 0 where
  access_ok project_not_found forbidden : ProjectRouteAccessResult

unfoldable pub get_project_route_access :
    Directory → (user_id project_id : ℕ) → ProjectRouteAccessResult
unfolding is_project_member
get_project_route_access db user_id project_id = elim (find_project project_id db.projects) [
  | none ↦ project_not_found
  | some project ↦ if is_project_member db user_id project_id then access_ok else forbidden
]

unfoldable pub is_team_member : Directory → (user_id team_id : ℕ) → Bool
unfolding get_team_access
is_team_member db user_id team_id = (get_team_access db user_id team_id).is_member

abbrev pub is_owner_role : Option TeamRole → Bool
is_owner_role (some owner) = true
is_owner_role _ = false

unfoldable pub is_team_owner : Directory → (user_id team_id : ℕ) → Bool
unfolding get_team_role
is_team_owner db user_id team_id = is_owner_role (get_team_role db user_id team_id)

unfoldable pub can_delete_team : Directory → (user_id team_id : ℕ) → Bool
unfolding get_team_access
can_delete_team db user_id team_id =
    let capabilities = (get_team_access db user_id team_id).capabilities in
    capabilities.can_delete_team

unfoldable pub can_transfer_team_ownership : Directory → (user_id team_id : ℕ) → Bool
unfolding get_team_access
can_transfer_team_ownership db user_id team_id =
    let capabilities = (get_team_access db user_id team_id).capabilities in
    capabilities.can_transfer_ownership

-- The user of a request, or the status of the refusal.
pub data ProjectRouteGuardResult : Type 0 where
  granted : (user_id : ℕ) → ProjectRouteGuardResult
  denied : (status : ℕ) → ProjectRouteGuardResult

abbrev pub guard_access : (user_id : ℕ) → ProjectRouteAccessResult → ProjectRouteGuardResult
guard_access user_id access_ok = granted user_id
guard_access user_id project_not_found = denied 404
guard_access user_id forbidden = denied 403

-- `payload` is what `verifyAuth` finds in the request, and `resolve_user_id` finds its user.
unfoldable pub guard_project_route_request :
    Directory
    → (resolve_user_id : ℕ → Option ℕ) (payload : Option ℕ) (project_id : ℕ)
    → ProjectRouteGuardResult
unfolding get_project_route_access
guard_project_route_request db resolve_user_id none project_id = denied 401
guard_project_route_request db resolve_user_id (some payload) project_id =
    elim (resolve_user_id payload) [
      | none ↦ denied 401
      | some user_id ↦ guard_access user_id (get_project_route_access db user_id project_id)
    ]
