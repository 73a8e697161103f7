-- ===== src/Access/Members.antt =====
-- The checks of membership agree.
use skytest_agent.Prelude.{
  ℕ, ◌≤◌, ◌≡◌, ◌↔◌, refl, ap, sym, ◌∙◌, Bool, true, false, not, ◌&&◌, Option, none, some, List, [],
  ◌∷◌, ◌==◌, is_null, any, find_first, count_where, find_first-zero, arith, Bool-cases,
  Option-cases, inl, inr,
}
use mathlib.Core.Option.{some-injective}
use skytest_agent.Store.{Project, TestCase, TestRun}
use skytest_agent.Store.Keys.{find_project}
use skytest_agent.Access.{
  Directory, TeamRole, TeamMembership, is_membership_of, get_team_role, capabilities_of, has_member,
  get_team_access, get_project_access, is_project_member, can_delete_project, access_ok,
  get_project_route_access, is_test_case_project_member, in_member_project,
  is_test_run_project_member, in_member_case,
}

module _ {ℓ} {A : Type ℓ} (q f : A → Bool) where
  any-none : (xs : List A) → find_first q xs ≡ none → any (λ x. q x && f x) xs ≡ false
  any-none [] h = refl
  any-none (x ∷ xs) h = ground (arith, any-none xs)

  any-one_none : (xs : List A) → count_where q xs ≡ 0 → any (λ x. q x && f x) xs ≡ false
  any-one_none xs h = any-none xs (find_first-zero q xs h)

  -- Of the rows with a key that is unique a filter takes that row or none.
  any-key :
      (xs : List A) (r : A)
      → find_first q xs ≡ some r
      → count_where q xs ≤ 1
      → any (λ x. q x && f x) xs ≡ f r
  any-key [] r h n = ground arith
  any-key (x ∷ xs) r h n = elim (Bool-cases (q x)) [
    | inl t ↦
        let same : x ≡ r = some-injective _ _ (rw t at h) in
        let later = any-one_none xs (ground (arith, t, n)) in rw (t, later, same) (ground arith)
    | inr e ↦ rw e (any-key xs r (rw e at h) (ground (arith, e, n)))
  ]

find_first-any_iff :
    (p : TeamMembership → Bool) (xs : List TeamMembership)
    → not (
        is_null
          (elim (find_first p xs) as (λ _. Option TeamRole) [ none ↦ none | some m ↦ some m.role ]))
      ≡ any p xs
find_first-any_iff p [] = refl
find_first-any_iff p (x ∷ xs) = ground (arith, find_first-any_iff p xs)

module _ (db : Directory) (user_id : ℕ) where
  is_member-has_member :
      (team_id : ℕ)
      → not (is_null (get_team_role db user_id team_id)) ≡ has_member db user_id team_id
  unfolding get_team_role
  is_member-has_member team_id =
      find_first-any_iff (is_membership_of user_id team_id) db.memberships

  -- No two projects have the same identifier.
  abbrev pub HasUniqueProjects : Type 0
  HasUniqueProjects = (id : ℕ) → count_where (λ (p : Project). p.id == id) db.projects ≤ 1

  is_project_member-in_member_project :
      (project_id : ℕ)
      → HasUniqueProjects
      → is_project_member db user_id project_id ≡ in_member_project db user_id project_id
  unfolding is_project_member
  is_project_member-in_member_project project_id unique =
      elim (Option-cases (find_project project_id db.projects)) [
        | inl e ↦
            rw (e, in_member_project)
              (any-none (λ (p : Project). p.id == project_id) (λ p. has_member db user_id p.team_id)
                db.projects e)
        | inr (project, e) ↦
            rw (e, in_member_project)
              (any-key (λ (p : Project). p.id == project_id) (λ p. has_member db user_id p.team_id)
                db.projects project e (unique project_id))
      ]

  in_member_project-access :
      (project_id : ℕ)
      → in_member_project db user_id project_id
        ≡ (get_project_access db user_id project_id).is_member
  unfolding get_project_access get_team_access
  in_member_project-access project_id = elim (Option-cases (find_project project_id db.projects)) [
    | inl e ↦ rw (e, get_project_access, in_member_project) refl
    | inr (project, e) ↦
        rw (e, get_project_access, in_member_project) (sym (is_member-has_member project.team_id))
  ]

  capabilities-member :
      (role : Option TeamRole)
      → (capabilities_of role).can_delete_projects ≡ true
      → is_null role ≡ false
  capabilities-member none h = ground arith
  capabilities-member (some role) h = refl

  can_delete_project-member :
      (project_id : ℕ)
      → can_delete_project db user_id project_id ≡ true
      → (get_project_access db user_id project_id).is_member ≡ true
  unfolding can_delete_project get_project_access get_team_access
  can_delete_project-member project_id h =
      elim (Option-cases (find_project project_id db.projects)) [
        | inl e ↦
            let absurd = rw (e, can_delete_project, get_project_access) at h in
            ground (arith, absurd)
        | inr (project, e) ↦
            let deletes = rw (e, can_delete_project, get_project_access) at h in
            rw (e, get_project_access)
              (ap not (capabilities-member (get_team_role db user_id project.team_id) deletes))
      ]

  route-member :
      (project_id : ℕ)
      → HasUniqueProjects
      → (get_project_route_access db user_id project_id ≡ access_ok)
        ↔ (is_project_member db user_id project_id ≡ true)
  unfolding get_project_route_access
  route-member project_id unique = elim (Option-cases (find_project project_id db.projects)) [
    | inl e ↦
        let nobody : is_project_member db user_id project_id ≡ false =
          is_project_member-in_member_project project_id unique ∙ rw (e, in_member_project) refl in
        ((λ h. let absurd = rw (e, get_project_route_access) at h in cc), (λ h. cc (h, nobody)))
    | inr (project, e) ↦ elim (Bool-cases (is_project_member db user_id project_id)) [
      | inl t ↦ ((λ h. t), (λ h. rw (e, get_project_route_access) (rw t refl)))
      | inr f ↦ (
        (λ h.
            let absurd = rw (e, get_project_route_access) at h in let more = rw f at absurd in cc),
        (λ h. cc (h, f)),
      )
    ]
  ]

  -- Where the identifiers of projects, test cases and runs are unique, and a run that is not deleted and
  -- its test case are in their tables: the checks of the run, of the test case and of the project give
  -- the same answer, which is the membership that the access of the project states; the project's
  -- routes are open exactly to those members, and whoever may delete the project is one.
  pub is_test_run_project_member-agrees :
      (run : TestRun) (test_case : TestCase)
      → HasUniqueProjects
      → ((id : ℕ) → count_where (λ (c : TestCase). c.id == id) db.cases ≤ 1)
      → ((id : ℕ) → count_where (λ (r : TestRun). r.id == id) db.runs ≤ 1)
      → find_first (λ (r : TestRun). r.id == run.id) db.runs ≡ some run
      → run.deleted_at ≡ none
      → find_first (λ (c : TestCase). c.id == run.test_case_id) db.cases ≡ some test_case
      → (is_test_run_project_member db user_id run.id
          ≡ is_test_case_project_member db user_id run.test_case_id)
        × (is_test_case_project_member db user_id run.test_case_id
            ≡ is_project_member db user_id test_case.project_id)
        × (is_project_member db user_id test_case.project_id
            ≡ (get_project_access db user_id test_case.project_id).is_member)
        × ((get_project_route_access db user_id test_case.project_id ≡ access_ok)
            ↔ (is_project_member db user_id test_case.project_id ≡ true))
        × (can_delete_project db user_id test_case.project_id ≡ true
            → is_project_member db user_id test_case.project_id ≡ true)
  unfolding is_test_run_project_member is_test_case_project_member
  is_test_run_project_member-agrees run test_case projects cases runs found kept case_found =
      let of_project = is_project_member-in_member_project test_case.project_id projects in
      let of_case =
        any-key (λ (c : TestCase). c.id == run.test_case_id)
          (λ c. in_member_project db user_id c.project_id) db.cases test_case case_found
          (cases run.test_case_id) in
      let of_run =
        any-key (λ (r : TestRun). r.id == run.id)
          (λ r. is_null r.deleted_at && in_member_case db user_id r.test_case_id) db.runs run found
          (runs run.id) in
      let stated = of_project ∙ in_member_project-access test_case.project_id in
      (
        of_run ∙ rw kept (rw (case_found, in_member_case) (sym of_case)),
        of_case ∙ sym of_project,
        stated,
        route-member test_case.project_id projects,
        (λ h. stated ∙ can_delete_project-member test_case.project_id h),
      )
