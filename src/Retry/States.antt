-- ===== src/Retry/States.antt =====
-- What the retry states say of a session's attempts: `buildCaseRetryStates` against direct
-- descriptions of the attempts that ran and of the latest attempt.
use mathlib.Core.List.{Memᴰ}
use skytest_agent.Prelude.{
  ℕ, ◌+◌, ◌≡◌, refl, ap, ◌∙◌, ◌⊎◌, false, List, [], ◌∷◌, if◌then◌else◌, ◌||◌, ◌==◌, ==_iff, any,
  All, onto, onto-All, All-map, sort_by-All, count_where, count_where-sort_by, arith, Bool-cases,
  inl, inr,
}
use skytest_agent.Retry.Plan.{
  AttemptRecord, CaseRetryState, CaseEntry, add_attempt, entries_from, states_of,
  build_case_retry_states,
}
use skytest_agent.Retry.Entries.{
  executed_of, IsLatest, Follows, has_case, AreDistinct, has_case-add_attempt, entries_from-Follows,
}

-- The state of a case describes the attempts: all that ran are counted, and the latest one's status
-- and error are kept.
pub record Describes (attempts : List AttemptRecord) (s : CaseRetryState) : Type 0 where
  pub counted : s.executed ≡ executed_of s.test_case_id attempts
  pub latest : AttemptRecord
  pub of_case : latest.test_case_id ≡ s.test_case_id
  pub listed : Memᴰ latest attempts
  pub is_latest : IsLatest latest attempts
  pub status : latest.status ≡ s.latest_status
  pub error : latest.error ≡ s.latest_error

executed_of-onto :
    (c : ℕ) (xs ys : List AttemptRecord)
    → executed_of c (onto xs ys) ≡ executed_of c xs + executed_of c ys
executed_of-onto c [] ys = omega arith
executed_of-onto c (x ∷ xs) ys = ground (arith, executed_of-onto c xs (x ∷ ys))

onto-Memᴰ :
    {x : AttemptRecord} (xs ys : List AttemptRecord) → Memᴰ x (onto xs ys) → Memᴰ x xs ⊎ Memᴰ x ys
onto-Memᴰ [] ys m = inr m
onto-Memᴰ (z ∷ xs) ys m = elim (onto-Memᴰ xs (z ∷ ys) m) [
  | inl l ↦ inl (Memᴰ.tail l)
  | inr (Memᴰ.head e) ↦ inl (Memᴰ.head e)
  | inr (Memᴰ.tail r) ↦ inr r
]

module _ (attempts : List AttemptRecord) where
  listed_in : {x : AttemptRecord} → Memᴰ x (onto attempts []) → Memᴰ x attempts
  listed_in m = elim (onto-Memᴰ attempts [] m) [ inl l ↦ l | inr r ↦ absurd (no_row r) ]
    where
      no_row : {x : AttemptRecord} → Memᴰ x [] → ⊥
      no_row m = elim m [ ]

  Follows-Describes : (e : CaseEntry) → Follows (onto attempts []) e → Describes attempts e.state
  Follows-Describes e f = record {
    counted = omega (arith, f.counted, executed_of-onto e.state.test_case_id attempts []);
    latest = f.latest;
    of_case = f.of_case;
    listed = listed_in f.listed;
    is_latest =
        All-map _ (λ x below p. rw f.number (below (p ∙ f.of_case))) attempts
          (onto-All _ attempts [] f.is_latest).0;
    status = f.status;
    error = f.error;
  }

  states_of-Describes :
      (es : List CaseEntry)
      → All (Follows (onto attempts [])) es
      → All (Describes attempts) (states_of es)
  states_of-Describes [] h = tt
  states_of-Describes (e ∷ es) h = (Follows-Describes e h.0, states_of-Describes es h.1)

  -- Every state that `buildCaseRetryStates` returns describes the attempts: `executed` is the number
  -- of attempts of its case that passed or failed, and its latest status and error are those of an
  -- attempt with the largest number of the case.
  pub build_case_retry_states-Describes :
      All (Describes attempts) (build_case_retry_states attempts)
  unfolding build_case_retry_states
  build_case_retry_states-Describes =
      sort_by-All _ _ _
        (states_of-Describes _ (entries_from-Follows [] attempts [] (λ c m. tt) tt tt).0)

pub has_case-entries_from :
    (c : ℕ) (attempts : List AttemptRecord) (es : List CaseEntry)
    → has_case c (entries_from es attempts)
      ≡ (has_case c es || any (λ a. a.test_case_id == c) attempts)
unfolding entries_from
has_case-entries_from c [] es = ground arith
has_case-entries_from c (a ∷ attempts) es =
    ground (arith, has_case-entries_from c attempts (add_attempt a es), has_case-add_attempt a c es)

count_where-states_of :
    (c : ℕ) (es : List CaseEntry)
    → AreDistinct es
    → count_where (λ s. s.test_case_id == c) (states_of es) ≡ (if has_case c es then 1 else 0)
count_where-states_of c [] d = refl
count_where-states_of c (e ∷ es) d = elim (Bool-cases (e.state.test_case_id == c)) [
  | inl same ↦ rw same (
      let missing : has_case c es ≡ false = rw ((==_iff _ _).0 same) at d.0 in
      let rest = rw missing at (count_where-states_of c es d.1) in omega (arith, rest))
  | inr other ↦ rw other (omega (arith, count_where-states_of c es d.1))
]

-- `buildCaseRetryStates` returns one state for each case that has an attempt, and none for another.
pub build_case_retry_states-count :
    (c : ℕ) (attempts : List AttemptRecord)
    → count_where (λ s. s.test_case_id == c) (build_case_retry_states attempts)
      ≡ (if any (λ a. a.test_case_id == c) attempts then 1 else 0)
unfolding build_case_retry_states
build_case_retry_states-count c attempts =
    count_where-sort_by _ _ _
    ∙ count_where-states_of c (entries_from [] attempts)
        (entries_from-Follows [] attempts [] (λ c m. tt) tt tt).1
    ∙ ap (λ b. if b then 1 else 0) (has_case-entries_from c attempts [])
