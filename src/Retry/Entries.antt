-- ===== src/Retry/Entries.antt =====
-- The entries of the two maps of `buildCaseRetryStates` while its loop runs.
use mathlib.Core.List.{Memᴰ}
use skytest_agent.Prelude.{
  ℕ, ◌+◌, ◌≤◌, ◌≡◌, ◌≢◌, refl, sym, leb, Bool, false, List, [], ◌∷◌, if◌then◌else◌, ◌||◌, ◌==◌,
  ==_iff, any, All, onto, arith, Bool-cases, inl, inr,
}
use skytest_agent.Retry.Plan.{
  AttemptRecord, CaseEntry, executed_by, first_entry, next_entry, add_attempt, entries_from,
}

-- How many attempts of a case ran to their end.
abbrev pub executed_of : ℕ → List AttemptRecord → ℕ
executed_of c [] = 0
executed_of c (a ∷ rest) =
    (if a.test_case_id == c then executed_by a.status else 0) + executed_of c rest

-- The attempt `a` has the largest number among the attempts of its case.
abbrev pub IsLatest : AttemptRecord → List AttemptRecord → Type 0
IsLatest a xs = All (λ x. x.test_case_id ≡ a.test_case_id → x.attempt ≤ a.attempt) xs

-- An entry of the maps describes the attempts that the loop has seen.
pub record Follows (seen : List AttemptRecord) (e : CaseEntry) : Type 0 where
  pub counted : e.state.executed ≡ executed_of e.state.test_case_id seen
  pub latest : AttemptRecord
  pub of_case : latest.test_case_id ≡ e.state.test_case_id
  pub listed : Memᴰ latest seen
  pub is_latest :
      All (λ x. x.test_case_id ≡ e.state.test_case_id → x.attempt ≤ e.latest_attempt) seen
  pub number : latest.attempt ≡ e.latest_attempt
  pub status : latest.status ≡ e.state.latest_status
  pub error : latest.error ≡ e.state.latest_error

abbrev pub has_case : ℕ → List CaseEntry → Bool
has_case c es = any (λ e. e.state.test_case_id == c) es

abbrev pub AreDistinct : List CaseEntry → Type 0
AreDistinct [] = Unit
AreDistinct (e ∷ es) = (has_case e.state.test_case_id es ≡ false) × AreDistinct es

-- A case with no entry has no attempt among those seen.
abbrev pub IsUnseen : ℕ → List AttemptRecord → Type 0
IsUnseen c seen = All (λ x. x.test_case_id ≢ c) seen

IsUnseen-executed_of :
    (c : ℕ) (seen : List AttemptRecord) → IsUnseen c seen → executed_of c seen ≡ 0
IsUnseen-executed_of c [] h = refl
IsUnseen-executed_of c (x ∷ seen) h = ground (arith, IsUnseen-executed_of c seen h.1, h.0)

IsUnseen-below :
    (c n : ℕ) (seen : List AttemptRecord)
    → IsUnseen c seen
    → All (λ x. x.test_case_id ≡ c → x.attempt ≤ n) seen
IsUnseen-below c n [] h = tt
IsUnseen-below c n (x ∷ seen) h = ((λ e. absurd (h.0 e)), IsUnseen-below c n seen h.1)

All-below :
    (c n m : ℕ) (seen : List AttemptRecord)
    → n ≤ m
    → All (λ x. x.test_case_id ≡ c → x.attempt ≤ n) seen
    → All (λ x. x.test_case_id ≡ c → x.attempt ≤ m) seen
All-below c n m [] le h = tt
All-below c n m (x ∷ seen) le h = ((λ e. omega (arith, h.0 e)), All-below c n m seen le h.1)

module _ (a : AttemptRecord) (seen : List AttemptRecord) where
  first_entry-Follows : IsUnseen a.test_case_id seen → Follows (a ∷ seen) (first_entry a)
  first_entry-Follows h = record {
    counted = ground (arith, IsUnseen-executed_of a.test_case_id seen h);
    latest = a;
    of_case = refl;
    listed = Memᴰ.head refl;
    is_latest = ((λ _. omega arith), IsUnseen-below a.test_case_id a.attempt seen h);
    number = refl;
    status = refl;
    error = refl;
  }

  next_entry-Follows :
      (e : CaseEntry)
      → e.state.test_case_id ≡ a.test_case_id
      → Follows seen e
      → Follows (a ∷ seen) (next_entry a e)
  next_entry-Follows e same f = elim (Bool-cases (leb e.latest_attempt a.attempt)) [
    | inl newer ↦ rw newer (record {
      counted = ground (arith, f.counted);
      latest = a;
      of_case = sym same;
      listed = Memᴰ.head refl;
      is_latest = (
        (λ _. omega arith),
        All-below e.state.test_case_id e.latest_attempt a.attempt seen (ground arith) f.is_latest,
      );
      number = refl;
      status = refl;
      error = refl;
    })
    | inr older ↦ rw older (record {
      counted = ground (arith, f.counted);
      latest = f.latest;
      of_case = f.of_case;
      listed = Memᴰ.tail f.listed;
      is_latest = ((λ _. ground arith), f.is_latest);
      number = f.number;
      status = f.status;
      error = f.error;
    })
  ]

  other-Follows :
      (e : CaseEntry)
      → e.state.test_case_id ≢ a.test_case_id
      → Follows seen e
      → Follows (a ∷ seen) e
  other-Follows e other f = record {
    counted = ground (arith, f.counted);
    latest = f.latest;
    of_case = f.of_case;
    listed = Memᴰ.tail f.listed;
    is_latest = ((λ p. absurd (other (ground arith))), f.is_latest);
    number = f.number;
    status = f.status;
    error = f.error;
  }

module _ (a : AttemptRecord) where
  pub has_case-add_attempt :
      (c : ℕ) (es : List CaseEntry)
      → has_case c (add_attempt a es) ≡ (has_case c es || a.test_case_id == c)
  unfolding add_attempt
  has_case-add_attempt c [] = ground arith
  has_case-add_attempt c (e ∷ es) = ground (arith, has_case-add_attempt c es)

  next_entry-case : (e : CaseEntry) → (next_entry a e).state.test_case_id ≡ e.state.test_case_id
  next_entry-case e = ground arith

  others-Follows :
      (seen : List AttemptRecord) (es : List CaseEntry)
      → has_case a.test_case_id es ≡ false
      → All (Follows seen) es
      → All (Follows (a ∷ seen)) es
  others-Follows seen [] m h = tt
  others-Follows seen (e ∷ es) m h =
      (other-Follows a seen e (ground arith) h.0, others-Follows seen es (ground arith) h.1)

  add_attempt-AreDistinct : (es : List CaseEntry) → AreDistinct es → AreDistinct (add_attempt a es)
  unfolding add_attempt
  add_attempt-AreDistinct [] h = (refl, tt)
  add_attempt-AreDistinct (e ∷ es) h = elim (Bool-cases (e.state.test_case_id == a.test_case_id)) [
    | inl same ↦ rw same (rw (next_entry-case e) h)
    | inr other ↦ rw other (
      ground (arith, has_case-add_attempt e.state.test_case_id es),
      add_attempt-AreDistinct es h.1,
    )
  ]

  add_attempt-Follows :
      (seen : List AttemptRecord) (es : List CaseEntry)
      → (has_case a.test_case_id es ≡ false → IsUnseen a.test_case_id seen)
      → AreDistinct es
      → All (Follows seen) es
      → All (Follows (a ∷ seen)) (add_attempt a es)
  unfolding add_attempt
  add_attempt-Follows seen [] unseen d h = (first_entry-Follows a seen (unseen refl), tt)
  add_attempt-Follows seen (e ∷ es) unseen d h =
      elim (Bool-cases (e.state.test_case_id == a.test_case_id)) [
        | inl same ↦ rw same (
          next_entry-Follows a seen e (ground arith) h.0,
          others-Follows seen es (rw ((==_iff _ _).0 same) at d.0) h.1,
        )
        | inr other ↦ rw other (
          other-Follows a seen e (ground arith) h.0,
          add_attempt-Follows seen es (λ m. unseen (ground arith)) d.1 h.1,
        )
      ]

-- A case without an entry has no attempt among those seen.
abbrev pub Covers : List AttemptRecord → List CaseEntry → Type 0
Covers seen es = (c : ℕ) → has_case c es ≡ false → IsUnseen c seen

module _ (a : AttemptRecord) (seen : List AttemptRecord) (es : List CaseEntry) where
  add_attempt-Covers : Covers seen es → Covers (a ∷ seen) (add_attempt a es)
  add_attempt-Covers h c m =
      let e = has_case-add_attempt a c es in (ground arith, h c (ground arith))

pub entries_from-Follows :
    (seen attempts : List AttemptRecord) (es : List CaseEntry)
    → Covers seen es
    → AreDistinct es
    → All (Follows seen) es
    → All (Follows (onto attempts seen)) (entries_from es attempts)
      × AreDistinct (entries_from es attempts)
      × Covers (onto attempts seen) (entries_from es attempts)
unfolding entries_from
entries_from-Follows seen [] es c d h = (h, d, c)
entries_from-Follows seen (a ∷ attempts) es c d h =
    entries_from-Follows (a ∷ seen) attempts (add_attempt a es) (add_attempt-Covers a seen es c)
      (add_attempt-AreDistinct a es d) (add_attempt-Follows a seen es (c a.test_case_id) d h)
