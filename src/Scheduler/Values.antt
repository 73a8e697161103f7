-- ===== src/Scheduler/Values.antt =====
-- Validated values.
use skytest_agent.Prelude.{◌≡◌, refl, ◌⊎◌, inl, inr, String}
use skytest_agent.Scheduler.{Validated, valid, invalid}
use skytest_agent.Scheduler.Cron.{and_then}

pub Validated-cases {ℓ} :
    {A : Type ℓ} (v : Validated A)
    → ((a : A) × (v ≡ valid a)) ⊎ ((message : String) × (v ≡ invalid message))
Validated-cases (valid a) = inl (a, refl)
Validated-cases (invalid message) = inr (message, refl)

pub and_then-valid {ℓ κ} :
    {A : Type ℓ} {B : Type κ} (v : Validated A) {f : A → Validated B} {b : B}
    → and_then v f ≡ valid b
    → (a : A) × (v ≡ valid a) × (f a ≡ valid b)
and_then-valid (valid a) h = (a, refl, h)
and_then-valid (invalid message) h = cc

pub valid-injective {ℓ} : {A : Type ℓ} {a b : A} → valid a ≡ valid b → a ≡ b
valid-injective h = cc
