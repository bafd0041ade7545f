-- ===== src/Base/Outcome.antt =====
-- How a run of a Go function ends, and the monad of functions over a mutable state.
use mathlib.Core.Path.{◌≡◌, refl}
use mathlib.Core.Logic.{◌⊎◌, inl, inr}

-- `spin`: the rounds allowed to its busy loops are used up. `panic`: a run-time panic.
pub data Outcome {ℓ} (A : Type ℓ) : Type ℓ where
  done : A → Outcome A
  spin : Outcome A
  panic : Outcome A

abbrev pub M : Type 0 → Type 0 → Type 0
M S A = S → Outcome (A × S)

abbrev pub pure : {S A : Type 0} → A → M S A
pure a s = done (a, s)

infixl 5 ◌>>=◌ ◌>>◌
abbrev pub ◌>>=◌ : {S A B : Type 0} → M S A → (A → M S B) → M S B
◌>>=◌ m f s = elim (m s) [ done (a, s') ↦ f a s' | spin ↦ spin | panic ↦ panic ]

abbrev pub ◌>>◌ : {S B : Type 0} → M S (Unit {0}) → M S B → M S B
◌>>◌ m k s = elim (m s) [ done (_, s') ↦ k s' | spin ↦ spin | panic ↦ panic ]

abbrev pub fail : {S A : Type 0} → M S A
fail s = panic

-- A run of two parts that is done: both parts are.
pub parts :
    {A B : Type 0} (o : Outcome A) (f : A → Outcome B) {b : B}
    → (elim o [ done a ↦ f a | spin ↦ spin | panic ↦ panic ]) ≡ done b
    → (a : A) × (o ≡ done a) × (f a ≡ done b)
parts (done a) f h = (a, refl, h)
parts spin f h = absurd cc
parts panic f h = absurd cc

pub Outcome-cases {ℓ} :
    {A : Type ℓ} (o : Outcome A) → ((a : A) × (o ≡ done a)) ⊎ ((o ≡ spin) ⊎ (o ≡ panic))
Outcome-cases (done a) = inl (a, refl)
Outcome-cases spin = inr (inl refl)
Outcome-cases panic = inr (inr refl)
