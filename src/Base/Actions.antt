-- ===== src/Base/Actions.antt =====
-- Actions on a state: functions from a state to an answer and a state.
use mathlib.Core.Bool.{Bool, true, false}
use mathlib.Core.Option.{Option, none, some}

abbrev pub Action : Type 0 → Type 0 → Type 0
Action S A = S → A × S

module _ {S A : Type 0} where
  unfoldable pub pure : A → Action S A
  pure a s = (a, s)

  unfoldable pub gets : (S → A) → Action S A
  gets f s = (f s, s)

unfoldable pub modify : {S : Type 0} → (S → S) → Action S (Unit {0})
modify f s = (tt, f s)

module _ {S A B : Type 0} where
  infixl 5 ◌>>=◌ ◌>>◌
  unfoldable pub ◌>>=◌ : Action S A → (A → Action S B) → Action S B
  ◌>>=◌ m f s = let (a, s') = m s in f a s'

  abbrev pub ◌>>◌ : Action S A → Action S B → Action S B
  m >> k = m >>= λ _. k

-- `if` between two actions, which stays a call until it is unfolded.
infix 1 when◌then◌else◌
unfoldable pub when◌then◌else◌ : {S A : Type 0} → Bool → Action S A → Action S A → Action S A
when true then m else n = m
when false then m else n = n

-- A branch on an optional value.
unfoldable pub match_option {ℓ} :
    {A : Type ℓ} {S B : Type 0} → Option A → Action S B → (A → Action S B) → Action S B
match_option none m f = m
match_option (some a) m f = f a
