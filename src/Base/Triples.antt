-- ===== src/Base/Triples.antt =====
-- What holds of an action's answer and state behind it, given what holds of the state before: one
-- rule for each way to build an action.
use mathlib.Core.Path.{◌≡◌, refl}
use mathlib.Core.Bool.{Bool, true, false}
use mathlib.Core.Option.{Option, none, some}
use ccbroker.Base.Actions.{Action, pure, ◌>>=◌, when◌then◌else◌, match_option}

-- `m`, from a state with `P`, ends with `Q`.
pub record Ends {S A : Type 0} (P : S → Type 0) (m : Action S A) (Q : A → S → Type 0) : Type 0 where
  pub at : (s : S) → P s → Q (m s).0 (m s).1

module _ {S A : Type 0} {P : S → Type 0} {Q : A → S → Type 0} where
  pub Ends-pure : (a : A) → ((s : S) → P s → Q a s) → Ends P (pure a) Q
  unfolding pure
  Ends-pure a h = record { at = h }

  pub Ends-if :
      (b : Bool) (m n : Action S A)
      → (b ≡ true → Ends P m Q)
      → (b ≡ false → Ends P n Q)
      → Ends P (when b then m else n) Q
  unfolding when◌then◌else◌
  Ends-if true m n em en = em refl
  Ends-if false m n em en = en refl

  pub Ends-match :
      {C : Type 0} (o : Option C) (m : Action S A) (f : C → Action S A)
      → (o ≡ none → Ends P m Q)
      → ((c : C) → o ≡ some c → Ends P (f c) Q)
      → Ends P (match_option o m f) Q
  unfolding match_option
  Ends-match none m f em ef = em refl
  Ends-match (some c) m f em ef = ef c refl

  pub Ends-bind :
      {B : Type 0} {R : B → S → Type 0} (m : Action S B) (f : B → Action S A)
      → Ends P m R
      → ((b : B) → Ends (R b) (f b) Q)
      → Ends P (m >>= f) Q
  unfolding ◌>>=◌
  Ends-bind m f em ef = record { at = λ s p. (ef (m s).0).at (m s).1 (em.at s p) }

  pub Ends-before :
      {P' : S → Type 0} (m : Action S A) → ((s : S) → P' s → P s) → Ends P m Q → Ends P' m Q
  Ends-before m h e = record { at = λ s p. e.at s (h s p) }

  pub Ends-after :
      {Q' : A → S → Type 0} (m : Action S A)
      → ((a : A) (s : S) → Q a s → Q' a s)
      → Ends P m Q
      → Ends P m Q'
  Ends-after m h e = record { at = λ s p. h (m s).0 (m s).1 (e.at s p) }

-- Of the state nothing is known.
abbrev pub Any {ℓ} : {S : Type ℓ} → S → Type 0
Any s = Unit

module _ {S A B : Type 0} {P : S → Type 0} {Q : A → S → Type 0} where
  -- An action of which nothing is to be known.
  pub Ends-skip :
      (m : Action S B) (f : B → Action S A) → ((b : B) → Ends Any (f b) Q) → Ends P (m >>= f) Q
  unfolding ◌>>=◌
  Ends-skip m f ef = record { at = λ s p. (ef (m s).0).at (m s).1 tt }
