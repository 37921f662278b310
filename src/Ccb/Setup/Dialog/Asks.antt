-- ===== src/Ccb/Setup/Dialog/Asks.antt =====
-- What a dialogue guarantees of its answer, whatever the lines are: one rule for each way to build it.
use ccbroker.Base.{
  String, ◌≡◌, Bool, true, Option, none, some, List, [], ◌∷◌, trim_space, if◌then◌else◌, Bool-cases,
  inl, inr, refl, false,
}
use ccbroker.Ccb.Setup.Dialog.{
  Reply, said, ended, hangs, Dialog, answer, ask, ask_required, ask_choice, bind_reply, ◌>>=◌,
}

-- It does not hang, and an answer satisfies `P`.
abbrev pub Sound : {A : Type 0} → (A → Type 0) → Reply A → Type 0
Sound P (said a ls) = P a
Sound P ended = Unit
Sound P hangs = ⊥

pub record Asks {A : Type 0} (m : Dialog A) (P : A → Type 0) : Type 0 where
  pub at : (ls : List String) → Sound P (m ls)

module _ {A B : Type 0} {P : A → Type 0} {Q : B → Type 0} where
  bound :
      (r : Reply A) (f : A → Dialog B)
      → Sound P r
      → ((a : A) → P a → Asks (f a) Q)
      → Sound Q (bind_reply r f)
  bound (said a ls) f p next = (next a p).at ls
  bound ended f p next = tt
  bound hangs f p next = p

  pub Asks-bind :
      {m : Dialog A} (f : A → Dialog B)
      → Asks m P
      → ((a : A) → P a → Asks (f a) Q)
      → Asks (m >>= f) Q
  unfolding ◌>>=◌
  Asks-bind {m} f first next = record { at = λ ls. bound (m ls) f (first.at ls) next }

module _ {A : Type 0} {P Q : A → Type 0} where
  weaken : (r : Reply A) → ((a : A) → P a → Q a) → Sound P r → Sound Q r
  weaken (said a ls) f p = f a p
  weaken ended f p = tt
  weaken hangs f p = p

  pub Asks-weaken : {m : Dialog A} → ((a : A) → P a → Q a) → Asks m P → Asks m Q
  Asks-weaken {m} f e = record { at = λ ls. weaken (m ls) f (e.at ls) }

module _ {A : Type 0} {P : A → Type 0} where
  pub Asks-answer : (a : A) → P a → Asks (answer a) P
  unfolding answer
  Asks-answer a p = record { at = λ ls. p }

  pub Asks-if :
      (b : Bool) (m n : Dialog A)
      → (b ≡ true → Asks m P)
      → (b ≡ false → Asks n P)
      → Asks (if b then m else n) P
  Asks-if true m n p q = p refl
  Asks-if false m n p q = q refl

  chosen :
      (choice : String → Option A) (d : A)
      → ((s : String) (a : A) → choice s ≡ some a → P a)
      → choice "" ≡ some d
      → (ls : List String) → Sound P (ask_choice choice ls)
  unfolding ask_choice
  chosen choice d p e [] = rw e (p "" d e)
  chosen choice d p e (l ∷ ls) = next (choice (trim_space l)) refl (chosen choice d p e ls)
    where
      next :
          (o : Option A)
          → choice (trim_space l) ≡ o
          → Sound P (ask_choice choice ls)
          → Sound P (elim o as (λ x. Reply A) [ none ↦ ask_choice choice ls | some a ↦ said a ls ])
      next none q rest = rest
      next (some a) q rest = p (trim_space l) a q

  pub Asks-choice :
      (choice : String → Option A) (d : A)
      → ((s : String) (a : A) → choice s ≡ some a → P a)
      → choice "" ≡ some d
      → Asks (ask_choice choice) P
  Asks-choice choice d p e = record { at = chosen choice d p e }

pub Asks-ask : Asks ask (λ s. Unit)
unfolding ask
Asks-ask = record { at = any }
  where
    any : (ls : List String) → Sound (λ s. Unit) (ask ls)
    any [] = tt
    any (l ∷ ls) = tt

pub Asks-required : (accepts : String → Bool) → Asks (ask_required accepts) (λ s. accepts s ≡ true)
unfolding ask_required
Asks-required accepts = record { at = any }
  where
    any : (ls : List String) → Sound (λ s. accepts s ≡ true) (ask_required accepts ls)
    any [] = elim (Bool-cases (accepts "")) [ inl e ↦ rw e e | inr e ↦ rw e tt ]
    any (l ∷ ls) = elim (Bool-cases (accepts (trim_space l))) [
      | inl e ↦ rw e e
      | inr e ↦ rw e (any ls)
    ]
