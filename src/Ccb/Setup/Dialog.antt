-- ===== src/Ccb/Setup/Dialog.antt =====
-- The questions of `ccb setup` (cmd/ccb/setup.go: ask and the loops around it in runSetup, yes). The
-- lines are those that the scanner gives; after the last one every answer is empty. What is printed
-- is left out.
pub mod Asks
use ccbroker.Base.{
  String, Bool, true, false, ◌||◌, Option, none, some, List, [], ◌∷◌, codes, lower, same_codes,
  trim_space, if◌then◌else◌,
}

-- An answer with the lines that are left; `ended`: the error that the input ended; `hangs`: a loop that
-- asks for ever.
pub data Reply (A : Type 0) : Type 0 where
  said : A → List String → Reply A
  ended hangs : Reply A

abbrev pub Dialog : Type 0 → Type 0
Dialog A = List String → Reply A

module _ {A B : Type 0} where
  abbrev bind_reply : Reply A → (A → Dialog B) → Reply B
  bind_reply (said a ls) f = f a ls
  bind_reply ended f = ended
  bind_reply hangs f = hangs

  infixl 5 ◌>>=◌
  unfoldable pub ◌>>=◌ : Dialog A → (A → Dialog B) → Dialog B
  ◌>>=◌ m f ls = bind_reply (m ls) f

unfoldable pub answer : {A : Type 0} → A → Dialog A
answer a ls = said a ls

-- ask
unfoldable pub ask : Dialog String
ask [] = said "" []
ask (l ∷ ls) = said (trim_space l) ls

-- A loop that asks until the answer is accepted, and gives up at the end of the input.
unfoldable pub ask_required : (String → Bool) → Dialog String
ask_required accepts [] = if accepts "" then said "" [] else ended
ask_required accepts (l ∷ ls) =
    let more = ask_required accepts ls in
    if accepts (trim_space l) then said (trim_space l) ls else more

abbrev or_hang : {A : Type 0} → Option A → Reply A
or_hang none = hangs
or_hang (some a) = said a []

-- A loop that asks until the answer is one of the choices, and has no other end.
unfoldable pub ask_choice : {A : Type 0} → (String → Option A) → Dialog A
ask_choice choice [] = or_hang (choice "")
ask_choice choice (l ∷ ls) = elim (choice (trim_space l)) [
  | none ↦ ask_choice choice ls
  | some a ↦ said a ls
]

-- yes
unfoldable pub yes_or : Bool → String → Bool
yes_or default ans =
    let word = lower (codes ans) in
    if same_codes word (codes "y") || same_codes word (codes "yes")
    then true
    else if same_codes word (codes "n") || same_codes word (codes "no")
    then false
    else default
