-- ===== src/Ccb/Setup/Units/Words.antt =====
-- Lists of words, of which the first is not read to its end yet.
use ccbroker.Base.{ℕ, ◌≡◌, refl, Option, none, some, List, [], ◌∷◌}

abbrev pub cons_first : ℕ → Option (List (List ℕ)) → Option (List (List ℕ))
cons_first c none = none
cons_first c (some []) = none
cons_first c (some (word ∷ words)) = some ((c ∷ word) ∷ words)

abbrev pub new_word : Option (List (List ℕ)) → Option (List (List ℕ))
new_word none = none
new_word (some words) = some ([] ∷ words)

abbrev pub word_before : List ℕ → Option (List (List ℕ)) → Option (List (List ℕ))
word_before [] ws = ws
word_before (c ∷ cs) ws = cons_first c (word_before cs ws)

pub word_before-words :
    (s : List ℕ) (ws : List (List ℕ)) → word_before s (some ([] ∷ ws)) ≡ some (s ∷ ws)
word_before-words [] ws = refl
word_before-words (c ∷ cs) ws = rw (word_before-words cs ws) refl
