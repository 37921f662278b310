-- ===== src/Ccb/Setup/Units/Plist.antt =====
-- The strings of a launchd property list, read back.
use mathlib.Core.List.{append_assoc}
use ccbroker.Base.{
  zero, suc, ◌+◌, ◌/◌, ◌%◌, ◌<◌, ltb, pos, negsuc, ℕ, ◌≡◌, refl, ◌∙◌, ap, Option, none, some, List,
  [], ◌∷◌, ◌++◌, ℤ, eqb, eqb→eq, codes, same_codes, if◌then◌else◌, arith, Bool-cases, inl, inr,
}
use ccbroker.Ccb.Setup.Units.Words.{cons_first, new_word, word_before, word_before-words}
use ccbroker.Ccb.Setup.Units.{
  digits_of, xml_escape, decimal, launchd_watch_plist, launchd_sync_plist,
}

-- What an XML reader is inside of: text that is passed over, a tag or an entity with what was read of
-- its name, the text of a string element.
pub data Mode : Type 0 where
  passing content : Mode
  tag entity_name : List ℕ → Mode

-- The five entities that XML predefines.
abbrev named_char : List ℕ → Option ℕ
named_char name =
    if same_codes name (codes "amp")
    then some b'&'
    else if same_codes name (codes "lt")
    then some b'<'
    else if same_codes name (codes "gt")
    then some b'>'
    else if same_codes name (codes "quot")
    then some b'"'
    else if same_codes name (codes "apos")
    then some 39
    else none

abbrev cons_char : Option ℕ → Option (List (List ℕ)) → Option (List (List ℕ))
cons_char none ws = none
cons_char (some c) ws = cons_first c ws

-- The texts of the string elements; the first is the rest of the one that is being read, if one is.
strings_from : Mode → List ℕ → Option (List (List ℕ))
strings_from passing [] = some []
strings_from passing (c ∷ cs) =
    let open_tag = strings_from (tag []) cs in
    let pass = strings_from passing cs in if eqb c b'<' then open_tag else pass
strings_from (tag name) [] = none
strings_from (tag name) (c ∷ cs) =
    let begin = strings_from content cs in
    let pass = strings_from passing cs in
    let more = strings_from (tag (name ++ c ∷ [])) cs in
    if eqb c b'>' then (if same_codes name (codes "string") then begin else pass) else more
strings_from content [] = none
strings_from content (c ∷ cs) =
    let end = new_word (strings_from (tag []) cs) in
    let begin = strings_from (entity_name []) cs in
    let next = cons_first c (strings_from content cs) in
    if eqb c b'<' then end else if eqb c b'&' then begin else next
strings_from (entity_name name) [] = none
strings_from (entity_name name) (c ∷ cs) =
    let end = cons_char (named_char name) (strings_from content cs) in
    let more = strings_from (entity_name (name ++ c ∷ [])) cs in if eqb c b';' then end else more

unfoldable pub strings_in : List ℕ → Option (List (List ℕ))
unfolding strings_from
strings_in = strings_from passing

-- An escaped text is read as the text that it was.
content-xml_escape :
    (s rest : List ℕ)
    → strings_from content (xml_escape s ++ b'<' ∷ rest)
      ≡ word_before s (new_word (strings_from (tag []) rest))
unfolding strings_from xml_escape
content-xml_escape [] rest = refl
content-xml_escape (c ∷ cs) rest = elim (Bool-cases (eqb c b'&')) [
  | inl q ↦ rw (eqb→eq c b'&' q) (ap (cons_first b'&') (content-xml_escape cs rest))
  | inr amp ↦ elim (Bool-cases (eqb c b'<')) [
    | inl q ↦ rw (eqb→eq c b'<' q) (ap (cons_first b'<') (content-xml_escape cs rest))
    | inr lt ↦ elim (Bool-cases (eqb c b'>')) [
      | inl q ↦ rw (eqb→eq c b'>' q) (ap (cons_first b'>') (content-xml_escape cs rest))
      | inr gt ↦ elim (Bool-cases (eqb c b'"')) [
        | inl q ↦ rw (eqb→eq c b'"' q) (ap (cons_first b'"') (content-xml_escape cs rest))
        | inr quot ↦ elim (Bool-cases (eqb c 39)) [
          | inl q ↦ rw (eqb→eq c 39 q) (ap (cons_first 39) (content-xml_escape cs rest))
          | inr apos ↦
              rw (amp, lt, gt, quot, apos, lt, amp) (ap (cons_first c) (content-xml_escape cs rest))
        ]
      ]
    ]
  ]
]

element :
    (s rest : List ℕ)
    → strings_from content ((xml_escape s ++ codes "</string>") ++ rest)
      ≡ word_before s (new_word (strings_from passing rest))
unfolding strings_from
element s rest = rw (append_assoc (xml_escape s) (codes "</string>") rest) (content-xml_escape s _)

-- A number is passed over.
passing_digit :
    (d : ℕ) (rest : List ℕ)
    → d < 10
    → strings_from passing ((48 + d) ∷ rest) ≡ strings_from passing rest
unfolding strings_from
passing_digit d rest h = ground arith

passing-digits_of :
    (f n : ℕ) (rest : List ℕ)
    → strings_from passing (digits_of f n ++ rest) ≡ strings_from passing rest
passing-digits_of zero n rest = refl
passing-digits_of (suc f) n rest = elim (Bool-cases (ltb n 10)) [
  | inl small ↦ rw small (passing_digit n rest (ground arith))
  | inr big ↦
      rw (big, append_assoc (digits_of f (n / 10)) ((48 + n % 10) ∷ []) rest)
        (passing-digits_of f (n / 10) _ ∙ passing_digit (n % 10) rest (omega arith))
]

passing-decimal :
    (n : ℤ) (rest : List ℕ) → strings_from passing (decimal n ++ rest) ≡ strings_from passing rest
unfolding decimal strings_from
passing-decimal (pos n) rest = passing-digits_of (suc n) n rest
passing-decimal (negsuc n) rest = passing-digits_of (suc (suc n)) (suc n) rest

-- However the paths are spelled, the strings of the two property lists are the label, the program
-- with the arguments watch or sync, -c and the path of the configuration, and the path of the log
-- twice.
pub strings-launchd_plists :
    (exe cfg log : List ℕ) (interval : ℤ)
    → (strings_in (launchd_watch_plist exe cfg log)
        ≡ some
            (codes "com.ccbroker.watch" ∷ exe ∷ codes "watch" ∷ codes "-c" ∷ cfg ∷ log ∷ log ∷ []))
      × (strings_in (launchd_sync_plist exe cfg log interval)
          ≡ some
              (codes "com.ccbroker.sync" ∷ exe ∷ codes "sync" ∷ codes "-c" ∷ cfg ∷ log ∷ log ∷ []))
unfolding strings_in strings_from launchd_watch_plist launchd_sync_plist
strings-launchd_plists exe cfg log interval = (
  rw
      (
        element exe _,
        element cfg _,
        element log _,
        element log _,
        word_before-words log [],
        word_before-words log (log ∷ []),
        word_before-words cfg _,
        word_before-words exe _,
      )
      refl,
  rw
      (
        element exe _,
        element cfg _,
        append_assoc (decimal interval) _ _,
        passing-decimal interval _,
        element log _,
        element log _,
        word_before-words log [],
        word_before-words log (log ∷ []),
        word_before-words cfg _,
        word_before-words exe _,
      )
      refl,
)
