-- ===== src/Base/Text.antt =====
-- Text as the source handles it: whole strings compared by `==`, and what it uses of Go's package
-- strings. Case folding and the spaces are those of ASCII.
use Prim.Native.Nat.{ℕ, zero, suc, ◌+◌, ◌-◌, ◌*◌}
use Prim.Native.Char.{Char, code}
use Prim.Native.String.{String, count}
use mathlib.Core.Path.{◌≡◌, refl}
use mathlib.Core.Bool.{Bool, true, false, ◌&&◌, ◌||◌}
use mathlib.Core.List.{List, [], ◌∷◌}
use mathlib.Core.Option.{Option, none, some}
use text.Mathlib.Text.{◌==◌, starts_with}
use ccbroker.Base.Tests.{leb, eqb, if◌then◌else◌}

-- The code points of a text: its bytes, if it is ASCII.
abbrev pub codes : String → List ℕ
codes String.[] = []
codes (String.◌∷◌ c s) = code c ∷ codes s

abbrev pub is_space : ℕ → Bool
is_space c = eqb c 32 || (leb 9 c && leb c 13)

abbrev pub to_lower : ℕ → ℕ
to_lower c = if leb 65 c && leb c 90 then c + 32 else c

abbrev pub lower : List ℕ → List ℕ
lower [] = []
lower (c ∷ cs) = to_lower c ∷ lower cs

-- Both are equal, code point for code point.
abbrev pub same_codes : List ℕ → List ℕ → Bool
same_codes [] [] = true
same_codes (c ∷ cs) (d ∷ ds) = eqb c d && same_codes cs ds
same_codes _ _ = false

abbrev pub begins_with : List ℕ → List ℕ → Bool
begins_with cs [] = true
begins_with [] (d ∷ ds) = false
begins_with (c ∷ cs) (d ∷ ds) = eqb c d && begins_with cs ds

-- strings.Contains
unfoldable pub contains : List ℕ → List ℕ → Bool
contains [] ds = begins_with [] ds
contains (c ∷ cs) ds = begins_with (c ∷ cs) ds || contains cs ds

abbrev skip : ℕ → String → String
skip zero s = s
skip (suc n) String.[] = String.[]
skip (suc n) (String.◌∷◌ c s) = skip n s

-- strings.TrimPrefix; `none` where the text does not have the prefix
unfoldable pub strip_prefix : String → String → Option String
strip_prefix p s = if starts_with s p then some (skip (count p) s) else none

abbrev pub trim_left : (Char → Bool) → String → String
trim_left p String.[] = String.[]
trim_left p (String.◌∷◌ c s) = let rest = trim_left p s in if p c then rest else String.◌∷◌ c s

abbrev pub push_unless : (Char → Bool) → Char → String → String
push_unless p c String.[] = if p c then String.[] else String.◌∷◌ c String.[]
push_unless p c (String.◌∷◌ d s) = String.◌∷◌ c (String.◌∷◌ d s)

abbrev pub trim_right : (Char → Bool) → String → String
trim_right p String.[] = String.[]
trim_right p (String.◌∷◌ c s) = push_unless p c (trim_right p s)

-- strings.TrimSpace, and strings.Trim(s, "/")
unfoldable pub trim_space : String → String
trim_space s = trim_right (λ c. is_space (code c)) (trim_left (λ c. is_space (code c)) s)

unfoldable pub trim_slashes : String → String
trim_slashes s = trim_right (λ c. eqb (code c) b'/') (trim_left (λ c. eqb (code c) b'/') s)

-- strings.TrimRight(s, "/")
unfoldable pub trim_end_slashes : String → String
trim_end_slashes s = trim_right (λ c. eqb (code c) b'/') s

-- strings.ContainsAny(s, "/?")
unfoldable pub has_separator : String → Bool
has_separator String.[] = false
has_separator (String.◌∷◌ c s) = eqb (code c) b'/' || eqb (code c) b'?' || has_separator s

-- strings.SplitN(s, "/", 2): the part before the first slash, and the part behind it if there is one
unfoldable pub split_slash : String → String × Option String
split_slash String.[] = (String.[], none)
split_slash (String.◌∷◌ c s) =
    let (head, rest) = split_slash s in
    if eqb (code c) b'/' then (String.[], some s) else (String.◌∷◌ c head, rest)

-- strings.Fields
fields_from : String → List String × String
fields_from String.[] = ([], String.[])
fields_from (String.◌∷◌ c s) =
    let (done, word) = fields_from s in
    if is_space (code c)
    then (if word == "" then (done, String.[]) else (word ∷ done, String.[]))
    else (done, String.◌∷◌ c word)

unfoldable pub fields : String → List String
unfolding fields_from
fields s = let (done, word) = fields_from s in if word == "" then done else word ∷ done

abbrev is_digit : ℕ → Bool
is_digit c = leb 48 c && leb c 57

-- The decimal digits of a number that is not empty; `none` at any other character.
unfoldable pub digits_from : ℕ → List ℕ → Option ℕ
digits_from acc [] = some acc
digits_from acc (c ∷ cs) =
    let rest = digits_from (acc * 10 + (c - 48)) cs in if is_digit c then rest else none

unfoldable pub read_digits : List ℕ → Option ℕ
unfolding digits_from
read_digits [] = none
read_digits (c ∷ cs) = digits_from 0 (c ∷ cs)

fields_test : fields " a:b  cd " ≡ "a:b" ∷ "cd" ∷ []
unfolding fields
fields_test = refl

trim_test : trim_space "  x y \n" ≡ "x y"
unfolding trim_space
trim_test = refl

split_test : split_slash "work/refresh" ≡ ("work", some "refresh")
unfolding split_slash
split_test = refl
