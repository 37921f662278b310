-- ===== src/Config/KeyFile.antt =====
-- internal/config/config.go, LoadKey: the master key, from the text of its file. hex.DecodeString is
-- written out.
use ccbroker.Base.{
  ℕ, ◌+◌, ◌-◌, ◌*◌, ◌<◌, String, leb, eqb, ◌≡◌, refl, ◌&&◌, Option, none, some, List, [], ◌∷◌,
  codes, length, trim_space, arith, if◌then◌else◌,
}

-- the value of a hexadecimal digit
abbrev pub nibble : ℕ → Option ℕ
nibble c =
    if leb 48 c && leb c 57
    then some (c - 48)
    else if leb 97 c && leb c 102
    then some (c - 87)
    else if leb 65 c && leb c 70
    then some (c - 55)
    else none

abbrev byte_of : Option ℕ → Option ℕ → Option (List ℕ) → Option (List ℕ)
byte_of (some h) (some l) (some rest) = some ((h * 16 + l) ∷ rest)
byte_of _ _ _ = none

-- hex.DecodeString; an odd number of digits is an error
unfoldable pub decode_hex : List ℕ → Option (List ℕ)
decode_hex [] = some []
decode_hex (c ∷ []) = none
decode_hex (c ∷ d ∷ cs) = byte_of (nibble c) (nibble d) (decode_hex cs)

abbrev pub of_length : Option (List ℕ) → Option (List ℕ)
of_length none = none
of_length (some key) = if eqb (length key) 32 then some key else none

-- LoadKey: `none` is an error
unfoldable pub load_key : String → Option (List ℕ)
load_key text = of_length (decode_hex (codes (trim_space text)))

-- Every entry is a byte.
abbrev pub Bytes : List ℕ → Type 0
Bytes [] = Unit
Bytes (b ∷ bs) = (b < 256) × Bytes bs

nibble-lt : (c n : ℕ) → nibble c ≡ some n → n < 16
nibble-lt c n h = ground arith

byte_of-Bytes :
    (h l : Option ℕ) (rest : Option (List ℕ)) (out : List ℕ)
    → ((n : ℕ) → h ≡ some n → n < 16)
    → ((n : ℕ) → l ≡ some n → n < 16)
    → ((bs : List ℕ) → rest ≡ some bs → Bytes bs)
    → byte_of h l rest ≡ some out
    → Bytes out
byte_of-Bytes none l rest out hh hl hr e = ground arith
byte_of-Bytes (some h) none rest out hh hl hr e = ground arith
byte_of-Bytes (some h) (some l) none out hh hl hr e = ground arith
byte_of-Bytes (some h) (some l) (some bs) out hh hl hr e =
    let same : (h * 16 + l) ∷ bs ≡ out = ground arith in
    rw⁻¹ same (omega (arith, hh h refl, hl l refl), hr bs refl)

decode_hex-Bytes : (cs out : List ℕ) → decode_hex cs ≡ some out → Bytes out
unfolding decode_hex
decode_hex-Bytes [] out e = let same : [] ≡ out = ground arith in rw⁻¹ same tt
decode_hex-Bytes (c ∷ []) out e = ground arith
decode_hex-Bytes (c ∷ d ∷ cs) out e =
    byte_of-Bytes (nibble c) (nibble d) (decode_hex cs) out (nibble-lt c) (nibble-lt d)
      (decode_hex-Bytes cs) e

of_length-key :
    (o : Option (List ℕ)) (key : List ℕ)
    → of_length o ≡ some key
    → (o ≡ some key) × (length key ≡ 32)
of_length-key none key e = ground arith
of_length-key (some k) key e = (ground arith, ground arith)

-- A master key that LoadKey accepts has 32 entries, each of which is a byte.
pub load_key-Bytes :
    (text : String) (key : List ℕ) → load_key text ≡ some key → (length key ≡ 32) × Bytes key
unfolding load_key
load_key-Bytes text key e =
    let (decoded, len) = of_length-key _ key e in (len, decode_hex-Bytes _ key decoded)
