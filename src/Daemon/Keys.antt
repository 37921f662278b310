-- ===== src/Daemon/Keys.antt =====
-- The key that genkey prints is the one that LoadKey reads.
use ccbroker.Base.{
  ℕ, ◌/◌, ◌%◌, ◌<◌, String, ◌≡◌, refl, ◌∙◌, ap, Bool, false, some, List, [], ◌∷◌, ◌++◌, codes,
  is_space, trim_space, trim_left, trim_right, push_unless, length, arith,
}
use Prim.Native.Char.{Char, code}
use ccbroker.Config.KeyFile.{nibble, decode_hex, load_key, Bytes}
use ccbroker.Daemon.{hex_digit, encode_hex, genkey}

nibble-hex_digit : (n : ℕ) → n < 16 → nibble (hex_digit n) ≡ some n
nibble-hex_digit n h = ground arith

decode_hex-encode_hex : (bs : List ℕ) → Bytes bs → decode_hex (encode_hex bs) ≡ some bs
unfolding decode_hex encode_hex
decode_hex-encode_hex [] h = refl
decode_hex-encode_hex (b ∷ bs) (small, rest) =
    rw
      (
        nibble-hex_digit (b / 16) (omega arith),
        nibble-hex_digit (b % 16) (omega arith),
        decode_hex-encode_hex bs rest,
      )
      (ap (λ c. some (c ∷ bs)) (omega arith))

-- No entry is a space.
abbrev Solid : List ℕ → Type 0
Solid [] = Unit
Solid (c ∷ cs) = (is_space c ≡ false) × Solid cs

hex_digit-solid : (n : ℕ) → n < 16 → is_space (hex_digit n) ≡ false
hex_digit-solid n h = ground arith

encode_hex-Solid : (bs : List ℕ) → Bytes bs → Solid (encode_hex bs)
unfolding encode_hex
encode_hex-Solid [] h = tt
encode_hex-Solid (b ∷ bs) (small, rest) = (
  hex_digit-solid (b / 16) (omega arith),
  (hex_digit-solid (b % 16) (omega arith), encode_hex-Solid bs rest),
)

abbrev space_char : Char → Bool
space_char c = is_space (code c)

codes-push_unless :
    (c : Char) (t : String)
    → is_space (code c) ≡ false
    → codes (push_unless space_char c t) ≡ code c ∷ codes t
codes-push_unless c String.[] h = rw h refl
codes-push_unless c (String.◌∷◌ d t) h = refl

cons-injective : {x y : ℕ} {xs ys : List ℕ} → x ∷ xs ≡ y ∷ ys → (x ≡ y) × (xs ≡ ys)
cons-injective h = (ground arith, ground arith)

codes_empty : (s : String) → codes s ≡ [] → s ≡ ""
codes_empty String.[] h = refl
codes_empty (String.◌∷◌ c s) h = absurd (ground arith)

-- The newline at the end goes.
codes-trim_right :
    (s : String) (xs : List ℕ)
    → codes s ≡ xs ++ 10 ∷ []
    → Solid xs
    → codes (trim_right space_char s) ≡ xs
codes-trim_right String.[] [] e h = absurd (ground arith)
codes-trim_right String.[] (x ∷ xs) e h = absurd (ground arith)
codes-trim_right (String.◌∷◌ c s) [] e h =
    let (newline, rest) = cons-injective e in rw (codes_empty s rest, newline) refl
codes-trim_right (String.◌∷◌ c s) (x ∷ xs) e (solid, h) =
    let (same, rest) = cons-injective e in
    codes-push_unless c (trim_right space_char s) (ap (λ d. is_space d) same ∙ solid)
    ∙ ap (λ cs. code c ∷ cs) (codes-trim_right s xs rest h)
    ∙ ap (λ d. d ∷ xs) same

trim_left-solid :
    (s : String) (x : ℕ) (xs : List ℕ)
    → codes s ≡ x ∷ xs
    → is_space x ≡ false
    → trim_left space_char s ≡ s
trim_left-solid String.[] x xs e h = absurd (ground arith)
trim_left-solid (String.◌∷◌ c s) x xs e h =
    let (same, rest) = cons-injective e in rw (ap (λ d. is_space d) same ∙ h) refl

codes-trim_space :
    (s : String) (x : ℕ) (xs : List ℕ)
    → codes s ≡ (x ∷ xs) ++ 10 ∷ []
    → Solid (x ∷ xs)
    → codes (trim_space s) ≡ x ∷ xs
unfolding trim_space
codes-trim_space s x xs e h =
    rw (trim_left-solid s x (xs ++ 10 ∷ []) e h.0) (codes-trim_right s (x ∷ xs) e h)

-- A file that holds the line which `genkey` prints of 32 bytes is read by LoadKey as those bytes.
pub load_key-genkey :
    (bytes : List ℕ) (text : String)
    → length bytes ≡ 32
    → Bytes bytes
    → codes text ≡ genkey bytes
    → load_key text ≡ some bytes
unfolding load_key genkey encode_hex
load_key-genkey [] text len small e = absurd (ground arith)
load_key-genkey (b ∷ bs) text len small e =
    let line : codes (trim_space text) ≡ encode_hex (b ∷ bs) =
      codes-trim_space text (hex_digit (b / 16)) (hex_digit (b % 16) ∷ encode_hex bs) e
        (encode_hex-Solid (b ∷ bs) small) in
    let read : decode_hex (codes (trim_space text)) ≡ some (b ∷ bs) =
      ap decode_hex line ∙ decode_hex-encode_hex (b ∷ bs) small in
    rw read (ground (arith, len))
