-- ===== src/Store/File.antt =====
-- The encrypted file of internal/store/store.go (load, and the bytes that saveLocked writes). The
-- cipher of crypto/cipher and encoding/json are parameters.
use ccbroker.Base.{
  ℕ, ◌≡◌, refl, false, Option, none, some, List, [], ◌∷◌, ◌++◌, Dict, length-append, sym, ◌<◌,
  length, drop, ltb, eqb, ◌-◌, arith, if◌then◌else◌,
}
use ccbroker.Creds.{Record}

-- gcm.Seal and gcm.Open with a nonce, gcm.NonceSize, json.Marshal and json.Unmarshal of the records;
-- a nil map is `some none`.
pub record Codec : Type 0 where
  pub nonce_size : ℕ
  pub seal : List ℕ → List ℕ → List ℕ
  pub open_sealed : List ℕ → List ℕ → Option (List ℕ)
  pub marshal : Dict Record → List ℕ
  pub unmarshal : List ℕ → Option (Option (Dict Record))

-- b[:n]
abbrev pub take_bytes : ℕ → List ℕ → List ℕ
take_bytes n [] = []
take_bytes n (b ∷ bs) = let rest = take_bytes (n - 1) bs in if eqb n 0 then [] else b ∷ rest

abbrev data_or_empty : Option (Option (Dict Record)) → Option (Dict Record)
data_or_empty none = none
data_or_empty (some none) = some []
data_or_empty (some (some d)) = some d

module _ (z : Codec) where
  abbrev decoded : Option (List ℕ) → Option (Dict Record)
  decoded none = none
  decoded (some pt) = data_or_empty (z.unmarshal pt)

  abbrev load_bytes : List ℕ → Option (Dict Record)
  load_bytes [] = some []
  load_bytes (b ∷ bs) =
      if ltb (length (b ∷ bs)) z.nonce_size
      then none
      else decoded (z.open_sealed (take_bytes z.nonce_size (b ∷ bs)) (drop z.nonce_size (b ∷ bs)))

  -- load: the records of a file that is there, `none` for an error
  unfoldable pub load : Option (List ℕ) → Option (Dict Record)
  load none = some []
  load (some file) = load_bytes file

  -- What saveLocked writes, under a nonce.
  unfoldable pub sealed_file : List ℕ → Dict Record → List ℕ
  sealed_file nonce records = nonce ++ z.seal nonce (z.marshal records)

  take_bytes-nonce : (nonce rest : List ℕ) → take_bytes (length nonce) (nonce ++ rest) ≡ nonce
  take_bytes-nonce [] [] = refl
  take_bytes-nonce [] (b ∷ rest) = refl
  take_bytes-nonce (b ∷ nonce) rest = ground (arith, take_bytes-nonce nonce rest)

  drop-nonce : (nonce rest : List ℕ) → drop (length nonce) (nonce ++ rest) ≡ rest
  drop-nonce [] rest = refl
  drop-nonce (b ∷ nonce) rest = drop-nonce nonce rest

  -- What saveLocked writes is loaded as the records that were written, if the nonce has the size of
  -- the cipher's, which is not zero, and the cipher opens what it sealed and encoding/json reads
  -- back what it wrote, for these records.
  pub load-sealed_file :
      (nonce : List ℕ) (records : Dict Record)
      → length nonce ≡ z.nonce_size
      → 0 < z.nonce_size
      → z.open_sealed nonce (z.seal nonce (z.marshal records)) ≡ some (z.marshal records)
      → z.unmarshal (z.marshal records) ≡ some (some records)
      → load (some (sealed_file nonce records)) ≡ some records
  unfolding load sealed_file
  load-sealed_file [] records len pos opens reads = absurd (omega (arith, len))
  load-sealed_file (b ∷ nonce) records len pos opens reads =
      let ct : List ℕ = z.seal (b ∷ nonce) (z.marshal records) in
      let long : ltb (length (b ∷ nonce ++ ct)) z.nonce_size ≡ false =
        ground (arith, length-append nonce ct) in
      rw (long, sym len, take_bytes-nonce (b ∷ nonce) ct, drop-nonce nonce ct, opens, reads) refl
