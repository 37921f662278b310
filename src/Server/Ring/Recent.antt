-- ===== src/Server/Ring/Recent.antt =====
-- How long a retired hash stays in the ring.
use ccbroker.Base.{
  ℕ, zero, suc, ◌+◌, ◌-◌, ◌≤◌, ◌<◌, String, ◌==◌, eq_iff, ◌≡◌, refl, ap, ◌∙◌, ◌≢◌, Bool, true, not,
  List, [], ◌∷◌, ◌++◌, length, drop, keep, arith, length-append, length-keep-le, Bool-cases, inl,
  inr, ltb,
}
use ccbroker.Server.Ring.{retired_ring, retire_hash, contains_str, without, newest}
use ccbroker.Server.Ring.Laws.{contains_str-append}

-- The hash has fewer than `k` entries behind it.
abbrev Recent : ℕ → List String → String → Type 0
Recent k ring h =
    (old : List String) × (young : List String) × (ring ≡ old ++ h ∷ young) × (length young < k)

keep-append : (p : String → Bool) (xs ys : List String) → keep p (xs ++ ys) ≡ keep p xs ++ keep p ys
keep-append p [] ys = refl
keep-append p (x ∷ xs) ys = ground (arith, keep-append p xs ys)

drop-append : (n : ℕ) (xs ys : List String) → n ≤ length xs → drop n (xs ++ ys) ≡ drop n xs ++ ys
drop-append zero xs ys p = refl
drop-append (suc n) [] ys p = absurd (omega arith)
drop-append (suc n) (x ∷ xs) ys p = drop-append n xs ys (omega arith)

append_assoc : (xs ys zs : List String) → (xs ++ ys) ++ zs ≡ xs ++ (ys ++ zs)
append_assoc [] ys zs = refl
append_assoc (x ∷ xs) ys zs = ap (λ l. x ∷ l) (append_assoc xs ys zs)

-- Cutting to the newest eight keeps an entry with fewer than eight behind it.
newest-Recent :
    (k : ℕ) (old young : List String) (h : String)
    → length young < k
    → k ≤ retired_ring
    → Recent k (newest retired_ring (old ++ h ∷ young)) h
newest-Recent k old young h p q =
    let out : List String = old ++ h ∷ young in
    elim (Bool-cases (ltb retired_ring (length out))) [
      | inl b ↦
          let cut : ℕ = length out - retired_ring in
          let short : cut ≤ length old = ground (arith, length-append old (h ∷ young)) in
          (drop cut old, young, ground (arith, drop-append cut old (h ∷ young) short), p)
      | inr b ↦ (old, young, ground arith, p)
    ]

-- The ring with one more hash, before it is cut.
appended :
    (k : ℕ) (old young : List String) (h new : String)
    → length young < k
    → Recent (suc k) (without new (old ++ h ∷ young) ++ new ∷ []) h
appended k old young h new p = elim (Bool-cases (h == new)) [
  | inl b ↦
      let same : new ≡ h = ground (arith, eq_iff h new) in
      (
        without new (old ++ h ∷ young),
        [],
        ap (λ x. without new (old ++ h ∷ young) ++ x ∷ []) same,
        omega arith,
      )
  | inr b ↦
      let others : String → Bool = λ x. not (x == new) in
      let stays : keep others (h ∷ young) ≡ h ∷ without new young = ground arith in
      (
        without new old,
        without new young ++ new ∷ [],
        ap (λ l. l ++ new ∷ [])
              (keep-append others old (h ∷ young) ∙ ap (λ l. without new old ++ l) stays)
            ∙ append_assoc (without new old) (h ∷ without new young) (new ∷ []),
        omega (arith, length-append (without new young) (new ∷ []), length-keep-le others young),
      )
]

-- One more retirement puts at most one more entry behind it.
retire_hash-Recent :
    (k : ℕ) (ring : List String) (h new : String)
    → k < retired_ring
    → Recent k ring h
    → Recent (suc k) (retire_hash ring new) h
unfolding retire_hash
retire_hash-Recent k ring h new q (old, young, e, p) = elim (Bool-cases (new == "")) [
  | inl b ↦ (old, young, ground arith, omega arith)
  | inr b ↦
      let (old', young', e', p') = appended k old young h new p in
      let (kept, behind, cut, few) = newest-Recent (suc k) old' young' h p' (omega arith) in
      let whole : without new ring ++ new ∷ [] ≡ old' ++ h ∷ young' =
        ap (λ l. without new l ++ new ∷ []) e ∙ e' in
      let result : retire_hash ring new ≡ newest retired_ring (without new ring ++ new ∷ []) =
        ground arith in
      (kept, behind, result ∙ ap (newest retired_ring) whole ∙ cut, few)
]

-- The hashes that are retired one after the other.
abbrev pub retire_all : List String → List String → List String
retire_all ring [] = ring
retire_all ring (h ∷ hs) = retire_all (retire_hash ring h) hs

retire_all-Recent :
    (k : ℕ) (ring later : List String) (h : String)
    → k + length later ≤ retired_ring
    → Recent k ring h
    → Recent (k + length later) (retire_all ring later) h
retire_all-Recent k ring [] h q (old, young, e, p) = (old, young, e, omega arith)
retire_all-Recent k ring (new ∷ later) h q r =
    let (old, young, e, p) =
      retire_all-Recent (suc k) (retire_hash ring new) later h (omega arith)
        (retire_hash-Recent k ring h new (omega arith) r) in
    (old, young, e, omega arith)

-- The newest entry is the hash that was retired last.
retired-Recent : (ring : List String) (h : String) → h ≢ "" → Recent 1 (retire_hash ring h) h
unfolding retire_hash
retired-Recent ring h ne =
    let (old, young, e, p) = newest-Recent 1 (without h ring) [] h (omega arith) (omega arith) in
    let result : retire_hash ring h ≡ newest retired_ring (without h ring ++ h ∷ []) =
      ground (arith, eq_iff h "") in
    (old, young, result ∙ e, p)

-- A retired hash that is not empty stays in the ring through the next seven retirements, whatever
-- they retire.
pub contains_str-retire_all :
    (ring later : List String) (h : String)
    → h ≢ ""
    → length later ≤ 7
    → contains_str (retire_all (retire_hash ring h) later) h ≡ true
unfolding contains_str
contains_str-retire_all ring later h ne few =
    let (old, young, e, p) =
      retire_all-Recent 1 (retire_hash ring h) later h (omega arith) (retired-Recent ring h ne) in
    ap (λ l. contains_str l h) e
    ∙ contains_str-append old (h ∷ young) h
    ∙ ground (arith, eq_iff h h)
