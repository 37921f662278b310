-- ===== src/Ccb/Script/Block.antt =====
-- Putting the marker block into a script, doing it again, and taking it out.
use ccbroker.Base.{
  ℕ, zero, suc, ◌+◌, ◌≡◌, refl, ap, sym, ◌∙◌, ◌⊎◌, inl, inr, true, Option, none, some, List, [],
  ◌∷◌, ◌++◌, length, drop, arith, length-append,
}
use ccbroker.Ccb.Script.{
  marker_begin, marker_end, newline, statusline_block, index, take, block_bounds, block_upsert,
  block_remove, bounds_of, bounds_from, join_removed,
}
use ccbroker.Ccb.Script.Search.{
  take-append, drop-append, append_assoc, append-nil, index-split, index-prefix, index-line,
  trim_newline-append,
}

drop-nil : (n : ℕ) → drop {A = ℕ} n [] ≡ []
drop-nil zero = refl
drop-nil (suc n) = refl

drop-add : (a b : ℕ) (xs : List ℕ) → drop (a + b) xs ≡ drop b (drop a xs)
drop-add zero b xs = ap (λ n. drop n xs) (omega arith)
drop-add (suc a) b [] = drop-nil (suc a + b) ∙ sym (drop-nil b)
drop-add (suc a) b (x ∷ xs) =
    let step : suc a + b ≡ suc (a + b) = omega arith in
    ap (λ n. drop n (x ∷ xs)) step ∙ drop-add a b xs

module _ (pre post : List ℕ) where
  -- A script with the block, and parts before and behind it.
  abbrev around : List ℕ
  around = pre ++ (statusline_block ++ post)

  drop-around : (n : ℕ) → drop (length pre + n) around ≡ drop n (statusline_block ++ post)
  drop-around n = drop-add (length pre) n around ∙ ap (drop n) (drop-append pre _)

  -- The bounds of a block that is found where it stands.
  bounds-around :
      index marker_begin around ≡ some (length pre)
      → block_bounds around ≡ some (length pre, length pre + length statusline_block)
  unfolding block_bounds
  bounds-around h =
      rw (h, drop-append pre (statusline_block ++ post))
        (let e : length pre + 85 + 29 ≡ length pre + 114 = omega arith in
          let last : suc (length pre + 114) ≡ length pre + 115 = omega arith in
          rw (e, drop-around 114) (ap (λ n. some (length pre, n)) last))

  upsert-around : index marker_begin around ≡ some (length pre) → block_upsert around ≡ around
  unfolding block_upsert
  upsert-around h =
      rw
        (
          bounds-around h,
          take-append pre (statusline_block ++ post),
          drop-around (length statusline_block),
        )
        (append_assoc pre statusline_block post)

  remove-around :
      index marker_begin around ≡ some (length pre)
      → block_remove around ≡ (join_removed pre post, true)
  unfolding block_remove
  remove-around h =
      rw
        (
          bounds-around h,
          take-append pre (statusline_block ++ post),
          drop-around (length statusline_block),
        )
        refl

-- A script without the marker that begins a block: the block goes behind a new line.
index-appended :
    (c : List ℕ)
    → index marker_begin c ≡ none
    → index marker_begin (c ++ newline ∷ statusline_block) ≡ some (length c + 1)
index-appended c h = index-line b'#' (drop 1 marker_begin) c statusline_block 0 refl h refl

appended : (c : List ℕ) → c ++ newline ∷ statusline_block ≡ around (c ++ newline ∷ []) []
appended c = sym (append_assoc c (newline ∷ []) (statusline_block ++ []))

located-appended :
    (c : List ℕ)
    → index marker_begin c ≡ none
    → index marker_begin (around (c ++ newline ∷ []) []) ≡ some (length (c ++ newline ∷ []))
located-appended c h = rw⁻¹ (appended c) (rw (length-append c (newline ∷ [])) (index-appended c h))

upsert-appended :
    (c : List ℕ) → index marker_begin c ≡ none → block_upsert c ≡ around (c ++ newline ∷ []) []
unfolding block_upsert block_bounds
upsert-appended c h = rw h (appended c)

-- Taking the block out of a script into which it was put gives the script back, if the marker that
-- begins a block did not occur in it.
pub block_remove-block_upsert :
    (content : List ℕ)
    → index marker_begin content ≡ none
    → block_remove (block_upsert content) ≡ (content, true)
block_remove-block_upsert c h =
    rw (upsert-appended c h, remove-around (c ++ newline ∷ []) [] (located-appended c h))
      (ap (λ l. (l, true)) (append-nil _ ∙ trim_newline-append c))

-- A block that was found is replaced where it is.
upsert-replaced :
    (c : List ℕ) (i e : ℕ)
    → index marker_begin c ≡ some i
    → block_bounds c ≡ some (i, e)
    → block_upsert c ≡ around (take i c) (drop e c)
unfolding block_upsert
upsert-replaced c i e h b = rw b (append_assoc (take i c) statusline_block (drop e c))

located-replaced :
    (c : List ℕ) (i : ℕ) (post : List ℕ)
    → index marker_begin c ≡ some i
    → index marker_begin (around (take i c) post) ≡ some (length (take i c))
located-replaced c i post h =
    let (len, split) = index-split marker_begin c i h in
    let behind : List ℕ = drop (length marker_begin) (drop i c) in
    sym
      (index-prefix (drop 1 marker_begin) b'#' (take i c) behind (drop 29 statusline_block ++ post))
    ∙ sym (ap (index marker_begin) split)
    ∙ h
    ∙ ap some (sym len)

bounds_from-start :
    (c : List ℕ) (n i e : ℕ) (o : Option ℕ) → bounds_from c n o ≡ some (i, e) → n ≡ i
bounds_from-start c n i e none h = ground arith
bounds_from-start c n i e (some m) h = ground arith

bounds_of-start : (c : List ℕ) (i e : ℕ) (o : Option ℕ) → bounds_of c o ≡ some (i, e) → o ≡ some i
bounds_of-start c i e none h = ground arith
bounds_of-start c i e (some n) h =
    ap some (bounds_from-start c n i e (index marker_end (drop n c)) h)

bounds-start : (c : List ℕ) (i e : ℕ) → block_bounds c ≡ some (i, e) → index marker_begin c ≡ some i
unfolding block_bounds
bounds-start c i e h = bounds_of-start c i e (index marker_begin c) h

-- Putting the block into a script again changes nothing, if at first the script had a whole block,
-- or did not have the marker that begins one.
pub block_upsert_again :
    (content : List ℕ)
    → (index marker_begin content ≡ none) ⊎ ((b : ℕ × ℕ) × (block_bounds content ≡ some b))
    → block_upsert (block_upsert content) ≡ block_upsert content
block_upsert_again c (inl h) =
    rw (upsert-appended c h) (upsert-around (c ++ newline ∷ []) [] (located-appended c h))
block_upsert_again c (inr ((i, e), b)) =
    let h : index marker_begin c ≡ some i = bounds-start c i e b in
    rw (upsert-replaced c i e h b)
      (upsert-around (take i c) (drop e c) (located-replaced c i (drop e c) h))
