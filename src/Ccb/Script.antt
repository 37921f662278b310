-- ===== src/Ccb/Script.antt =====
-- The marker block in a statusline script (cmd/ccb/main.go: statuslineBlock, blockBounds, blockUpsert,
-- blockRemove). A script is the list of its bytes.
pub mod Search
pub mod Block
use ccbroker.Base.{
  ℕ, zero, suc, ◌+◌, ◌-◌, ltb, eqb, Bool, true, false, ◌&&◌, Option, none, some, List, [], ◌∷◌,
  ◌++◌, codes, length, drop, begins_with, if◌then◌else◌,
}

abbrev pub marker_begin : List ℕ
marker_begin = codes "# >>> ccbroker statusline >>>"

abbrev pub marker_body : List ℕ
marker_body = codes "command -v ccb >/dev/null 2>&1 && ccb statusline --all"

abbrev pub marker_end : List ℕ
marker_end = codes "# <<< ccbroker statusline <<<"

abbrev pub newline : ℕ
newline = 10

-- statuslineBlock
abbrev pub statusline_block : List ℕ
statusline_block = marker_begin ++ newline ∷ marker_body ++ newline ∷ marker_end ++ newline ∷ []

abbrev shift : Option ℕ → Option ℕ
shift none = none
shift (some n) = some (suc n)

-- strings.Index of a text that is not empty
abbrev pub index : List ℕ → List ℕ → Option ℕ
index m [] = none
index m (c ∷ cs) = if begins_with (c ∷ cs) m then some 0 else shift (index m cs)

-- s[:n]
abbrev pub take : ℕ → List ℕ → List ℕ
take zero cs = []
take (suc n) [] = []
take (suc n) (c ∷ cs) = c ∷ take n cs

-- whether there is a newline at the front
abbrev newline_first : List ℕ → Bool
newline_first [] = false
newline_first (c ∷ cs) = eqb c newline

abbrev end_of : List ℕ → ℕ → ℕ
end_of content e = if newline_first (drop e content) then suc e else e

abbrev bounds_from : List ℕ → ℕ → Option ℕ → Option (ℕ × ℕ)
bounds_from content b none = none
bounds_from content b (some m) = some (b, end_of content (b + m + length marker_end))

abbrev bounds_of : List ℕ → Option ℕ → Option (ℕ × ℕ)
bounds_of content none = none
bounds_of content (some b) = bounds_from content b (index marker_end (drop b content))

-- blockBounds
unfoldable pub block_bounds : List ℕ → Option (ℕ × ℕ)
block_bounds content = bounds_of content (index marker_begin content)

abbrev upsert_at : List ℕ → Option (ℕ × ℕ) → List ℕ
upsert_at content none = content ++ newline ∷ statusline_block
upsert_at content (some (s, e)) = take s content ++ statusline_block ++ drop e content

-- blockUpsert
unfoldable pub block_upsert : List ℕ → List ℕ
block_upsert content = upsert_at content (block_bounds content)

-- strings.TrimSuffix(s, "\n")
abbrev pub trim_newline : List ℕ → List ℕ
trim_newline [] = []
trim_newline (c ∷ []) = if eqb c newline then [] else c ∷ []
trim_newline (c ∷ d ∷ cs) = c ∷ trim_newline (d ∷ cs)

abbrev join_removed : List ℕ → List ℕ → List ℕ
join_removed pre [] = trim_newline pre ++ []
join_removed pre (c ∷ cs) = pre ++ c ∷ cs

abbrev remove_at : List ℕ → Option (ℕ × ℕ) → List ℕ × Bool
remove_at content none = (content, false)
remove_at content (some (s, e)) = (join_removed (take s content) (drop e content), true)

-- blockRemove
unfoldable pub block_remove : List ℕ → List ℕ × Bool
block_remove content = remove_at content (block_bounds content)
