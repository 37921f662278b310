-- ===== src/Server/Ring.antt =====
-- The anti-rollback ring of retired access-token hashes (server.go: retireHash, containsStr).
pub mod Laws
pub mod Recent
use ccbroker.Base.{
  ℕ, ◌-◌, String, ◌==◌, Bool, false, not, ◌||◌, List, [], ◌∷◌, ◌++◌, length, drop, keep, ltb,
  if◌then◌else◌,
}

-- retiredRing
abbrev pub retired_ring : ℕ
retired_ring = 8

abbrev without : String → List String → List String
without h ring = keep (λ x. not (x == h)) ring

-- The last `n` entries.
abbrev newest : ℕ → List String → List String
newest n out = if ltb n (length out) then drop (length out - n) out else out

unfoldable pub retire_hash : List String → String → List String
retire_hash ring h = if h == "" then ring else newest retired_ring (without h ring ++ h ∷ [])

-- containsStr
unfoldable pub contains_str : List String → String → Bool
contains_str [] want = false
contains_str (s ∷ ss) want = s == want || contains_str ss want
