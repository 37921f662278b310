-- ===== src/Server/Ring/Laws.antt =====
-- How the ring answers for a list that was put together, and how long it gets.
use ccbroker.Base.{
  ◌-◌, ◌≤◌, String, ◌≡◌, refl, ◌||◌, List, [], ◌∷◌, ◌++◌, length, arith, length-drop,
}
use ccbroker.Server.Ring.{retired_ring, retire_hash, contains_str, without}

pub contains_str-append :
    (xs ys : List String) (w : String)
    → contains_str (xs ++ ys) w ≡ (contains_str xs w || contains_str ys w)
unfolding contains_str
contains_str-append [] ys w = refl
contains_str-append (x ∷ xs) ys w = ground (arith, contains_str-append xs ys w)

-- Retiring keeps the ring within its size.
pub length-retire_hash :
    (ring : List String) (h : String)
    → length ring ≤ retired_ring
    → length (retire_hash ring h) ≤ retired_ring
unfolding retire_hash
length-retire_hash ring h p =
    let out : List String = without h ring ++ h ∷ [] in
    ground (arith, length-drop (length out - retired_ring) out)
