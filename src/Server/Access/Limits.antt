-- ===== src/Server/Access/Limits.antt =====
-- The fixed window of the offers (rateLimitOffer).
use ccbroker.Base.{
  leb, ltb, length, ℕ, suc, ◌+◌, ◌≤◌, ◌<◌, ◌≡◌, Option, none, some, List, [], ◌∷◌, arith,
  if◌then◌else◌,
}
use ccbroker.Server.State.{RateEntry}
use ccbroker.Server.Access.{count_offer}

-- How many of the offers that a client makes at these times pass, and the entry after them.
abbrev pub passes : ℕ → Option RateEntry → List ℕ → ℕ × Option RateEntry
passes rate e [] = (0, e)
passes rate e (t ∷ ts) =
    let (e', ok) = count_offer rate t e in
    let (n, last) = passes rate (some e') ts in (if ok then suc n else n, last)

-- Every time is in the window that starts at `start`.
abbrev pub InWindow : ℕ → List ℕ → Type 0
InWindow start [] = Unit
InWindow start (t ∷ ts) = (t < start + 60000) × InWindow start ts

abbrev pub smaller : ℕ → ℕ → ℕ
smaller a b = if leb a b then a else b

-- An offer in the window keeps its start, and is counted if it passes.
count_offer-within :
    (rate t : ℕ) (e : RateEntry)
    → t < e.window_start + 60000
    → ((count_offer rate t (some e)).0.window_start ≡ e.window_start)
      × ((count_offer rate t (some e)).0.count
          ≡ (if (count_offer rate t (some e)).1 then suc e.count else e.count))
      × ((count_offer rate t (some e)).1 ≡ ltb e.count rate)
unfolding count_offer
count_offer-within rate t e h = ground arith

InWindow-eq : (a b : ℕ) (ts : List ℕ) → a ≡ b → InWindow b ts → InWindow a ts
InWindow-eq a b ts e w = rw e w

passes-within :
    (rate : ℕ) (ts : List ℕ) (e : RateEntry)
    → e.count ≤ rate
    → InWindow e.window_start ts
    → (passes rate (some e) ts).0 + e.count ≡ smaller (e.count + length ts) rate
passes-within rate [] e h w = ground arith
passes-within rate (t ∷ ts) e h w =
    let (start, counted, passed) = count_offer-within rate t e w.0 in
    let e' = (count_offer rate t (some e)).0 in
    let rest : (passes rate (some e') ts).0 + e'.count ≡ smaller (e'.count + length ts) rate =
      passes-within rate ts e' (ground arith)
        (InWindow-eq e'.window_start e.window_start ts start w.1) in
    ground (arith, rest, counted, passed)

-- Of the offers that a client makes within a minute of its first one, exactly as many pass as the
-- rate allows, all of them or the first `rate`, where the rate is not zero.
pub passes_lem :
    (rate t : ℕ) (ts : List ℕ)
    → 1 ≤ rate
    → InWindow t ts
    → (passes rate none (t ∷ ts)).0 ≡ smaller (suc (length ts)) rate
unfolding count_offer
passes_lem rate t ts h w =
    ground (arith, passes-within rate ts (record { count = 1; window_start = t }) h w)
