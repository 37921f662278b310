-- ===== src/Ccb/Rotate.antt =====
-- Which account is the active one (cmd/ccb/main.go: usageMetric, autoSelect, resolveCred, readActive,
-- writeActive). A score is an exact decimal, as in internal/anthropic/usage.go.
pub mod Order
pub mod Best
pub mod Selecting
use Prim.Native.String.{◌++◌}
use ccbroker.Base.{
  ℕ, String, ◌==◌, Bool, false, not, ◌&&◌, ◌||◌, Option, none, some, List, [], ◌∷◌, pos, ltb_ℤ,
  trim_space, if◌then◌else◌, pure, ◌>>=◌, when◌then◌else◌,
}
use ccbroker.Json.{Decimal}
use ccbroker.Anthropic.{Usage}
use ccbroker.Anthropic.{less, nothing, max_utilization, max_utilization_all}
use ccbroker.Config.AgentFile.{Agent}
use ccbroker.Ccb.Rotate.Order.{text_less, same_value}
use ccbroker.Ccb.State.{World, Act, UsageRow, now, read_active_file, write_active_file}

-- usageMetric
unfoldable pub usage_metric : Option Usage → String → Decimal
usage_metric none policy = nothing
usage_metric (some u) policy = if policy == "all" then max_utilization_all u else max_utilization u

unfoldable pub eligible : ℕ → UsageRow → Bool
eligible t r = not r.dead && ltb_ℤ (pos t) r.expires_at

abbrev pub score : String → UsageRow → Decimal
score policy r = usage_metric r.usage policy

-- The active account is alive and below the threshold.
unfoldable pub is_fine : ℕ → String → Decimal → String → UsageRow → Bool
is_fine t policy threshold active r =
    r.name == active && eligible t r && less (score policy r) threshold

abbrev pub any_fine : ℕ → String → Decimal → String → List UsageRow → Bool
any_fine t policy threshold active [] = false
any_fine t policy threshold active (r ∷ rs) =
    is_fine t policy threshold active r || any_fine t policy threshold active rs

-- s < bestScore || (s == bestScore && name < best)
unfoldable pub beats : String × Decimal → String × Decimal → Bool
beats a b = less a.1 b.1 || (same_value a.1 b.1 && text_less a.0 b.0)

-- The better of the best so far, "" at first, and a row.
unfoldable pub better : ℕ → String → String × Decimal → UsageRow → String × Decimal
better t policy best r =
    if eligible t r && (best.0 == "" || beats (r.name, score policy r) best)
    then (r.name, score policy r)
    else best

unfoldable pub best_of : ℕ → String → String × Decimal → List UsageRow → String × Decimal
best_of t policy best [] = best
best_of t policy best (r ∷ rs) = best_of t policy (better t policy best r) rs

-- `nobody` and `unsaved` are the errors.
pub data Selected : Type 0 where
  stay nobody unsaved : Selected
  switched : String → Selected

module _ (w : World) where
  abbrev trimmed : Option String → String
  trimmed none = ""
  trimmed (some text) = trim_space text

  -- readActive
  unfoldable pub read_active : Act String
  read_active = do text ← read_active_file w; pure (trimmed text)

  -- writeActive
  unfoldable pub write_active : String → Act Bool
  write_active name = write_active_file w (name ++ "\n")

  -- resolveCred: `none` where @active is not resolved
  unfoldable pub resolve_cred : String → Act (Option String)
  resolve_cred cred =
      when not (cred == "@active")
      then pure (some cred)
      else (do name ← read_active; when name == "" then pure none else pure (some name))

  -- From the best row on.
  unfoldable pub switch_to : String → String → Act Selected
  switch_to active best =
      when best == ""
      then pure nobody
      else when best == active
      then pure stay
      else (do done ← write_active best; when done then pure (switched best) else pure unsaved)

  -- autoSelect
  unfoldable pub auto_select : Agent → List UsageRow → String → Act Selected
  auto_select cfg rows policy = do
    t ← now w
    active ← read_active
    when any_fine t policy cfg.auto_threshold active rows
        then pure stay
        else switch_to active (best_of t policy ("", nothing) rows).0
