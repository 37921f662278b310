-- ===== src/Ccb/Statusline/Lines.antt =====
-- The texts of the status line and of the table of `ccb status` (cmd/ccb/main.go: renderStatus,
-- printStatusline, renderStatuslineAll, pct, bar, modelLabel). What the packages fmt, sort, strings
-- and unicode answer is a parameter. The padding of the columns of a table is left out.
use Prim.Native.Char.{Char}
use Prim.Native.String.{String, ◌++◌}
use ccbroker.Base.{
  ℕ, zero, suc, ◌+◌, ◌-◌, ◌==◌, Bool, true, false, not, ◌||◌, Option, none, some, List, [], ◌∷◌, ℤ,
  pos, ltb, ltb_ℤ, Dict, map, if◌then◌else◌, when◌then◌else◌, Dict,
}
use ccbroker.Json.{Decimal}
use ccbroker.Anthropic.{Bucket, Usage, less}
use ccbroker.Config.AgentFile.{Agent, effective_policy}
use ccbroker.Ccb.State.{UsageRow}
use ccbroker.Ccb.Rotate.{usage_metric}
use ccbroker.Ccb.Statusline.{
  Color, high, mid, low, Remain, days, hours, minutes, Segment, statusline_segments,
  statusline_order, bar_length,
}

pub record Output : Type 0 where
  -- fmt.Sprintf: "%d", and of a hundredfold "%.0f%%" and "%3.0f%%"
  pub number : ℤ → String
  pub percent : Decimal → String
  pub percent3 : Decimal → String
  -- unicode.ToUpper, strings.ToLower
  pub to_upper : Char → Char
  pub to_lower : String → String
  -- sort.Slice of rows, sort.Strings, and sort.Strings of the models of weekly buckets
  pub sort_rows : (UsageRow → UsageRow → Bool) → List UsageRow → List UsageRow
  pub sort_texts : List String → List String
  pub sort_models : Dict Bucket → Dict Bucket

-- strings.Repeat, strings.Join
unfoldable pub repeat : String → ℕ → String
repeat s zero = ""
repeat s (suc n) = s ++ repeat s n

unfoldable pub join : String → List String → String
join sep [] = ""
join sep (x ∷ []) = x
join sep (x ∷ y ∷ rest) = x ++ sep ++ join sep (y ∷ rest)

abbrev pub sl_rst : String
sl_rst = "\u{1b}[0m"

abbrev pub sl_sep : String
sl_sep = "\u{1b}[38;5;240m │ \u{1b}[0m"

abbrev pub sl_act : String
sl_act = "\u{1b}[1;38;5;117m"

abbrev pub sl_dim : String
sl_dim = "\u{1b}[38;5;245m"

abbrev pub sl_high : String
sl_high = "\u{1b}[38;5;210m"

abbrev pub sl_rem : String
sl_rem = "\u{1b}[38;5;244m"

abbrev color_code : Color → String
color_code high = sl_high
color_code mid = "\u{1b}[38;5;221m"
color_code low = "\u{1b}[38;5;114m"

-- bar
unfoldable pub bar : Option Bucket → String
bar none = repeat "·" 10
bar (some b) = let n = bar_length b.utilization in repeat "▓" n ++ repeat "░" (10 - n)

-- 90 * 60 * 1000 ms
abbrev is_stale : ℕ → ℕ → Bool
is_stale t fetched_at = ltb (fetched_at + 5400000) t

abbrev when_text : Bool → String → String
when_text true s = s
when_text false s = ""

module _ (out : Output) where
  -- pct
  unfoldable pub pct : Option Bucket → String
  pct none = " n/a"
  pct (some b) = out.percent3 b.utilization

  -- modelLabel
  unfoldable pub model_label : String → String
  model_label String.[] = ":"
  model_label (String.◌∷◌ c s) = String.◌∷◌ (out.to_upper c) ":"

  -- the switch of renderStatus
  unfoldable pub state_text : UsageRow → ℕ → String
  state_text r t =
      if r.dead || r.health == "dead"
      then "DEAD (re-auth needed)"
      else if r.health == "suspect"
      then "SUSPECT (revoked? recovering)"
      else if not (ltb_ℤ (pos t) r.expires_at)
      then "token expired"
      else if not (r.usage_error == "")
      then "usage-err"
      else "ok"

  abbrev scoped_text : String × Bucket → String
  scoped_text (model, b) = out.to_lower model ++ ":" ++ out.percent b.utilization

  abbrev scoped_texts : Option Usage → List String
  scoped_texts none = []
  scoped_texts (some u) = out.sort_texts (map scoped_text u.scoped_weekly)

  abbrev in_brackets : List String → String
  in_brackets [] = ""
  in_brackets (x ∷ rest) = "  [7d " ++ join " " (x ∷ rest) ++ "]"

  abbrev five_of : Option Usage → Option Bucket
  five_of none = none
  five_of (some u) = u.five_hour

  abbrev seven_of : Option Usage → Option Bucket
  seven_of none = none
  seven_of (some u) = u.seven_day

  -- The columns of one row of the table.
  unfoldable pub table_row : String → ℕ → UsageRow → List String
  table_row active t r =
      (if r.name == active then "*" else " ")
      ∷ r.name
      ∷ r.account
      ∷ bar (five_of r.usage)
      ∷ pct (five_of r.usage)
      ∷ bar (seven_of r.usage)
      ∷ pct (seven_of r.usage)
      ∷ (state_text r t ++ in_brackets (scoped_texts r.usage))
      ∷ []

  abbrev window_text : String → Option Bucket → String
  window_text label none = ""
  window_text label (some b) = label ++ out.percent b.utilization

  abbrev displayed : String → String
  displayed policy = if policy == "manual" then "account" else policy

  -- The quota of the active account, behind a warning from the threshold on.
  unfoldable pub usage_text : Agent → String → Option Usage → String
  usage_text cfg line none = line
  usage_text cfg line (some u) =
      when_text
        (not (less (usage_metric (some u) (displayed (effective_policy cfg))) cfg.auto_threshold))
        "⚠ "
      ++ line
      ++ window_text " 5h:" u.five_hour
      ++ window_text " 7d:" u.seven_day

  -- The line of the active account's row.
  unfoldable pub active_text : Agent → ℕ → ℕ → UsageRow → String
  active_text cfg fetched_at t r =
      let line = usage_text cfg r.name r.usage in
      (if r.dead then "✗ " ++ line ++ " (dead)" else line)
      ++ when_text (is_stale t fetched_at) " ~stale"

  abbrev remain_text : Option Remain → String
  remain_text none = ""
  remain_text (some (days d h)) =
      sl_rem ++ "↻" ++ out.number (pos d) ++ "d" ++ out.number (pos h) ++ "h" ++ sl_rst
  remain_text (some (hours h m)) =
      sl_rem ++ "↻" ++ out.number (pos h) ++ "h" ++ out.number (pos m) ++ "m" ++ sl_rst
  remain_text (some (minutes m)) = sl_rem ++ "↻" ++ out.number (pos m) ++ "m" ++ sl_rst

  unfoldable pub segment_text : Segment → String
  segment_text seg =
      sl_dim
      ++ seg.label
      ++ color_code seg.color
      ++ out.number seg.percent
      ++ "%"
      ++ sl_rst
      ++ remain_text seg.remain

  abbrev segments_text : List Segment → String
  segments_text [] = ""
  segments_text (seg ∷ rest) = " " ++ segment_text seg ++ segments_text rest

  -- The part of one account of the line of all accounts.
  unfoldable pub part_text : String → ℕ → UsageRow → String
  part_text active t r =
      when_text r.dead (sl_high ++ "✗ " ++ sl_rst)
      ++ (if r.name == active
          then sl_act ++ "⛁ " ++ r.name ++ sl_rst
          else sl_dim ++ r.name ++ sl_rst)
      ++ segments_text (statusline_segments model_label out.sort_models r.usage (pos t))

  unfoldable pub parts : String → List UsageRow → ℕ → List String
  parts active rows t = map (part_text active t) (statusline_order out.sort_rows rows active)

  -- renderStatuslineAll
  unfoldable pub render_statusline_all : String → ℕ × List UsageRow → ℕ → String
  render_statusline_all active (fetched_at, rows) t =
      join sl_sep (parts active rows t)
      ++ when_text (is_stale t fetched_at) (sl_dim ++ " ~stale" ++ sl_rst)

abbrev pub row_named : String → List UsageRow → Option UsageRow
row_named name [] = none
row_named name (r ∷ rs) = let rest = row_named name rs in if r.name == name then some r else rest
